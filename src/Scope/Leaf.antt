-- ===== src/Scope/Leaf.antt =====
-- What `_find_module_path` makes of a file directly under a module root.
use telemetry_platform.Base.{
  ℕ, true, false, some, [], ◌∷◌, ◌++◌, nat_beq, Str, codes, length, drop, ◌≡◌, refl, arith,
}
use telemetry_platform.Base.Order.{without, before, rstrip_char}
use telemetry_platform.Scope.{find_module_path}

drop-length-append : (xs ys : Str) → drop (xs ++ ys) (length xs) ≡ ys
unfolding drop
drop-length-append [] ys = refl
drop-length-append (x ∷ xs) ys = drop-length-append xs ys

before-without : (c : ℕ) (s : Str) → without c s ≡ true → before c s ≡ s
unfolding before
before-without c [] h = refl
before-without c (x ∷ s) h = ground (arith, before-without c s)

-- A file that lies directly under the module root is taken for a module of its own: the path of that
-- module is the root, with one slash, and the file's name.
pub find_module_path-direct :
    (root : Str) (c : ℕ) (name : Str)
    → nat_beq c b'/' ≡ false
    → without b'/' name ≡ true
    → find_module_path (root ++ c ∷ name) root
      ≡ some (rstrip_char b'/' root ++ codes "/" ++ c ∷ name)
unfolding find_module_path before
find_module_path-direct root c name first rest =
    rw (drop-length-append root (c ∷ name), first, before-without b'/' name rest) refl
