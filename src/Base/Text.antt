-- ===== src/Base/Text.antt =====
-- Python's `str` as the list of its code points, lone surrogates included, and its methods.
use Prim.Native.Nat.{ℕ, ◌+◌, ◌/◌, ◌%◌}
use Prim.Native.Char.{code}
use Prim.Native.String.{String}
use mathlib.Core.Path.{◌≡◌, refl}
use mathlib.Core.Logic.{◌↔◌}
use mathlib.Core.Bool.{Bool, true, false, ◌&&◌, ◌||◌}
use mathlib.Core.Option.{Option, none, some}
use mathlib.Core.List.{List, [], ◌∷◌, ◌++◌, map}
use native.Mathlib.Omega.{arith}
use telemetry_platform.Base.Tests.{nat_beq, leb, ltb, if◌then◌else◌}

abbrev pub Str : Type 0
Str = List ℕ

-- The code points of a literal.
abbrev pub codes : String → Str
codes String.[] = []
codes (String.◌∷◌ c s) = code c ∷ codes s

infix 50 ◌==◌
unfoldable pub ◌==◌ : Str → Str → Bool
[] == [] = true
[] == (y ∷ ys) = false
(x ∷ xs) == [] = false
(x ∷ xs) == (y ∷ ys) = nat_beq x y && xs == ys

eq_sound : (s t : Str) → (s == t) ≡ true → s ≡ t
unfolding ◌==◌
eq_sound [] [] h = refl
eq_sound [] (y ∷ ys) h = cc
eq_sound (x ∷ xs) [] h = cc
eq_sound (x ∷ xs) (y ∷ ys) h = ground (arith, eq_sound xs ys)

pub eq_refl : (s : Str) → (s == s) ≡ true
unfolding ◌==◌
eq_refl [] = refl
eq_refl (x ∷ xs) = ground (arith, eq_refl xs)

pub eq_iff : (s t : Str) → ((s == t) ≡ true) ↔ (s ≡ t)
eq_iff s t = (eq_sound s t, λ e. subst_eq s t e)
  where
    subst_eq : (s t : Str) → s ≡ t → (s == t) ≡ true
    subst_eq s t e = rw (← e) (eq_refl s)

-- t in xs
unfoldable pub member : Str → List Str → Bool
member t [] = false
member t (x ∷ xs) = t == x || member t xs

-- s.startswith(p)
unfoldable pub starts_with : Str → Str → Bool
starts_with s [] = true
starts_with [] (p ∷ ps) = false
starts_with (c ∷ s) (p ∷ ps) = nat_beq c p && starts_with s ps

-- s.replace(a, b) for one character each
unfoldable pub replace_char : ℕ → ℕ → Str → Str
replace_char a b = map (λ c. if nat_beq c a then b else c)

-- The UTF-8 bytes of one code point; a lone surrogate has none.
unfoldable pub utf8 : ℕ → Option (List ℕ)
utf8 c =
    if ltb c 128
    then some (c ∷ [])
    else if ltb c 2048
    then some ((192 + c / 64) ∷ (128 + c % 64) ∷ [])
    else if leb 55296 c && leb c 57343
    then none
    else if ltb c 65536
    then some ((224 + c / 4096) ∷ (128 + c / 64 % 64) ∷ (128 + c % 64) ∷ [])
    else some
        ((240 + c / 262144) ∷ (128 + c / 4096 % 64) ∷ (128 + c / 64 % 64) ∷ (128 + c % 64) ∷ [])

abbrev join_bytes : Option (List ℕ) → Option (List ℕ) → Option (List ℕ)
join_bytes none r = none
join_bytes (some b) none = none
join_bytes (some b) (some r) = some (b ++ r)

-- s.encode("utf-8"), which raises on a lone surrogate
unfoldable pub encode : Str → Option (List ℕ)
unfolding utf8
encode [] = some []
encode (c ∷ s) = join_bytes (utf8 c) (encode s)
