-- ===== src/Base/Lines.antt =====
-- The lines of a text.
use telemetry_platform.Base.{
  ℕ, Bool, false, ◌&&◌, ◌||◌, List, [], ◌∷◌, ◌++◌, if◌then◌else◌, nat_beq, leb, Str, ◌≡◌, refl, All,
}

-- \n, \v, \f, \r, \x1c, \x1d, \x1e, \x85, \u2028, \u2029
unfoldable pub is_break : ℕ → Bool
is_break c =
    (leb 10 c && leb c 13) || (leb 28 c && leb c 30) || nat_beq c 133 || (leb 8232 c && leb c 8233)

-- The character stands before the first line of the rest.
abbrev pub join_first : ℕ → List Str → List Str
join_first c [] = (c ∷ []) ∷ []
join_first c (l ∷ ls) = (c ∷ l) ∷ ls

-- s.splitlines(), where a \r has stood before the text or not: a \n after it ends no line of its own.
unfoldable pub lines_after : Bool → Str → List Str
unfolding is_break
lines_after cr [] = []
lines_after cr (c ∷ s) =
    let same = lines_after false s in
    let next = lines_after (nat_beq c 13) s in
    if cr && nat_beq c 10 then same else if is_break c then [] ∷ next else join_first c same

unfoldable pub splitlines : Str → List Str
unfolding lines_after
splitlines s = lines_after false s

-- A text of one line, with its line break.
pub splitlines-one :
    (c : ℕ) (s : Str)
    → All (λ d. is_break d ≡ false) (c ∷ s)
    → splitlines (c ∷ (s ++ 10 ∷ [])) ≡ (c ∷ s) ∷ []
unfolding splitlines
splitlines-one c [] (h, hs) = rw h refl
splitlines-one c (d ∷ s) (h, hs) = rw (h, splitlines-one d s hs) refl
