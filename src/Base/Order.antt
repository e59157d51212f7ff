-- ===== src/Base/Order.antt =====
-- Python's order on `str`, `sorted`, and splitting at a character.
use Prim.Native.Nat.{ℕ}
use mathlib.Core.Path.{◌≡◌, refl}
use mathlib.Core.Bool.{Bool, true, false, ◌||◌}
use mathlib.Core.List.{List, [], ◌∷◌, ◌++◌, reverse}
use native.Mathlib.Omega.{arith}
use telemetry_platform.Base.Tests.{nat_beq, ltb, if◌then◌else◌}
use telemetry_platform.Base.Text.{Str, ◌==◌, eq_iff, member, starts_with}
use telemetry_platform.Base.Dict.{Distinct}

-- s <= t
unfoldable pub text_le : Str → Str → Bool
text_le [] t = true
text_le (x ∷ s) [] = false
text_le (x ∷ s) (y ∷ t) =
    let rest = text_le s t in if ltb x y then true else if nat_beq x y then rest else false

unfoldable pub insert_text : Str → List Str → List Str
unfolding text_le
insert_text s [] = s ∷ []
insert_text s (t ∷ ts) = let rest = insert_text s ts in if text_le s t then s ∷ t ∷ ts else t ∷ rest

-- sorted(ts)
unfoldable pub sorted : List Str → List Str
unfolding insert_text
sorted [] = []
sorted (t ∷ ts) = insert_text t (sorted ts)

member-insert_text :
    (s t : Str) (ts : List Str) → member s (insert_text t ts) ≡ (s == t || member s ts)
unfolding insert_text member
member-insert_text s t [] = refl
member-insert_text s t (u ∷ ts) = ground (arith, member-insert_text s t ts)

pub member-sorted : (s : Str) (ts : List Str) → member s (sorted ts) ≡ member s ts
unfolding sorted member
member-sorted s [] = refl
member-sorted s (t ∷ ts) = ground (arith, member-insert_text s t (sorted ts), member-sorted s ts)

insert_text-Distinct :
    (s : Str) (ts : List Str) → member s ts ≡ false → Distinct ts → Distinct (insert_text s ts)
unfolding insert_text member
insert_text-Distinct s [] h d = (refl, tt)
insert_text-Distinct s (t ∷ ts) h d =
    ground (arith, eq_iff s t, eq_iff t s, insert_text-Distinct s ts, member-insert_text t s ts)

pub sorted-Distinct : (ts : List Str) → Distinct ts → Distinct (sorted ts)
unfolding sorted
sorted-Distinct [] d = tt
sorted-Distinct (t ∷ ts) (fresh, d) =
    ground (arith, member-sorted t ts, sorted-Distinct ts d, insert_text-Distinct t (sorted ts))

-- s.endswith(e)
unfoldable pub ends_with : Str → Str → Bool
unfolding starts_with
ends_with s e = starts_with (reverse s) (reverse e)

-- The part before the first `c`.
unfoldable pub before : ℕ → Str → Str
before c [] = []
before c (x ∷ s) = let rest = before c s in if nat_beq x c then [] else x ∷ rest

-- s.lstrip(c)
unfoldable pub lstrip_char : ℕ → Str → Str
lstrip_char c [] = []
lstrip_char c (x ∷ s) = let rest = lstrip_char c s in if nat_beq x c then rest else x ∷ s

-- s.rstrip(c)
unfoldable pub rstrip_char : ℕ → Str → Str
unfolding lstrip_char
rstrip_char c s = reverse (lstrip_char c (reverse s))

abbrev add_to_head : ℕ → List Str → List Str
add_to_head x [] = (x ∷ []) ∷ []
add_to_head x (s ∷ ss) = (x ∷ s) ∷ ss

-- s.split(c)
unfoldable pub split_char : ℕ → Str → List Str
split_char c [] = [] ∷ []
split_char c (x ∷ s) =
    let rest = split_char c s in if nat_beq x c then [] ∷ rest else add_to_head x rest

-- part in s
unfoldable pub contains : Str → Str → Bool
contains part [] = starts_with [] part
contains part (c ∷ s) =
    let later = contains part s in if starts_with (c ∷ s) part then true else later

-- The text has no such character.
abbrev pub without : ℕ → Str → Bool
without c [] = true
without c (x ∷ s) = if nat_beq x c then false else without c s

pub split_char-without : (c : ℕ) (s : Str) → without c s ≡ true → split_char c s ≡ s ∷ []
unfolding split_char
split_char-without c [] h = refl
split_char-without c (x ∷ s) h = ground (arith, split_char-without c s)

pub split_char-append :
    (c : ℕ) (s t : Str) → without c s ≡ true → split_char c (s ++ c ∷ t) ≡ s ∷ split_char c t
unfolding split_char
split_char-append c [] t h = ground arith
split_char-append c (x ∷ s) t h = ground (arith, split_char-append c s t)
