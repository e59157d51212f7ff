-- ===== src/Base/Int.antt =====
-- Integers over the native numbers, Python's `int()` on text, and the decimal digits of a number.
use Prim.Native.Nat.{ℕ, zero, suc, ◌+◌, ◌-◌, ◌*◌}
use mathlib.Core.Bool.{Bool, ◌&&◌, ◌||◌}
use mathlib.Core.Option
use mathlib.Core.Option.{Option, none, some}
use mathlib.Core.List.{[], ◌∷◌, reverse}
use native.Mathlib.Omega.{arith}
use mathlib.Core.Path.{◌≡◌}
use telemetry_platform.Base.Tests.{nat_beq, leb, ltb, if◌then◌else◌}
use telemetry_platform.Base.Text.{Str}

-- `negsuc n` is -(n + 1).
pub data ℤ : Type 0 where
  pos : ℕ → ℤ
  negsuc : ℕ → ℤ

unfoldable pub negate : ℕ → ℤ
negate zero = pos zero
negate (suc n) = negsuc n

unfoldable pub is_digit : ℕ → Bool
is_digit c = leb 48 c && leb c 57

-- The ASCII characters that `str.strip` and `int` take off.
unfoldable pub is_space : ℕ → Bool
is_space c = (leb 9 c && leb c 13) || (leb 28 c && leb c 32)

-- The digits of an `int` literal; one `_` may stand between two digits.
unfoldable pub digits_from : ℕ → Str → Option ℕ
unfolding is_digit
digits_from acc [] = some acc
digits_from acc (c ∷ []) = if is_digit c then some (acc * 10 + (c - 48)) else none
digits_from acc (c ∷ d ∷ s) =
    let plain = digits_from (acc * 10 + (c - 48)) (d ∷ s) in
    let skip = digits_from (acc * 10 + (c - 48)) s in
    if is_digit c
    then (if nat_beq d b'_' then (elim s [ [] ↦ none | _ ↦ skip ]) else plain)
    else none

abbrev pub nonempty_digits : Str → Option ℕ
nonempty_digits [] = none
nonempty_digits (c ∷ s) = digits_from 0 (c ∷ s)

unfoldable pub skip_spaces : Str → Str
unfolding is_space
skip_spaces [] = []
skip_spaces (c ∷ s) = let rest = skip_spaces s in if is_space c then rest else c ∷ s

-- s.strip()
unfoldable pub strip : Str → Str
unfolding skip_spaces
strip s = reverse (skip_spaces (reverse (skip_spaces s)))

abbrev pub signed : Str → Option ℤ
signed [] = none
signed (c ∷ s) =
    if nat_beq c b'-'
    then Option.map negate (nonempty_digits s)
    else if nat_beq c b'+'
    then Option.map pos (nonempty_digits s)
    else Option.map pos (digits_from 0 (c ∷ s))

-- int(s), over ASCII text
unfoldable pub py_int : Str → Option ℤ
unfolding digits_from strip negate
py_int s = signed (strip s)

abbrev pub pos_part : ℤ → ℕ
pos_part (pos n) = n
pos_part (negsuc n) = 0

abbrev pub neg_part : ℤ → ℕ
neg_part (pos n) = 0
neg_part (negsuc n) = suc n

-- v < w and v == w
abbrev pub ltz : ℤ → ℤ → Bool
ltz v w = ltb (pos_part v + neg_part w) (pos_part w + neg_part v)

abbrev pub eqz : ℤ → ℤ → Bool
eqz v w = nat_beq (pos_part v + neg_part w) (pos_part w + neg_part v)

-- v + 1
unfoldable pub add_one : ℤ → ℤ
add_one (pos n) = pos (suc n)
add_one (negsuc zero) = pos zero
add_one (negsuc (suc n)) = negsuc n

pub add_one-parts :
    (v : ℤ) → pos_part (add_one v) + neg_part v ≡ pos_part v + neg_part (add_one v) + 1
unfolding add_one
add_one-parts (pos n) = omega arith
add_one-parts (negsuc zero) = omega arith
add_one-parts (negsuc (suc n)) = omega arith
