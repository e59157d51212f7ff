-- ===== src/Base/Decimal.antt =====
-- Python's `str` of an integer, and its round trip through `int`.
use Prim.Native.Nat.{ℕ, zero, suc, ◌+◌, ◌-◌, ◌*◌, ◌/◌, ◌%◌, ◌<◌}
use mathlib.Core.Path.{◌≡◌, refl, ap, sym, ◌∙◌}
use mathlib.Core.Logic.{inl, inr}
use mathlib.Core.Bool.{true, false, ◌&&◌}
use mathlib.Core.Option
use mathlib.Core.Option.{Option, none, some}
use mathlib.Core.List.{[], ◌∷◌, ◌++◌, reverse, reverse-append, reverse-reverse}
use native.Mathlib.Omega.{arith}
use telemetry_platform.Base.Tests.{nat_beq, leb, ltb, if◌then◌else◌, Bool-cases}
use telemetry_platform.Base.Lists.{All, All-append}
use telemetry_platform.Base.Text.{Str}
use telemetry_platform.Base.Order.{without}
use telemetry_platform.Base.Int.{
  ℤ, pos, negsuc, negate, is_digit, is_space, digits_from, nonempty_digits, skip_spaces, strip,
  signed, py_int,
}

-- The decimal digits of `n` in front of `s`.
unfoldable digits_onto : ℕ → ℕ → Str → Str
digits_onto zero n s = s
digits_onto (suc f) n s =
    let rest = digits_onto f (n / 10) ((48 + n % 10) ∷ s) in if ltb n 10 then (48 + n) ∷ s else rest

unfoldable pub show_nat : ℕ → Str
unfolding digits_onto
show_nat n = digits_onto (suc n) n []

-- str(v) of an integer
unfoldable pub show_int : ℤ → Str
unfolding show_nat
show_int (pos n) = show_nat n
show_int (negsuc n) = b'-' ∷ show_nat (suc n)

abbrev pub Digits : Str → Type 0
Digits = All (λ c. is_digit c ≡ true)

digit_lem : (n : ℕ) → n < 10 → is_digit (48 + n) ≡ true
unfolding is_digit
digit_lem n h = ground arith

digits_onto-Digits : (f n : ℕ) (s : Str) → Digits s → Digits (digits_onto f n s)
unfolding digits_onto
digits_onto-Digits zero n s h = h
digits_onto-Digits (suc f) n s h = elim (Bool-cases (ltb n 10)) [
  | inl small ↦ rw small (digit_lem n (ground arith), h)
  | inr big ↦ rw big (digits_onto-Digits f (n / 10) _ (digit_lem (n % 10) (omega arith), h))
]

-- One more digit in front.
digits_from-cons :
    (a d : ℕ) (s : Str)
    → d < 10
    → Digits s
    → digits_from a ((48 + d) ∷ s) ≡ digits_from (a * 10 + d) s
unfolding digits_from is_digit
digits_from-cons a d [] h ds = ground arith
digits_from-cons a d (c ∷ s) h (hc, ds) =
    let e : 48 + d - 48 ≡ d = omega arith in
    let plain : nat_beq c b'_' ≡ false = ground arith in
    let good : (leb 48 (48 + d) && leb (48 + d) 57) ≡ true = ground arith in
    rw (good, plain, e) refl

digits_from-digits_onto :
    (f n : ℕ) (s : Str) → n < f → Digits s → digits_from 0 (digits_onto f n s) ≡ digits_from n s
unfolding digits_onto
digits_from-digits_onto zero n s h ds = absurd (omega arith)
digits_from-digits_onto (suc f) n s h ds = elim (Bool-cases (ltb n 10)) [
  | inl small ↦
      rw small (digits_from-cons 0 n s (ground arith) ds ∙ ap (λ k. digits_from k s) (omega arith))
  | inr big ↦ rw big (
      digits_from-digits_onto f (n / 10) ((48 + n % 10) ∷ s) (ground arith)
        (digit_lem (n % 10) (omega arith), ds)
      ∙ digits_from-cons (n / 10) (n % 10) s (omega arith) ds
      ∙ ap (λ k. digits_from k s) (omega arith))
]

show_nat-Digits : (n : ℕ) → Digits (show_nat n)
unfolding show_nat
show_nat-Digits n = digits_onto-Digits (suc n) n [] tt

digits_onto-ne-nil :
    (f n : ℕ) (s : Str) (c : ℕ) → (d : ℕ) × (t : Str) × (digits_onto f n (c ∷ s) ≡ d ∷ t)
unfolding digits_onto
digits_onto-ne-nil zero n s c = (c, s, refl)
digits_onto-ne-nil (suc f) n s c = elim (Bool-cases (ltb n 10)) [
  | inl small ↦ (48 + n, c ∷ s, rw small refl)
  | inr big ↦ rw big (digits_onto-ne-nil f (n / 10) (c ∷ s) (48 + n % 10))
]

-- A number has a first digit.
show_nat-cons : (n : ℕ) → (d : ℕ) × (t : Str) × (show_nat n ≡ d ∷ t)
unfolding show_nat digits_onto
show_nat-cons n = elim (Bool-cases (ltb n 10)) [
  | inl small ↦ (48 + n, [], rw small refl)
  | inr big ↦ rw big (digits_onto-ne-nil n (n / 10) [] (48 + n % 10))
]

digits_from-nil : (n : ℕ) → digits_from n [] ≡ some n
unfolding digits_from
digits_from-nil n = refl

digits_from-show_nat : (n : ℕ) → digits_from 0 (show_nat n) ≡ some n
unfolding show_nat
digits_from-show_nat n = digits_from-digits_onto (suc n) n [] (omega arith) tt ∙ digits_from-nil n

-- Text with no white space.
abbrev pub NoSpace : Str → Type 0
NoSpace = All (λ c. is_space c ≡ false)

digit-not-is_space : (c : ℕ) → is_digit c ≡ true → is_space c ≡ false
unfolding is_digit is_space
digit-not-is_space c h = ground arith

Digits-NoSpace : (s : Str) → Digits s → NoSpace s
Digits-NoSpace [] h = tt
Digits-NoSpace (c ∷ s) (h, hs) = (digit-not-is_space c h, Digits-NoSpace s hs)

skip_spaces-NoSpace : (s : Str) → NoSpace s → skip_spaces s ≡ s
unfolding skip_spaces
skip_spaces-NoSpace [] h = refl
skip_spaces-NoSpace (c ∷ s) (h, hs) = rw h refl

reverse-NoSpace : (s : Str) → NoSpace s → NoSpace (reverse s)
reverse-NoSpace [] h = tt
reverse-NoSpace (c ∷ s) (h, hs) =
    rw (reverse-append (c ∷ []) s)
      (All-append (λ c. is_space c ≡ false) (reverse s) (c ∷ []) (reverse-NoSpace s hs) (h, tt))

pub strip-NoSpace : (s : Str) → NoSpace s → strip s ≡ s
unfolding strip
strip-NoSpace s h =
    rw (skip_spaces-NoSpace s h, skip_spaces-NoSpace (reverse s) (reverse-NoSpace s h))
      (reverse-reverse s)

pub show_int-NoSpace : (v : ℤ) → NoSpace (show_int v)
unfolding show_int is_space
show_int-NoSpace (pos n) = Digits-NoSpace (show_nat n) (show_nat-Digits n)
show_int-NoSpace (negsuc n) = (refl, Digits-NoSpace (show_nat (suc n)) (show_nat-Digits (suc n)))

signed-digit :
    (d : ℕ) (t : Str) → is_digit d ≡ true → signed (d ∷ t) ≡ Option.map pos (digits_from 0 (d ∷ t))
unfolding is_digit
signed-digit d t h =
    let minus : nat_beq d b'-' ≡ false = ground arith in
    let plus : nat_beq d b'+' ≡ false = ground arith in rw (minus, plus) refl

signed-show_nat : (n : ℕ) → signed (show_nat n) ≡ some (pos n)
signed-show_nat n =
    let (d, t, e) = show_nat-cons n in
    let ds : Digits (d ∷ t) = rw e at (show_nat-Digits n) in
    ap signed e
    ∙ signed-digit d t ds.0
    ∙ ap (λ s. Option.map pos (digits_from 0 s)) (sym e)
    ∙ ap (λ o. Option.map pos o) (digits_from-show_nat n)

signed-minus : (n : ℕ) → signed (b'-' ∷ show_nat (suc n)) ≡ some (negsuc n)
unfolding negate
signed-minus n =
    let (d, t, e) = show_nat-cons (suc n) in
    ap (λ s. Option.map negate (nonempty_digits s)) e
    ∙ ap (λ s. Option.map negate (digits_from 0 s)) (sym e)
    ∙ ap (λ o. Option.map negate o) (digits_from-show_nat (suc n))

-- What `str` prints of an integer, `int` reads.
pub py_int-show_int : (v : ℤ) → py_int (show_int v) ≡ some v
unfolding py_int show_int
py_int-show_int (pos n) =
    ap signed (strip-NoSpace (show_nat n) (show_int-NoSpace (pos n))) ∙ signed-show_nat n
py_int-show_int (negsuc n) =
    ap signed (strip-NoSpace (b'-' ∷ show_nat (suc n)) (show_int-NoSpace (negsuc n)))
    ∙ signed-minus n

Digits-without : (s : Str) → Digits s → without b'.' s ≡ true
unfolding is_digit
Digits-without [] h = refl
Digits-without (c ∷ s) (h, hs) =
    let other : nat_beq c b'.' ≡ false = ground arith in rw other (Digits-without s hs)

pub show_int-without : (v : ℤ) → without b'.' (show_int v) ≡ true
unfolding show_int
show_int-without (pos n) = Digits-without (show_nat n) (show_nat-Digits n)
show_int-without (negsuc n) = Digits-without (show_nat (suc n)) (show_nat-Digits (suc n))

-- The text of a number that is not negative starts with a digit.
pub show_int-cons : (n : ℕ) → (d : ℕ) × (t : Str) × (show_int (pos n) ≡ d ∷ t) × (is_digit d ≡ true)
unfolding show_int
show_int-cons n =
    let (d, t, e) = show_nat-cons n in
    let ds : Digits (d ∷ t) = rw e at (show_nat-Digits n) in (d, t, e, ds.0)

skip_spaces-append :
    (s : Str) (d : ℕ) → is_space d ≡ false → (t : Str) × (skip_spaces (s ++ d ∷ []) ≡ t ++ d ∷ [])
unfolding skip_spaces
skip_spaces-append [] d h = ([], rw h refl)
skip_spaces-append (c ∷ s) d h = elim (Bool-cases (is_space c)) [
  | inl yes_space ↦ rw yes_space (skip_spaces-append s d h)
  | inr not_space ↦ (c ∷ s, rw not_space refl)
]

-- Stripping keeps a first character that is no white space.
strip-cons : (d : ℕ) (s : Str) → is_space d ≡ false → (t : Str) × (strip (d ∷ s) ≡ d ∷ t)
unfolding strip skip_spaces
strip-cons d s h =
    let (t, e) = skip_spaces-append (reverse s) d h in
    (reverse t, rw (h, reverse-append (d ∷ []) s) (rw e (reverse-append t (d ∷ []))))

-- A text that starts with a digit is read as a number that is not negative.
pub py_int-nonneg :
    (d : ℕ) (s : Str) (v : ℤ) → is_digit d ≡ true → py_int (d ∷ s) ≡ some v → (n : ℕ) × (v ≡ pos n)
unfolding py_int
py_int-nonneg d s v h e =
    let (t, kept) = strip-cons d s (digit-not-is_space d h) in
    of_map (digits_from 0 (d ∷ t)) (sym (signed-digit d t h) ∙ ap signed (sym kept) ∙ e)
  where
    of_map : (o : Option ℕ) → Option.map pos o ≡ some v → (n : ℕ) × (v ≡ pos n)
    of_map none q = cc
    of_map (some n) q = (n, cc)
