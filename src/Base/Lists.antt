-- ===== src/Base/Lists.antt =====
-- Lists over the native numbers: length, take, drop, tests over all elements, a recursive All.
use Prim.Native.Nat.{ℕ, zero, suc, ◌+◌, ◌-◌, ◌≤◌}
use mathlib.Core.Path.{◌≡◌, refl, ap}
use mathlib.Core.Logic.{inl, inr}
use mathlib.Core.Bool.{Bool, true, false, ◌&&◌, ◌||◌, not}
use mathlib.Core.Option.{Option, none, some}
use mathlib.Core.List.{List, [], ◌∷◌, ◌++◌, append-nil, append_assoc}
use mathlib.Core.List.{Perm, perm_middle}
use mathlib.Core.List.Perm
use native.Mathlib.Omega.{arith}
use telemetry_platform.Base.Tests.{if◌then◌else◌, Bool-cases}

module _ {ℓ} {A : Type ℓ} where
  abbrev pub length : List A → ℕ
  length [] = 0
  length (x ∷ xs) = suc (length xs)

  pub length-append : (xs ys : List A) → length (xs ++ ys) ≡ length xs + length ys
  length-append [] ys = omega arith
  length-append (x ∷ xs) ys = omega (arith, length-append xs ys)

  -- xs[:n]
  unfoldable pub take : List A → ℕ → List A
  take xs zero = []
  take [] (suc n) = []
  take (x ∷ xs) (suc n) = x ∷ take xs n

  -- xs[n:]
  unfoldable pub drop : List A → ℕ → List A
  drop xs zero = xs
  drop [] (suc n) = []
  drop (x ∷ xs) (suc n) = drop xs n

  pub take-drop : (xs : List A) (n : ℕ) → take xs n ++ drop xs n ≡ xs
  unfolding take drop
  take-drop [] zero = refl
  take-drop [] (suc n) = refl
  take-drop (x ∷ xs) zero = refl
  take-drop (x ∷ xs) (suc n) = ap (λ t. x ∷ t) (take-drop xs n)

  pub length-drop : (xs : List A) (n : ℕ) → length (drop xs n) ≡ length xs - n
  unfolding drop
  length-drop [] zero = omega arith
  length-drop [] (suc n) = omega arith
  length-drop (x ∷ xs) zero = omega arith
  length-drop (x ∷ xs) (suc n) = omega (arith, length-drop xs n)

  pub length-take-le : (xs : List A) (n : ℕ) → length (take xs n) ≤ n
  unfolding take
  length-take-le [] zero = omega arith
  length-take-le [] (suc n) = omega arith
  length-take-le (x ∷ xs) zero = omega arith
  length-take-le (x ∷ xs) (suc n) = omega (arith, length-take-le xs n)

  abbrev pub all : (A → Bool) → List A → Bool
  all p [] = true
  all p (x ∷ xs) = p x && all p xs

  abbrev pub any : (A → Bool) → List A → Bool
  any p [] = false
  any p (x ∷ xs) = p x || any p xs

  -- [x for x in xs if p(x)]
  unfoldable pub select : (A → Bool) → List A → List A
  select p [] = []
  select p (x ∷ xs) = let rest = select p xs in if p x then x ∷ rest else rest

  -- next((x for x in xs if p(x)), None)
  unfoldable pub find_first : (A → Bool) → List A → Option A
  find_first p [] = none
  find_first p (x ∷ xs) = let rest = find_first p xs in if p x then some x else rest

  -- A loop that appends what a test picks out, at its next element.
  pub select-append :
      (p : A → Bool) (x : A) (xs front : List A) (b : Bool)
      → p x ≡ b
      → (front ++ (if b then x ∷ [] else [])) ++ select p xs ≡ front ++ select p (x ∷ xs)
  unfolding select
  select-append p x xs front true is = rw (is, append_assoc) refl
  select-append p x xs front false is = rw (is, append-nil) refl

  -- What a test picks out and what it leaves make up the list.
  pub select-perm :
      (p : A → Bool) (xs : List A) → Perm (select p xs ++ select (λ x. not (p x)) xs) xs
  unfolding select
  select-perm p [] = Perm.refl []
  select-perm p (x ∷ xs) = elim (Bool-cases (p x)) [
    | inl h ↦ rw h (Perm.cons x (select-perm p xs))
    | inr h ↦ rw h (Perm.trans (perm_middle (select p xs) _) (Perm.cons x (select-perm p xs)))
  ]

module _ {ℓ κ} {A : Type ℓ} (P : A → Type κ) where
  abbrev pub All : List A → Type κ
  All [] = Unit
  All (x ∷ xs) = P x × All xs

  pub All-append : (xs ys : List A) → All xs → All ys → All (xs ++ ys)
  All-append [] ys h k = k
  All-append (x ∷ xs) ys (p, h) k = (p, All-append xs ys h k)
