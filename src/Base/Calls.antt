-- ===== src/Base/Calls.antt =====
-- Calls on a state outside the program: a service, or the processes it starts.
use mathlib.Core.Path.{◌≡◌, refl}
use mathlib.Core.Logic.{inl, inr}
use telemetry_platform.Base.Results.{Exc, Outcome, ok, raised, Answer-cases}

-- Calls in sequence: an exception ends it, and what the server has done stays done.
abbrev pub Call {ℓ κ} : Type ℓ → Type κ → Type (ℓ ⊔ κ)
Call S A = S → Outcome A × S

infixl 5 ◌>>=◌
unfoldable pub ◌>>=◌ {ℓ} : {S A B : Type ℓ} → Call S A → (A → Call S B) → Call S B
◌>>=◌ call next s = let (r, s') = call s in elim r [ raised e ↦ (raised e, s') | ok a ↦ next a s' ]

abbrev pub pure {ℓ} : {S A : Type ℓ} → A → Call S A
pure a s = (ok a, s)

abbrev pub fail {ℓ} : {S A : Type ℓ} → Exc → Call S A
fail e s = (raised e, s)

-- Two calls in sequence that returned.
pub then-eq-ok {ℓ} :
    {S A B : Type ℓ} {b : B} (call : Call S A) (next : A → Call S B) (s s' : S)
    → (call >>= next) s ≡ (ok b, s')
    → (a : A) × (t : S) × (call s ≡ (ok a, t)) × (next a t ≡ (ok b, s'))
unfolding ◌>>=◌
then-eq-ok call next s s' h = elim (Answer-cases (call s)) [
  | inl (e, failed) ↦ let stop = rw (failed, ◌>>=◌) at h in cc
  | inr (a, did) ↦ (a, (call s).1, did, rw (did, ◌>>=◌) at h)
]

-- A first call that returned, and one that raised.
pub ok-then {ℓ} :
    {S A B : Type ℓ} (call : Call S A) (next : A → Call S B) (s t : S) (a : A)
    → call s ≡ (ok a, t)
    → (call >>= next) s ≡ next a t
unfolding ◌>>=◌
ok-then call next s t a did = rw (did, ◌>>=◌) (rw did refl)

pub raised-then {ℓ} :
    {S A B : Type ℓ} (call : Call S A) (next : A → Call S B) (s t : S) (e : Exc)
    → call s ≡ (raised e, t)
    → (call >>= next) s ≡ (raised e, t)
unfolding ◌>>=◌
raised-then call next s t e failed = rw (failed, ◌>>=◌) (rw failed refl)

-- Computing a result from what a call gave changes nothing at the server.
pub then-pure {ℓ} :
    {S A B : Type ℓ} (call : Call S A) (f : A → B) (s : S)
    → ((call >>= λ a. pure (f a)) s).1 ≡ (call s).1
unfolding ◌>>=◌
then-pure call f s = elim (Answer-cases (call s)) [
  | inl (e, failed) ↦ rw (failed, ◌>>=◌) refl
  | inr (a, did) ↦ rw (did, ◌>>=◌) refl
]
