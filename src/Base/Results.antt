-- ===== src/Base/Results.antt =====
-- Python exceptions as values: what a call returns, or the class of what it raises.
use mathlib.Core.Path.{◌≡◌, refl}
use mathlib.Core.Logic.{◌⊎◌, inl, inr}
use mathlib.Core.Option.{Option, none, some}

-- The exception classes that the modelled code raises or catches: Python's, where `key_error` and
-- `value_error` stand for their subclasses too unless these have a name of their own here; the
-- programs' own; and, the last four, the AWS client's errors by their code.
pub data Exc : Type 0 where
  value_error key_error type_error attribute_error index_error : Exc
  overflow_error unicode_error runtime_error usage_error allowlist_error : Exc
  path_parse_error account_not_found account_resolution mixed_account ci_deploy_forbidden : Exc
  partition_error file_not_found authorization_error d43_violation : Exc
  optimistic_lock unavailable_entity nonexistent_item client_error : Exc

pub data Outcome {ℓ} (A : Type ℓ) : Type ℓ where
  ok : A → Outcome A
  raised : Exc → Outcome A

infixl 5 ◌>>=◌
-- The next step, unless an exception is on its way.
abbrev pub ◌>>=◌ {ℓ κ} : {V : Type ℓ} {W : Type κ} → Outcome V → (V → Outcome W) → Outcome W
raised exc >>= next = raised exc
ok value >>= next = next value

-- A missing value raises.
abbrev pub need {ℓ} : {A : Type ℓ} → Exc → Option A → Outcome A
need e none = raised e
need e (some a) = ok a

-- A chain that returned: its first step returned, and so did the rest from there.
pub bind-eq-ok {ℓ κ} :
    {V : Type ℓ} {W : Type κ} {w : W} (first : Outcome V) (next : V → Outcome W)
    → (first >>= next) ≡ ok w
    → (value : V) × (first ≡ ok value) × (next value ≡ ok w)
bind-eq-ok (raised exc) next h = cc
bind-eq-ok (ok value) next h = (value, refl, h)

-- A call on a state that returned or raised.
pub Answer-cases {ℓ κ} :
    {A : Type ℓ} {S : Type κ} (r : Outcome A × S)
    → ((e : Exc) × (r ≡ (raised e, r.1))) ⊎ ((a : A) × (r ≡ (ok a, r.1)))
Answer-cases (ok a, s) = inr (a, refl)
Answer-cases (raised e, s) = inl (e, refl)

pub Outcome-cases {ℓ} :
    {A : Type ℓ} (m : Outcome A) → ((e : Exc) × (m ≡ raised e)) ⊎ ((a : A) × (m ≡ ok a))
Outcome-cases (ok a) = inr (a, refl)
Outcome-cases (raised e) = inl (e, refl)

pub ok-injective {ℓ} : {A : Type ℓ} {a b : A} → ok a ≡ ok b → a ≡ b
ok-injective e = cc

pub need-eq-ok {ℓ} : {A : Type ℓ} (e : Exc) (o : Option A) {a : A} → need e o ≡ ok a → o ≡ some a
need-eq-ok e none h = cc
need-eq-ok e (some b) h = cc
