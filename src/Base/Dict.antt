-- ===== src/Base/Dict.antt =====
-- Python's insertion-ordered `dict` with string keys, as its items in order.
use mathlib.Core.Path.{◌≡◌, refl}
use mathlib.Core.Bool.{Bool, true, false, ◌||◌}
use mathlib.Core.Option.{Option, none, some}
use mathlib.Core.List.{List, [], ◌∷◌, map}
use native.Mathlib.Omega.{arith}
use telemetry_platform.Base.Tests.{if◌then◌else◌}
use telemetry_platform.Base.Text.{Str, ◌==◌, eq_iff, member}

abbrev pub Dict {ℓ} : Type ℓ → Type ℓ
Dict V = List (Str × V)

module _ {ℓ} {V : Type ℓ} where
  -- d.get(k)
  unfoldable pub get : Str → Dict V → Option V
  get k [] = none
  get k ((j, v) ∷ d) = if j == k then some v else get k d

  -- d[k] = v
  unfoldable pub put : Str → V → Dict V → Dict V
  put k v [] = (k, v) ∷ []
  put k v ((j, w) ∷ d) = if j == k then (j, v) ∷ d else (j, w) ∷ put k v d

  -- d.setdefault(k, v)
  unfoldable pub set_default : Str → V → Dict V → Dict V
  set_default k v [] = (k, v) ∷ []
  set_default k v ((j, w) ∷ d) = if j == k then (j, w) ∷ d else (j, w) ∷ set_default k v d

  -- list(d)
  abbrev pub keys : Dict V → List Str
  keys = map (λ p. p.0)

  -- k in d
  abbrev pub has_some : Option V → Bool
  has_some none = false
  has_some (some v) = true

  unfoldable pub has_key : Str → Dict V → Bool
  has_key k d = has_some (get k d)

  pub get-put :
      (k j : Str) (v : V) (d : Dict V) → get j (put k v d) ≡ (if k == j then some v else get j d)
  unfolding get put
  get-put k j v [] = refl
  get-put k j v ((i, w) ∷ d) = ground (arith, eq_iff k j, eq_iff i k, eq_iff i j, get-put k j v d)

  pub get-set_default :
      (k j : Str) (v : V) (d : Dict V)
      → get j (set_default k v d)
        ≡ (if k == j then (if has_key k d then get k d else some v) else get j d)
  unfolding get set_default has_key
  get-set_default k j v [] = ground arith
  get-set_default k j v ((i, w) ∷ d) =
      ground (arith, eq_iff k j, eq_iff i k, eq_iff i j, get-set_default k j v d)

  pub member-keys-put :
      (k j : Str) (v : V) (d : Dict V) → member j (keys (put k v d)) ≡ (j == k || member j (keys d))
  unfolding put member
  member-keys-put k j v [] = refl
  member-keys-put k j v ((i, w) ∷ d) =
      ground (arith, eq_iff j k, eq_iff i k, eq_iff j i, member-keys-put k j v d)

  pub member-keys-set_default :
      (k j : Str) (v : V) (d : Dict V)
      → member j (keys (set_default k v d)) ≡ (j == k || member j (keys d))
  unfolding set_default member
  member-keys-set_default k j v [] = refl
  member-keys-set_default k j v ((i, w) ∷ d) =
      ground (arith, eq_iff j k, eq_iff i k, eq_iff j i, member-keys-set_default k j v d)

-- No key stands twice.
abbrev pub Distinct : List Str → Type 0
Distinct [] = Unit
Distinct (k ∷ ks) = (member k ks ≡ false) × Distinct ks

module _ {ℓ} {V : Type ℓ} where
  pub put-Distinct :
      (k : Str) (v : V) (d : Dict V) → Distinct (keys d) → Distinct (keys (put k v d))
  unfolding put member
  put-Distinct k v [] h = (refl, tt)
  put-Distinct k v ((i, w) ∷ d) h =
      ground (arith, eq_iff i k, put-Distinct k v d, member-keys-put k i v d)

  pub set_default-Distinct :
      (k : Str) (v : V) (d : Dict V) → Distinct (keys d) → Distinct (keys (set_default k v d))
  unfolding set_default member
  set_default-Distinct k v [] h = (refl, tt)
  set_default-Distinct k v ((i, w) ∷ d) h =
      ground (arith, eq_iff i k, set_default-Distinct k v d, member-keys-set_default k i v d)
