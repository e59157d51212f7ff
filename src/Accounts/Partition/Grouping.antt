-- ===== src/Accounts/Partition/Grouping.antt =====
-- The units that the loop of `partition` puts under each account.
use telemetry_platform.Base.{
  Bool, false, ◌||◌, List, [], ◌∷◌, ◌++◌, if◌then◌else◌, Str, ◌==◌, eq_iff, member, any, select, ok,
  raised, bind-eq-ok, ◌≡◌, refl, ◌∙◌, ap, arith, append-nil, append_assoc, Bool-cases, inl, inr,
  All, ok-injective,
}
use telemetry_platform.Base.Dict.{
  Dict, get, put, keys, Distinct, get-put, member-keys-put, put-Distinct,
}
use telemetry_platform.Json.{Json}
use telemetry_platform.Accounts.{Config}
use telemetry_platform.Accounts.Resolve.{resolve_account_id}
use telemetry_platform.Accounts.Partition.{Groups, add_unit, group_units, paths_or_empty}

module _ (py_str : Json → Str) (same : Json → Json → Bool) (config : Config)
    (on_demand : Bool) where
  -- The path resolves to this account.
  unfoldable pub belongs : Str → Str → Bool
  belongs a p = elim (resolve_account_id py_str same config p) [
    | ok unit ↦ unit.1 == a
    | raised e ↦ false
  ]

  abbrev pub Resolves : Str → Type 0
  Resolves p = (unit : Str × Str) × (resolve_account_id py_str same config p ≡ ok unit)

  pub belongs-found :
      (a p : Str) (unit : Str × Str)
      → resolve_account_id py_str same config p ≡ ok unit
      → belongs a p ≡ (unit.1 == a)
  unfolding belongs
  belongs-found a p unit found = rw (found, belongs) refl

  paths-put :
      (a j : Str) (p : Str) (by : Dict (List Str))
      → paths_or_empty (get j (put a (paths_or_empty (get a by) ++ p ∷ []) by))
        ≡ (paths_or_empty (get j by) ++ (if a == j then p ∷ [] else []))
  paths-put a j p by = elim (Bool-cases (a == j)) [
    | inl e ↦ rw (get-put a j (paths_or_empty (get a by) ++ p ∷ []) by, e, (eq_iff a j).0 e) refl
    | inr e ↦ rw (get-put a j (paths_or_empty (get a by) ++ p ∷ []) by, e, append-nil) refl
  ]

  -- Every path resolves, and stands under its account, behind the earlier ones.
  pub group_units-paths :
      (ps : List Str) (g h : Groups) (a : Str)
      → group_units py_str same config on_demand ps g ≡ ok h
      → paths_or_empty (get a h.by_account)
        ≡ paths_or_empty (get a g.by_account) ++ select (λ p. belongs a p) ps
  unfolding group_units select add_unit
  group_units-paths [] g h a e = rw (append-nil, ok-injective e) refl
  group_units-paths (p ∷ ps) g h a e =
      let (unit, found, rest) = bind-eq-ok (resolve_account_id py_str same config p) _ e in
      let later = group_units-paths ps (add_unit p unit g) h a rest in
      let here = paths-put unit.1 a p g.by_account in
      let is : belongs a p ≡ (unit.1 == a) = belongs-found a p unit found in
      later
      ∙ ap (λ t. t ++ select (λ q. belongs a q) ps) here
      ∙ joined a unit.1 p ps (paths_or_empty (get a g.by_account)) is
    where
      joined :
          (a b p : Str) (ps front : List Str)
          → belongs a p ≡ (b == a)
          → (front ++ (if b == a then p ∷ [] else [])) ++ select (λ q. belongs a q) ps
            ≡ front ++ select (λ q. belongs a q) (p ∷ ps)
      joined a b p ps front is = elim (Bool-cases (b == a)) [
        | inl e ↦ rw (is, e, append_assoc) refl
        | inr e ↦ rw (is, e, append-nil) refl
      ]

  -- The accounts are those of the paths.
  pub group_units-keys :
      (ps : List Str) (g h : Groups) (a : Str)
      → group_units py_str same config on_demand ps g ≡ ok h
      → member a (keys h.by_account) ≡ (any (λ p. belongs a p) ps || member a (keys g.by_account))
  unfolding group_units add_unit
  group_units-keys [] g h a e = rw (ok-injective e) refl
  group_units-keys (p ∷ ps) g h a e =
      let (unit, found, rest) = bind-eq-ok (resolve_account_id py_str same config p) _ e in
      let later = group_units-keys ps (add_unit p unit g) h a rest in
      let here =
        member-keys-put unit.1 a (paths_or_empty (get unit.1 g.by_account) ++ p ∷ [])
          g.by_account in
      let is : belongs a p ≡ (unit.1 == a) = belongs-found a p unit found in
      ground (arith, eq_iff a unit.1, eq_iff unit.1 a)

  pub group_units-Distinct :
      (ps : List Str) (g h : Groups)
      → group_units py_str same config on_demand ps g ≡ ok h
      → Distinct (keys g.by_account)
      → Distinct (keys h.by_account)
  unfolding group_units add_unit
  group_units-Distinct [] g h e d = rw (← ok-injective e) d
  group_units-Distinct (p ∷ ps) g h e d =
      let (unit, found, rest) = bind-eq-ok (resolve_account_id py_str same config p) _ e in
      group_units-Distinct ps (add_unit p unit g) h rest
        (put-Distinct unit.1 (paths_or_empty (get unit.1 g.by_account) ++ p ∷ []) g.by_account d)

  pub group_units-Resolves :
      (ps : List Str) (g h : Groups)
      → group_units py_str same config on_demand ps g ≡ ok h
      → All Resolves ps
  unfolding group_units
  group_units-Resolves [] g h e = tt
  group_units-Resolves (p ∷ ps) g h e =
      let (unit, found, rest) = bind-eq-ok (resolve_account_id py_str same config p) _ e in
      ((unit, found), group_units-Resolves ps (add_unit p unit g) h rest)
