-- ===== src/Json.antt =====
-- The values that `json.loads` returns, and the uses of them that the programs make.
use telemetry_platform.Base.{
  ℕ, zero, suc, Bool, true, false, not, ◌||◌, Option, none, some, List, [], ◌∷◌, map, nat_beq,
  if◌then◌else◌, Str, Outcome, ok, raised, type_error,
}
use telemetry_platform.Base.Dict.{Dict, get}
use telemetry_platform.Base.Int.{ℤ, pos, negsuc}

-- A float is its IEEE 754 bit pattern. An object's fields are in their order.
mutual
  pub data Json : Type 0 where
    null : Json
    bool : Bool → Json
    int : ℤ → Json
    float : ℕ → Json
    str : Str → Json
    arr : Items → Json
    obj : Fields → Json

  pub data Items : Type 0 where
    nil : Items
    cons : Json → Items → Items

  pub data Fields : Type 0 where
    end : Fields
    field : Str → Json → Fields → Fields

abbrev pub items : Items → List Json
items nil = []
items (cons v vs) = v ∷ items vs

abbrev pub fields : Fields → Dict Json
fields end = []
fields (field k v fs) = (k, v) ∷ fields fs

abbrev pub of_dict : Dict Json → Fields
of_dict [] = end
of_dict ((k, v) ∷ d) = field k v (of_dict d)

-- bool(v): `None`, `False`, zeros and empty containers are falsy.
unfoldable pub truthy : Json → Bool
truthy null = false
truthy (bool b) = b
truthy (int (pos zero)) = false
truthy (int (pos (suc n))) = true
truthy (int (negsuc n)) = true
truthy (float bits) = not (nat_beq bits 0 || nat_beq bits 0x8000000000000000)
truthy (str []) = false
truthy (str (c ∷ s)) = true
truthy (arr nil) = false
truthy (arr (cons v vs)) = true
truthy (obj end) = false
truthy (obj (field k v fs)) = true

-- d.get(k), `None` where the key is missing
unfoldable pub get_or_null : Str → Dict Json → Json
get_or_null k d = elim (get k d) [ none ↦ null | some v ↦ v ]

-- d.get(key, default)
unfoldable pub get_or : Str → Json → Dict Json → Json
unfolding get
get_or key default d = elim (get key d) [ none ↦ default | some v ↦ v ]

abbrev pub of_list : List Json → Items
of_list [] = nil
of_list (v ∷ vs) = cons v (of_list vs)

-- isinstance(v, dict), with the dict
abbrev pub as_dict : Json → Option (Dict Json)
as_dict (obj fs) = some (fields fs)
as_dict _ = none

abbrev pub is_list : Json → Bool
is_list (arr vs) = true
is_list _ = false

-- isinstance(v, (dict, list))
abbrev pub is_container : Json → Bool
is_container (obj fs) = true
is_container (arr vs) = true
is_container _ = false

-- Iteration over a dict, and over a text.
abbrev pub keys_of : Dict Json → List Json
keys_of = map (λ p. str p.0)

abbrev pub characters : Str → List Json
characters = map (λ c. str (c ∷ []))

-- `for x in (v or [])`
unfoldable pub iterate_or_empty : Json → Outcome (List Json)
unfolding truthy
iterate_or_empty (arr vs) = ok (items vs)
iterate_or_empty (obj fs) = ok (keys_of (fields fs))
iterate_or_empty (str s) = ok (characters s)
iterate_or_empty v = if truthy v then raised type_error else ok []
