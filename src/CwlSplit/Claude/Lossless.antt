-- ===== src/CwlSplit/Claude/Lossless.antt =====
-- What the payload of a structured record keeps of its attributes, and where its tool comes from.
use telemetry_platform.Base.{
  ◌≡◌, ◌⊎◌, refl, ◌∙◌, subst, false, none, some, List, [], ◌∷◌, Str, codes, ◌==◌, eq_iff, member,
  ok, need, key_error, bind-eq-ok, ok-injective, need-eq-ok, arith, inl, inr,
}
use telemetry_platform.Base.Dict.{Dict, get, put, get-put}
use telemetry_platform.Json.{Json, null, str, obj, fields, get_or_null}
use telemetry_platform.CwlSplit.Runtime.{Runtime, Row}
use telemetry_platform.CwlSplit.Claude.{
  Key, to_map, norm, resource_norm, add_block, put_present, add_scope, claude_service,
  claude_timestamp, claude_payload, claude_row,
}

-- No key of the block is renamed to `j`.
abbrev pub Free : (Str → Str) → Str → List (Key × Json) → Type 0
Free rename j [] = Unit
Free rename j ((none, v) ∷ d) = Free rename j d
Free rename j ((some k, v) ∷ d) = ((rename k == j) ≡ false) × Free rename j d

-- The block has the entry, and no later key is renamed as its own is.
abbrev pub Holds : (Str → Str) → Str → Json → List (Key × Json) → Type 0
Holds rename k v [] = ⊥
Holds rename k v ((j, w) ∷ d) =
    ((j ≡ some k) × (w ≡ v) × Free rename (rename k) d) ⊎ Holds rename k v d

module _ (rename : Str → Str) where
  get-add_block-Free :
      (j : Str) (block : List (Key × Json)) (payload result : Dict Json)
      → Free rename j block
      → add_block rename block payload ≡ ok result
      → get j result ≡ get j payload
  unfolding add_block
  get-add_block-Free j [] payload result h e = ground arith
  get-add_block-Free j ((none, v) ∷ d) payload result h e = cc
  get-add_block-Free j ((some k, v) ∷ d) payload result (here, h) e =
      get-add_block-Free j d (put (rename k) v payload) result h e
      ∙ ground (arith, get-put (rename k) j v payload)

  get-add_block :
      (k : Str) (v : Json) (block : List (Key × Json)) (payload result : Dict Json)
      → Holds rename k v block
      → add_block rename block payload ≡ ok result
      → get (rename k) result ≡ some v
  unfolding add_block
  get-add_block k v [] payload result h e = elim h [ ]
  get-add_block k v ((none, w) ∷ d) payload result (inl (named, _, _)) e = cc
  get-add_block k v ((none, w) ∷ d) payload result (inr h) e = cc
  get-add_block k v ((some j, w) ∷ d) payload result (inr h) e =
      get-add_block k v d (put (rename j) w payload) result h e
  get-add_block k v ((some j, w) ∷ d) payload result (inl (named, same, free)) e =
      get-add_block-Free (rename k) d (put (rename j) w payload) result free e
      ∙ ground (arith, get-put (rename j) (rename k) w payload, eq_iff (rename j) (rename k))

-- The payload keys that the code sets itself.
abbrev reserved : List Str
reserved = codes "otel_body" ∷ codes "otel_scope_name" ∷ codes "otel_scope_version" ∷ []

get-put_present :
    (k j : Str) (v : Json) (d : Dict Json) → (k == j) ≡ false → get j (put_present k v d) ≡ get j d
unfolding put_present
get-put_present k j null d h = refl
get-put_present k j v d h = rw (get-put, h)

-- A key that is none of the payload keys that the code sets is left as it was.
get-add_scope :
    (j : Str) (scope : Json) (d : Dict Json)
    → member j reserved ≡ false
    → get j (add_scope scope d) ≡ get j d
unfolding add_scope member
get-add_scope j (obj fs) d h =
    get-put_present (codes "otel_scope_version") j (get_or_null (codes "version") (fields fs)) _
      (ground (arith, eq_iff (codes "otel_scope_version") j, eq_iff j (codes "otel_scope_version")))
    ∙ get-put_present (codes "otel_scope_name") j (get_or_null (codes "name") (fields fs)) d
        (ground (arith, eq_iff (codes "otel_scope_name") j, eq_iff j (codes "otel_scope_name")))
get-add_scope j scope d h = refl

get-put_body :
    (j : Str) (v : Json) (d : Dict Json)
    → member j reserved ≡ false
    → get j (put (codes "otel_body") v d) ≡ get j d
unfolding member
get-put_body j v d h = ground (
  arith,
  get-put (codes "otel_body") j v d,
  eq_iff (codes "otel_body") j,
  eq_iff j (codes "otel_body"),
)

module _ (attrs resource : List (Key × Json)) (d : Dict Json) (body : Str) (payload : Dict Json)
    (built : claude_payload attrs resource d body ≡ ok payload) where
  get-claude_payload :
      (k : Str) (v : Json)
      → Holds norm k v attrs
      → Free resource_norm (norm k) resource
      → member (norm k) reserved ≡ false
      → get (norm k) payload ≡ some v
  unfolding claude_payload member
  get-claude_payload k v held free unreserved =
      let (with_attrs, added, e1) = bind-eq-ok (add_block norm attrs []) _ built in
      let (with_resource, resource_added, e2) =
        bind-eq-ok (add_block resource_norm resource with_attrs) _ e1 in
      subst (λ p. get (norm k) p ≡ some v) (ok-injective e2)
        (get-add_scope (norm k) _ _ unreserved
          ∙ get-put_body (norm k) (str body) with_resource unreserved
          ∙ get-add_block-Free resource_norm (norm k) resource with_attrs with_resource free
              resource_added
          ∙ get-add_block norm k v attrs [] with_attrs held added)

module _ (rt : Runtime) (d : Dict Json) (body : Str) (row : Row)
    (built : claude_row rt d body ≡ ok row) where
  -- The tool of a reshaped log record is what the registry's map gives for the record's own service
  -- name; there is no other source for it.
  pub claude_row-tool :
      (resource : List (Key × Json)) × (to_map (get_or_null (codes "resource") d) ≡ ok resource)
      × (get (claude_service rt resource) rt.service_tool_map ≡ some row.tool)
  unfolding claude_row
  claude_row-tool =
      let (attrs, _, e1) = bind-eq-ok (to_map (get_or_null (codes "attributes") d)) _ built in
      let (resource, read, e2) = bind-eq-ok (to_map (get_or_null (codes "resource") d)) _ e1 in
      let (tool, mapped, e3) =
        bind-eq-ok (need key_error (get (claude_service rt resource) rt.service_tool_map)) _ e2 in
      let (timestamp, _, e4) = bind-eq-ok (claude_timestamp rt attrs d) _ e3 in
      let (payload, _, e5) = bind-eq-ok (claude_payload attrs resource d body) _ e4 in
      (
        resource,
        read,
        subst (λ (r : Row). get (claude_service rt resource) rt.service_tool_map ≡ some r.tool)
            (ok-injective e5) (need-eq-ok key_error _ mapped),
      )

  -- An attribute of a reshaped log record is a payload column under its normalised key, unless a
  -- later attribute or a resource field normalises to the same key or the code sets that key itself.
  pub claude_row-attribute :
      (attrs resource : List (Key × Json)) (k : Str) (v : Json)
      → to_map (get_or_null (codes "attributes") d) ≡ ok attrs
      → to_map (get_or_null (codes "resource") d) ≡ ok resource
      → Holds norm k v attrs
      → Free resource_norm (norm k) resource
      → member (norm k) reserved ≡ false
      → get (norm k) row.payload ≡ some v
  unfolding claude_row
  claude_row-attribute attrs resource k v attrs_read resource_read held free unreserved =
      let e1 = rw (attrs_read, resource_read, claude_row) at built in
      let (tool, mapped, e3) =
        bind-eq-ok (need key_error (get (claude_service rt resource) rt.service_tool_map)) _ e1 in
      let (timestamp, _, e4) = bind-eq-ok (claude_timestamp rt attrs d) _ e3 in
      let (payload, kept, e5) = bind-eq-ok (claude_payload attrs resource d body) _ e4 in
      subst (λ (r : Row). get (norm k) r.payload ≡ some v) (ok-injective e5)
        (get-claude_payload attrs resource d body payload kept k v held free unreserved)
