-- ===== src/CwlSplit/Claude.antt =====
-- Structured OTLP log records: `_to_map`, `_norm`, `_record_timestamp_iso`, `_reshape_claude`.
pub mod Lossless
use telemetry_platform.Base.{
  ℕ, Bool, true, false, Option, none, some, List, [], ◌∷◌, ◌++◌, if◌then◌else◌, Str, codes, ◌==◌,
  replace_char, Exc, Outcome, ok, raised, need, value_error, type_error, attribute_error, key_error,
  ◌>>=◌,
}
use telemetry_platform.Base.Dict.{Dict, get, put}
use telemetry_platform.Json.{
  Json, null, bool, int, float, str, arr, obj, Items, nil, cons, Fields, end, field, items, fields,
  truthy, get_or_null, as_dict,
}
use telemetry_platform.CwlSplit.Runtime.{Runtime, Row, Bytes, py_str, py_int_of, is_scalar, render}

-- A key of a flattened block: a text, or `none` for another hashable value.
abbrev pub Key : Type 0
Key = Option Str

-- item["key"] as a dict key: lists and dicts are not hashable.
unfoldable pub hash_key : Json → Outcome Key
hash_key (str s) = ok (some s)
hash_key (arr vs) = raised type_error
hash_key (obj fs) = raised type_error
hash_key v = ok none

abbrev same_key : Key → Key → Bool
same_key (some j) (some k) = j == k
same_key _ _ = false

-- flat[key] = v
unfoldable pub put_key : Key → Json → List (Key × Json) → List (Key × Json)
put_key k v [] = (k, v) ∷ []
put_key k v ((j, w) ∷ d) = if same_key j k then (j, v) ∷ d else (j, w) ∷ put_key k v d

-- next(iter(raw.values())) of a dict that is not empty, else the value itself
unfoldable pub unwrap_value : Json → Json
unwrap_value (obj (field k v fs)) = v
unwrap_value v = v

-- The loop of `_to_map` over a list of key-value items.
unfoldable pub flatten_items : List (Key × Json) → List Json → Outcome (List (Key × Json))
unfolding hash_key put_key unwrap_value get_or_null
flatten_items flat [] = ok flat
flatten_items flat (obj fs ∷ rest) =
    let skip = flatten_items flat rest in
    let keep = λ (k : Key).
      flatten_items (put_key k (unwrap_value (get_or_null (codes "value") (fields fs))) flat)
        rest in
    elim (get (codes "key") (fields fs)) [ none ↦ skip | some v ↦ hash_key v >>= keep ]
flatten_items flat (item ∷ rest) = flatten_items flat rest

abbrev keyed : Dict Json → List (Key × Json)
keyed [] = []
keyed ((k, v) ∷ d) = (some k, v) ∷ keyed d

-- _to_map
unfoldable pub to_map : Json → Outcome (List (Key × Json))
unfolding flatten_items
to_map (obj fs) = ok (keyed (fields fs))
to_map (arr vs) = flatten_items [] (items vs)
to_map v = ok []

-- d.get(k) on a flattened block
unfoldable pub get_key : Str → List (Key × Json) → Json
get_key k [] = null
get_key k ((j, v) ∷ d) = if same_key j (some k) then v else get_key k d

-- _norm
unfoldable pub norm : Str → Str
unfolding replace_char
norm = replace_char b'.' b'_'

-- f"resource_{_norm(key)}"
abbrev pub resource_norm : Str → Str
resource_norm k = codes "resource_" ++ norm k

-- `for key, val in block.items(): payload[rename(key)] = val`; a key that is no text has no
-- `replace`.
unfoldable pub add_block : (Str → Str) → List (Key × Json) → Dict Json → Outcome (Dict Json)
add_block rename [] payload = ok payload
add_block rename ((none, v) ∷ d) payload = raised attribute_error
add_block rename ((some k, v) ∷ d) payload = add_block rename d (put (rename k) v payload)

-- payload[k] = v, if v is not None
unfoldable pub put_present : Str → Json → Dict Json → Dict Json
put_present k null payload = payload
put_present k v payload = put k v payload

unfoldable pub add_scope : Json → Dict Json → Dict Json
unfolding put_present get_or_null
add_scope (obj fs) payload =
    put_present (codes "otel_scope_version") (get_or_null (codes "version") (fields fs))
      (put_present (codes "otel_scope_name") (get_or_null (codes "name") (fields fs)) payload)
add_scope scope payload = payload

-- payload, with the body and the scope
unfoldable pub claude_payload :
    List (Key × Json) → List (Key × Json) → Dict Json → Str → Outcome (Dict Json)
unfolding add_block norm add_scope get_or_null truthy
claude_payload attrs resource d body = do
  with_attrs ← add_block norm attrs []
  with_resource ← add_block resource_norm resource with_attrs
  let scope = get_or_null (codes "scope") d
  ok (
      add_scope (if truthy scope then scope else get_or_null (codes "instrumentationScope") d)
        (put (codes "otel_body") (str body) with_resource))

module _ (rt : Runtime) where
  -- The loop of `_record_timestamp_iso`.
  unfoldable pub timestamp_from : List Str → Dict Json → Outcome (Option Str)
  unfolding get_or_null py_int_of
  timestamp_from [] d = ok none
  timestamp_from (k ∷ ks) d =
      let raw = get_or_null k d in
      let next = timestamp_from ks d in
      if is_scalar raw
      then elim (py_int_of rt raw) [
        | ok nanos ↦ rt.iso_utc 1000000000 nanos >>= λ s. ok (some s)
        | raised value_error ↦ next
        | raised e ↦ raised e
      ]
      else next

  -- _record_timestamp_iso
  unfoldable pub record_timestamp_iso : Dict Json → Outcome (Option Str)
  unfolding timestamp_from
  record_timestamp_iso = timestamp_from (
      codes "timeUnixNano"
      ∷ codes "observedTimeUnixNano"
      ∷ codes "time_unix_nano"
      ∷ codes "time"
      ∷ [])

  -- `… or _now_iso()` on an optional text
  abbrev or_now : Option Str → Str
  or_now none = rt.now_iso
  or_now (some []) = rt.now_iso
  or_now (some s) = s

  -- str(attrs.get("event.timestamp") or _record_timestamp_iso(obj) or _now_iso())
  unfoldable pub claude_timestamp : List (Key × Json) → Dict Json → Outcome Str
  unfolding record_timestamp_iso py_str truthy get_key
  claude_timestamp attrs d =
      let given = get_key (codes "event.timestamp") attrs in
      if truthy given
      then ok (py_str rt given)
      else record_timestamp_iso d >>= λ found. ok (or_now found)

  -- str(attrs.get("event.name") or body or _EVENT_TYPE_FALLBACK)
  unfoldable pub claude_event_type : List (Key × Json) → Str → Str
  unfolding py_str truthy get_key
  claude_event_type attrs body =
      let given = get_key (codes "event.name") attrs in
      if truthy given then py_str rt given else if truthy (str body) then body else codes "unknown"

  -- str(resource.get("service.name", ""))
  unfoldable pub claude_service : List (Key × Json) → Str
  unfolding py_str
  claude_service [] = []
  claude_service ((j, v) ∷ d) =
      if same_key j (some (codes "service.name")) then py_str rt v else claude_service d

  -- The row of `_reshape_claude`, before it is dumped.
  unfoldable pub claude_row : Dict Json → Str → Outcome Row
  unfolding to_map claude_service claude_event_type claude_timestamp claude_payload get_or_null
  claude_row d body = do
    attrs ← to_map (get_or_null (codes "attributes") d)
    resource ← to_map (get_or_null (codes "resource") d)
    tool ← need key_error (get (claude_service resource) rt.service_tool_map)
    timestamp ← claude_timestamp attrs d
    payload ← claude_payload attrs resource d body
    ok (record {
      timestamp = timestamp;
      tool = tool;
      event_type = claude_event_type attrs body;
      payload = payload;
    })

  -- _reshape_claude
  unfoldable pub reshape_claude : Dict Json → Str → Outcome Bytes
  unfolding claude_row render
  reshape_claude d body = claude_row d body >>= render rt
