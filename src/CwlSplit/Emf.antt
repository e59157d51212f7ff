-- ===== src/CwlSplit/Emf.antt =====
-- EMF metrics events: `_is_emf_resource_key`, `_emf_timestamp_iso`, `_reshape_emf`.
pub mod Metrics
use telemetry_platform.Base.{
  ℕ, Bool, true, false, ◌||◌, Option, none, some, List, [], ◌∷◌, ◌++◌, if◌then◌else◌, Str, codes,
  ◌==◌, member, starts_with, Exc, Outcome, ok, raised, need, value_error, key_error, ◌>>=◌,
}
use telemetry_platform.Base.Dict.{Dict, get, put, set_default, keys}
use telemetry_platform.Json.{
  Json, null, bool, int, float, str, arr, obj, Items, nil, cons, Fields, end, field, items, fields,
  truthy, get_or_null, as_dict, iterate_or_empty,
}
use telemetry_platform.CwlSplit.Runtime.{Runtime, Row, Bytes, py_str, py_int_of, is_scalar, render}
use telemetry_platform.CwlSplit.Claude.{norm, resource_norm, put_present}

abbrev emf_resource_keys : List Str
emf_resource_keys =
    codes "service.name"
    ∷ codes "service.version"
    ∷ codes "host.arch"
    ∷ codes "host.name"
    ∷ codes "os.type"
    ∷ codes "os.version"
    ∷ codes "os.description"
    ∷ []

-- _is_emf_resource_key
unfoldable pub is_emf_resource_key : Str → Bool
is_emf_resource_key key = member key emf_resource_keys || starts_with key (codes "telemetry.sdk.")

-- The metrics that one entry of `Metrics` adds; the first definition of a name stays.
unfoldable pub add_metric : Dict (Dict Json) → Json → Dict (Dict Json)
unfolding get_or_null
add_metric found (obj fs) = elim (get_or_null (codes "Name") (fields fs)) [
  | str (c ∷ s) ↦ set_default (c ∷ s) (fields fs) found
  | _ ↦ found
]
add_metric found metric = found

unfoldable pub add_metrics : Dict (Dict Json) → List Json → Dict (Dict Json)
unfolding add_metric
add_metrics found [] = found
add_metrics found (m ∷ ms) = add_metrics (add_metric found m) ms

-- The loop over `_aws.CloudWatchMetrics`.
unfoldable pub collect_metrics : Dict (Dict Json) → List Json → Outcome (Dict (Dict Json))
unfolding add_metrics iterate_or_empty get_or_null
collect_metrics found [] = ok found
collect_metrics found (obj fs ∷ rest) =
    let next = λ (ms : List Json). collect_metrics (add_metrics found ms) rest in
    iterate_or_empty (get_or_null (codes "Metrics") (fields fs)) >>= next
collect_metrics found (entry ∷ rest) = collect_metrics found rest

-- metric_by_name
unfoldable pub metric_by_name : Dict Json → Outcome (Dict (Dict Json))
unfolding collect_metrics
metric_by_name aws =
    iterate_or_empty (get_or_null (codes "CloudWatchMetrics") aws) >>= collect_metrics []

-- key in ("_aws", "OTelLib", "Version") or key in metric_names
unfoldable pub is_envelope_key : List Str → Str → Bool
is_envelope_key names key =
    member key (codes "_aws" ∷ codes "OTelLib" ∷ codes "Version" ∷ []) || member key names

abbrev pub emf_norm : Str → Str
emf_norm key = if is_emf_resource_key key then resource_norm key else norm key

-- The loop that fills base_payload.
unfoldable pub base_payload : List Str → Dict Json → Dict Json → Dict Json
unfolding is_envelope_key is_emf_resource_key norm
base_payload names payload [] = payload
base_payload names payload ((key, v) ∷ d) =
    base_payload names (if is_envelope_key names key then payload else put (emf_norm key) v payload)
      d

-- base_payload, with the scope
unfoldable pub emf_base : List Str → Dict Json → Dict Json
unfolding base_payload get_or_null put_present
emf_base names d =
    put_present (codes "otel_scope_name") (get_or_null (codes "OTelLib") d)
      (base_payload names [] d)

-- payload of one metric
unfoldable pub metric_payload : Dict Json → Dict Json → Str → Dict Json → Dict Json
unfolding get_or_null
metric_payload base d name metric = put (codes "otel_signal") (str (codes "metric")) (
    put (codes "metric_type") (str (codes "SUM")) (
      put (codes "unit") (get_or_null (codes "Unit") metric)
        (put (codes "value") (get_or_null name d) base)))

-- The loop that builds the rows.
unfoldable pub metric_rows : Str → Str → Dict Json → Dict Json → Dict (Dict Json) → List Row
unfolding metric_payload
metric_rows timestamp tool base d [] = []
metric_rows timestamp tool base d ((name, metric) ∷ ms) =
    record {
      timestamp = timestamp;
      tool = tool;
      event_type = name;
      payload = metric_payload base d name metric;
    }
    ∷ metric_rows timestamp tool base d ms

-- obj.get("_aws") if it is a dict, else {}
abbrev pub aws_map : Dict Json → Dict Json
aws_map d = elim (get_or_null (codes "_aws") d) [ obj fs ↦ fields fs | _ ↦ [] ]

module _ (rt : Runtime) where
  -- _emf_timestamp_iso
  unfoldable pub emf_timestamp_iso : Dict Json → Outcome Str
  unfolding get_or_null py_int_of
  emf_timestamp_iso aws =
      let raw = get_or_null (codes "Timestamp") aws in
      if is_scalar raw
      then elim (py_int_of rt raw) [
        | ok millis ↦ rt.iso_utc 1000 millis
        | raised value_error ↦ ok rt.now_iso
        | raised e ↦ raised e
      ]
      else ok rt.now_iso

  -- str(obj.get("service.name", ""))
  unfoldable pub emf_service : Dict Json → Str
  unfolding py_str
  emf_service d = elim (get (codes "service.name") d) [ none ↦ [] | some v ↦ py_str rt v ]

  -- The rows of `_reshape_emf`, before they are dumped.
  unfoldable pub emf_rows : Dict Json → Outcome (List Row)
  unfolding emf_timestamp_iso metric_by_name emf_base emf_service metric_rows
  emf_rows d = do
    timestamp ← emf_timestamp_iso (aws_map d)
    metrics ← metric_by_name (aws_map d)
    tool ← need key_error (get (emf_service d) rt.service_tool_map)
    ok (metric_rows timestamp tool (emf_base (keys metrics) d) d metrics)

  unfoldable pub render_all : List Row → Outcome (List Bytes)
  render_all [] = ok []
  render_all (r ∷ rs) = let rest = render_all rs in do b ← render rt r; bs ← rest; ok (b ∷ bs)

  -- _reshape_emf
  unfoldable pub reshape_emf : Dict Json → Outcome (List Bytes)
  unfolding emf_rows render_all render
  reshape_emf d = emf_rows d >>= render_all
