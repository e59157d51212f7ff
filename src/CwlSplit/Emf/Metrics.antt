-- ===== src/CwlSplit/Emf/Metrics.antt =====
-- The rows of an EMF metrics event against the metrics that it declares.
use telemetry_platform.Base.{
  ◌≡◌, refl, ap, subst, ◌||◌, some, List, [], ◌∷◌, ◌++◌, map, Str, codes, ◌==◌, member, Outcome, ok,
  raised, need, key_error, need-eq-ok, bind-eq-ok, arith, All,
}
use telemetry_platform.Base.Dict.{
  Dict, get, get-put, keys, Distinct, set_default-Distinct, member-keys-set_default,
}
use telemetry_platform.Json.{Json, str, obj, fields, get_or_null, iterate_or_empty}
use telemetry_platform.CwlSplit.Runtime.{Runtime, Row}
use telemetry_platform.CwlSplit.Emf.{
  add_metric, add_metrics, collect_metrics, metric_by_name, metric_payload, metric_rows, emf_rows,
  emf_service, emf_timestamp_iso, emf_base, aws_map,
}

-- The name that an entry of `Metrics` declares, if it declares one.
unfoldable pub declared_name : Json → List Str
unfolding get_or_null
declared_name (obj fs) = elim (get_or_null (codes "Name") (fields fs)) [
  | str (c ∷ s) ↦ (c ∷ s) ∷ []
  | _ ↦ []
]
declared_name v = []

unfoldable pub declared_names : List Json → List Str
unfolding declared_name
declared_names [] = []
declared_names (m ∷ ms) = declared_name m ++ declared_names ms

abbrev entries_or_none : Outcome (List Json) → List Json
entries_or_none (ok vs) = vs
entries_or_none (raised e) = []

-- The entries of `Metrics` of one entry of `CloudWatchMetrics`.
unfoldable pub metrics_of : Json → List Json
unfolding iterate_or_empty get_or_null
metrics_of (obj fs) = entries_or_none (iterate_or_empty (get_or_null (codes "Metrics") (fields fs)))
metrics_of v = []

-- All names declared in `CloudWatchMetrics`, in order and with repetitions.
unfoldable pub declared_in : List Json → List Str
unfolding declared_names metrics_of
declared_in [] = []
declared_in (e ∷ es) = declared_names (metrics_of e) ++ declared_in es

unfoldable pub declared : Dict Json → List Str
unfolding declared_in iterate_or_empty get_or_null
declared aws =
    declared_in (entries_or_none (iterate_or_empty (get_or_null (codes "CloudWatchMetrics") aws)))

member-append : (n : Str) (xs ys : List Str) → member n (xs ++ ys) ≡ (member n xs || member n ys)
unfolding member
member-append n [] ys = refl
member-append n (x ∷ xs) ys = ground (arith, member-append n xs ys)

module _ (n : Str) where
  member-add_metric :
      (found : Dict (Dict Json)) (m : Json)
      → member n (keys (add_metric found m)) ≡ (member n (declared_name m) || member n (keys found))
  unfolding add_metric declared_name member
  member-add_metric found (obj fs) = by_name (get_or_null (codes "Name") (fields fs)) refl
    where
      by_name :
          (v : Json)
          → get_or_null (codes "Name") (fields fs) ≡ v
          → member n (keys (add_metric found (obj fs)))
            ≡ (member n (declared_name (obj fs)) || member n (keys found))
      by_name (str (c ∷ s)) e =
          rw (e, add_metric, declared_name)
            (ground (arith, member-keys-set_default (c ∷ s) n (fields fs) found))
      by_name v e = rw (e, add_metric, declared_name) refl
  member-add_metric found m = refl

  member-add_metrics :
      (found : Dict (Dict Json)) (ms : List Json)
      → member n (keys (add_metrics found ms))
        ≡ (member n (declared_names ms) || member n (keys found))
  unfolding add_metrics declared_names member
  member-add_metrics found [] = refl
  member-add_metrics found (m ∷ ms) = ground (
    arith,
    member-add_metrics (add_metric found m) ms,
    member-add_metric found m,
    member-append n (declared_name m) (declared_names ms),
  )

  member-collect_metrics :
      (found metrics : Dict (Dict Json)) (es : List Json)
      → collect_metrics found es ≡ ok metrics
      → member n (keys metrics) ≡ (member n (declared_in es) || member n (keys found))
  unfolding collect_metrics declared_in metrics_of member
  member-collect_metrics found metrics [] h = ground arith
  member-collect_metrics found metrics (obj fs ∷ es) h =
      let (ms, listed, rest) =
        bind-eq-ok (iterate_or_empty (get_or_null (codes "Metrics") (fields fs)))
          (λ ms. collect_metrics (add_metrics found ms) es) h in
      rw (listed, metrics_of)
        (ground (
          arith,
          member-collect_metrics (add_metrics found ms) metrics es rest,
          member-add_metrics found ms,
          member-append n (declared_names ms) (declared_in es),
        ))
  member-collect_metrics found metrics (e ∷ es) h = member-collect_metrics found metrics es h

  member-collected :
      (metrics : Dict (Dict Json)) (es : List Json)
      → collect_metrics [] es ≡ ok metrics
      → member n (keys metrics) ≡ member n (declared_in es)
  unfolding member
  member-collected metrics es h = ground (arith, member-collect_metrics [] metrics es h)

add_metric-Distinct :
    (found : Dict (Dict Json)) (m : Json)
    → Distinct (keys found)
    → Distinct (keys (add_metric found m))
unfolding add_metric
add_metric-Distinct found (obj fs) h = by_name (get_or_null (codes "Name") (fields fs)) refl
  where
    by_name :
        (v : Json)
        → get_or_null (codes "Name") (fields fs) ≡ v
        → Distinct (keys (add_metric found (obj fs)))
    by_name (str (c ∷ s)) e = rw (e, add_metric) (set_default-Distinct (c ∷ s) (fields fs) found h)
    by_name v e = rw (e, add_metric) h
add_metric-Distinct found m h = h

add_metrics-Distinct :
    (found : Dict (Dict Json)) (ms : List Json)
    → Distinct (keys found)
    → Distinct (keys (add_metrics found ms))
unfolding add_metrics
add_metrics-Distinct found [] h = h
add_metrics-Distinct found (m ∷ ms) h =
    add_metrics-Distinct (add_metric found m) ms (add_metric-Distinct found m h)

collect_metrics-Distinct :
    (found metrics : Dict (Dict Json)) (es : List Json)
    → Distinct (keys found)
    → collect_metrics found es ≡ ok metrics
    → Distinct (keys metrics)
unfolding collect_metrics
collect_metrics-Distinct found metrics [] h e = subst_ok found metrics e h
  where
    subst_ok : (a b : Dict (Dict Json)) → ok a ≡ ok b → Distinct (keys a) → Distinct (keys b)
    subst_ok a b e h = let same : a ≡ b = cc in rw (← same) h
collect_metrics-Distinct found metrics (obj fs ∷ es) h e =
    let (ms, _, rest) =
      bind-eq-ok (iterate_or_empty (get_or_null (codes "Metrics") (fields fs)))
        (λ ms. collect_metrics (add_metrics found ms) es) e in
    collect_metrics-Distinct (add_metrics found ms) metrics es (add_metrics-Distinct found ms h)
      rest
collect_metrics-Distinct found metrics (entry ∷ es) h e =
    collect_metrics-Distinct found metrics es h e

-- The columns of a row against its event.
pub record IsMetricRow (d : Dict Json) (tool : Str) (r : Row) : Type 0 where
  pub tool_mapped : r.tool ≡ tool
  pub value : get (codes "value") r.payload ≡ some (get_or_null r.event_type d)
  pub signal : get (codes "otel_signal") r.payload ≡ some (str (codes "metric"))
  pub metric_type : get (codes "metric_type") r.payload ≡ some (str (codes "SUM"))

event_types-metric_rows :
    (timestamp tool : Str) (base d : Dict Json) (ms : Dict (Dict Json))
    → map (λ r. r.event_type) (metric_rows timestamp tool base d ms) ≡ keys ms
unfolding metric_rows
event_types-metric_rows timestamp tool base d [] = refl
event_types-metric_rows timestamp tool base d ((name, m) ∷ ms) =
    ap (λ t. name ∷ t) (event_types-metric_rows timestamp tool base d ms)

metric_payload-columns :
    (base d : Dict Json) (name : Str) (m : Dict Json)
    → (get (codes "value") (metric_payload base d name m) ≡ some (get_or_null name d))
      × (get (codes "otel_signal") (metric_payload base d name m) ≡ some (str (codes "metric")))
      × (get (codes "metric_type") (metric_payload base d name m) ≡ some (str (codes "SUM")))
unfolding metric_payload ◌==◌
metric_payload-columns base d name m = (simp get-put refl, simp get-put refl, simp get-put refl)

metric_rows-IsMetricRow :
    (timestamp tool : Str) (base d : Dict Json) (ms : Dict (Dict Json))
    → All (IsMetricRow d tool) (metric_rows timestamp tool base d ms)
unfolding metric_rows
metric_rows-IsMetricRow timestamp tool base d [] = tt
metric_rows-IsMetricRow timestamp tool base d ((name, m) ∷ ms) =
    let (value, signal, metric_type) = metric_payload-columns base d name m in
    (
      record { tool_mapped = refl; value = value; signal = signal; metric_type = metric_type },
      metric_rows-IsMetricRow timestamp tool base d ms,
    )

module _ (rt : Runtime) (d : Dict Json) (rows : List Row) (built : emf_rows rt d ≡ ok rows) where
  record IsBuilt : Type 0 where
    timestamp : Str
    metrics : Dict (Dict Json)
    tool : Str
    collected : metric_by_name (aws_map d) ≡ ok metrics
    mapped : get (emf_service rt d) rt.service_tool_map ≡ some tool
    listed : metric_rows timestamp tool (emf_base (keys metrics) d) d metrics ≡ rows

  built_parts : IsBuilt
  unfolding emf_rows
  built_parts =
      let (timestamp, _, after_time) = bind-eq-ok (emf_timestamp_iso rt (aws_map d)) _ built in
      let (metrics, collected, after_metrics) =
        bind-eq-ok (metric_by_name (aws_map d)) _ after_time in
      let (tool, mapped, last) =
        bind-eq-ok (need key_error (get (emf_service rt d) rt.service_tool_map)) _ after_metrics in
      record {
        timestamp = timestamp;
        metrics = metrics;
        tool = tool;
        collected = collected;
        mapped = need-eq-ok key_error _ mapped;
        listed = cc last;
      }

  -- A metrics event that is reshaped gives one row for each distinct metric name that
  -- `_aws.CloudWatchMetrics` declares, and no other: no name stands twice, and a name has a row
  -- exactly when it is declared.
  pub emf_rows-names :
      Distinct (map (λ r. r.event_type) rows)
      × ((n : Str) → member n (map (λ r. r.event_type) rows) ≡ member n (declared (aws_map d)))
  unfolding metric_by_name declared
  emf_rows-names =
      let b = built_parts in
      let (entries, listed, collected) =
        bind-eq-ok (iterate_or_empty (get_or_null (codes "CloudWatchMetrics") (aws_map d)))
          (collect_metrics []) b.collected in
      let names : map (λ r. r.event_type) rows ≡ keys b.metrics =
        rw (← b.listed) (event_types-metric_rows b.timestamp b.tool _ d b.metrics) in
      (
        rw names (collect_metrics-Distinct [] b.metrics entries tt collected),
        λ n. rw (names, listed, declared) (member-collected n b.metrics entries collected),
      )

  -- Every row of a metrics event carries the tool that the registry maps the event's service name
  -- to, the event's own value for the row's metric name, and the marks of a summed metric.
  pub emf_rows-columns :
      (tool : Str) × (get (emf_service rt d) rt.service_tool_map ≡ some tool)
      × All (IsMetricRow d tool) rows
  emf_rows-columns =
      let b = built_parts in
      (
        b.tool,
        b.mapped,
        subst (All (IsMetricRow d b.tool)) b.listed
            (metric_rows-IsMetricRow b.timestamp b.tool (emf_base (keys b.metrics) d) d b.metrics),
      )
