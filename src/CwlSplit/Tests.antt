-- ===== src/CwlSplit/Tests.antt =====
-- Runs of the transform, and its theorems at concrete inputs.
use telemetry_platform.Base.{
  ◌≡◌, inl, refl, true, false, none, some, List, [], ◌∷◌, map, Str, codes, ◌==◌, member, encode,
  Outcome, ok, raised, runtime_error, All,
}
use telemetry_platform.Base.Dict.{Dict, get, has_key, set_default, Distinct}
use telemetry_platform.Json.{Json, str, fields, get_or_null}
use telemetry_platform.CwlSplit.Runtime.{Row, Bytes}
use telemetry_platform.CwlSplit.Claude.{Key, to_map, norm, claude_service, claude_row}
use telemetry_platform.CwlSplit.Claude.Lossless.{claude_row-tool, claude_row-attribute}
use telemetry_platform.CwlSplit.Emf.{
  emf_rows, emf_service, aws_map, metric_by_name, emf_timestamp_iso,
}
use telemetry_platform.CwlSplit.Emf.Metrics.{
  declared, IsMetricRow, emf_rows-names, emf_rows-columns,
}
use telemetry_platform.CwlSplit.Classify.{is_structured, is_emf}
use telemetry_platform.CwlSplit.Reingest.{reingest}
use telemetry_platform.CwlSplit.Reingest.Delivery.{Delivered, reingest-Delivered}
use telemetry_platform.CwlSplit.Handler.{
  Input, Output, passed, dropped, isolated_records, transform, handler,
}
use telemetry_platform.CwlSplit.Handler.Batch.{
  Readable, owed_all, handler-Delivered, handler-record_ids,
}
use telemetry_platform.CwlSplit.Handler.Isolation.{
  isolated_records-original, isolated_records-total, isolated_records-raised,
}
use telemetry_platform.CwlSplit.Handler.Fallback.{
  isolated_records-unmapped, isolated_records-unmapped_metrics, isolated_records-no_metrics,
  transform-zero_attempts,
}
use telemetry_platform.CwlSplit.Samples.{
  emf_event, empty_event, log_record, surroundings, flaky, got, flaky-IsFaithful,
}

abbrev plain_input : Input
plain_input = record { record_id = codes "1"; payload = codes "{" }

abbrev zipped_input : Input
zipped_input = record { record_id = codes "2"; payload = 0x1f ∷ 0x8b ∷ [] }

abbrev two_inputs : List Input
two_inputs = plain_input ∷ zipped_input ∷ []

abbrev two_outputs : List Output
two_outputs =
    record { record_id = codes "1"; result = passed; payload = some (codes "{") }
    ∷ record { record_id = codes "2"; result = dropped; payload = none }
    ∷ []

-- The first record is refused once, and accepted at the second attempt.
handler_run :
    handler surroundings flaky 2 two_inputs ([], true)
    ≡ (ok two_outputs, (codes "x" ∷ codes "T" ∷ [], false))
unfolding handler get_or_null ◌==◌ get encode
handler_run = refl

reingest-Delivered_example :
    Delivered flaky got (codes "a" ∷ codes "b" ∷ []) ([], true) (codes "b" ∷ codes "a" ∷ [], false)
unfolding reingest
reingest-Delivered_example =
    reingest-Delivered flaky got flaky-IsFaithful 1 (codes "a" ∷ codes "b" ∷ []) ([], true)
      (codes "b" ∷ codes "a" ∷ [], false) refl

handler-Delivered_example :
    Delivered flaky got
      (owed_all surroundings two_inputs)
      ([], true)
      (codes "x" ∷ codes "T" ∷ [], false)
handler-Delivered_example =
    handler-Delivered surroundings flaky got flaky-IsFaithful 1 two_inputs ([], true) _ two_outputs
      handler_run ((λ e. cc e), ((λ e. cc e), tt))

-- The first payload is not gzip; the second reads.
two_inputs_read : All (Readable surroundings flaky 2) two_inputs
unfolding handler get_or_null ◌==◌ get encode
two_inputs_read = (
  (_, refl, λ gz. absurd (cc gz)),
  ((_, refl, λ gz. (some (codes "T" ∷ codes "x" ∷ []), refl)), tt),
)

handler-record_ids_example :
    (outs : List Output) × ((handler surroundings flaky 2 two_inputs ([], true)).0 ≡ ok outs)
    × (map (λ (o : Output). o.record_id) outs ≡ map (λ (i : Input). i.record_id) two_inputs)
handler-record_ids_example =
    handler-record_ids surroundings flaky 2 two_inputs ([], true) two_inputs_read

isolated_records-original_example : isolated_records surroundings (codes "T") ≡ ok (codes "T" ∷ [])
unfolding ◌==◌ encode get has_key
isolated_records-original_example =
    isolated_records-original surroundings (codes "T") (codes "T") refl refl

isolated_records-total_example :
    (bs : List Bytes) × (isolated_records surroundings (codes "U") ≡ ok bs)
unfolding ◌==◌ encode
isolated_records-total_example = isolated_records-total surroundings (codes "U") (codes "U") tt refl

isolated_records-raised_example :
    isolated_records surroundings (codes "deep") ≡ raised runtime_error
unfolding ◌==◌
isolated_records-raised_example =
    isolated_records-raised surroundings (codes "deep") runtime_error refl (λ e. cc e)

isolated_records-unmapped_example : isolated_records surroundings (codes "U") ≡ ok (codes "U" ∷ [])
unfolding ◌==◌ encode is_emf is_structured to_map claude_service get
isolated_records-unmapped_example =
    isolated_records-unmapped surroundings (codes "U") (log_record (codes "new")) (codes "U") refl
      refl ((some (codes "service.name"), str (codes "new")) ∷ []) refl refl refl refl

-- The rows of the metrics event.
abbrev emf_rows_or_none : Outcome (List Row) → List Row
emf_rows_or_none (ok rows) = rows
emf_rows_or_none (raised e) = []

emf_run :
    emf_rows surroundings (fields emf_event)
    ≡ ok (emf_rows_or_none (emf_rows surroundings (fields emf_event)))
unfolding emf_rows get_or_null ◌==◌ get set_default
emf_run = refl

abbrev sample_rows : List Row
sample_rows = emf_rows_or_none (emf_rows surroundings (fields emf_event))

emf_names : map (λ (r : Row). r.event_type) sample_rows ≡ codes "a.b" ∷ codes "c" ∷ []
unfolding emf_rows get_or_null ◌==◌ get set_default
emf_names = refl

emf_rows-names_example :
    Distinct (map (λ (r : Row). r.event_type) sample_rows)
    × ((n : Str)
        → member n (map (λ (r : Row). r.event_type) sample_rows)
          ≡ member n (declared (aws_map (fields emf_event))))
emf_rows-names_example = emf_rows-names surroundings (fields emf_event) sample_rows emf_run

emf_columns_run :
    (tool : Str) × (get (emf_service surroundings (fields emf_event)) surroundings.service_tool_map
      ≡ some tool)
    × All (IsMetricRow (fields emf_event) tool) sample_rows
emf_columns_run = emf_rows-columns surroundings (fields emf_event) sample_rows emf_run

unmapped_metric_run :
    isolated_records (record surroundings { service_tool_map = [] }) (codes "N")
    ≡ ok (codes "N" ∷ [])
unfolding ◌==◌ encode is_emf metric_by_name emf_service get
unmapped_metric_run =
    isolated_records-unmapped_metrics (record surroundings { service_tool_map = [] }) (codes "N")
      empty_event (codes "N") refl refl [] refl refl refl

isolated_records-no_metrics_example : isolated_records surroundings (codes "N") ≡ ok []
unfolding ◌==◌ encode is_emf metric_by_name emf_service get emf_timestamp_iso
isolated_records-no_metrics_example =
    isolated_records-no_metrics surroundings (codes "N") empty_event (codes "N") refl refl
      (codes "1970-01-01T00:00:00Z") (codes "cli-tool") refl refl refl refl

transform-zero_attempts_example :
    transform surroundings flaky 0 zipped_input ([], true)
    ≡ (ok (record { record_id = codes "2"; result = dropped; payload = none }), ([], true))
unfolding handler get_or_null ◌==◌ get encode
transform-zero_attempts_example =
    transform-zero_attempts flaky surroundings zipped_input (0x1f ∷ 0x8b ∷ [])
      (codes "T" ∷ codes "x" ∷ []) ([], true) refl refl refl

abbrev cli_record : Dict Json
cli_record = fields (log_record (codes "cli"))

abbrev row_or_empty : Outcome Row → Row
row_or_empty (ok r) = r
row_or_empty (raised e) = record { timestamp = []; tool = []; event_type = []; payload = [] }

abbrev sample_row : Row
sample_row = row_or_empty (claude_row surroundings cli_record (codes "hi"))

claude_run : claude_row surroundings cli_record (codes "hi") ≡ ok sample_row
unfolding claude_row get_or_null ◌==◌ get
claude_run = refl

claude_row-tool_example :
    (resource : List (Key × Json)) × (to_map (get_or_null (codes "resource") cli_record)
      ≡ ok resource)
    × (get (claude_service surroundings resource) surroundings.service_tool_map
        ≡ some sample_row.tool)
claude_row-tool_example = claude_row-tool surroundings cli_record (codes "hi") sample_row claude_run

claude_row-attribute_example :
    get (norm (codes "user.id")) sample_row.payload ≡ some (str (codes "u1"))
unfolding claude_row get_or_null ◌==◌ get member
claude_row-attribute_example =
    claude_row-attribute surroundings cli_record (codes "hi") sample_row claude_run
      ((some (codes "user.id"), str (codes "u1")) ∷ [])
      ((some (codes "service.name"), str (codes "cli")) ∷ []) (codes "user.id") (str (codes "u1"))
      refl refl (inl (refl, refl, tt)) (refl, tt) refl
