-- ===== src/CwlSplit/Handler.antt =====
-- `handler`.
pub mod Batch
pub mod Isolation
pub mod Fallback
use telemetry_platform.Base.{
  ℕ, Bool, true, false, Option, none, some, List, [], ◌∷◌, ◌++◌, if◌then◌else◌, nat_beq, Str, codes,
  ◌==◌, Exc, Outcome, ok, raised, type_error, attribute_error, ◌>>=◌,
}
use telemetry_platform.Base.Dict.{Dict, get}
use telemetry_platform.Json.{
  Json, null, bool, int, float, str, arr, obj, Items, Fields, items, fields, get_or_null,
}
use telemetry_platform.Json
use telemetry_platform.CwlSplit.Runtime.{Runtime, Bytes, py_str, encode_utf8}
use telemetry_platform.CwlSplit.Classify.{reshape_records, diagnostic_service_name}
use telemetry_platform.CwlSplit.Reingest.{Firehose, reingest}

-- One of `event["records"]`.
pub record Input : Type 0 where
  pub record_id : Str
  pub payload : Str

pub data Status : Type 0 where
  passed dropped processing_failed : Status

-- One entry of `output`; a status `Ok` comes with the data.
pub record Output : Type 0 where
  pub record_id : Str
  pub result : Status
  pub payload : Option Str

-- _is_gzip
unfoldable pub is_gzip : Bytes → Bool
is_gzip (a ∷ b ∷ rest) = if nat_beq a 0x1f then nat_beq b 0x8b else false
is_gzip _ = false

module _ (rt : Runtime) where
  -- str(log_event.get("message", ""))
  unfoldable pub log_message : Json → Outcome Str
  unfolding py_str
  log_message (obj fs) = elim (get (codes "message") (fields fs)) [
    | none ↦ ok []
    | some v ↦ ok (py_str rt v)
  ]
  log_message v = raised attribute_error

  -- The records that one message gives: the `try` and its `except`.
  unfoldable pub isolated_records : Str → Outcome (List Bytes)
  unfolding reshape_records diagnostic_service_name encode_utf8
  isolated_records message = elim (reshape_records rt message) [
    | ok bs ↦ ok bs
    | raised e ↦ do
      name ← diagnostic_service_name rt message
      original ← encode_utf8 message
      ok (original ∷ [])
  ]

  -- The loop over the log events.
  unfoldable pub collect_events : List Json → Outcome (List Bytes)
  unfolding log_message isolated_records
  collect_events [] = ok []
  collect_events (log_event ∷ rest) =
      let later = collect_events rest in
      do
        message ← log_message log_event
        bs ← isolated_records message
        more ← later
        ok (bs ++ more)

  -- iter(envelope.get("logEvents", [])); a dict gives its keys, a text its characters, none of which
  -- has a `get`.
  unfoldable pub log_events : Dict Json → Outcome (List Json)
  log_events d = elim (get (codes "logEvents") d) [
    | none ↦ ok []
    | some (arr vs) ↦ ok (items vs)
    | some (obj fs) ↦ ok (Json.keys_of (fields fs))
    | some (str s) ↦ ok (Json.characters s)
    | some v ↦ raised type_error
  ]

  -- envelope.get("messageType") == "CONTROL_MESSAGE"
  unfoldable pub is_control : Dict Json → Bool
  unfolding get_or_null
  is_control d = elim (get_or_null (codes "messageType") d) [
    | str s ↦ s == codes "CONTROL_MESSAGE"
    | _ ↦ false
  ]

  -- What the envelope asks for: nothing (a control message), or these records to re-ingest.
  unfoldable pub events_of : Json → Outcome (Option (List Bytes))
  unfolding is_control log_events collect_events
  events_of (obj fs) =
      if is_control (fields fs)
      then ok none
      else (log_events (fields fs) >>= collect_events >>= λ bs. ok (some bs))
  events_of v = raised attribute_error

  module _ (fh : Firehose) (attempts : ℕ) where
    open fh use {Stream}

    -- `if events: _reingest(events)`
    unfoldable pub reingest_any : List Bytes → Stream → Outcome (Unit {0}) × Stream
    unfolding reingest
    reingest_any [] s = (ok tt, s)
    reingest_any (b ∷ bs) s = reingest fh attempts (b ∷ bs) s

    abbrev done : Input → Status → Output
    done record_in status = record {
      record_id = record_in.record_id;
      result = status;
      payload = none;
    }

    -- The `try` around the re-ingestion.
    unfoldable pub deliver : Input → Option (List Bytes) → Stream → Outcome Output × Stream
    unfolding reingest_any
    deliver input none s = (ok (done input dropped), s)
    deliver input (some events) s =
        let (r, s') = reingest_any events s in
        elim r [
          | ok _ ↦ (ok (done input dropped), s')
          | raised e ↦ (ok (done input processing_failed), s')
        ]

    -- The body of the loop of `handler`.
    unfoldable pub transform : Input → Stream → Outcome Output × Stream
    unfolding is_gzip events_of deliver
    transform input s = elim (rt.b64decode input.payload) [
      | raised e ↦ (raised e, s)
      | ok bytes ↦ elim (is_gzip bytes) [
        | false ↦ (
          ok (record {
            record_id = input.record_id;
            result = passed;
            payload = some input.payload;
          }),
          s,
        )
        | true ↦ elim (rt.gunzip bytes >>= rt.loads_bytes >>= events_of) [
          | raised e ↦ (raised e, s)
          | ok events ↦ deliver input events s
        ]
      ]
    ]

    -- handler: an exception ends the invocation, and what was re-ingested stays so.
    unfoldable pub handler : List Input → Stream → Outcome (List Output) × Stream
    unfolding transform
    handler [] s = (ok [], s)
    handler (input ∷ inputs) s =
        let (r, s') = transform input s in
        elim r [
          | raised e ↦ (raised e, s')
          | ok out ↦
              let (rest, s'') = handler inputs s' in
              elim rest [ raised e ↦ (raised e, s'') | ok outs ↦ (ok (out ∷ outs), s'') ]
        ]
