-- ===== src/CwlSplit/Handler/Fallback.antt =====
-- What becomes of messages with an unmapped service, of metrics events with no metric, and of all
-- messages when the retry budget is zero.
use telemetry_platform.Base.{
  ℕ, zero, suc, ◌+◌, ◌/◌, ◌≡◌, refl, true, false, none, some, List, [], ◌∷◌, Str, codes, encode,
  Exc, ok, raised, key_error, ◌>>=◌, arith, Outcome-cases, inl, inr, length,
}
use telemetry_platform.Base.Dict.{Dict, get}
use telemetry_platform.Json.{Json, obj, Fields, fields, get_or_null}
use telemetry_platform.CwlSplit.Runtime.{Runtime, Bytes, encode_utf8}
use telemetry_platform.CwlSplit.Claude.{Key, to_map, claude_service, claude_row, reshape_claude}
use telemetry_platform.CwlSplit.Emf.{
  aws_map, metric_by_name, emf_service, emf_timestamp_iso, emf_rows, reshape_emf, metric_rows,
  render_all,
}
use telemetry_platform.CwlSplit.Classify.{
  text_of, is_structured, is_emf, reshape_object, reshape_message, reshape_value, reshape_records,
  diagnostic_service_name,
}
use telemetry_platform.CwlSplit.Reingest.{Firehose, send, send_chunks, reingest}
use telemetry_platform.CwlSplit.Handler.{
  Input, dropped, is_gzip, events_of, isolated_records, reingest_any, deliver, transform,
}

module _ (rt : Runtime) (message : Str) (fs : Fields) (original : Bytes)
    (parsed : rt.loads message ≡ ok (obj fs)) (encoded : encode message ≡ some original) where
  recovers :
      (e : Exc)
      → reshape_records rt message ≡ raised e
      → isolated_records rt message ≡ ok (original ∷ [])
  unfolding isolated_records diagnostic_service_name encode_utf8
  recovers e bad = ground arith

  unmapped_raises :
      (body : Str) (resource : List (Key × Json))
      → to_map (get_or_null (codes "resource") (fields fs)) ≡ ok resource
      → get (claude_service rt resource) rt.service_tool_map ≡ none
      → (e : Exc) × (reshape_claude rt (fields fs) body ≡ raised e)
  unfolding reshape_claude claude_row
  unmapped_raises body resource read missing =
      elim (Outcome-cases (to_map (get_or_null (codes "attributes") (fields fs)))) [
        | inl (e, bad) ↦ (e, rw (bad, reshape_claude))
        | inr (attrs, fine) ↦ (key_error, rw (fine, read, missing, reshape_claude))
      ]

  -- A structured log record whose service name the registry does not map is re-ingested as the bytes
  -- that were received: no tool is made up for it.
  pub isolated_records-unmapped :
      (resource : List (Key × Json))
      → is_emf (fields fs) ≡ false
      → is_structured (fields fs) ≡ true
      → to_map (get_or_null (codes "resource") (fields fs)) ≡ ok resource
      → get (claude_service rt resource) rt.service_tool_map ≡ none
      → isolated_records rt message ≡ ok (original ∷ [])
  unfolding reshape_records reshape_value reshape_message reshape_object encode_utf8
  isolated_records-unmapped resource no_emf structured read missing =
      let (e, bad) =
        unmapped_raises (text_of (get_or_null (codes "body") (fields fs))) resource read missing in
      recovers e (ground (arith, bad))

  -- A metrics event whose service name the registry does not map is re-ingested as received too.
  pub isolated_records-unmapped_metrics :
      (metrics : Dict (Dict Json))
      → is_emf (fields fs) ≡ true
      → metric_by_name (aws_map (fields fs)) ≡ ok metrics
      → get (emf_service rt (fields fs)) rt.service_tool_map ≡ none
      → isolated_records rt message ≡ ok (original ∷ [])
  unfolding reshape_records reshape_value reshape_emf emf_rows
  isolated_records-unmapped_metrics metrics emf collected missing =
      elim (Outcome-cases (emf_timestamp_iso rt (aws_map (fields fs)))) [
        | inl (e, bad) ↦ recovers e (rw (parsed, emf, bad, reshape_records))
        | inr (time, fine) ↦
            recovers key_error (rw (parsed, emf, fine, collected, missing, reshape_records))
      ]

  -- A mapped metrics event that declares no metric leaves no record at all: neither a row nor the
  -- bytes that were received.
  pub isolated_records-no_metrics :
      (time tool : Str)
      → is_emf (fields fs) ≡ true
      → emf_timestamp_iso rt (aws_map (fields fs)) ≡ ok time
      → metric_by_name (aws_map (fields fs)) ≡ ok []
      → get (emf_service rt (fields fs)) rt.service_tool_map ≡ some tool
      → isolated_records rt message ≡ ok []
  unfolding isolated_records reshape_records reshape_value reshape_emf emf_rows metric_rows
      render_all
  isolated_records-no_metrics time tool emf timed collected mapped =
      let none_left : reshape_records rt message ≡ ok [] =
        rw (parsed, emf, timed, collected, mapped, reshape_records) in
      rw (none_left, isolated_records)

module _ (fh : Firehose) where
  open fh use {Stream}

  send_chunks-zero :
      (rounds : ℕ) (records : List Bytes) (s : Stream)
      → send_chunks fh 0 rounds records s ≡ (ok tt, s)
  unfolding send_chunks send
  send_chunks-zero zero records s = refl
  send_chunks-zero (suc rounds) records s = send_chunks-zero rounds _ s

  reingest_any-zero :
      (rt : Runtime) (events : List Bytes) (s : Stream) → reingest_any rt fh 0 events s ≡ (ok tt, s)
  unfolding reingest_any reingest
  reingest_any-zero rt [] s = refl
  reingest_any-zero rt (b ∷ bs) s = send_chunks-zero ((length (b ∷ bs) + 499) / 500) (b ∷ bs) s

  -- With REINGEST_MAX_ATTEMPTS set to 0 a batch is reported as handled, and its events are put on no
  -- stream: the stream is as it was.
  pub transform-zero_attempts :
      (rt : Runtime) (input : Input) (bytes : Bytes) (events : List Bytes) (s : Stream)
      → rt.b64decode input.payload ≡ ok bytes
      → is_gzip bytes ≡ true
      → (rt.gunzip bytes >>= rt.loads_bytes >>= events_of rt) ≡ ok (some events)
      → transform rt fh 0 input s
        ≡ (ok (record { record_id = input.record_id; result = dropped; payload = none }), s)
  unfolding transform deliver
  transform-zero_attempts rt input bytes events s decoded zipped read =
      rw (decoded, transform)
        (rw zipped (
          rw read
            (rw (reingest_any-zero rt events s, deliver) (rw (reingest_any-zero rt events s)))))
