-- ===== src/CwlSplit/Handler/Isolation.antt =====
-- One message of a batch: what passes through unchanged, and when a message can end the batch.
use telemetry_platform.Base.{
  ◌≡◌, ◌≢◌, true, some, List, [], ◌∷◌, Str, codes, encode, Exc, Outcome, ok, raised, value_error,
  ◌>>=◌, arith, Outcome-cases, inl, inr,
}
use telemetry_platform.Base.Dict.{has_key}
use telemetry_platform.Json.{Json, obj, fields}
use telemetry_platform.CwlSplit.Runtime.{Runtime, Bytes, encode_utf8}
use telemetry_platform.CwlSplit.Classify.{
  is_structured, is_emf, reshape_object, reshape_message, reshape_value, reshape_records,
  diagnostic_service_name,
}
use telemetry_platform.CwlSplit.Handler.{isolated_records}

-- A parsed message that is no object, or that names its own tool.
abbrev pub IsBodyContract : Json → Type 0
IsBodyContract (obj fs) = has_key (codes "tool") (fields fs) ≡ true
IsBodyContract v = Unit

-- What `json.loads` says of a message that is to pass through.
abbrev pub PassesThrough : Outcome Json → Type 0
PassesThrough (ok v) = IsBodyContract v
PassesThrough (raised e) = e ≡ value_error

-- The parser returned, or raised the one exception that the code catches.
abbrev pub ParsesOrValueError : Outcome Json → Type 0
ParsesOrValueError (ok v) = Unit
ParsesOrValueError (raised e) = e ≡ value_error

module _ (rt : Runtime) (message : Str) where
  reshape_value-original :
      (v : Json) (original : Bytes)
      → IsBodyContract v
      → rt.loads message ≡ ok v
      → encode message ≡ some original
      → reshape_value rt message v ≡ ok (original ∷ [])
  unfolding reshape_value reshape_message reshape_object is_emf is_structured encode_utf8
  reshape_value-original (obj fs) original h p e = ground arith
  reshape_value-original v original h p e = ground arith

  -- A message that is no JSON, no JSON object, or an object with a top-level `tool` is re-ingested
  -- as the bytes that were received.
  pub isolated_records-original :
      (original : Bytes)
      → PassesThrough (rt.loads message)
      → encode message ≡ some original
      → isolated_records rt message ≡ ok (original ∷ [])
  unfolding isolated_records reshape_records reshape_message encode_utf8
  isolated_records-original original h e = elim (Outcome-cases (rt.loads message)) [
    | inl (x, bad) ↦
        let caught = rw bad at h in
        let known : rt.loads message ≡ raised value_error = rw (← caught) bad in ground arith
    | inr (v, parsed) ↦
        let records : reshape_records rt message ≡ ok (original ∷ []) =
          rw (parsed, reshape_records)
            (reshape_value-original v original (rw parsed at h) parsed e) in
        rw (records, isolated_records)
  ]

  recovers :
      (original : Bytes)
      → ParsesOrValueError (rt.loads message)
      → encode message ≡ some original
      → (diagnostic_service_name rt message >>= λ _. encode_utf8 message >>= λ b. ok (b ∷ []))
        ≡ ok (original ∷ [])
  unfolding diagnostic_service_name encode_utf8
  recovers original h e = elim (Outcome-cases (rt.loads message)) [
    | inl (x, bad) ↦
        let known : rt.loads message ≡ raised value_error = rw (← rw bad at h) bad in ground arith
    | inr (v, parsed) ↦ ground arith
  ]

  -- A message that can be encoded, and whose parse returns or raises ValueError, gives records
  -- whatever it holds: it never ends the batch.
  pub isolated_records-total :
      (original : Bytes)
      → ParsesOrValueError (rt.loads message)
      → encode message ≡ some original
      → (bs : List Bytes) × (isolated_records rt message ≡ ok bs)
  unfolding isolated_records diagnostic_service_name encode_utf8
  isolated_records-total original h e = elim (Outcome-cases (reshape_records rt message)) [
    | inl (x, bad) ↦ (original ∷ [], rw (bad, isolated_records) (recovers original h e))
    | inr (bs, fine) ↦ (bs, rw (fine, isolated_records))
  ]

  -- When the parser raises anything but ValueError, such as RecursionError, the exception leaves the
  -- `except` block that was to contain it.
  pub isolated_records-raised :
      (e : Exc)
      → rt.loads message ≡ raised e
      → e ≢ value_error
      → isolated_records rt message ≡ raised e
  unfolding isolated_records reshape_records diagnostic_service_name
  isolated_records-raised e p h = ground arith
