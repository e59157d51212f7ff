-- ===== src/CwlSplit/Reingest.antt =====
-- `_reingest`, over the delivery stream as a service.
pub mod Contract
pub mod Delivery
use telemetry_platform.Base.{
  ℕ, zero, suc, ◌+◌, ◌/◌, Bool, true, false, Option, none, some, List, [], ◌∷◌, if◌then◌else◌,
  nat_beq, Str, Exc, Outcome, ok, raised, need, key_error, index_error, runtime_error, ◌>>=◌,
  length, take, drop,
}
use telemetry_platform.CwlSplit.Runtime.{Bytes}

-- A PutRecordBatch response: FailedPutCount (0 where it is missing) and RequestResponses, each with
-- its ErrorCode.
pub record PutResponse : Type 0 where
  pub failed_put_count : ℕ
  pub request_responses : Option (List (Option Str))

-- boto3's Firehose client, bound to the delivery stream.
pub record Firehose : Type 1 where
  pub Stream : Type 0
  pub put_record_batch : List Bytes → Stream → Outcome PutResponse × Stream

-- AWS PutRecordBatch hard limit.
abbrev pub put_record_batch_max : ℕ
put_record_batch_max = 500

-- res.get("ErrorCode") is truthy
abbrev pub has_error : Option Str → Bool
has_error none = false
has_error (some []) = false
has_error (some (c ∷ s)) = true

-- [pending[i] for i, res in enumerate(results) if res.get("ErrorCode")]
unfoldable pub still_pending : List Bytes → List (Option Str) → Outcome (List Bytes)
still_pending ps [] = ok []
still_pending [] (res ∷ results) =
    let rest = still_pending [] results in if has_error res then raised index_error else rest
still_pending (p ∷ ps) (res ∷ results) =
    let rest = still_pending ps results in
    if has_error res then (rest >>= λ qs. ok (p ∷ qs)) else rest

module _ (fh : Firehose) where
  open fh use {Stream, put_record_batch}

  -- The attempts on one chunk, `left` of them to go.
  unfoldable pub send : ℕ → List Bytes → Stream → Outcome (Unit {0}) × Stream
  unfolding still_pending
  send zero pending s = (ok tt, s)
  send (suc left) pending s =
      let (r, s') = put_record_batch pending s in
      elim r [
        | raised e ↦ (raised e, s')
        | ok response ↦ elim (nat_beq response.failed_put_count 0) [
          | true ↦ (ok tt, s')
          | false ↦ elim (need key_error response.request_responses >>= still_pending pending) [
            | raised e ↦ (raised e, s')
            | ok failed ↦ elim (nat_beq left 0) [
              | true ↦ (raised runtime_error, s')
              | false ↦ send left failed s'
            ]
          ]
        ]
      ]

  -- The loop over the chunks, `rounds` of them to go.
  unfoldable pub send_chunks : ℕ → ℕ → List Bytes → Stream → Outcome (Unit {0}) × Stream
  unfolding send take drop
  send_chunks attempts zero records s = (ok tt, s)
  send_chunks attempts (suc rounds) records s =
      let (r, s') = send attempts (take records put_record_batch_max) s in
      elim r [
        | raised e ↦ (raised e, s')
        | ok done ↦ send_chunks attempts rounds (drop records put_record_batch_max) s'
      ]

  -- _reingest, with _REINGEST_MAX_ATTEMPTS attempts
  unfoldable pub reingest : ℕ → List Bytes → Stream → Outcome (Unit {0}) × Stream
  unfolding send_chunks
  reingest attempts records s = send_chunks attempts ((length records + 499) / 500) records s
