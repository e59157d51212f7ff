-- ===== src/CwlSplit/Handler/Batch.antt =====
-- What one invocation of `handler` returns and what it has re-ingested.
use telemetry_platform.Base.{
  ℕ, suc, ◌≡◌, ◌≢◌, refl, ap, true, false, Option, none, some, List, [], ◌∷◌, ◌++◌, map, ok, raised,
  ◌>>=◌, All, arith, Bool-cases, Answer-cases, Outcome-cases, inl, inr, append-nil,
}
use mathlib.Core.List.Perm
use telemetry_platform.CwlSplit.Runtime.{Runtime, Bytes}
use telemetry_platform.CwlSplit.Reingest.{Firehose}
use telemetry_platform.CwlSplit.Reingest.Contract.{IsFaithful}
use telemetry_platform.CwlSplit.Reingest.Delivery.{Delivered, Delivered-trans, reingest-Delivered}
use telemetry_platform.CwlSplit.Handler.{
  Input, Output, processing_failed, is_gzip, events_of, reingest_any, deliver, transform, handler,
}

module _ (rt : Runtime) where
  abbrev wanted : Option (List Bytes) → List Bytes
  wanted none = []
  wanted (some events) = events

  -- The records that an input batches, for the stream to get one by one.
  unfoldable pub owed : Input → List Bytes
  unfolding is_gzip events_of
  owed input = elim (rt.b64decode input.payload) [
    | raised e ↦ []
    | ok bytes ↦ elim (is_gzip bytes) [
      | false ↦ []
      | true ↦ elim (rt.gunzip bytes >>= rt.loads_bytes >>= events_of rt) [
        | raised e ↦ []
        | ok events ↦ wanted events
      ]
    ]
  ]

  abbrev pub owed_all : List Input → List Bytes
  owed_all [] = []
  owed_all (input ∷ inputs) = owed input ++ owed_all inputs

  module _ (fh : Firehose) (accepted : Firehose.Stream fh → List Bytes)
      (faithful : IsFaithful fh accepted) (left : ℕ) where
    open fh use {Stream}

    reingest_any-Delivered :
        (events : List Bytes) (s s' : Stream)
        → reingest_any rt fh (suc left) events s ≡ (ok tt, s')
        → Delivered fh accepted events s s'
    unfolding reingest_any
    reingest_any-Delivered [] s s' e = rw (← ap (λ r. r.1) e, append-nil) (Perm.refl _)
    reingest_any-Delivered (b ∷ bs) s s' e =
        reingest-Delivered fh accepted faithful left (b ∷ bs) s s' e

    deliver-Delivered :
        (input : Input) (events : Option (List Bytes)) (s s' : Stream) (out : Output)
        → deliver rt fh (suc left) input events s ≡ (ok out, s')
        → out.result ≢ processing_failed
        → Delivered fh accepted (wanted events) s s'
    unfolding deliver
    deliver-Delivered input none s s' out e fine = rw (← ap (λ r. r.1) e, append-nil) (Perm.refl _)
    deliver-Delivered input (some events) s s' out e fine =
        elim (Answer-cases (reingest_any rt fh (suc left) events s)) [
          | inl (x, bad) ↦ let stop = rw (bad, deliver) at e in absurd (fine (ground arith))
          | inr (x, sent) ↦
              let after = rw (sent, deliver) at e in
              rw (← ap (λ r. r.1) after) (reingest_any-Delivered events s _ sent)
        ]

    transform-Delivered :
        (input : Input) (s s' : Stream) (out : Output)
        → transform rt fh (suc left) input s ≡ (ok out, s')
        → out.result ≢ processing_failed
        → Delivered fh accepted (owed input) s s'
    unfolding transform owed
    transform-Delivered input s s' out e fine = elim (Outcome-cases (rt.b64decode input.payload)) [
      | inl (x, bad) ↦ let stop = rw (bad, transform) at e in cc
      | inr (bytes, decoded) ↦
          let e1 = rw (decoded, transform) at e in
          elim (Bool-cases (is_gzip bytes)) [
            | inr plain ↦
                let e2 = rw plain at e1 in
                rw (decoded, owed) (rw plain (rw (← ap (λ r. r.1) e2, append-nil) (Perm.refl _)))
            | inl zipped ↦
                let e2 = rw zipped at e1 in
                elim (Outcome-cases (rt.gunzip bytes >>= rt.loads_bytes >>= events_of rt)) [
                  | inl (x, bad) ↦ let stop = rw bad at e2 in cc
                  | inr (events, read) ↦
                      let e3 = rw read at e2 in
                      rw (decoded, owed)
                        (rw zipped (rw read (deliver-Delivered input events s s' out e3 fine)))
                ]
          ]
    ]

    -- If `handler`, with at least one attempt to re-ingest, returns and reports no record as failed,
    -- then a Firehose that answers for each record of a call, counts the failed ones and accepts the
    -- others has accepted each of the records that the inputs batch exactly once, and nothing else.
    pub handler-Delivered :
        (inputs : List Input) (s s' : Stream) (outs : List Output)
        → handler rt fh (suc left) inputs s ≡ (ok outs, s')
        → All (λ o. o.result ≢ processing_failed) outs
        → Delivered fh accepted (owed_all inputs) s s'
    unfolding handler
    handler-Delivered [] s s' outs e fine = rw (← ap (λ r. r.1) e, append-nil) (Perm.refl _)
    handler-Delivered (input ∷ inputs) s s' outs e fine =
        elim (Answer-cases (transform rt fh (suc left) input s)) [
          | inl (x, bad) ↦ let stop = rw (bad, handler) at e in cc
          | inr (out, first) ↦
              let e1 = rw (first, handler) at e in
              elim (Answer-cases
                (handler rt fh (suc left) inputs (transform rt fh (suc left) input s).1)) [
                  | inl (x, bad) ↦ let stop = rw bad at e1 in cc
                  | inr (rest, later) ↦
                      let e2 = rw later at e1 in
                      let listed : out ∷ rest ≡ outs = ground arith in
                      let (here, there) = rw (← listed) at fine in
                      Delivered-trans fh accepted (owed input) (owed_all inputs) s _ s'
                        (transform-Delivered input s _ out first here)
                        (handler-Delivered inputs _ s' rest (rw (← ap (λ r. r.1) e2) later) there)
                ]
        ]

  module _ (fh : Firehose) (attempts : ℕ) where
    open fh use {Stream}

    -- The payload decodes, and if it is gzip, its envelope reads and gives its records.
    abbrev pub Readable : Input → Type 0
    Readable input =
        (bytes : Bytes) × (rt.b64decode input.payload ≡ ok bytes)
        × (is_gzip bytes ≡ true
            → (events : Option (List Bytes)) × ((rt.gunzip bytes
                  >>= rt.loads_bytes
                  >>= events_of rt)
                ≡ ok events))

    deliver-record_id :
        (input : Input) (events : Option (List Bytes)) (s : Stream)
        → (out : Output) × ((deliver rt fh attempts input events s).0 ≡ ok out)
          × (out.record_id ≡ input.record_id)
    unfolding deliver
    deliver-record_id input none s = (_, refl, refl)
    deliver-record_id input (some events) s =
        elim (Answer-cases (reingest_any rt fh attempts events s)) [
          | inl (x, bad) ↦ rw (bad, deliver) (_, refl, refl)
          | inr (x, sent) ↦ rw (sent, deliver) (_, refl, refl)
        ]

    transform-record_id :
        (input : Input) (s : Stream)
        → Readable input
        → (out : Output) × ((transform rt fh attempts input s).0 ≡ ok out)
          × (out.record_id ≡ input.record_id)
    unfolding transform
    transform-record_id input s (bytes, decoded, zipped) = elim (Bool-cases (is_gzip bytes)) [
      | inr plain ↦ rw (decoded, transform) (rw plain (_, refl, refl))
      | inl gz ↦
          let (events, read) = zipped gz in
          rw (decoded, transform) (rw gz (rw read (deliver-record_id input events s)))
    ]

    -- If every payload decodes, and the envelope of every gzip payload reads and gives its records,
    -- `handler` returns, whatever the re-ingestion does, and answers each input once, in order, under
    -- its own record id.
    pub handler-record_ids :
        (inputs : List Input) (s : Stream)
        → All Readable inputs
        → (outs : List Output) × ((handler rt fh attempts inputs s).0 ≡ ok outs)
          × (map (λ o. o.record_id) outs ≡ map (λ i. i.record_id) inputs)
    unfolding handler
    handler-record_ids [] s readable = ([], refl, refl)
    handler-record_ids (input ∷ inputs) s (here, there) =
        let (out, did, same) = transform-record_id input s here in
        let t = (transform rt fh attempts input s).1 in
        let (outs, later, ids) = handler-record_ids inputs t there in
        (out ∷ outs, rw (did, handler) (rw later refl), cc (same, ids))
