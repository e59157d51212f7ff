-- ===== src/CwlSplit/Reingest/Delivery.antt =====
-- `_reingest` hands every record over, once.
use telemetry_platform.Base.{
  ℕ, zero, suc, ◌*◌, ◌≤◌, ◌≡◌, ap, true, false, List, [], ◌∷◌, ◌++◌, nat_beq, ok, need, key_error,
  ◌>>=◌, length, take, drop, take-drop, length-drop, arith, Bool-cases, inl, inr, append_assoc,
  append-nil, Answer-cases, Outcome-cases,
}
use mathlib.Core.List.{Perm}
use mathlib.Core.List.Perm
use telemetry_platform.CwlSplit.Runtime.{Bytes}
use telemetry_platform.CwlSplit.Reingest.{
  Firehose, PutResponse, still_pending, send, send_chunks, reingest, put_record_batch_max,
}
use telemetry_platform.CwlSplit.Reingest.Contract.{
  IsFaithful, accepted_of, accepted_of-eq_self, still_pending-perm,
}

module _ (fh : Firehose) (accepted : Firehose.Stream fh → List Bytes) where
  open fh use {Stream, put_record_batch}

  -- Exactly the records in `ps` were added.
  abbrev pub Delivered : List Bytes → Stream → Stream → Type 0
  Delivered ps s s' = Perm (accepted s') (accepted s ++ ps)

  pub Delivered-trans :
      (ps qs : List Bytes) (s t u : Stream)
      → Delivered ps s t
      → Delivered qs t u
      → Delivered (ps ++ qs) s u
  Delivered-trans ps qs s t u h k =
      Perm.trans k (rw (← append_assoc (accepted s) ps qs) (Perm.append_right qs h))

  module _ (faithful : IsFaithful fh accepted) where
    -- A call with no failed record delivers the chunk.
    settled :
        (ps : List Bytes) (s s' : Stream) (response : PutResponse)
        → put_record_batch ps s ≡ (ok response, s')
        → nat_beq response.failed_put_count 0 ≡ true
        → Delivered ps s s'
    settled ps s s' response e none_failed =
        let a = faithful.answered ps s response s' e in
        let whole = accepted_of-eq_self ps a.results a.one_each (ground (arith, a.counted)) in
        rw (a.taken, whole) (Perm.refl _)

    -- A call with failed records delivers the others.
    partly_settled :
        (ps qs : List Bytes) (s s' : Stream) (response : PutResponse)
        → put_record_batch ps s ≡ (ok response, s')
        → (need key_error response.request_responses >>= still_pending ps) ≡ ok qs
        → Perm (accepted s' ++ qs) (accepted s ++ ps)
    partly_settled ps qs s s' response e failed =
        let a = faithful.answered ps s response s' e in
        let left = still_pending-perm ps a.results qs a.one_each (rw a.listed at failed) in
        rw (a.taken, append_assoc (accepted s) (accepted_of ps a.results) qs)
          (Perm.append (Perm.refl (accepted s)) left)

    -- One attempt, given what the later ones deliver.
    attempt-Delivered :
        (left : ℕ) (ps : List Bytes) (s s' : Stream)
        → ((qs : List Bytes) (t : Stream)
            → nat_beq left 0 ≡ false
            → send fh left qs t ≡ (ok tt, s')
            → Delivered qs t s')
        → send fh (suc left) ps s ≡ (ok tt, s')
        → Delivered ps s s'
    unfolding send
    attempt-Delivered left ps s s' later h = elim (Answer-cases (put_record_batch ps s)) [
      | inl (e, put) ↦ let bad = rw (put, send) at h in cc
      | inr (response, put) ↦
          let after = rw (put, send) at h in
          elim (Bool-cases (nat_beq response.failed_put_count 0)) [
            | inl fine ↦
                let same = rw fine at after in
                rw (← ap (λ r. r.1) same) (settled ps s _ response put fine)
            | inr some_failed ↦
                let more = rw some_failed at after in
                elim (Outcome-cases
                  (need key_error response.request_responses >>= still_pending ps)) [
                    | inl (e, bad) ↦ let stop = rw bad at more in cc
                    | inr (qs, failed) ↦
                        let again = rw failed at more in
                        elim (Bool-cases (nat_beq left 0)) [
                          | inl over ↦ let stop = rw over at again in cc
                          | inr on ↦
                              Perm.trans (later qs _ on (rw on at again))
                                (partly_settled ps qs s _ response put failed)
                        ]
                  ]
          ]
    ]

    send-Delivered :
        (left : ℕ) (ps : List Bytes) (s s' : Stream)
        → send fh (suc left) ps s ≡ (ok tt, s')
        → Delivered ps s s'
    send-Delivered zero ps s s' h = attempt-Delivered zero ps s s' (λ qs t over e. cc) h
    send-Delivered (suc left) ps s s' h =
        attempt-Delivered (suc left) ps s s' (λ qs t on e. send-Delivered left qs t s' e) h

    send_chunks-Delivered :
        (left rounds : ℕ) (records : List Bytes) (s s' : Stream)
        → length records ≤ rounds * put_record_batch_max
        → send_chunks fh (suc left) rounds records s ≡ (ok tt, s')
        → Delivered records s s'
    unfolding send_chunks
    send_chunks-Delivered left zero [] s s' h e = rw (← ap (λ r. r.1) e, append-nil) (Perm.refl _)
    send_chunks-Delivered left zero (r ∷ rs) s s' h e = absurd (omega arith)
    send_chunks-Delivered left (suc rounds) records s s' h e =
        elim (Answer-cases (send fh (suc left) (take records put_record_batch_max) s)) [
          | inl (x, bad) ↦ let stop = rw (bad, send_chunks) at e in cc
          | inr (x, first) ↦
              let rest = rw (first, send_chunks) at e in
              rw (← take-drop records put_record_batch_max) (
                Delivered-trans (take records put_record_batch_max)
                  (drop records put_record_batch_max) s _ s' (send-Delivered left _ s _ first)
                  (send_chunks-Delivered left rounds _ _ s'
                    (omega (arith, length-drop records put_record_batch_max)) rest))
        ]

    -- If `_reingest` returns, with at least one attempt allowed, the stream has accepted each record
    -- exactly once, whatever calls failed in between, and nothing else.
    pub reingest-Delivered :
        (left : ℕ) (records : List Bytes) (s s' : Stream)
        → reingest fh (suc left) records s ≡ (ok tt, s')
        → Delivered records s s'
    unfolding reingest
    reingest-Delivered left records s s' e =
        send_chunks-Delivered left _ records s s' (omega arith) e
