-- ===== src/CwlSplit/Reingest/Contract.antt =====
-- What `_reingest` relies on of Firehose's PutRecordBatch: an answered call has one response for
-- each record in order, FailedPutCount counts those with an ErrorCode, and the stream accepts the
-- others in order.
use telemetry_platform.Base.{
  ℕ, suc, ◌≡◌, refl, Option, some, List, [], ◌∷◌, ◌++◌, if◌then◌else◌, Str, ok, bind-eq-ok, length,
  arith, Bool-cases, inl, inr,
}
use mathlib.Core.List.{Perm, perm_middle}
use mathlib.Core.List.Perm
use telemetry_platform.CwlSplit.Runtime.{Bytes}
use telemetry_platform.CwlSplit.Reingest.{Firehose, PutResponse, has_error, still_pending}

-- The number of responses with an error.
abbrev pub count_errors : List (Option Str) → ℕ
count_errors [] = 0
count_errors (r ∷ rs) = if has_error r then suc (count_errors rs) else count_errors rs

-- The records whose response has no error.
abbrev pub accepted_of : List Bytes → List (Option Str) → List Bytes
accepted_of (p ∷ ps) (r ∷ rs) = if has_error r then accepted_of ps rs else p ∷ accepted_of ps rs
accepted_of ps rs = []

module _ (fh : Firehose) where
  open fh use {Stream, put_record_batch}

  pub record IsAnswered (accepted : Stream → List Bytes) (ps : List Bytes) (s : Stream)
      (response : PutResponse) (s' : Stream) : Type 0 where
    pub results : List (Option Str)
    pub listed : response.request_responses ≡ some results
    pub one_each : length results ≡ length ps
    pub counted : response.failed_put_count ≡ count_errors results
    pub taken : accepted s' ≡ accepted s ++ accepted_of ps results

  pub record IsFaithful (accepted : Stream → List Bytes) : Type 0 where
    pub answered :
        (ps : List Bytes) (s : Stream) (response : PutResponse) (s' : Stream)
        → put_record_batch ps s ≡ (ok response, s')
        → IsAnswered accepted ps s response s'

-- With no error every record is taken.
pub accepted_of-eq_self :
    (ps : List Bytes) (rs : List (Option Str))
    → length rs ≡ length ps
    → count_errors rs ≡ 0
    → accepted_of ps rs ≡ ps
accepted_of-eq_self [] [] h e = refl
accepted_of-eq_self [] (r ∷ rs) h e = absurd (omega arith)
accepted_of-eq_self (p ∷ ps) [] h e = absurd (omega arith)
accepted_of-eq_self (p ∷ ps) (r ∷ rs) h e = ground (arith, accepted_of-eq_self ps rs)

-- What was taken and what is sent again make up the chunk.
pub still_pending-perm :
    (ps : List Bytes) (rs : List (Option Str)) (qs : List Bytes)
    → length rs ≡ length ps
    → still_pending ps rs ≡ ok qs
    → Perm (accepted_of ps rs ++ qs) ps
unfolding still_pending
still_pending-perm [] [] qs h e = subst_nil qs e
  where
    subst_nil : (qs : List Bytes) → ok [] ≡ ok qs → Perm qs []
    subst_nil [] e = Perm.refl []
    subst_nil (q ∷ qs) e = cc
still_pending-perm [] (r ∷ rs) qs h e = absurd (omega arith)
still_pending-perm (p ∷ ps) [] qs h e = absurd (omega arith)
still_pending-perm (p ∷ ps) (r ∷ rs) qs h e = elim (Bool-cases (has_error r)) [
  | inl failed ↦
      let (later, found, same) =
        bind-eq-ok (still_pending ps rs) (λ qs. ok (p ∷ qs)) (rw failed at e) in
      let joined : qs ≡ p ∷ later = cc in
      rw (failed, joined)
        (Perm.trans (perm_middle (accepted_of ps rs) later)
          (Perm.cons p (still_pending-perm ps rs later (omega arith) found)))
  | inr fine ↦ rw fine (Perm.cons p (still_pending-perm ps rs qs (omega arith) (rw fine at e)))
]
