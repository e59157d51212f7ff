-- ===== src/Release/Gate.antt =====
-- scripts/aggregate_required_checks.py: the gate over the results of the required jobs.
use telemetry_platform.Base.{
  Bool, true, false, not, Option, none, some, List, [], ◌∷◌, ◌++◌, if◌then◌else◌, Str, codes,
  member, select, ◌≡◌, refl, ◌↔◌, ◌∙◌, sym, All, Bool-cases, inl, inr, append_assoc, append-nil,
}
use telemetry_platform.Base.Dict.{Dict, get, keys}

-- _PASSING_RESULTS
abbrev pub passing_results : List Str
passing_results = codes "success" ∷ codes "skipped" ∷ []

-- _FAILING_RESULTS
abbrev pub failing_results : List Str
failing_results = codes "failure" ∷ codes "cancelled" ∷ []

abbrev text_or_empty : Option Str → Str
text_or_empty none = []
text_or_empty (some s) = s

-- job_data.get("result", "")
unfoldable pub result_of : Dict Str → Str
unfolding get
result_of job_data = text_or_empty (get (codes "result") job_data)

abbrev pub Job : Type 0
Job = Str × Dict Str

-- result in _PASSING_RESULTS, result in _FAILING_RESULTS
unfoldable pub passes : Job → Bool
unfolding result_of member
passes job = member (result_of job.1) passing_results

unfoldable pub is_failing : Job → Bool
unfolding result_of member
is_failing job = member (result_of job.1) failing_results

-- The two lists of job names.
pub record Tally : Type 0 where
  pub failed_jobs : List Str
  pub unrecognized_jobs : List Str

-- The body of the loop, with what the two tests answer.
unfoldable pub tally_job : Bool → Bool → Str → Tally → Tally
tally_job true failing name t = t
tally_job false true name t = record t { failed_jobs = t.failed_jobs ++ name ∷ [] }
tally_job false false name t = record t { unrecognized_jobs = t.unrecognized_jobs ++ name ∷ [] }

-- The loop over the jobs.
unfoldable pub tally_jobs : List Job → Tally → Tally
unfolding tally_job
tally_jobs [] t = t
tally_jobs (job ∷ jobs) t = tally_jobs jobs (tally_job (passes job) (is_failing job) job.0 t)

-- `if failed_jobs or unrecognized_jobs`
abbrev pub report : List Str → List Str → Option Tally
report [] [] = none
report (f ∷ fs) us = some (record { failed_jobs = f ∷ fs; unrecognized_jobs = us })
report [] (u ∷ us) = some (record { failed_jobs = []; unrecognized_jobs = u ∷ us })

abbrev no_jobs : Tally
no_jobs = record { failed_jobs = []; unrecognized_jobs = [] }

-- aggregate_results: the AggregationError that it raises, if any
unfoldable pub aggregate_results : List Job → Option Tally
unfolding tally_jobs
aggregate_results needs_map =
    report (tally_jobs needs_map no_jobs).failed_jobs
      (tally_jobs needs_map no_jobs).unrecognized_jobs

unfoldable pub fails : Job → Bool
fails job = if passes job then false else is_failing job

unfoldable pub is_unknown : Job → Bool
is_unknown job = if passes job then false else not (is_failing job)

-- One job moves its name from the list of jobs to the list that it belongs to.
tally_job-select :
    (job : Job) (jobs : List Job) (t : Tally)
    → ((tally_job (passes job) (is_failing job) job.0 t).failed_jobs ++ keys (select fails jobs)
        ≡ t.failed_jobs ++ keys (select fails (job ∷ jobs)))
      × ((tally_job (passes job) (is_failing job) job.0 t).unrecognized_jobs
            ++ keys (select is_unknown jobs)
          ≡ t.unrecognized_jobs ++ keys (select is_unknown (job ∷ jobs)))
unfolding tally_job select fails is_unknown
tally_job-select job jobs t = elim (Bool-cases (passes job)) [
  | inl p ↦ rw p (refl, refl)
  | inr n ↦ elim (Bool-cases (is_failing job)) [
    | inl f ↦ rw (n, f) (append_assoc t.failed_jobs (job.0 ∷ []) _, refl)
    | inr f ↦ rw (n, f) (refl, append_assoc t.unrecognized_jobs (job.0 ∷ []) _)
  ]
]

tally_jobs-select :
    (jobs : List Job) (t : Tally)
    → ((tally_jobs jobs t).failed_jobs ≡ t.failed_jobs ++ keys (select fails jobs))
      × ((tally_jobs jobs t).unrecognized_jobs
          ≡ t.unrecognized_jobs ++ keys (select is_unknown jobs))
unfolding tally_jobs select
tally_jobs-select [] t = (sym (append-nil t.failed_jobs), sym (append-nil t.unrecognized_jobs))
tally_jobs-select (job ∷ jobs) t =
    let (fs, us) = tally_jobs-select jobs (tally_job (passes job) (is_failing job) job.0 t) in
    let (f, u) = tally_job-select job jobs t in (fs ∙ f, us ∙ u)

-- The gate reports exactly the jobs that failed or were cancelled, and exactly those of an unknown
-- result, both in their order.
pub aggregate_results-report :
    (jobs : List Job)
    → aggregate_results jobs ≡ report (keys (select fails jobs)) (keys (select is_unknown jobs))
unfolding aggregate_results
aggregate_results-report jobs = let (fs, us) = tally_jobs-select jobs no_jobs in rw (fs, us) refl

report-none : (fs us : List Str) → report fs us ≡ none → (fs ≡ []) × (us ≡ [])
report-none [] [] h = (refl, refl)
report-none (f ∷ fs) us h = cc
report-none [] (u ∷ us) h = cc

passes-All :
    (jobs : List Job)
    → keys (select fails jobs) ≡ []
    → keys (select is_unknown jobs) ≡ []
    → All (λ job. passes job ≡ true) jobs
unfolding select is_unknown fails
passes-All [] f u = tt
passes-All (job ∷ jobs) f u = elim (Bool-cases (passes job)) [
  | inl p ↦ (p, passes-All jobs (rw p at f) (rw p at u))
  | inr n ↦ elim (Bool-cases (is_failing job)) [
    | inl q ↦ let bad = rw (n, q) at f in cc
    | inr q ↦ let bad = rw (n, q) at u in cc
  ]
]

select-passes :
    (jobs : List Job)
    → All (λ job. passes job ≡ true) jobs
    → (select fails jobs ≡ []) × (select is_unknown jobs ≡ [])
unfolding select is_unknown fails
select-passes [] h = (refl, refl)
select-passes (job ∷ jobs) (p, h) = rw p (select-passes jobs h)

-- The gate passes exactly when every job it names succeeded or was skipped: an unknown result, or
-- none, never passes.
pub aggregate_results-passes :
    (jobs : List Job) → (aggregate_results jobs ≡ none) ↔ All (λ job. passes job ≡ true) jobs
aggregate_results-passes jobs = (
  λ h.
      let (f, u) = report-none _ _ (sym (aggregate_results-report jobs) ∙ h) in passes-All jobs f u,
  λ h. let (f, u) = select-passes jobs h in aggregate_results-report jobs ∙ rw (f, u) refl,
)
