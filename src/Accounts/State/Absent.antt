-- ===== src/Accounts/State/Absent.antt =====
-- Which units the filter skips: those whose state object is known to be absent.
use telemetry_platform.Base.{
  Bool, true, false, not, Option, List, [], ◌∷◌, ◌++◌, if◌then◌else◌, Str, codes, ◌==◌, member,
  select, select-append, Outcome, ok, raised, ◌>>=◌, bind-eq-ok, ok-injective, eq_iff, All,
  Bool-cases, inl, inr, ◌⊎◌, ◌≡◌, refl, ◌∙◌, ap, sym, append-nil,
}
use telemetry_platform.Json.{Json}
use telemetry_platform.Accounts.State.{
  Rendered, HeadAnswer, present, client_refused, Backend, Planned, s3_backend,
  not_found_error_codes, state_exists, sort_planned, render_unit_backend,
  extract_backend_bucket_key, is_kept, partition_by_state_existence,
}

module _ (loads : Str → Option Json) (py_str : Json → Str) (render : Str → Rendered)
    (head_object : Str → Str → HeadAnswer) where
  -- The unit renders to this backend.
  abbrev pub Renders : Str → Backend → Type 0
  Renders p b =
      (rendered : Json) × (render_unit_backend loads py_str render head_object p ≡ ok rendered)
      × (extract_backend_bucket_key loads py_str render head_object rendered ≡ ok b)

  -- The state object of an S3 backend is known to be absent.
  abbrev pub NeverApplied : Backend → Type 0
  NeverApplied b =
      (code : Str) × (http_status : Str) × (b.backend ≡ s3_backend)
      × (head_object b.bucket b.key ≡ client_refused code http_status)
      × ((member code not_found_error_codes ≡ true) ⊎ (http_status ≡ codes "404"))

  -- The state object is there, or the backend is another one.
  abbrev pub MayHaveState : Backend → Type 0
  MayHaveState b = ((b.backend == s3_backend) ≡ false) ⊎ (head_object b.bucket b.key ≡ present)

  abbrev answered : Outcome Bool → Bool
  answered (ok b) = b
  answered (raised e) = false

  -- Whether the unit is kept.
  unfoldable pub keeps : Str → Bool
  keeps p = answered (
      render_unit_backend loads py_str render head_object p >>= λ rendered.
      extract_backend_bucket_key loads py_str render head_object rendered
      >>= is_kept loads py_str render head_object)

  -- What is known of a unit that the loop has passed.
  abbrev pub Known : Str → Type 0
  Known p =
      (b : Backend) × Renders p b
      × (((keeps p ≡ true) × MayHaveState b) ⊎ ((keeps p ≡ false) × NeverApplied b))

  state_exists-cases :
      (a : HeadAnswer) (k : Bool)
      → state_exists a ≡ ok k
      → ((k ≡ true) × (a ≡ present))
        ⊎ ((k ≡ false)
            × (code : Str) × (http_status : Str) × (a ≡ client_refused code http_status)
            × ((member code not_found_error_codes ≡ true) ⊎ (http_status ≡ codes "404")))
  unfolding state_exists
  state_exists-cases present k h = inl (sym (ok-injective h), refl)
  state_exists-cases (client_refused code http_status) k h =
      elim (Bool-cases (member code not_found_error_codes)) [
        | inl e ↦ inr (sym (ok-injective (rw e at h)), code, http_status, refl, inl e)
        | inr e ↦ elim (Bool-cases (http_status == codes "404")) [
          | inl e' ↦ inr (
            sym (ok-injective (rw (e, e') at h)),
            code,
            http_status,
            refl,
            inr ((eq_iff http_status (codes "404")).0 e'),
          )
          | inr e' ↦ let bad = rw (e, e') at h in cc
        ]
      ]

  is_kept-cases :
      (b : Backend) (k : Bool)
      → is_kept loads py_str render head_object b ≡ ok k
      → ((k ≡ true) × MayHaveState b) ⊎ ((k ≡ false) × NeverApplied b)
  unfolding is_kept
  is_kept-cases b k h = elim (Bool-cases (b.backend == s3_backend)) [
    | inl e ↦ elim (state_exists-cases (head_object b.bucket b.key) k (rw e at h)) [
      | inl (stays, is) ↦ inl (stays, inr is)
      | inr (goes, code, http_status, is, why) ↦
          inr (goes, (code, http_status, (eq_iff b.backend s3_backend).0 e, is, why))
    ]
    | inr e ↦ inl (sym (ok-injective (rw e at h)), inl e)
  ]

  sort_planned-kept :
      (p : Str) (k : Bool) (s : Planned)
      → ((sort_planned p k s).kept ≡ s.kept ++ (if k then p ∷ [] else []))
        × ((sort_planned p k s).skipped ≡ s.skipped ++ (if not k then p ∷ [] else []))
  unfolding sort_planned
  sort_planned-kept p true s = (refl, sym (append-nil s.skipped))
  sort_planned-kept p false s = (sym (append-nil s.kept), refl)

  -- If the filter returns, it keeps and skips, each in the order of the scope, exactly the units of
  -- which it knows that their state may exist and that their state object is absent: a unit is skipped
  -- only if its S3 object was answered with a not-found code or with status 404.
  pub partition_by_state_existence-Known :
      (ps : List Str) (s t : Planned)
      → partition_by_state_existence loads py_str render head_object ps s ≡ ok t
      → (t.kept ≡ s.kept ++ select (λ p. keeps p) ps)
        × (t.skipped ≡ s.skipped ++ select (λ p. not (keeps p)) ps)
        × All Known ps
  unfolding partition_by_state_existence keeps select
  partition_by_state_existence-Known [] s t e =
      let is = sym (ok-injective e) in
      (
        ap (λ u. u.kept) is ∙ sym (append-nil s.kept),
        ap (λ u. u.skipped) is ∙ sym (append-nil s.skipped),
        tt,
      )
  partition_by_state_existence-Known (p ∷ ps) s t e =
      let (rendered, renders, h1) =
        bind-eq-ok (render_unit_backend loads py_str render head_object p) _ e in
      let (b, extracted, h2) =
        bind-eq-ok (extract_backend_bucket_key loads py_str render head_object rendered) _ h1 in
      let (k, kept, rest) = bind-eq-ok (is_kept loads py_str render head_object b) _ h2 in
      let (later_kept, later_skipped, known) =
        partition_by_state_existence-Known ps (sort_planned p k s) t rest in
      let (here_kept, here_skipped) = sort_planned-kept p k s in
      let is : keeps p ≡ k = rw (renders, extracted, kept) refl in
      (
        later_kept
            ∙ ap (λ u. u ++ select (λ q. keeps q) ps) here_kept
            ∙ select-append (λ q. keeps q) p ps s.kept k is,
        later_skipped
            ∙ ap (λ u. u ++ select (λ q. not (keeps q)) ps) here_skipped
            ∙ select-append (λ q. not (keeps q)) p ps s.skipped (not k) (ap not is),
        ((b, (rendered, renders, extracted), rw is (is_kept-cases b k kept)), known),
      )
