-- ===== src/Allowlist/Run/AclCalls.antt =====
-- The parts of a run that call nothing but the WebACL operations of the service.
use telemetry_platform.Base.{
  ℕ, zero, suc, true, false, Bool, Option, none, some, List, [], ◌∷◌, Str, ◌==◌, find_first,
  nat_beq, length, Answer-cases, Option-cases, Bool-cases, inl, inr, usage_error,
}
use telemetry_platform.Base.Int.{ℤ}
use telemetry_platform.Allowlist.Client.{
  Waf, WebAcl, AclSummary, AclUpdate, Rule, Call, ◌>>=◌, pure, fail, webacl_update_kwargs,
}
use telemetry_platform.Allowlist.Retry.{retry, with_lock_retry, tries, is_retryable_waf_error}
use telemetry_platform.Allowlist.Rule.{keep_others, write_kept, remove_attempt, remove_allow_rule}
use telemetry_platform.Allowlist.Run.{
  discovered_name, discover_waf_web_acl, resolve_name, resolve_web_acl,
}

module _ (waf : Waf) where
  open waf use {Server, list_web_acls, get_web_acl, update_web_acl}

  -- The server after any number of calls that list, read or update WebACLs, and no others.
  pub data AclCalls : Server → Server → Type 0 where
    no_call : (s : Server) → AclCalls s s
    list_call : (s t : Server) → AclCalls (list_web_acls s).1 t → AclCalls s t
    get_call : (name id : Str) (s t : Server) → AclCalls (get_web_acl name id s).1 t → AclCalls s t
    update_call : (u : AclUpdate) (s t : Server) → AclCalls (update_web_acl u s).1 t → AclCalls s t

  pub AclCalls-trans : {s t u : Server} → AclCalls s t → AclCalls t u → AclCalls s u
  AclCalls-trans (no_call s) more = more
  AclCalls-trans (list_call s t calls) more = list_call s _ (AclCalls-trans calls more)
  AclCalls-trans (get_call name id s t calls) more =
      get_call name id s _ (AclCalls-trans calls more)
  AclCalls-trans (update_call u s t calls) more = update_call u s _ (AclCalls-trans calls more)

  -- A part that makes no other calls, however it ends.
  abbrev pub CallsAcl : {A : Type 0} → Call Server A → Type 0
  CallsAcl part = (s : Server) → AclCalls s (part s).1

  then-CallsAcl :
      {A B : Type 0} (part : Call Server A) (next : A → Call Server B)
      → CallsAcl part
      → ((a : A) → CallsAcl (next a))
      → CallsAcl (part >>= next)
  unfolding ◌>>=◌
  then-CallsAcl part next first later s = elim (Answer-cases (part s)) [
    | inl (e, failed) ↦ rw (failed, ◌>>=◌) (first s)
    | inr (a, did) ↦ rw (did, ◌>>=◌) (AclCalls-trans (first s) (later a (part s).1))
  ]

  retry-CallsAcl :
      {A : Type 0} (attempt : Call Server A) (left : ℕ)
      → CallsAcl attempt
      → CallsAcl (retry attempt left)
  unfolding retry
  retry-CallsAcl attempt zero each s = no_call s
  retry-CallsAcl attempt (suc left) each s = elim (Answer-cases (attempt s)) [
    | inr (a, did) ↦ rw (did, retry) (each s)
    | inl (e, failed) ↦ elim (Bool-cases (is_retryable_waf_error e)) [
      | inl more ↦
          rw (failed, retry)
            (rw more (AclCalls-trans (each s) (retry-CallsAcl attempt left each (attempt s).1)))
      | inr stop ↦ rw (failed, retry) (rw stop (each s))
    ]
  ]

  write_kept-CallsAcl :
      (target : AclSummary) (kept : List Rule) (acl : WebAcl) (lock : Str) (nothing_to_do : Bool)
      → CallsAcl (write_kept waf target kept acl lock nothing_to_do)
  unfolding write_kept
  write_kept-CallsAcl target kept acl lock true = λ s. no_call s
  write_kept-CallsAcl target kept acl lock false =
      then-CallsAcl (update_web_acl (webacl_update_kwargs acl target.name target.id kept lock))
        (λ _. pure true) (λ s. update_call _ s _ (no_call _)) (λ _ s. no_call s)

  -- `remove_allow_rule`
  pub remove_allow_rule-CallsAcl :
      (retries : ℤ) (target : AclSummary) (rule_name : Str)
      → CallsAcl (remove_allow_rule waf retries target rule_name)
  unfolding remove_allow_rule with_lock_retry remove_attempt
  remove_allow_rule-CallsAcl retries target rule_name =
      retry-CallsAcl (remove_attempt waf target rule_name) (tries retries) (
        then-CallsAcl (get_web_acl target.name target.id)
          (λ resp.
            write_kept waf target (keep_others rule_name resp.0.rules) resp.0 resp.1
              (nat_beq (length (keep_others rule_name resp.0.rules)) (length resp.0.rules)))
          (λ s. get_call target.name target.id s _ (no_call _))
          (λ resp. write_kept-CallsAcl target _ resp.0 resp.1 _))

  resolve_name-CallsAcl : (web_acl_name : Option Str) → CallsAcl (resolve_name waf web_acl_name)
  unfolding resolve_name
  resolve_name-CallsAcl none = λ s. no_call s
  resolve_name-CallsAcl (some []) = λ s. no_call s
  resolve_name-CallsAcl (some (c ∷ cs)) =
      then-CallsAcl list_web_acls _ (λ s. list_call s _ (no_call _)) (λ acls. chosen acls)
    where
      chosen :
          (acls : List AclSummary)
          → CallsAcl {A = AclSummary}
              (elim (find_first (λ (a : AclSummary). a.name == (c ∷ cs)) acls) [
                | none ↦ fail usage_error
                | some found ↦ pure (record { name = c ∷ cs; id = found.id })
              ])
      chosen acls s =
          elim (Option-cases (find_first (λ (a : AclSummary). a.name == (c ∷ cs)) acls)) [
            | inl none_there ↦ rw none_there (no_call s)
            | inr (found, there) ↦ rw there (no_call s)
          ]

  discover-CallsAcl : CallsAcl (discover_waf_web_acl waf >>= resolve_name waf)
  unfolding discover_waf_web_acl
  discover-CallsAcl =
      then-CallsAcl (discover_waf_web_acl waf) (resolve_name waf)
        (then-CallsAcl list_web_acls (λ acls. pure (discovered_name acls))
          (λ s. list_call s _ (no_call _)) (λ acls s. no_call s))
        resolve_name-CallsAcl

  -- `resolve_web_acl`
  pub resolve_web_acl-CallsAcl :
      (web_acl_name : Option Str) → CallsAcl (resolve_web_acl waf web_acl_name)
  unfolding resolve_web_acl
  resolve_web_acl-CallsAcl (some (c ∷ cs)) = resolve_name-CallsAcl (some (c ∷ cs))
  resolve_web_acl-CallsAcl (some []) = discover-CallsAcl
  resolve_web_acl-CallsAcl none = discover-CallsAcl
