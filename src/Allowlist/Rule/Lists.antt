-- ===== src/Allowlist/Rule/Lists.antt =====
-- The rule list alone: what the scan finds and what the filter keeps.
use telemetry_platform.Base.{
  ℕ, ◌≡◌, ◌≢◌, ◌≤◌, refl, ◌∙◌, Bool, false, not, any, length, nat_beq, List, [], ◌∷◌, ◌++◌, Str,
  ◌==◌, eq_iff, arith, Bool-cases, inl, inr, All, append-nil,
}
use telemetry_platform.Allowlist.Client.{Rule}
use telemetry_platform.Allowlist.Rule.{build_allow_rule, present, absent, scan, keep_others}

-- Neither the name nor the priority is among the rules.
abbrev pub IsFree : Str → ℕ → List Rule → Type 0
IsFree rule_name priority rules =
    All (λ (r : Rule). (r.name ≢ rule_name) × (r.priority ≢ priority)) rules

pub scan-absent :
    (rule_name : Str) (priority : ℕ) (rules : List Rule)
    → scan rule_name priority rules ≡ absent
    → IsFree rule_name priority rules
unfolding scan
scan-absent rule_name priority [] h = tt
scan-absent rule_name priority (r ∷ rules) h = (
  ((λ e. ground (arith, eq_iff r.name rule_name)), (λ e. ground (arith, eq_iff r.name rule_name))),
  scan-absent rule_name priority rules (ground arith),
)

pub keep_others-free :
    (rule_name : Str) (rules : List Rule)
    → All (λ (r : Rule). r.name ≢ rule_name) (keep_others rule_name rules)
unfolding keep_others
keep_others-free rule_name [] = tt
keep_others-free rule_name (r ∷ rules) = elim (Bool-cases (r.name == rule_name)) [
  | inl same ↦ rw same (keep_others-free rule_name rules)
  | inr other ↦
      rw other ((λ e. ground (arith, eq_iff r.name rule_name)), keep_others-free rule_name rules)
]

-- Some rule has the name.
abbrev pub has_rule : Str → List Rule → Bool
has_rule rule_name = any (λ (r : Rule). r.name == rule_name)

length-keep_others_le :
    (rule_name : Str) (rules : List Rule) → length (keep_others rule_name rules) ≤ length rules
unfolding keep_others
length-keep_others_le rule_name [] = ground arith
length-keep_others_le rule_name (r ∷ rules) = ground (arith, length-keep_others_le rule_name rules)

-- The filter keeps as many rules as there are where no rule has the name.
pub length-keep_others :
    (rule_name : Str) (rules : List Rule)
    → nat_beq (length (keep_others rule_name rules)) (length rules) ≡ not (has_rule rule_name rules)
unfolding keep_others
length-keep_others rule_name [] = ground arith
length-keep_others rule_name (r ∷ rules) =
    ground (arith, length-keep_others rule_name rules, length-keep_others_le rule_name rules)

pub has_rule-free :
    (rule_name : Str) (rules : List Rule)
    → has_rule rule_name rules ≡ false
    → All (λ (r : Rule). r.name ≢ rule_name) rules
has_rule-free rule_name [] h = tt
has_rule-free rule_name (r ∷ rules) h =
    ((λ e. ground (arith, eq_iff r.name rule_name)), has_rule-free rule_name rules (ground arith))

keep_others-IsFree :
    (rule_name : Str) (priority : ℕ) (rules : List Rule)
    → IsFree rule_name priority rules
    → keep_others rule_name rules ≡ rules
unfolding keep_others
keep_others-IsFree rule_name priority [] h = refl
keep_others-IsFree rule_name priority (r ∷ rules) h =
    ground (arith, eq_iff r.name rule_name, h.0.0, keep_others-IsFree rule_name priority rules h.1)

keep_others-append :
    (rule_name : Str) (xs ys : List Rule)
    → keep_others rule_name (xs ++ ys) ≡ keep_others rule_name xs ++ keep_others rule_name ys
unfolding keep_others
keep_others-append rule_name [] ys = refl
keep_others-append rule_name (x ∷ xs) ys = ground (arith, keep_others-append rule_name xs ys)

keep_others-build_allow_rule :
    (rule_name : Str) (priority : ℕ) (ipset_arn : Str)
    → keep_others rule_name (build_allow_rule rule_name priority ipset_arn ∷ []) ≡ []
unfolding keep_others build_allow_rule
keep_others-build_allow_rule rule_name priority ipset_arn =
    ground (arith, eq_iff rule_name rule_name)

-- Where the scan finds neither the rule nor its priority, removing after adding gives the rules back,
-- and a second scan finds the rule.
pub keep_others-scan :
    (rule_name : Str) (priority : ℕ) (ipset_arn : Str) (rules : List Rule)
    → scan rule_name priority rules ≡ absent
    → (keep_others rule_name (rules ++ build_allow_rule rule_name priority ipset_arn ∷ []) ≡ rules)
      × (scan rule_name priority (rules ++ build_allow_rule rule_name priority ipset_arn ∷ [])
          ≡ present)
unfolding scan build_allow_rule
keep_others-scan rule_name priority ipset_arn rules h = (
  keep_others-append rule_name rules _
      ∙ rw
          (
            keep_others-IsFree rule_name priority rules (scan-absent rule_name priority rules h),
            keep_others-build_allow_rule,
          )
          (append-nil rules),
  scan_again rules h,
)
  where
    scan_again :
        (rules : List Rule)
        → scan rule_name priority rules ≡ absent
        → scan rule_name priority (rules ++ build_allow_rule rule_name priority ipset_arn ∷ [])
          ≡ present
    scan_again [] h = ground (arith, eq_iff rule_name rule_name)
    scan_again (r ∷ rules) h = ground (arith, scan_again rules)
