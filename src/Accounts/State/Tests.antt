-- ===== src/Accounts/State/Tests.antt =====
-- Two units of a plan, of which one was never applied.
use telemetry_platform.Base.{
  not, Option, some, List, [], ◌∷◌, ◌++◌, ◌==◌, Str, codes, All, ◌≡◌, refl, ok, raised,
  runtime_error, select, if◌then◌else◌, member,
}
use telemetry_platform.Base.Int.{pos}
use telemetry_platform.Json.{Json, str, obj, of_dict}
use telemetry_platform.Accounts.Paths.{reassemble_flags}
use telemetry_platform.Accounts.State.{
  Rendered, HeadAnswer, present, client_refused, Planned, state_exists,
  partition_by_state_existence, main,
}
use telemetry_platform.Accounts.State.Absent.{keeps, Known, partition_by_state_existence-Known}

abbrev rendered_unit : Str → Rendered
rendered_unit p = record { returncode = pos 0; stdout = p }

-- Each unit renders to a backend whose key is its path.
abbrev loads : Str → Option Json
loads s = some (
    obj (
      of_dict (
        (
          codes "remote_state",
          obj (
              of_dict (
                (codes "backend", str (codes "s3"))
                ∷ (
                  codes "config",
                  obj (of_dict ((codes "bucket", str (codes "b")) ∷ (codes "key", str s) ∷ [])),
                )
                ∷ [])),
        )
        ∷ [])))

abbrev text_of : Json → Str
text_of (str s) = s
text_of v = []

abbrev head_object : Str → Str → HeadAnswer
head_object bucket key =
    if key == codes "new" then client_refused (codes "NoSuchKey") (codes "404") else present

abbrev nothing : Planned
nothing = record { kept = []; skipped = [] }

abbrev scope : List Str
scope = codes "old" ∷ codes "new" ∷ []

abbrev planned : Planned
planned = record { kept = codes "old" ∷ []; skipped = codes "new" ∷ [] }

planned_run :
    partition_by_state_existence loads text_of rendered_unit head_object scope nothing ≡ ok planned
unfolding partition_by_state_existence ◌==◌ member
planned_run = refl

partition_by_state_existence-Known_example :
    (planned.kept ≡ [] ++ select (λ p. keeps loads text_of rendered_unit head_object p) scope)
    × (planned.skipped
        ≡ [] ++ select (λ p. not (keeps loads text_of rendered_unit head_object p)) scope)
    × All (Known loads text_of rendered_unit head_object) scope
partition_by_state_existence-Known_example =
    partition_by_state_existence-Known loads text_of rendered_unit head_object scope nothing planned
      planned_run

forbidden_run :
    state_exists (client_refused (codes "AccessDenied") (codes "403")) ≡ raised runtime_error
unfolding state_exists member ◌==◌
forbidden_run = refl

main_run :
    main loads text_of rendered_unit head_object (reassemble_flags (codes "new" ∷ []))
    ≡ (ok 0, (codes "include_dir_flags", []) ∷ (codes "has_units", codes "false") ∷ [])
unfolding main reassemble_flags ◌==◌ member
main_run = refl
