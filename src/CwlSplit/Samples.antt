-- ===== src/CwlSplit/Samples.antt =====
-- Concrete surroundings for the tests: a parser that knows four messages, and a delivery stream that
-- refuses the first record of its first call.
use telemetry_platform.Base.{
  suc, ◌≡◌, refl, sym, ap, Bool, true, false, Option, none, some, List, [], ◌∷◌, ◌++◌,
  if◌then◌else◌, Str, codes, ◌==◌, Outcome, ok, raised, value_error, runtime_error, length, arith,
  ok-injective,
}
use telemetry_platform.Base.Int.{pos}
use telemetry_platform.Json.{Json, null, int, str, arr, obj, Items, nil, cons, Fields, end, field}
use telemetry_platform.CwlSplit.Runtime.{Runtime, Bytes}
use telemetry_platform.CwlSplit.Reingest.{Firehose, PutResponse}
use telemetry_platform.CwlSplit.Reingest.Contract.{
  IsFaithful, IsAnswered, count_errors, accepted_of,
}

-- {"Name": name, "Unit": "Count"}
abbrev metric : Str → Json
metric name = obj (field (codes "Name") (str name) (field (codes "Unit") (str (codes "Count")) end))

-- {"CloudWatchMetrics": [{"Metrics": metrics}], "Timestamp": 7}
abbrev aws : Items → Fields
aws metrics =
    field (codes "CloudWatchMetrics")
      (arr (cons (obj (field (codes "Metrics") (arr metrics) end)) nil))
      (field (codes "Timestamp") (int (pos 7)) end)

-- A metrics event with a repeated metric name.
abbrev pub emf_event : Fields
emf_event =
    field (codes "_aws")
      (obj (
        aws (
          cons (metric (codes "a.b")) (cons (metric (codes "c")) (cons (metric (codes "c")) nil)))))
      (field (codes "a.b") (int (pos 526))
        (field (codes "c") (int (pos 2)) (field (codes "service.name") (str (codes "cli")) end)))

-- A metrics event that declares nothing.
abbrev pub empty_event : Fields
empty_event =
    field (codes "_aws") (obj (aws nil)) (field (codes "service.name") (str (codes "cli")) end)

-- A structured record of service `name`.
abbrev pub log_record : Str → Fields
log_record name = field (codes "body") (str (codes "hi")) (
    field (codes "attributes") (obj (field (codes "user.id") (str (codes "u1")) end))
      (field (codes "resource") (obj (field (codes "service.name") (str name) end)) end))

abbrev pub tool_record : Fields
tool_record = field (codes "tool") (str (codes "cli")) (field (codes "x") null end)

abbrev pub parse : Str → Outcome Json
parse m =
    if m == codes "E"
    then ok (obj emf_event)
    else if m == codes "N"
    then ok (obj empty_event)
    else if m == codes "C"
    then ok (obj (log_record (codes "cli")))
    else if m == codes "U"
    then ok (obj (log_record (codes "new")))
    else if m == codes "T"
    then ok (obj tool_record)
    else if m == codes "deep"
    then raised runtime_error
    else raised value_error

-- The envelope of three messages, whatever the bytes.
abbrev pub envelope : Json
envelope = obj (
    field (codes "messageType") (str (codes "DATA_MESSAGE")) (
      field (codes "logEvents")
        (arr (
          cons (obj (field (codes "message") (str (codes "T")) end))
            (cons (obj (field (codes "message") (str (codes "x")) end)) nil)))
        end))

abbrev pub surroundings : Runtime
surroundings = record {
  loads = parse;
  loads_bytes = λ b. ok envelope;
  dumps = λ v. codes "{}";
  show = λ v. codes "?";
  float_int = λ b. raised value_error;
  iso_utc = λ u t. ok (codes "1970-01-01T00:00:00Z");
  now_iso = codes "2026-01-01T00:00:00Z";
  b64decode = λ s. ok s;
  gunzip = λ b. ok b;
  service_tool_map = (codes "cli", codes "cli-tool") ∷ [];
}

abbrev no_errors : List Bytes → List (Option Str)
no_errors [] = []
no_errors (p ∷ ps) = none ∷ no_errors ps

-- The stream: what it has accepted, and whether it is still to refuse a record.
abbrev pub flaky_put : List Bytes → List Bytes × Bool → Outcome PutResponse × (List Bytes × Bool)
flaky_put (p ∷ ps) (got, true) = (
  ok (record {
    failed_put_count = 1;
    request_responses = some (some (codes "busy") ∷ no_errors ps);
  }),
  (got ++ ps, false),
)
flaky_put ps (got, refuse) = (
  ok (record { failed_put_count = 0; request_responses = some (no_errors ps) }),
  (got ++ ps, refuse),
)

abbrev pub flaky : Firehose
flaky = record { Stream = List Bytes × Bool; put_record_batch = flaky_put }

abbrev pub got : List Bytes × Bool → List Bytes
got s = s.0

length-no_errors : (ps : List Bytes) → length (no_errors ps) ≡ length ps
length-no_errors [] = refl
length-no_errors (p ∷ ps) = omega (arith, length-no_errors ps)

count_errors-no_errors : (ps : List Bytes) → count_errors (no_errors ps) ≡ 0
count_errors-no_errors [] = refl
count_errors-no_errors (p ∷ ps) = count_errors-no_errors ps

accepted_of-no_errors : (ps : List Bytes) → accepted_of ps (no_errors ps) ≡ ps
accepted_of-no_errors [] = refl
accepted_of-no_errors (p ∷ ps) = ap (λ t. p ∷ t) (accepted_of-no_errors ps)

-- An answer that is as the contract says, for the response and the state that it gives.
answer :
    (ps : List Bytes) (s : List Bytes × Bool) (r response : PutResponse) (t s' : List Bytes × Bool)
    → IsAnswered flaky got ps s r t
    → r ≡ response
    → t ≡ s'
    → IsAnswered flaky got ps s response s'
answer ps s r response t s' a p q = rw (← p, ← q) a

-- An answer with no error.
taken_whole :
    (ps g : List Bytes) (b c : Bool)
    → IsAnswered flaky got ps
        (g, b)
        (record { failed_put_count = 0; request_responses = some (no_errors ps) })
        (g ++ ps, c)
taken_whole ps g b c = record {
  results = no_errors ps;
  listed = refl;
  one_each = length-no_errors ps;
  counted = sym (count_errors-no_errors ps);
  taken = ap (λ t. g ++ t) (sym (accepted_of-no_errors ps));
}

pub flaky-IsFaithful : IsFaithful flaky got
flaky-IsFaithful = record { answered = by_case }
  where
    by_case :
        (ps : List Bytes) (s : List Bytes × Bool) (response : PutResponse) (s' : List Bytes × Bool)
        → flaky_put ps s ≡ (ok response, s')
        → IsAnswered flaky got ps s response s'
    by_case (p ∷ ps) (g, true) response s' e =
        answer (p ∷ ps) (g, true) _ response _ s'
          (record {
            results = some (codes "busy") ∷ no_errors ps;
            listed = refl;
            one_each = ap suc (length-no_errors ps);
            counted = ap suc (sym (count_errors-no_errors ps));
            taken = ap (λ t. g ++ t) (sym (accepted_of-no_errors ps));
          })
          (ok-injective (ap (λ r. r.0) e)) (ap (λ r. r.1) e)
    by_case [] (g, b) response s' e =
        answer [] (g, b) _ response _ s' (taken_whole [] g b b) (ok-injective (ap (λ r. r.0) e))
          (ap (λ r. r.1) e)
    by_case (p ∷ ps) (g, false) response s' e =
        answer (p ∷ ps) (g, false) _ response _ s' (taken_whole (p ∷ ps) g false false)
          (ok-injective (ap (λ r. r.0) e)) (ap (λ r. r.1) e)
