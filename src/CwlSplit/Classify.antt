-- ===== src/CwlSplit/Classify.antt =====
-- `_reshape_message`, `_reshape_records` and `_diagnostic_service_name`.
use telemetry_platform.Base.{
  Bool, true, false, ◌&&◌, not, Option, none, some, List, [], ◌∷◌, if◌then◌else◌, Str, codes,
  Outcome, ok, raised, value_error, ◌>>=◌,
}
use telemetry_platform.Base.Dict.{Dict, get, has_key}
use telemetry_platform.Json.{Json, str, obj, fields, get_or_null, is_list, is_container}
use telemetry_platform.CwlSplit.Runtime.{Runtime, Bytes, py_str, encode_utf8}
use telemetry_platform.CwlSplit.Claude.{reshape_claude}
use telemetry_platform.CwlSplit.Emf.{reshape_emf}

abbrev pub is_str : Json → Bool
is_str (str s) = true
is_str _ = false

abbrev pub text_of : Json → Str
text_of (str s) = s
text_of _ = []

-- The object is taken for a structured OTLP record.
unfoldable pub is_structured : Dict Json → Bool
unfolding get_or_null has_key
is_structured d =
    not (has_key (codes "tool") d)
    && (is_container (get_or_null (codes "resource") d)
        && (is_container (get_or_null (codes "attributes") d)
            && is_str (get_or_null (codes "body") d)))

-- The object is taken for an EMF metrics event.
unfoldable pub is_emf : Dict Json → Bool
unfolding get_or_null has_key
is_emf d = not (has_key (codes "tool") d) && (elim (get_or_null (codes "_aws") d) [
  | obj fs ↦ is_list (get_or_null (codes "CloudWatchMetrics") (fields fs))
  | _ ↦ false
])

module _ (rt : Runtime) where
  unfoldable pub reshape_object : Bytes → Json → Outcome Bytes
  unfolding is_structured get_or_null
  reshape_object original (obj fs) =
      if is_structured (fields fs)
      then reshape_claude rt (fields fs) (text_of (get_or_null (codes "body") (fields fs)))
      else ok original
  reshape_object original v = ok original

  -- _reshape_message
  unfoldable pub reshape_message : Str → Outcome Bytes
  unfolding encode_utf8 reshape_object
  reshape_message message = do
    original ← encode_utf8 message
    elim (rt.loads message) [
      | ok v ↦ reshape_object original v
      | raised value_error ↦ ok original
      | raised e ↦ raised e
    ]

  abbrev single : Outcome Bytes → Outcome (List Bytes)
  single r = r >>= λ b. ok (b ∷ [])

  -- The branch of `_reshape_records` on a parsed message.
  unfoldable pub reshape_value : Str → Json → Outcome (List Bytes)
  unfolding reshape_message is_emf
  reshape_value message (obj fs) =
      if is_emf (fields fs) then reshape_emf rt (fields fs) else single (reshape_message message)
  reshape_value message v = single (reshape_message message)

  -- _reshape_records
  unfoldable pub reshape_records : Str → Outcome (List Bytes)
  unfolding reshape_message reshape_value
  reshape_records message = elim (rt.loads message) [
    | ok v ↦ reshape_value message v
    | raised value_error ↦ single (reshape_message message)
    | raised e ↦ raised e
  ]

  abbrev shown_or : Str → Option Json → Str
  shown_or s none = s
  shown_or s (some v) = py_str rt v

  unfoldable pub service_name_of : Json → Str
  unfolding get_or_null py_str
  service_name_of (obj fs) =
      let top = shown_or (codes "unknown") (get (codes "service.name") (fields fs)) in
      elim (get_or_null (codes "resource") (fields fs)) [
        | obj rs ↦ shown_or top (get (codes "service.name") (fields rs))
        | _ ↦ top
      ]
  service_name_of v = codes "unknown"

  -- _diagnostic_service_name
  unfoldable pub diagnostic_service_name : Str → Outcome Str
  unfolding service_name_of
  diagnostic_service_name message = elim (rt.loads message) [
    | ok v ↦ ok (service_name_of v)
    | raised value_error ↦ ok (codes "unknown")
    | raised e ↦ raised e
  ]
