-- ===== src/CwlSplit/Runtime.antt =====
-- What index.py takes from its environment and from the codecs of the standard library.
use telemetry_platform.Base.{
  ℕ, Bool, true, false, List, [], ◌∷◌, Str, encode, Outcome, ok, raised, need, value_error,
  type_error, unicode_error, codes,
}
use telemetry_platform.Base.Dict.{Dict}
use telemetry_platform.Base.Int.{ℤ, pos, py_int}
use telemetry_platform.Json.{Json, bool, int, float, str, obj, of_dict}

abbrev pub Bytes : Type 0
Bytes = List ℕ

-- `loads` and `loads_bytes` are json.loads on text and on bytes: a value, ValueError on bad JSON,
-- or another exception (RecursionError, a RuntimeError, on deep nesting). `show` is str() of a
-- value that is no text, `float_int` is int() of a float, `iso_utc units t` the text of
-- fromtimestamp(t / units, tz=UTC).isoformat() with Z for +00:00. `now_iso` stands for the
-- readings of the clock within one invocation.
pub record Runtime : Type 0 where
  pub loads : Str → Outcome Json
  pub loads_bytes : Bytes → Outcome Json
  pub dumps : Json → Str
  pub show : Json → Str
  pub float_int : ℕ → Outcome ℤ
  pub iso_utc : ℕ → ℤ → Outcome Str
  pub now_iso : Str
  pub b64decode : Str → Outcome Bytes
  pub gunzip : Bytes → Outcome Bytes
  pub service_tool_map : Dict Str

module _ (rt : Runtime) where
  -- str(v)
  unfoldable pub py_str : Json → Str
  py_str (str s) = s
  py_str v = rt.show v

  -- int(v) for a number or a text
  unfoldable pub py_int_of : Json → Outcome ℤ
  py_int_of (bool true) = ok (pos 1)
  py_int_of (bool false) = ok (pos 0)
  py_int_of (int n) = ok n
  py_int_of (float bits) = rt.float_int bits
  py_int_of (str s) = need value_error (py_int s)
  py_int_of v = raised type_error

-- isinstance(v, (str, int, float)); a bool is an int
abbrev pub is_scalar : Json → Bool
is_scalar (bool b) = true
is_scalar (int n) = true
is_scalar (float bits) = true
is_scalar (str s) = true
is_scalar v = false

-- s.encode("utf-8")
unfoldable pub encode_utf8 : Str → Outcome Bytes
encode_utf8 s = need unicode_error (encode s)

-- A canonical lake row; `payload` is the dict that is dumped into its last column.
pub record Row : Type 0 where
  pub timestamp : Str
  pub tool : Str
  pub event_type : Str
  pub payload : Dict Json

abbrev pub canonical : (Json → Str) → Row → Json
canonical dumps r = obj (
    of_dict (
      (codes "timestamp", str r.timestamp)
      ∷ (codes "tool", str r.tool)
      ∷ (codes "event_type", str r.event_type)
      ∷ (codes "payload", str (dumps (obj (of_dict r.payload))))
      ∷ []))

-- The bytes of a row.
unfoldable pub render : Runtime → Row → Outcome Bytes
unfolding encode_utf8
render rt r = encode_utf8 (rt.dumps (canonical rt.dumps r))
