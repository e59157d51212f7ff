-- ===== src/Accounts/Paths.antt =====
-- `extract_all_unit_paths`, `parse_unit_path` and `_reassemble_flags`, over ASCII text without line
-- breaks inside a path.
pub mod Flags
use telemetry_platform.Base.{
  ℕ, zero, suc, ◌+◌, ◌-◌, Bool, true, false, ◌&&◌, ◌||◌, Option, none, some, List, [], ◌∷◌, ◌++◌,
  if◌then◌else◌, nat_beq, leb, Str, codes, starts_with, length, drop, all, Outcome, ok, raised,
  path_parse_error, need,
}
use telemetry_platform.Base.Int.{is_digit, is_space, skip_spaces}
use telemetry_platform.Base.Order.{before, lstrip_char}

abbrev pub flag : Str
flag = codes "--queue-include-dir"

-- \S+, and what is left behind it
unfoldable pub flag_word : Str → Str
unfolding is_space
flag_word [] = []
flag_word (c ∷ s) = let rest = flag_word s in if is_space c then [] else c ∷ rest

abbrev matched : ℕ → Str → Option (Str × ℕ)
matched zero t = none
matched (suc n) [] = none
matched (suc n) (c ∷ t) = some (c ∷ t, length flag + suc n + length (c ∷ t))

-- _QUEUE_INCLUDE_DIR_RE at the head of the text: the group, and the length of the match.
unfoldable pub match_flag : Str → Option (Str × ℕ)
unfolding starts_with drop skip_spaces flag_word
match_flag s =
    if starts_with s flag
    then matched (length (drop s (length flag)) - length (skip_spaces (drop s (length flag))))
        (flag_word (skip_spaces (drop s (length flag))))
    else none

-- findall: `skip` characters belong to the last match.
unfoldable pub find_flags : ℕ → Str → List Str
unfolding match_flag
find_flags skip [] = []
find_flags (suc skip) (c ∷ s) = find_flags skip s
find_flags zero (c ∷ s) = elim (match_flag (c ∷ s)) [
  | none ↦ find_flags zero s
  | some m ↦ m.0 ∷ find_flags (m.1 - 1) s
]

abbrev need_paths : List Str → Outcome (List Str)
need_paths [] = raised path_parse_error
need_paths (p ∷ ps) = ok (p ∷ ps)

-- extract_all_unit_paths
unfoldable pub extract_all_unit_paths : Str → Outcome (List Str)
unfolding find_flags
extract_all_unit_paths flags = need_paths (find_flags 0 flags)

-- _reassemble_flags: " ".join of the flag and the path of each unit
unfoldable pub reassemble_flags : List Str → Str
reassemble_flags [] = []
reassemble_flags (p ∷ []) = flag ++ codes " " ++ p
reassemble_flags (p ∷ q ∷ ps) = flag ++ codes " " ++ p ++ codes " " ++ reassemble_flags (q ∷ ps)

unfoldable pub is_lower : ℕ → Bool
is_lower c = leb 97 c && leb c 122

-- [0-9]+ to the end, and (-[0-9]+) after at least one of [a-z0-9-]
abbrev number_end : Str → Bool
number_end [] = false
number_end (c ∷ s) = all (λ d. is_digit d) (c ∷ s)

unfoldable pub region_end : Str → Bool
unfolding is_digit
region_end [] = false
region_end (c ∷ s) =
    let later = region_end s in if nat_beq c b'-' then number_end s || later else later

-- [a-z][a-z0-9-]+-[0-9]+, the whole text
unfoldable pub is_region : Str → Bool
unfolding is_lower is_digit region_end
is_region (a ∷ b ∷ s) =
    is_lower a && all (λ c. is_lower c || is_digit c || nat_beq c b'-') (b ∷ s) && region_end s
is_region _ = false

abbrev unit_of : Str → Str → Str → Bool → Option (Str × Str × Str)
unit_of region [] rest good = none
unit_of region (c ∷ first) rest false = none
unit_of region (c ∷ first) rest true = some (region, c ∷ first, rest)

-- The expression behind the literal: `s` is what follows "live/telemetry/".
unfoldable pub match_unit : Str → Option (Str × Str × Str)
unfolding before drop lstrip_char is_region
match_unit s =
    let region = before b'/' s in
    let more = drop s (suc (length region)) in
    let first = before b'/' more in
    unit_of region first (lstrip_char b'/' (drop more (length first))) (is_region region)

-- _UNIT_PATH_RE.search
unfoldable pub search_unit : Str → Option (Str × Str × Str)
unfolding match_unit starts_with
search_unit [] = none
search_unit (c ∷ s) =
    let later = search_unit s in
    if starts_with (c ∷ s) (codes "live/telemetry/")
    then (elim (match_unit (drop (c ∷ s) 15)) [ some u ↦ some u | none ↦ later ])
    else later

-- parse_unit_path: the region, the first segment and the rest
unfoldable pub parse_unit_path : Str → Outcome (Str × Str × Str)
unfolding search_unit
parse_unit_path path = need path_parse_error (search_unit path)
