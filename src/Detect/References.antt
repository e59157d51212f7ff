-- ===== src/Detect/References.antt =====
-- The four expressions that detect_terragrunt_units.py searches a unit's file for.
use telemetry_platform.Base.{
  ℕ, zero, suc, ◌-◌, ◌||◌, Option, none, some, List, [], ◌∷◌, if◌then◌else◌, nat_beq, Str, codes,
  starts_with, length, drop,
}
use telemetry_platform.Base.Int.{is_space, skip_spaces}
use telemetry_platform.Base.Order.{before}

-- A match: its group, and the text behind it.
abbrev Match {ℓ} : Type ℓ → Type ℓ
Match A = Option (A × Str)

infixl 5 ◌>>=◌
-- What follows a part that matches.
abbrev ◌>>=◌ : {A B : Type 0} → Option A → (A → Option B) → Option B
none >>= next = none
some a >>= next = next a

-- re.findall: `skip` characters belong to the last match.
unfoldable pub findall : {A : Type 0} → (Str → Match A) → ℕ → Str → List A
findall expression skip [] = []
findall expression (suc skip) (c ∷ s) = findall expression skip s
findall expression zero (c ∷ s) = elim (expression (c ∷ s)) [
  | none ↦ findall expression 0 s
  | some m ↦ m.0 ∷ findall expression (length s - length m.1) s
]

-- A literal.
unfoldable pub literal : Str → Str → Option Str
unfolding starts_with drop
literal text s = if starts_with s text then some (drop s (length text)) else none

abbrev quoted_text : Str → Str → Match Str
quoted_text [] rest = none
quoted_text (c ∷ text) [] = none
quoted_text (c ∷ text) (d ∷ rest) = some (c ∷ text, rest)

-- "([^"]+)"
unfoldable pub quoted : Str → Match Str
unfolding before drop
quoted [] = none
quoted (c ∷ s) =
    if nat_beq c b'"' then quoted_text (before b'"' s) (drop s (length (before b'"' s))) else none

-- \s+
abbrev some_space : Str → Option Str
some_space [] = none
some_space (c ∷ s) = if is_space c then some (skip_spaces s) else none

-- find_in_parent_folders\(\s*"([^"]+)"\s*\), FIND_IN_PARENT_FOLDERS_RE
unfoldable pub match_parent : Str → Match Str
unfolding literal quoted skip_spaces
match_parent s = do
  s1 ← literal (codes "find_in_parent_folders(") s
  name ← quoted (skip_spaces s1)
  s2 ← literal (codes ")") (skip_spaces name.1)
  some (name.0, s2)

-- [^"\s]*
unfoldable pub path_run : Str → Str
unfolding is_space
path_run [] = []
path_run (c ∷ s) = let rest = path_run s in if nat_beq c b'"' || is_space c then [] else c ∷ rest

abbrev run_and_rest : Str → Str → Match Str
run_and_rest s [] = none
run_and_rest s (c ∷ run) = some (b'/' ∷ c ∷ run, drop s (suc (length run)))

-- ((?:/[^"\s]+)+)
unfoldable pub slash_path : Str → Match Str
unfolding path_run drop
slash_path [] = none
slash_path (c ∷ s) = if nat_beq c b'/' then run_and_rest s (path_run s) else none

-- DIRNAME_PARENT_FOLDERS_REF_RE
unfoldable pub match_anchored : Str → Match (Str × Str)
unfolding literal match_parent slash_path
match_anchored s = do
  s1 ← literal (codes "${dirname(") s
  anchor ← match_parent s1
  s2 ← literal (codes ")}") anchor.1
  rest ← slash_path s2
  some ((anchor.0, rest.0), rest.1)

-- GET_TERRAGRUNT_DIR_REF_RE
unfoldable pub match_unit_relative : Str → Match Str
unfolding literal slash_path
match_unit_relative s = literal (codes "${get_terragrunt_dir()}") s >>= slash_path

-- config_path\s*=\s*"([^"]+)"
unfoldable pub match_config_path : Str → Match Str
unfolding literal skip_spaces quoted
match_config_path s = do
  s1 ← literal (codes "config_path") s
  s2 ← literal (codes "=") (skip_spaces s1)
  quoted (skip_spaces s2)

abbrev or_else : {A : Type 0} → Option A → Option A → Option A
or_else none o = o
or_else (some a) o = some a

-- [^}]* takes as much as there is: the last such match that begins before the first brace.
unfoldable pub last_config_path : Str → Match Str
unfolding match_config_path
last_config_path [] = none
last_config_path (c ∷ s) =
    let later = last_config_path s in
    if nat_beq c b'}' then none else or_else later (match_config_path (c ∷ s))

-- DEPENDENCY_CONFIG_PATH_RE
unfoldable pub match_dependency : Str → Match Str
unfolding literal quoted skip_spaces last_config_path is_space
match_dependency s = do
  s1 ← literal (codes "dependency") s
  s2 ← some_space s1
  name ← quoted s2
  s3 ← literal (codes "{") (skip_spaces name.1)
  last_config_path s3

-- parse_dependency_paths, on the text of the file
unfoldable pub dependency_paths : Str → List Str
unfolding findall match_dependency
dependency_paths content = findall match_dependency 0 content

unfoldable pub parent_names : Str → List Str
unfolding findall match_parent
parent_names content = findall match_parent 0 content

unfoldable pub anchored_paths : Str → List (Str × Str)
unfolding findall match_anchored
anchored_paths content = findall match_anchored 0 content

unfoldable pub unit_relative_paths : Str → List Str
unfolding findall match_unit_relative
unit_relative_paths content = findall match_unit_relative 0 content
