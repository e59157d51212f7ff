-- ===== src/Release/Title/Roundtrip.antt =====
-- A title that is put together from its parts is parsed into them.
use telemetry_platform.Base.{
  ℕ, Bool, true, false, Option, none, some, [], ◌∷◌, ◌++◌, if◌then◌else◌, Str, codes, member,
  length, drop, ok, raised, value_error, need, ◌>>=◌, ◌≡◌, refl, ◌∙◌, ap, arith, All, append_assoc,
}
use telemetry_platform.Base.Int.{strip, is_space, skip_spaces}
use telemetry_platform.Base.Order.{before, without}
use telemetry_platform.Release.Title.{
  valid_commit_types, is_lower, lower_word, with_description, match_breaking, match_scope,
  match_title, derive_bump, parsed_of, parse_pr_title,
}

abbrev scope_text : Option Str → Str
scope_text none = []
scope_text (some scope) = b'(' ∷ (scope ++ codes ")")

abbrev mark : Bool → Str
mark true = codes "!"
mark false = []

-- <type>[(<scope>)][!]: <description>
unfoldable pub title_of : Str → Option Str → Bool → Str → Str
title_of word scope breaking description =
    word ++ (scope_text scope ++ (mark breaking ++ (codes ": " ++ description)))

-- A scope has a character, and no closing parenthesis.
abbrev pub IsScope : Option Str → Type 0
IsScope none = Unit
IsScope (some []) = ⊥
IsScope (some (c ∷ s)) = without b')' (c ∷ s) ≡ true

-- A description starts with a character that is no white space, and has no line break.
abbrev pub IsDescription : Str → Type 0
IsDescription [] = ⊥
IsDescription (c ∷ s) = (is_space c ≡ false) × (without 10 (c ∷ s) ≡ true)

-- A text that does not go on with a lower case letter.
abbrev Ends : Str → Type 0
Ends [] = ⊥
Ends (c ∷ s) = is_lower c ≡ false

lower_word-append :
    (word s : Str) → All (λ c. is_lower c ≡ true) word → Ends s → lower_word (word ++ s) ≡ word
unfolding lower_word
lower_word-append [] [] h e = elim e [ ]
lower_word-append [] (c ∷ s) h e = rw e refl
lower_word-append (c ∷ word) s (h, hs) e = rw (h, lower_word-append word s hs e) refl

drop-word : (word s : Str) → drop (word ++ s) (length word) ≡ s
unfolding drop
drop-word [] s = refl
drop-word (c ∷ word) s = drop-word word s

match_breaking-append :
    (word : Str) (scope : Option Str) (breaking : Bool) (description : Str)
    → IsDescription description
    → match_breaking word scope (mark breaking ++ (codes ": " ++ description))
      ≡ with_description word scope breaking (some description)
unfolding match_breaking skip_spaces is_space
match_breaking-append word scope breaking [] h = elim h [ ]
match_breaking-append word scope true (c ∷ s) (h, line) = rw (h, line) refl
match_breaking-append word scope false (c ∷ s) (h, line) = rw (h, line) refl

before-without : (c : ℕ) (s t : Str) → without c s ≡ true → before c (s ++ c ∷ t) ≡ s
unfolding before
before-without c [] t h = ground arith
before-without c (x ∷ s) t h = ground (arith, before-without c s t)

rest_of : Option Str → Bool → Str → Str
rest_of scope breaking description =
    scope_text scope ++ (mark breaking ++ (codes ": " ++ description))

match_scope-append :
    (word : Str) (scope : Option Str) (breaking : Bool) (description : Str)
    → IsScope scope
    → IsDescription description
    → match_scope word (rest_of scope breaking description)
      ≡ with_description word scope breaking (some description)
unfolding match_scope rest_of
match_scope-append word none true description sc d =
    match_breaking-append word none true description d
match_scope-append word none false description sc d =
    match_breaking-append word none false description d
match_scope-append word (some []) breaking description sc d = elim sc [ ]
match_scope-append word (some (c ∷ s)) breaking description sc d =
    let tail = mark breaking ++ (codes ": " ++ description) in
    let joined : ((c ∷ s) ++ codes ")") ++ tail ≡ (c ∷ s) ++ b')' ∷ tail =
      append_assoc (c ∷ s) (codes ")") tail in
    ap (λ t. match_scope word (b'(' ∷ t)) joined
    ∙ rw (before-without b')' (c ∷ s) tail sc, drop-word (c ∷ s) (b')' ∷ tail))
        (match_breaking-append word (some (c ∷ s)) breaking description d)

Ends-rest_of :
    (scope : Option Str) (breaking : Bool) (description : Str)
    → Ends (rest_of scope breaking description)
unfolding rest_of is_lower
Ends-rest_of none true description = refl
Ends-rest_of none false description = refl
Ends-rest_of (some s) breaking description = refl

-- Every title that strips to a type of small letters, an optional scope, an optional exclamation mark,
-- a colon with a space and a description is parsed into just these parts if the type is a known one,
-- with the bump that they ask for, and is refused if it is not.
pub parse_pr_title-title_of :
    (title : Str) (c : ℕ) (word : Str) (scope : Option Str) (breaking : Bool) (description : Str)
    → strip title ≡ title_of (c ∷ word) scope breaking description
    → All (λ d. is_lower d ≡ true) (c ∷ word)
    → IsScope scope
    → IsDescription description
    → parse_pr_title title ≡ (
        if member (c ∷ word) valid_commit_types
        then ok (record {
          commit_type = c ∷ word;
          scope = scope;
          breaking = breaking;
          description = description;
          bump = derive_bump (c ∷ word) breaking;
        })
        else raised value_error)
unfolding parse_pr_title match_title title_of rest_of parsed_of
parse_pr_title-title_of title c word scope breaking description e ws sc d =
    let rest = rest_of scope breaking description in
    let first : lower_word ((c ∷ word) ++ rest) ≡ c ∷ word =
      lower_word-append (c ∷ word) rest ws (Ends-rest_of scope breaking description) in
    let matched : match_title ((c ∷ word) ++ rest)
        ≡ some (record {
          type_group = c ∷ word;
          scope_group = scope;
          breaking_group = breaking;
          description_group = description;
        }) =
      rw (first, drop-word (c ∷ word) rest)
        (match_scope-append (c ∷ word) scope breaking description sc d) in
    ap (λ t. need value_error (match_title t) >>= λ m. parsed_of m) e
    ∙ ap (λ o. need value_error o >>= λ m. parsed_of m) matched
