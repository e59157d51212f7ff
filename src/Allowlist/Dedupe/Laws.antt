-- ===== src/Allowlist/Dedupe/Laws.antt =====
-- De-duplication keeps each item once, at its first place.
use telemetry_platform.Base.{
  ◌≡◌, refl, ◌∙◌, sym, ap, false, ◌||◌, List, [], ◌∷◌, ◌++◌, if◌then◌else◌, Str, eq_iff, member,
  arith, Bool-cases, inl, inr, append-nil, append_assoc,
}
use telemetry_platform.Base.Dict.{Distinct}
use telemetry_platform.Allowlist.Dedupe.{dedupe_from, dedupe}

pub member-append :
    (n : Str) (xs ys : List Str) → member n (xs ++ ys) ≡ (member n xs || member n ys)
unfolding member
member-append n [] ys = refl
member-append n (x ∷ xs) ys = ground (arith, member-append n xs ys)

Distinct-snoc :
    (n : Str) (xs : List Str) → member n xs ≡ false → Distinct xs → Distinct (xs ++ n ∷ [])
unfolding member
Distinct-snoc n [] h d = (refl, tt)
Distinct-snoc n (x ∷ xs) h (fresh, d) = (
  ground (arith, member-append x xs (n ∷ []), eq_iff n x, eq_iff x n),
  Distinct-snoc n xs (ground arith) d,
)

dedupe_from-Distinct : (out items : List Str) → Distinct out → Distinct (dedupe_from out items)
unfolding dedupe_from
dedupe_from-Distinct out [] d = d
dedupe_from-Distinct out (item ∷ items) d = elim (Bool-cases (member item out)) [
  | inl old ↦ rw old (dedupe_from-Distinct out items d)
  | inr new ↦ rw new (dedupe_from-Distinct (out ++ item ∷ []) items (Distinct-snoc item out new d))
]

member-dedupe_from :
    (n : Str) (out items : List Str)
    → member n (dedupe_from out items) ≡ (member n out || member n items)
unfolding dedupe_from member
member-dedupe_from n out [] = ground arith
member-dedupe_from n out (item ∷ items) = elim (Bool-cases (member item out)) [
  | inl old ↦ rw old (ground (arith, member-dedupe_from n out items, eq_iff n item))
  | inr new ↦ rw new (
      ground
        (arith, member-dedupe_from n (out ++ item ∷ []) items, member-append n out (item ∷ [])))
]

dedupe_from-append :
    (out xs ys : List Str) → dedupe_from out (xs ++ ys) ≡ dedupe_from (dedupe_from out xs) ys
unfolding dedupe_from
dedupe_from-append out [] ys = refl
dedupe_from-append out (x ∷ xs) ys =
    dedupe_from-append (if member x out then out else out ++ x ∷ []) xs ys

dedupe_from-prefix :
    (out items : List Str) → (new : List Str) × (dedupe_from out items ≡ out ++ new)
unfolding dedupe_from
dedupe_from-prefix out [] = ([], sym (append-nil out))
dedupe_from-prefix out (item ∷ items) = elim (Bool-cases (member item out)) [
  | inl old ↦ let (new, e) = dedupe_from-prefix out items in (new, rw old e)
  | inr fresh ↦
      let (new, e) = dedupe_from-prefix (out ++ item ∷ []) items in
      (item ∷ new, rw fresh (e ∙ append_assoc out (item ∷ []) new))
]

absent_before : (x : Str) (out xs : List Str) → Distinct (out ++ x ∷ xs) → member x out ≡ false
unfolding member
absent_before x [] xs d = refl
absent_before x (y ∷ out) xs (fresh, d) =
    ground (arith, absent_before x out xs d, member-append y out (x ∷ xs), eq_iff x y, eq_iff y x)

-- What is there already once is left as it is.
dedupe_from-Distinct_items :
    (out xs : List Str) → Distinct (out ++ xs) → dedupe_from out xs ≡ out ++ xs
unfolding dedupe_from
dedupe_from-Distinct_items out [] d = sym (append-nil out)
dedupe_from-Distinct_items out (x ∷ xs) d = rw (absent_before x out xs d) (
    dedupe_from-Distinct_items (out ++ x ∷ []) xs (rw (append_assoc out (x ∷ []) xs) d)
    ∙ append_assoc out (x ∷ []) xs)

pub dedupe-Distinct : (items : List Str) → Distinct (dedupe items)
unfolding dedupe
dedupe-Distinct items = dedupe_from-Distinct [] items tt

pub member-dedupe : (n : Str) (items : List Str) → member n (dedupe items) ≡ member n items
unfolding dedupe member
member-dedupe n items = member-dedupe_from n [] items

-- Merging new addresses into a list with no repetition keeps the list, in its order, as the first
-- part of the result; the result has no repetition, and holds exactly the old and the new ones.
pub dedupe-append :
    (xs ys : List Str)
    → Distinct xs
    → (new : List Str) × (dedupe (xs ++ ys) ≡ xs ++ new)
      × Distinct (dedupe (xs ++ ys))
      × ((n : Str) → member n (dedupe (xs ++ ys)) ≡ (member n xs || member n ys))
unfolding dedupe
dedupe-append xs ys d =
    let (new, grown) = dedupe_from-prefix xs ys in
    let merged : dedupe (xs ++ ys) ≡ xs ++ new =
      dedupe_from-append [] xs ys
      ∙ ap (λ out. dedupe_from out ys) (dedupe_from-Distinct_items [] xs d)
      ∙ grown in
    (
      new,
      merged,
      dedupe_from-Distinct [] (xs ++ ys) tt,
      λ n. member-dedupe_from n [] (xs ++ ys) ∙ member-append n xs ys,
    )
