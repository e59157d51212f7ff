-- ===== src/Accounts/Paths/Flags.antt =====
-- The flags that `_reassemble_flags` builds, read again by `extract_all_unit_paths`.
use telemetry_platform.Base.{
  ℕ, suc, ◌+◌, ◌-◌, ◌≡◌, refl, ◌∙◌, ap, sym, false, some, List, [], ◌∷◌, ◌++◌, Str, codes,
  starts_with, length, drop, arith, append_assoc, append-nil, All, ok,
}
use telemetry_platform.Base.Int.{is_space, skip_spaces}
use telemetry_platform.Accounts.Paths.{
  flag, flag_word, match_flag, find_flags, extract_all_unit_paths, reassemble_flags,
}

-- No white space in the text.
abbrev NoSpace : Str → Type 0
NoSpace = All (λ c. is_space c ≡ false)

-- A path that one token holds: it is not empty, and has no white space.
abbrev pub IsPath : Str → Type 0
IsPath [] = ⊥
IsPath (c ∷ p) = All (λ d. is_space d ≡ false) (c ∷ p)

-- What follows a token: nothing, or a space.
data Break : Str → Type 0 where
  at_end : Break []
  at_space : (s : Str) → Break (b' ' ∷ s)

flag_word-append : (p s : Str) → NoSpace p → Break s → flag_word (p ++ s) ≡ p
unfolding flag_word is_space
flag_word-append [] s h at_end = refl
flag_word-append [] s h (at_space t) = refl
flag_word-append (c ∷ p) s (h, hs) b = rw (h, flag_word-append p s hs b) refl

find_flags-skip : (xs ys : Str) → find_flags (length xs) (xs ++ ys) ≡ find_flags 0 ys
unfolding find_flags
find_flags-skip [] ys = refl
find_flags-skip (x ∷ xs) ys = find_flags-skip xs ys

suc-minus : (n : ℕ) → suc n - n ≡ 1
suc-minus n = omega arith

match_flag-append :
    (c : ℕ) (p s : Str)
    → NoSpace (c ∷ p)
    → Break s
    → match_flag (flag ++ codes " " ++ (c ∷ p) ++ s) ≡ some (c ∷ p, 20 + length (c ∷ p))
unfolding match_flag starts_with drop skip_spaces is_space
match_flag-append c p s (h, hs) b =
    let word : flag_word (c ∷ p ++ s) ≡ c ∷ p = flag_word-append (c ∷ p) s (h, hs) b in
    rw (h, word, suc-minus (suc (length (p ++ s)))) refl

flag_tail : Str
flag_tail = codes "-queue-include-dir "

find_flags-some :
    (c : ℕ) (s w : Str) (n : ℕ)
    → match_flag (c ∷ s) ≡ some (w, n)
    → find_flags 0 (c ∷ s) ≡ w ∷ find_flags (n - 1) s
unfolding find_flags
find_flags-some c s w n h = rw (h, find_flags) refl

find_flags-append :
    (c : ℕ) (p s : Str)
    → NoSpace (c ∷ p)
    → Break s
    → find_flags 0 (flag ++ codes " " ++ (c ∷ p) ++ s) ≡ (c ∷ p) ∷ find_flags 0 s
unfolding find_flags flag_tail
find_flags-append c p s h b =
    let skipped : find_flags (20 + length (c ∷ p) - 1) ((flag_tail ++ c ∷ p) ++ s)
        ≡ find_flags 0 s =
      ap (λ n. find_flags n ((flag_tail ++ c ∷ p) ++ s)) (lengths (length p))
      ∙ find_flags-skip (flag_tail ++ c ∷ p) s in
    find_flags-some b'-' ((flag_tail ++ c ∷ p) ++ s) (c ∷ p) (20 + length (c ∷ p))
      (match_flag-append c p s h b)
    ∙ ap (λ ps. (c ∷ p) ∷ ps) skipped
  where
    lengths :
        (n : ℕ)
        → 20 + suc n - 1
          ≡ suc (
              suc (
                suc (
                  suc (
                    suc (
                      suc (
                        suc (
                          suc (
                            suc (
                              suc (
                                suc
                                  (suc (suc (suc (suc (suc (suc (suc (suc (suc n)))))))))))))))))))
    lengths n = omega arith

-- A space before the flags changes nothing.
find_flags-space : (s : Str) → find_flags 0 (b' ' ∷ s) ≡ find_flags 0 s
unfolding find_flags match_flag starts_with
find_flags-space s = refl

find_nothing : find_flags 0 [] ≡ []
unfolding find_flags
find_nothing = refl

find_flags-reassemble_flags :
    (ps : List Str) → All IsPath ps → find_flags 0 (reassemble_flags ps) ≡ ps
unfolding reassemble_flags
find_flags-reassemble_flags [] h = find_nothing
find_flags-reassemble_flags ([] ∷ ps) (h, hs) = elim h [ ]
find_flags-reassemble_flags ((c ∷ p) ∷ []) (h, hs) =
    ap (λ t. find_flags 0 (flag ++ codes " " ++ t)) (sym (append-nil (c ∷ p)))
    ∙ find_flags-append c p [] h at_end
    ∙ ap (λ ps. (c ∷ p) ∷ ps) (find_flags-reassemble_flags [] tt)
find_flags-reassemble_flags ((c ∷ p) ∷ q ∷ ps) (h, hs) =
    ap (λ t. find_flags 0 t)
      (append_assoc (flag ++ codes " " ++ (c ∷ p)) (codes " ") (reassemble_flags (q ∷ ps)))
    ∙ find_flags-append c p (codes " " ++ reassemble_flags (q ∷ ps)) h
        (at_space (reassemble_flags (q ∷ ps)))
    ∙ ap (λ qs. (c ∷ p) ∷ qs)
        (find_flags-space (reassemble_flags (q ∷ ps)) ∙ find_flags-reassemble_flags (q ∷ ps) hs)

-- The flags of a row, built from at least one path, each of them not empty and without white space,
-- are read again as the same paths in the same order.
pub extract_all_unit_paths-reassemble_flags :
    (p : Str) (ps : List Str)
    → All IsPath (p ∷ ps)
    → extract_all_unit_paths (reassemble_flags (p ∷ ps)) ≡ ok (p ∷ ps)
unfolding extract_all_unit_paths
extract_all_unit_paths-reassemble_flags p ps h = rw (find_flags-reassemble_flags (p ∷ ps) h) refl
