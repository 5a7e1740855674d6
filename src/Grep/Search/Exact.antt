-- ===== src/Grep/Search/Exact.antt =====
-- What the search of grep/grep.c finds: every row that holds the string, in order.
use hack.Base.{
  ℕ, Option, ◌≡◌, some, ◌∷◌, true, ◌++◌, none, false, ◌==◌, arith, eq→==, ap₂, [], sym, refl, ==→eq,
  List, length, ap, append-nil, ◌+◌, length-append, ◌<◌, ◌∙◌, Bool-cases, drop, inl, inr,
  append_assoc,
}
use hack.Grep.Vector.{CString}
use hack.Grep.Search.{is_prefix, populate_search_result, Found, strstr, keep_row}
use hack.Grep.Vector.Erase.{push_back-append, push_back_string-append}

-- `s` holds the string: it stands somewhere in it.
abbrev pub Holds : CString → CString → Type 0
Holds target s = (before : CString) × (after : CString) × (s ≡ before ++ (target ++ after))

-- what stands behind a prefix
is_prefix-true :
    (target s : CString) → is_prefix target s ≡ true → (after : CString) × (s ≡ target ++ after)
is_prefix-true [] s h = (s, refl)
is_prefix-true (c ∷ target) [] h = absurd (ground arith)
is_prefix-true (c ∷ target) (d ∷ s) h =
    let both : ((c == d) ≡ true) × (is_prefix target s ≡ true) = ground arith in
    let (after, e) = is_prefix-true target s both.1 in (after, ap₂ ◌∷◌ (sym (==→eq c d both.0)) e)

is_prefix-append : (target after : CString) → is_prefix target (target ++ after) ≡ true
is_prefix-append [] after = refl
is_prefix-append (c ∷ target) after =
    let same : (c == c) ≡ true = eq→== c c refl in rw same (is_prefix-append target after)

-- a match that is not at the start is one in the rest
Holds-tail :
    (target s : CString) (c : ℕ)
    → is_prefix target (c ∷ s) ≡ false
    → Holds target (c ∷ s)
    → Holds target s
Holds-tail target s c miss ([], after, e) =
    let hit : is_prefix target (c ∷ s) ≡ true =
      ap (is_prefix target) e ∙ is_prefix-append target after in
    absurd (ground (arith, hit, miss))
Holds-tail target s c miss (d ∷ before, after, e) = (before, after, ap (drop 1) e)

-- Without a result the target stands nowhere in the string. A result is an end of the string that
-- starts with the target, and no longer end does.
abbrev pub FirstMatch : CString → CString → Option CString → Type 0
FirstMatch target s none = ¬ Holds target s
FirstMatch target s (some found) =
    (before : CString) × (s ≡ before ++ found)
    × (is_prefix target found ≡ true)
    × ((b r : CString) → s ≡ b ++ r → length b < length before → is_prefix target r ≡ false)

FirstMatch-later :
    (target s : CString) (c : ℕ) (r : Option CString)
    → is_prefix target (c ∷ s) ≡ false
    → FirstMatch target s r
    → FirstMatch target (c ∷ s) r
FirstMatch-later target s c none miss f = λ h. f (Holds-tail target s c miss h)
FirstMatch-later target s c (some found) miss (before, e, hit, first) =
    (c ∷ before, ap (◌∷◌ c) e, hit, go)
  where
    go :
        (b r : CString)
        → c ∷ s ≡ b ++ r
        → length b < length (c ∷ before)
        → is_prefix target r ≡ false
    go [] r e lt = ap (is_prefix target) (sym e) ∙ miss
    go (d ∷ b) r e lt = first b r (ap (drop 1) e) (omega arith)

-- The search in a string finds the first place where the target stands, or that there is none.
strstr-FirstMatch : (s target : CString) → FirstMatch target s (strstr s target)
unfolding strstr
strstr-FirstMatch [] [] = ([], refl, refl, λ b r e lt. absurd (omega arith))
strstr-FirstMatch [] (c ∷ target) = λ (before, after, e).
    absurd (omega (arith, ap length e, length-append before (c ∷ (target ++ after))))
strstr-FirstMatch (c ∷ s) target = elim (Bool-cases (is_prefix target (c ∷ s))) [
  | inl hit ↦ rw hit ([], refl, hit, λ b r e lt. absurd (omega arith))
  | inr miss ↦
      rw miss (FirstMatch-later target s c (strstr s target) miss (strstr-FirstMatch s target))
]

abbrev pub note_row : ℕ → Option CString → List ℕ → List ℕ
note_row i none later = later
note_row i (some found) later = i ∷ later

abbrev pub note_string : Option CString → List CString → List CString
note_string none later = later
note_string (some found) later = found ∷ later

-- What is kept of the rows from row `i` on: the numbers of those with a match, and each from its
-- first match on.
abbrev pub hit_rows : CString → ℕ → List CString → List ℕ
hit_rows target i [] = []
hit_rows target i (row ∷ rows) = note_row i (strstr row target) (hit_rows target (i + 1) rows)

abbrev pub hit_strings : CString → List CString → List CString
hit_strings target [] = []
hit_strings target (row ∷ rows) = note_string (strstr row target) (hit_strings target rows)

-- the two arrays are as long as the count says
pub record IsFound (found : Found) : Type 0 where
  pub numbers : found.found_count ≡ length found.found_index
  pub strings : found.found_count ≡ length found.buff_found

-- a round, with what the later rounds append
keep_row_lem :
    (i : ℕ) (o : Option CString) (found : Found) (later : List ℕ) (strings : List CString)
    → IsFound found
    → let r = keep_row i o found in
      IsFound r
      × (r.found_index ++ later ≡ found.found_index ++ note_row i o later)
      × (r.buff_found ++ strings ≡ found.buff_found ++ note_string o strings)
unfolding keep_row
keep_row_lem i none found later strings v = (v, refl, refl)
keep_row_lem i (some s) found later strings v =
    let n = push_back-append 0 found.found_count found.found_index i v.numbers in
    let m = push_back_string-append found.found_count found.buff_found s v.strings in
    (
      record {
        numbers = rw n (omega (arith, v.numbers, length-append found.found_index (i ∷ [])));
        strings = rw m (omega (arith, v.strings, length-append found.buff_found (s ∷ [])));
      },
      ap (λ l. l ++ later) n ∙ append_assoc found.found_index (i ∷ []) later,
      ap (λ l. l ++ strings) m ∙ append_assoc found.buff_found (s ∷ []) strings,
    )

-- with what an earlier search has found
populate_search_result_lem :
    (target : CString) (i : ℕ) (rows : List CString) (found : Found)
    → IsFound found
    → let r = populate_search_result target i rows found in
      IsFound r
      × (r.found_index ≡ found.found_index ++ hit_rows target i rows)
      × (r.buff_found ≡ found.buff_found ++ hit_strings target rows)
unfolding populate_search_result
populate_search_result_lem target i [] found v =
    (v, sym (append-nil found.found_index), sym (append-nil found.buff_found))
populate_search_result_lem target i (row ∷ rows) found v =
    let (v1, e, f) =
      keep_row_lem i (strstr row target) found (hit_rows target (i + 1) rows)
        (hit_strings target rows) v in
    let (v2, e', f') =
      populate_search_result_lem target (i + 1) rows (keep_row i (strstr row target) found) v1 in
    (v2, e' ∙ e, f' ∙ f)

-- A search in all rows, from a result whose arrays are as long as it counts: the rows with a match are
-- appended to them, with their numbers, in order, each from its first match on, and are counted. The
-- match is the first place where the string stands, and a row without one does not hold the string.
pub populate_search_result-hits :
    (target : CString) (i : ℕ) (rows : List CString) (found : Found)
    → IsFound found
    → let r = populate_search_result target i rows found in
      IsFound r
      × (r.found_index ≡ found.found_index ++ hit_rows target i rows)
      × (r.buff_found ≡ found.buff_found ++ hit_strings target rows)
      × ((row : CString) → FirstMatch target row (strstr row target))
populate_search_result-hits target i rows found v =
    let (v', e, f) = populate_search_result_lem target i rows found v in
    (v', e, f, λ row. strstr-FirstMatch row target)
