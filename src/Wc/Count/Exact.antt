-- ===== src/Wc/Count/Exact.antt =====
-- What wc/wc.c counts in a buffer that ends its string, and where it reads past one that does not.
use hack.Base.{
  ℕ, Bool, List, ◌∷◌, length, if◌then◌else◌, ◌≢◌, [], ◌<◌, ◌==◌, some, false, ◌+◌, ◌≡◌, ◌++◌, true,
  none, arith, suc, zero, ap, refl, Option, ◌>>=◌, length-append, ◌∙◌,
}
use hack.Wc.Count.{
  line_loop, strsep, word_loop, token_end, skip_delims, count_line_from_buff, count_word_from_buff,
}

-- no NUL among the bytes
abbrev pub IsText : List ℕ → Type 0
IsText [] = Unit
IsText (c ∷ s) = (c ≢ 0) × IsText s

abbrev pub newlines : List ℕ → ℕ
newlines [] = 0
newlines (c ∷ s) = if c == 10 then newlines s + 1 else newlines s

-- the words that begin in a text, behind a character of a word or not
abbrev pub words_in : Bool → List ℕ → ℕ
words_in inside [] = 0
words_in inside (c ∷ s) =
    if c == 32 then words_in false s else if inside then words_in true s else words_in true s + 1

line_loop-text :
    (text rest : List ℕ) (fuel n : ℕ)
    → IsText text
    → length text < fuel
    → line_loop fuel (some (text ++ (0 ∷ rest))) n ≡ some (n + newlines text + 1)
unfolding line_loop strsep
line_loop-text text rest zero n h lt = absurd (omega arith)
line_loop-text [] rest (suc zero) n h lt = ap some (omega arith)
line_loop-text [] rest (suc (suc fuel)) n h lt = ap some (omega arith)
line_loop-text (c ∷ text) rest (suc fuel) n h lt = ground (
  arith,
  line_loop-text text rest (suc fuel) n h.1 (omega arith),
  line_loop-text text rest fuel (n + 1) h.1 (omega arith),
)

line_loop-runs_out :
    (text : List ℕ) (fuel n : ℕ)
    → IsText text
    → length text < fuel
    → line_loop fuel (some text) n ≡ none
unfolding line_loop strsep
line_loop-runs_out text zero n h lt = absurd (omega arith)
line_loop-runs_out [] (suc fuel) n h lt = refl
line_loop-runs_out (c ∷ text) (suc fuel) n h lt = ground (
  arith,
  line_loop-runs_out text (suc fuel) n h.1 (omega arith),
  line_loop-runs_out text fuel (n + 1) h.1 (omega arith),
)

-- the rest of a round, inside a word
inside_word : ℕ → List ℕ → ℕ → Option ℕ
inside_word fuel s n = do next ← token_end 32 s; word_loop fuel next (n + 1)

-- What a search for words gives, outside a word and inside one, with enough fuel.
abbrev Counts : List ℕ → List ℕ → (Bool → ℕ → Option ℕ) → Type 0
Counts text s result =
    ((fuel n : ℕ) → length text < fuel → word_loop fuel s n ≡ result false n)
    × ((fuel n : ℕ) → length text < fuel → inside_word fuel s n ≡ result true (n + 1))

abbrev counted : List ℕ → Bool → ℕ → Option ℕ
counted text inside n = some (n + words_in inside text)

-- one character more
words_step :
    (text rest : List ℕ) (c : ℕ)
    → IsText (c ∷ text)
    → Counts text (text ++ (0 ∷ rest)) (counted text)
    → Counts (c ∷ text) (c ∷ text ++ (0 ∷ rest)) (counted (c ∷ text))
unfolding inside_word word_loop token_end skip_delims
words_step text rest c h ih = (outside, inside)
  where
    inside :
        (fuel n : ℕ)
        → length (c ∷ text) < fuel
        → inside_word fuel (c ∷ text ++ (0 ∷ rest)) n ≡ counted (c ∷ text) true (n + 1)
    inside fuel n lt = ground (arith, ih.0 fuel (n + 1) (omega arith), ih.1 fuel n (omega arith))

    outside :
        (fuel n : ℕ)
        → length (c ∷ text) < fuel
        → word_loop fuel (c ∷ text ++ (0 ∷ rest)) n ≡ counted (c ∷ text) false n
    outside zero n lt = absurd (omega arith)
    outside (suc fuel) n lt =
        ground (arith, ih.0 (suc fuel) n (omega arith), ih.1 fuel n (omega arith))

run_out_step :
    (text : List ℕ) (c : ℕ)
    → IsText (c ∷ text)
    → Counts text text (λ inside n. none)
    → Counts (c ∷ text) (c ∷ text) (λ inside n. none)
unfolding inside_word word_loop token_end skip_delims
run_out_step text c h ih = (outside, inside)
  where
    inside : (fuel n : ℕ) → length (c ∷ text) < fuel → inside_word fuel (c ∷ text) n ≡ none
    inside fuel n lt = ground (arith, ih.0 fuel (n + 1) (omega arith), ih.1 fuel n (omega arith))

    outside : (fuel n : ℕ) → length (c ∷ text) < fuel → word_loop fuel (c ∷ text) n ≡ none
    outside zero n lt = absurd (omega arith)
    outside (suc fuel) n lt =
        ground (arith, ih.0 (suc fuel) n (omega arith), ih.1 fuel n (omega arith))

words_lem : (text rest : List ℕ) → IsText text → Counts text (text ++ (0 ∷ rest)) (counted text)
unfolding inside_word word_loop token_end skip_delims
words_lem [] rest h = (outside, inside)
  where
    outside : (fuel n : ℕ) → 0 < fuel → word_loop fuel (0 ∷ rest) n ≡ some (n + 0)
    outside zero n lt = absurd (omega arith)
    outside (suc fuel) n lt = ap some (omega arith)

    inside : (fuel n : ℕ) → 0 < fuel → inside_word fuel (0 ∷ rest) n ≡ some (n + 1 + 0)
    inside zero n lt = absurd (omega arith)
    inside (suc fuel) n lt = ap some (omega arith)
words_lem (c ∷ text) rest h = words_step text rest c h (words_lem text rest h.1)

words_run_out : (text : List ℕ) → IsText text → Counts text text (λ inside n. none)
unfolding inside_word word_loop token_end skip_delims
words_run_out [] h = (outside, λ fuel n lt. refl)
  where
    outside : (fuel n : ℕ) → 0 < fuel → word_loop fuel [] n ≡ none
    outside zero n lt = absurd (omega arith)
    outside (suc fuel) n lt = refl
words_run_out (c ∷ text) h = run_out_step text c h (words_run_out text h.1)

-- In a buffer with a NUL behind a text, the count of lines is one more than the newlines of the text, and
-- the count of words is that of the words between its blanks.
pub count-text :
    (text rest : List ℕ)
    → IsText text
    → (count_line_from_buff (text ++ (0 ∷ rest)) ≡ some (newlines text + 1))
      × (count_word_from_buff (text ++ (0 ∷ rest)) ≡ some (words_in false text))
unfolding count_line_from_buff count_word_from_buff
count-text text rest h =
    let fuel = length (text ++ (0 ∷ rest)) + 1 in
    let enough : length text < fuel = omega (arith, length-append text (0 ∷ rest)) in
    (
      line_loop-text text rest fuel 0 h enough ∙ ap some (omega arith),
      (words_lem text rest h).0 fuel 0 enough ∙ ap some (omega arith),
    )

-- In a buffer without a NUL, such as the bytes of a text file that are read into it, both counts
-- read past the end of the copy that they make of it.
pub count-runs_out :
    (text : List ℕ)
    → IsText text
    → (count_line_from_buff text ≡ none) × (count_word_from_buff text ≡ none)
unfolding count_line_from_buff count_word_from_buff
count-runs_out text h =
    let enough : length text < length text + 1 = omega arith in
    (
      line_loop-runs_out text (length text + 1) 0 h enough,
      (words_run_out text h).0 (length text + 1) 0 enough,
    )
