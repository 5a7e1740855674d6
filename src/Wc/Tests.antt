-- ===== src/Wc/Tests.antt =====
-- Runs of the model of wc/wc.c on concrete buffers.
use hack.Base.{ℕ, List, ◌≡◌, arith, ◌∷◌, none, []}
use hack.Wc.Count.{count_line_from_buff, count_word_from_buff}
use hack.Wc.Count.Exact.{IsText, count-runs_out}

-- "ab c", a newline, and "d"
abbrev text : List ℕ
text = 97 ∷ 98 ∷ 32 ∷ 99 ∷ 10 ∷ 100 ∷ []

text-IsText : IsText text
text-IsText = ground arith

count-runs_out_example : (count_line_from_buff text ≡ none) × (count_word_from_buff text ≡ none)
count-runs_out_example = count-runs_out text text-IsText
