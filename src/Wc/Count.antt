-- ===== src/Wc/Count.antt =====
-- The counting of lines and words in wc/wc.c, with `strsep` and `strtok` of the C library for a set of
-- one delimiter. Memory is the list of its bytes from a pointer to the end of the buffer, and a read
-- behind the end is `none`. The loops run on fuel, one more than the bytes of the buffer.
pub mod Exact
use hack.Base.{
  ℕ, Option, List, length, some, none, ◌+◌, suc, ◌∷◌, if◌then◌else◌, zero, ◌==◌, [], ◌>>=◌,
}

abbrev pub Memory : Type 0
Memory = List ℕ

-- `strsep`: where the pointer stands after the token, nowhere if the string ends
unfoldable pub strsep : ℕ → Memory → Option (Option Memory)
strsep delim [] = none
strsep delim (c ∷ s) =
    let rest = strsep delim s in
    if c == 0 then some none else if c == delim then some (some s) else rest

-- the loop of `WC_count_line_from_buff`; a pointer to nowhere gives no token
unfoldable pub line_loop : ℕ → Option Memory → ℕ → Option ℕ
line_loop zero target_buff new_lines = some new_lines
line_loop (suc fuel) none new_lines = some new_lines
line_loop (suc fuel) (some s) new_lines = do next ← strsep 10 s; line_loop fuel next (new_lines + 1)

unfoldable pub count_line_from_buff : Memory → Option ℕ
count_line_from_buff buff = line_loop (length buff + 1) (some buff) 0

-- `strtok`: the delimiters before a token are passed over, and the string may end with no token
unfoldable pub skip_delims : ℕ → Memory → Option (Option Memory)
skip_delims delim [] = none
skip_delims delim (c ∷ s) =
    let rest = skip_delims delim s in
    if c == 0 then some none else if c == delim then rest else some (some (c ∷ s))

-- the end of a token: the next search starts behind the delimiter, or at the end of the string
unfoldable pub token_end : ℕ → Memory → Option Memory
token_end delim [] = none
token_end delim (c ∷ s) =
    let rest = token_end delim s in
    if c == 0 then some (c ∷ s) else if c == delim then some s else rest

-- With a token the search goes on behind it; without one the count is done.
abbrev pub word_round : Option Memory → ℕ → (Memory → Option ℕ) → Option ℕ
word_round none words next_token = some words
word_round (some s) words next_token = do next ← token_end 32 s; next_token next

-- the loop of `WC_count_word_from_buff`
unfoldable pub word_loop : ℕ → Memory → ℕ → Option ℕ
word_loop zero s words = some words
word_loop (suc fuel) s words = do
  tokptr ← skip_delims 32 s
  word_round tokptr words λ next. word_loop fuel next (words + 1)

unfoldable pub count_word_from_buff : Memory → Option ℕ
count_word_from_buff buff = word_loop (length buff + 1) buff 0
