-- ===== src/Grep/Search.antt =====
-- The search of grep/grep.c: which rows hold a string, and what is kept of them.
pub mod Exact
use hack.Base.{
  ℕ, Option, List, ◌∷◌, some, if◌then◌else◌, Bool, ◌+◌, none, true, [], false, ◌==◌, ◌&&◌,
}
use hack.Grep.Vector.{CString, push_back, push_back_string}

-- `strstr` of the C library, whose result is the rest of the string from the first match on
abbrev pub is_prefix : CString → CString → Bool
is_prefix [] s = true
is_prefix (c ∷ target) [] = false
is_prefix (c ∷ target) (d ∷ s) = c == d && is_prefix target s

unfoldable pub strstr : CString → CString → Option CString
strstr [] target = if is_prefix target [] then some [] else none
strstr (c ∷ s) target =
    let rest = strstr s target in if is_prefix target (c ∷ s) then some (c ∷ s) else rest

-- `BITGREP_FOUND`
pub record Found : Type 0 where
  pub found_count : ℕ
  pub found_index : List ℕ
  pub buff_found : List CString

-- one round: both arrays grow by one, and `push_back` returns 0
unfoldable pub keep_row : ℕ → Option CString → Found → Found
keep_row i none found = found
keep_row i (some target_found) found = record {
  found_count = found.found_count + 1;
  found_index = push_back 0 found.found_count found.found_index i;
  buff_found = push_back_string found.found_count found.buff_found target_found;
}

-- the loop over the rows that are left, from row `i` on
unfoldable pub populate_search_result : CString → ℕ → List CString → Found → Found
populate_search_result target i [] found = found
populate_search_result target i (row ∷ rows) found =
    populate_search_result target (i + 1) rows (keep_row i (strstr row target) found)
