-- ===== src/Grep/Tests.antt =====
-- Runs of the model of grep/grep.c on concrete rows.
use hack.Base.{List, ◌∷◌, [], ◌≡◌, refl}
use hack.Grep.Vector.{CString}
use hack.Grep.Search.Exact.{populate_search_result-hits}
use hack.Grep.Search.{strstr, Found, populate_search_result}

-- "ab", "cab", "b"
abbrev rows : List CString
rows = (97 ∷ 98 ∷ []) ∷ (99 ∷ 97 ∷ 98 ∷ []) ∷ (98 ∷ []) ∷ []

abbrev nothing : Found
nothing = record { found_count = 0; found_index = []; buff_found = [] }

populate_search_result-hits_example :
    (populate_search_result (97 ∷ 98 ∷ []) 0 rows nothing).found_index ≡ 0 ∷ 1 ∷ []
unfolding strstr
populate_search_result-hits_example =
    (populate_search_result-hits (97 ∷ 98 ∷ []) 0 rows nothing
      (record { numbers = refl; strings = refl })).1
