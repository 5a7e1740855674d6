-- ===== src/Grep/Vector.antt =====
-- The arrays of grep/grep.c, of numbers and of strings, that grow and shrink by one. An array is the
-- list of its elements. `malloc` and `realloc` succeed, as the code supposes; a new element is read as
-- `junk` until it is written. Strings are values here: that a pushed string is copied, and which
-- copies are freed, is not seen.
pub mod Erase
use hack.Base.{
  ℕ, List, suc, if◌then◌else◌, take, ◌+◌, ◌==◌, ◌++◌, ltb, leb, [], replicate, not, set, ◌-◌,
  get_or, length, zero, ◌∷◌,
}
use hack.Base.Int.{ℤ, negsuc, pos}

abbrev pub CString : Type 0
CString = List ℕ

module _ {ℓ} {A : Type ℓ} (junk : A) where
  -- `realloc` to `n` elements keeps those that fit.
  abbrev pub realloc : List A → ℕ → List A
  realloc vec zero = []
  realloc [] (suc n) = junk ∷ realloc [] n
  realloc (x ∷ vec) (suc n) = x ∷ realloc vec n

  unfoldable pub push_back : ℕ → List A → A → List A
  push_back count vec new_el =
      let vec_tmp = if count == 0 then realloc [] (count + 1) else realloc vec (count + 1) in
      set vec_tmp count new_el

  -- The loop of the erasure, with `n` rounds left.
  unfoldable pub shift : ℕ → ℕ → ℕ → List A → List A
  shift zero i index vec = vec
  shift (suc n) i index vec =
      shift n (i + 1) index (if leb i index then vec else set vec (i - 1) (get_or vec i junk))

  -- Where the array is freed, nothing is left of it.
  unfoldable pub erase : ℕ → List A → ℤ → ℤ × List A
  erase count vec (negsuc n) = if count == 0 then (negsuc 0, vec) else (negsuc 1, vec)
  erase count vec (pos index) =
      if count == 0
      then (negsuc 0, vec)
      else if leb count index
      then (negsuc 1, vec)
      else if count - 1 == 0
      then (pos 1, [])
      else (pos 0, realloc (shift count 0 index vec) (count - 1))

-- the loop for strings, of `rowc` rows
unfoldable pub shift_string : ℕ → ℕ → ℕ → ℕ → List CString → List CString
shift_string rowc zero i index vec = vec
shift_string rowc (suc n) i index vec = shift_string rowc n (i + 1) index (
    if ltb i index
    then vec
    else if i == index
    then vec
    else if not (i == rowc - 1)
    then set vec (i - 1) (get_or vec i [])
    else set vec (i - 1) (get_or vec i []))

unfoldable pub push_back_string : ℕ → List CString → CString → List CString
push_back_string rowc vec new_el =
    let vec_tmp = if rowc == 0 then realloc [] [] (rowc + 1) else realloc [] vec (rowc + 1) in
    set vec_tmp rowc new_el

unfoldable pub erase_string : ℕ → List CString → ℤ → ℤ × List CString
erase_string rowc vec (negsuc n) = if rowc == 0 then (negsuc 0, vec) else (negsuc 1, vec)
erase_string rowc vec (pos index) =
    if rowc == 0
    then (negsuc 0, vec)
    else if leb rowc index
    then (negsuc 1, vec)
    else if rowc - 1 == 0
    then (pos 1, [])
    else (pos 0, realloc [] (shift_string rowc rowc 0 index vec) (rowc - 1))
