-- ===== src/Grep/Vector/Erase.antt =====
-- What growing and shrinking an array of grep/grep.c does to its elements.
use hack.Base.{
  ℕ, List, ◌+◌, get_or, ◌<◌, length, ◌∷◌, ◌≡◌, suc, [], arith, if◌then◌else◌, ◌-◌, ◌++◌, ap, zero,
  leb, set, ltb, refl, ◌&&◌, length-set, get_or-set_ne, get_or-set_self, list_ext, ◌==◌, false, ◌∙◌,
}
use hack.Base.Int.{ℤ, pos, negsuc}
use hack.Grep.Vector.{
  shift, realloc, erase, shift_string, push_back, CString, push_back_string, erase_string,
}

-- the list without the element at an index
abbrev pub remove_at {ℓ} : {A : Type ℓ} → List A → ℕ → List A
remove_at [] i = []
remove_at (x ∷ xs) zero = xs
remove_at (x ∷ xs) (suc i) = x ∷ remove_at xs i

-- the answer to an erasure, and the array that it leaves
abbrev pub answer : {A : Type 0} → List A → ℤ → ℤ × List A
answer [] index = (negsuc 0, [])
answer (x ∷ vec) (negsuc n) = (negsuc 1, x ∷ vec)
answer (x ∷ vec) (pos i) =
    if ltb i (length (x ∷ vec))
    then (if length vec == 0 then pos 1 else pos 0, remove_at (x ∷ vec) i)
    else (negsuc 1, x ∷ vec)

module _ {A : Type 0} (junk : A) where
  length-realloc : (vec : List A) (n : ℕ) → length (realloc junk vec n) ≡ n
  length-realloc vec zero = refl
  length-realloc [] (suc n) = ap suc (length-realloc [] n)
  length-realloc (x ∷ vec) (suc n) = ap suc (length-realloc vec n)

  get_or-realloc :
      (vec : List A) (n j : ℕ) → j < n → get_or (realloc junk vec n) j junk ≡ get_or vec j junk
  get_or-realloc vec zero j lt = absurd (omega arith)
  get_or-realloc [] (suc n) zero lt = refl
  get_or-realloc [] (suc n) (suc j) lt = get_or-realloc [] n j (omega arith)
  get_or-realloc (x ∷ vec) (suc n) zero lt = refl
  get_or-realloc (x ∷ vec) (suc n) (suc j) lt = get_or-realloc vec n j (omega arith)

  -- one element more, written behind the old ones
  set-realloc :
      (vec : List A) (el : A)
      → set (realloc junk vec (suc (length vec))) (length vec) el ≡ vec ++ (el ∷ [])
  set-realloc [] el = refl
  set-realloc (x ∷ vec) el = ap (◌∷◌ x) (set-realloc vec el)

  length-remove_at :
      (vec : List A) (i : ℕ) → i < length vec → length (remove_at vec i) ≡ length vec - 1
  length-remove_at [] i lt = absurd (omega arith)
  length-remove_at (x ∷ vec) zero lt = omega arith
  length-remove_at (x ∷ vec) (suc i) lt = omega (arith, length-remove_at vec i (omega arith))

  get_or-remove_at :
      (vec : List A) (i j : ℕ)
      → get_or (remove_at vec i) j junk
        ≡ (if ltb j i then get_or vec j junk else get_or vec (j + 1) junk)
  get_or-remove_at [] i j = ground arith
  get_or-remove_at (x ∷ vec) zero j = ground arith
  get_or-remove_at (x ∷ vec) (suc i) zero = ground arith
  get_or-remove_at (x ∷ vec) (suc i) (suc j) = ground (arith, get_or-remove_at vec i j)

  length-shift : (n i index : ℕ) (vec : List A) → length (shift junk n i index vec) ≡ length vec
  unfolding shift
  length-shift zero i index vec = refl
  length-shift (suc n) i index vec = ground (
    arith,
    length-shift n (i + 1) index vec,
    length-shift n (i + 1) index (set vec (i - 1) (get_or vec i junk)),
    length-set vec (i - 1) (get_or vec i junk),
  )

  get_or-shift :
      (n i index j : ℕ) (vec : List A)
      → n + i ≡ length vec
      → get_or (shift junk n i index vec) j junk ≡ (
          if leb index j && leb i (j + 1) && ltb (j + 1) (n + i)
          then get_or vec (j + 1) junk
          else get_or vec j junk)
  unfolding shift
  get_or-shift zero i index j vec e = ground arith
  get_or-shift (suc n) i index j vec e =
      let v = get_or vec i junk in
      ground (
        arith,
        get_or-shift n (i + 1) index j vec (omega arith),
        get_or-shift n (i + 1) index j (set vec (i - 1) v)
            (omega (arith, length-set vec (i - 1) v)),
        get_or-set_ne vec (i - 1) j v junk,
        get_or-set_ne vec (i - 1) (j + 1) v junk,
        get_or-set_self vec (i - 1) v junk (omega arith),
      )

  -- what the loop and the `realloc` behind it leave
  erased :
      (count index : ℕ) (vec : List A)
      → count ≡ length vec
      → index < count
      → realloc junk (shift junk count 0 index vec) (count - 1) ≡ remove_at vec index
  erased count index vec e lt =
      let s = shift junk count 0 index vec in
      list_ext (realloc junk s (count - 1)) (remove_at vec index) junk
        (omega (arith, length-realloc s (count - 1), length-remove_at vec index (omega arith)))
        λ j below.
          let inside : j < count - 1 = omega (arith, below, length-realloc s (count - 1)) in
          ground (
            arith,
            get_or-realloc s (count - 1) j inside,
            get_or-shift count 0 index j vec (omega arith),
            get_or-remove_at vec index j,
          )

  -- The erasure from an array that holds as many elements as `count` says: -1 from an empty array, -2
  -- where the index is outside, and otherwise the array without that element and the others in their
  -- order, with 1 if none is left and 0 if some are.
  pub erase-answer :
      (count : ℕ) (vec : List A) (index : ℤ)
      → count ≡ length vec
      → erase junk count vec index ≡ answer vec index
  unfolding erase
  erase-answer count [] (pos i) e = ground arith
  erase-answer count [] (negsuc n) e = ground arith
  erase-answer count (x ∷ vec) (negsuc n) e = ground arith
  erase-answer count (x ∷ []) (pos zero) e = ground arith
  erase-answer count (x ∷ []) (pos (suc i)) e = ground arith
  erase-answer count (x ∷ y ∷ vec) (pos i) e = ground (arith, erased count i (x ∷ y ∷ vec) e)

  pub push_back-append :
      (count : ℕ) (vec : List A) (el : A)
      → count ≡ length vec
      → push_back junk count vec el ≡ vec ++ (el ∷ [])
  unfolding push_back
  push_back-append count [] el e = rw e refl
  push_back-append count (x ∷ vec) el e =
      let z : (count == 0) ≡ false = ground arith in
      let one_more : count + 1 ≡ suc (length (x ∷ vec)) = omega arith in
      rw z (rw one_more (rw e (set-realloc (x ∷ vec) el)))

shift_string-shift :
    (rowc n i index : ℕ) (vec : List CString)
    → shift_string rowc n i index vec ≡ shift [] n i index vec
unfolding shift_string shift
shift_string-shift rowc zero i index vec = refl
shift_string-shift rowc (suc n) i index vec = ground (
  arith,
  shift_string-shift rowc n (i + 1) index vec,
  shift_string-shift rowc n (i + 1) index (set vec (i - 1) (get_or vec i [])),
)

erase_string-erase :
    (rowc : ℕ) (vec : List CString) (index : ℤ)
    → erase_string rowc vec index ≡ erase [] rowc vec index
unfolding erase_string erase
erase_string-erase rowc vec (pos index) = rw (shift_string-shift rowc rowc 0 index vec) refl
erase_string-erase rowc vec (negsuc n) = refl

-- The erasure of a string answers in the same way, and leaves the same strings.
pub erase_string-answer :
    (rowc : ℕ) (vec : List CString) (index : ℤ)
    → rowc ≡ length vec
    → erase_string rowc vec index ≡ answer vec index
erase_string-answer rowc vec index e =
    erase_string-erase rowc vec index ∙ erase-answer [] rowc vec index e

pub push_back_string-append :
    (rowc : ℕ) (vec : List CString) (new_el : CString)
    → rowc ≡ length vec
    → push_back_string rowc vec new_el ≡ vec ++ (new_el ∷ [])
unfolding push_back_string push_back
push_back_string-append rowc vec new_el e = push_back-append [] rowc vec new_el e
