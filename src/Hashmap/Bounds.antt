-- ===== src/Hashmap/Bounds.antt =====
-- Which keys of the map of hashmap/main.c lead outside its array.
use hack.Base.{
  ℕ, zero, suc, List, ◌∷◌, [], ◌≡◌, refl, false, some, none, Option, ap, subst, length, ◌<◌,
  Bool-cases, ◌-◌, leb, ◌+◌, arith, inl, ◌↔◌, ◌⊎◌, ◌%◌, le→ltb, ◌≤◌, inr, leb-false→lt,
}
use hack.Base.Fault.{Runs}
use hack.Base.Int.{ℤ}
use hack.Hashmap.{
  Map, Key, slot_at, map_get, load, get_hash, remainder, square, minus, size_of_map, int_max,
}
use hack.Hashmap.Slots.{value_of}

-- the sums of a key are in the range of an `int`
pub record IsSmall (key : Key) : Type 0 where
  pub added : square key.i + square key.x ≤ int_max
  pub taken : square key.y ≤ int_max

get_hash-small :
    (key : Key)
    → IsSmall key
    → get_hash key ≡ some (remainder (square key.i + square key.x) (square key.y))
unfolding get_hash
get_hash-small key h =
    rw (le→ltb int_max (square key.i + square key.x) h.added)
      (rw (le→ltb int_max (square key.y) h.taken) refl)

-- a difference whose remainder is negative
abbrev pub IsOutside : Key → Type 0
IsOutside key =
    (square key.i + square key.x < square key.y)
    × (0 < (square key.y - (square key.i + square key.x)) % size_of_map)

slot_at-inside : (map : List Map) (n : ℕ) → n < length map → Runs (λ _. Unit {0}) (slot_at map n)
slot_at-inside [] n h = omega arith
slot_at-inside (m ∷ map) zero h = tt
slot_at-inside (m ∷ map) (suc n) h = slot_at-inside map n (omega arith)

abbrev Inside : List Map → ℤ → Type 0
Inside map h = Runs (λ _. Unit {0}) (load map h)

minus-Inside : (map : List Map) (n : ℕ) → length map ≡ size_of_map → Inside map (minus n) ⊎ (0 < n)
minus-Inside map zero e = inl (slot_at-inside map 0 (omega arith))
minus-Inside map (suc n) e = inr (omega arith)

minus-outside : (map : List Map) (n : ℕ) → 0 < n → load map (minus n) ≡ none
minus-outside map zero h = absurd (omega arith)
minus-outside map (suc n) h = refl

remainder-Inside :
    (map : List Map) (a b : ℕ)
    → length map ≡ size_of_map
    → Inside map (remainder a b) ⊎ ((a < b) × (0 < (b - a) % size_of_map))
remainder-Inside map a b e = elim (Bool-cases (leb b a)) [
  | inl le ↦ rw le (inl (slot_at-inside map ((a - b) % size_of_map) (omega arith)))
  | inr gt ↦ rw gt (elim (minus-Inside map ((b - a) % size_of_map) e) [
    | inl h ↦ inl h
    | inr h ↦ inr (leb-false→lt b a gt, h)
  ])
]

not_leb : (a b : ℕ) → a < b → leb b a ≡ false
not_leb a b h = ground arith

remainder-IsOutside :
    (map : List Map) (a b : ℕ)
    → (a < b) × (0 < (b - a) % size_of_map)
    → load map (remainder a b) ≡ none
remainder-IsOutside map a b h = rw (not_leb a b h.0) (minus-outside map ((b - a) % size_of_map) h.1)

value_of-some : (slot : Option Map) → Runs (λ _. Unit {0}) slot → value_of slot ≡ none → ⊥
value_of-some none h e = h
value_of-some (some m) h e = subst (Runs (λ _. Unit {0})) e tt

-- A lookup whose sums an `int` holds reads outside the array exactly when the square that is taken away is the larger, and
-- the difference is no multiple of 1024.
pub map_get-IsOutside :
    (map : List Map) (key : Key)
    → length map ≡ size_of_map
    → IsSmall key
    → (map_get map key ≡ none) ↔ IsOutside key
unfolding map_get
map_get-IsOutside map key e small =
    let a = square key.i + square key.x in
    rw (get_hash-small key small) (
      (λ f. elim (remainder-Inside map a (square key.y) e) [
        | inl h ↦ absurd (value_of-some (load map (remainder a (square key.y))) h f)
        | inr h ↦ h
      ]),
      λ h. ap value_of (remainder-IsOutside map a (square key.y) h),
    )
