-- ===== src/Hashmap.antt =====
-- The map of hashmap/main.c, a fixed array of slots. `none` is an access outside the array, or a sum that no `int` holds.
pub mod Slots
pub mod Bounds
mod Tests
use hack.Base.{
  ℕ, zero, suc, List, Bool, Option, ◌∷◌, [], some, none, if◌then◌else◌, leb, ltb, ◌||◌, ◌+◌, ◌*◌,
  ◌-◌, ◌%◌, ◌>>=◌, set, true, ◌^◌,
}
use hack.Base.Int.{ℤ, pos, negsuc}

abbrev pub size_of_map : ℕ
size_of_map = 1024

pub record Key : Type 0 where
  pub x : ℤ
  pub y : ℤ
  pub i : ℤ
  pub j : ℤ

pub record Map : Type 0 where
  pub assigned : Bool
  pub key : Key
  pub value : ℤ

abbrev pub int_max : ℕ
int_max = 2 ^ 31 - 1

abbrev pub square : ℤ → ℕ
square (pos n) = n * n
square (negsuc n) = suc n * suc n

abbrev pub minus : ℕ → ℤ
minus zero = pos 0
minus (suc n) = negsuc n

-- the remainder in C of a difference, which has the sign of the difference
abbrev pub remainder : ℕ → ℕ → ℤ
remainder a b = if leb b a then pos ((a - b) % size_of_map) else minus ((b - a) % size_of_map)

unfoldable pub get_hash : Key → Option ℤ
get_hash key =
    let added = square key.i + square key.x in
    if ltb int_max added || ltb int_max (square key.y)
    then none
    else some (remainder added (square key.y))

abbrev pub slot_at : List Map → ℕ → Option Map
slot_at [] n = none
slot_at (m ∷ map) zero = some m
slot_at (m ∷ map) (suc n) = slot_at map n

abbrev pub load : List Map → ℤ → Option Map
load map (pos n) = slot_at map n
load map (negsuc n) = none

abbrev pub store : List Map → ℤ → Map → Option (List Map)
store map (pos n) m = do old ← slot_at map n; some (set map n m)
store map (negsuc n) m = none

unfoldable pub map_get : List Map → Key → Option ℤ
map_get map key = do hashval ← get_hash key; m ← load map hashval; some m.value

unfoldable pub map_set : List Map → Key → ℤ → Option (ℤ × List Map)
map_set map key value = do
  hashval ← get_hash key
  map' ← store map hashval (record { assigned = true; key = key; value = value })
  some (hashval, map')
