-- ===== src/Hashmap/Tests.antt =====
-- Runs of the map of hashmap/main.c.
use hack.Base.{
  List, ◌≡◌, refl, true, false, some, none, replicate, arith, if◌then◌else◌, set, ◌↔◌, ◌>>=◌,
  length-replicate,
}
use hack.Base.Int.{pos, negsuc, ℤ}
use hack.Hashmap.{Map, Key, map_set, size_of_map, map_get, get_hash, load}
use hack.Hashmap.Bounds.{IsOutside, map_get-IsOutside}
use hack.Hashmap.Slots.{same, value_of, map_get-map_set}

abbrev key_of : ℤ → ℤ → ℤ → ℤ → Key
key_of x y i j = record { x = x; y = y; i = i; j = j }

-- the first key of `main`, and another one with the same hash
abbrev k1 : Key
k1 = key_of (pos 1) (pos 2) (pos 3) (pos 4)

abbrev k3 : Key
k3 = key_of (pos 3) (pos 2) (pos 1) (pos 0)

abbrev slot : Map
slot = record { assigned = false; key = key_of (pos 0) (pos 0) (pos 0) (pos 0); value = pos 0 }

abbrev map : List Map
map = replicate 16 slot

abbrev map1 : List Map
map1 = set map 6 (record { assigned = true; key = k1; value = pos 1 })

map_set_run : map_set map k1 (pos 1) ≡ some (pos 6, map1)
unfolding map_set get_hash
map_set_run = refl

map_get-map_set_example :
    map_get map1 k3
    ≡ (get_hash k3 >>= λ h'. if same (pos 6) h' then some (pos 1) else value_of (load map h'))
map_get-map_set_example = map_get-map_set map map1 k1 k3 (pos 1) (pos 6) map_set_run

abbrev k2 : Key
k2 = key_of (pos 1) (pos 5) (negsuc 1) (pos 0)

abbrev whole : List Map
whole = replicate size_of_map slot

map_get-IsOutside_example : (map_get whole k2 ≡ none) ↔ IsOutside k2
map_get-IsOutside_example =
    map_get-IsOutside whole k2 (length-replicate size_of_map slot)
      (record { added = omega arith; taken = omega arith })
