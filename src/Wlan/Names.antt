-- ===== src/Wlan/Names.antt =====
-- Names that fit into the array of kwlan-if/core.c, and names that do not.
use hack.Base.{
  ◌≡◌, arith, List, ℕ, length, set, ◌≤◌, ◌<◌, take, false, length-set, ◌++◌, none, some, drop,
  Bool-cases, ◌∙◌, le→ltb, ltb, length-append, lt→ltb, refl, inl, length-take, inr, length-drop,
}
use hack.Wlan.{wi_connect, Wlan, copy_ssid}

-- a name that fits, in the array
abbrev pub in_array : List ℕ → List ℕ → List ℕ
in_array array ssid = set (take (length ssid) ssid ++ drop (length ssid) array) (length ssid) 0

pub copy_ssid-fits :
    (array ssid : List ℕ)
    → length ssid < 8
    → length array ≡ 8
    → copy_ssid array ssid ≡ some (in_array array ssid)
copy_ssid-fits array ssid short e =
    rw (le→ltb 15 (length ssid) (omega arith))
      (rw (lt→ltb (length ssid) (length array) (omega arith)) refl)

pub copied-length :
    (array ssid : List ℕ) → length ssid < 8 → length array ≡ 8 → length (in_array array ssid) ≡ 8
copied-length array ssid short e =
    length-set (take (length ssid) ssid ++ drop (length ssid) array) (length ssid) 0
    ∙ omega (
      arith,
      length-append (take (length ssid) ssid) (drop (length ssid) array),
      length-take (length ssid) ssid (omega arith),
      length-drop (length ssid) array,
    )

-- A name of 8 bytes or more is written behind the array that has 8, if the semaphore is had.
pub wi_connect-long :
    (ssid : List ℕ) (s : Wlan)
    → length s.connecting_ssid ≡ 8
    → 8 ≤ length ssid
    → wi_connect false ssid s ≡ none
unfolding wi_connect
wi_connect-long ssid s e long = elim (Bool-cases (ltb 15 (length ssid))) [
  | inl f ↦ rw f (rw (le→ltb 15 (length s.connecting_ssid) (omega arith)) refl)
  | inr f ↦ rw f (rw (le→ltb (length ssid) (length s.connecting_ssid) (omega arith)) refl)
]
