-- ===== src/Xdp/Memory/Laws.antt =====
-- What a store leaves behind, and where accesses do not fault.
use hack.Base.{
  ℕ, zero, suc, ◌+◌, ◌/◌, ◌%◌, ◌≤◌, ◌<◌, ◌≡◌, ◌≢◌, ◌⊎◌, inl, refl, ◌∙◌, some, List, [], ◌∷◌, arith,
  length, get_or, set, length-set, get_or-set_self, get_or-set_ne, get_or-take, length-take, drop,
  get_or-drop, length-drop, AllBytes,
}
use hack.Xdp.Memory.{
  Packet, byte, swap16, word16, put16, load8, load16, store16, blit, copy_from, copy_to, slice,
}

pub load8-some : (p : Packet) (i : ℕ) → i < length p → load8 p i ≡ some (byte p i)
unfolding load8
load8-some p i h = ground arith

pub load16-some : (p : Packet) (i : ℕ) → i + 2 ≤ length p → load16 p i ≡ some (word16 p i)
unfolding load16
load16-some p i h = ground arith

pub store16-some : (p : Packet) (i v : ℕ) → i + 2 ≤ length p → store16 p i v ≡ some (put16 p i v)
unfolding store16
store16-some p i v h = ground arith

pub copy_from-some :
    (p : Packet) (i n : ℕ) → i + n ≤ length p → copy_from p i n ≡ some (slice p i n)
unfolding copy_from
copy_from-some p i n h = ground arith

pub copy_to-some :
    (p : Packet) (i : ℕ) (bs : List ℕ)
    → i + length bs ≤ length p
    → copy_to p i bs ≡ some (blit p i bs)
unfolding copy_to
copy_to-some p i bs h = ground arith

pub length-put16 : (p : Packet) (i v : ℕ) → length (put16 p i v) ≡ length p
length-put16 p i v =
    length-set (set p i (v % 256)) (i + 1) (v / 256 % 256) ∙ length-set p i (v % 256)

pub length-blit : (bs : List ℕ) (p : Packet) (i : ℕ) → length (blit p i bs) ≡ length p
unfolding blit
length-blit [] p i = refl
length-blit (b ∷ bs) p i = length-blit bs (set p i b) (i + 1) ∙ length-set p i b

-- A byte outside the two that are stored keeps its value.
pub byte-put16_ne : (p : Packet) (i v j : ℕ) → i ≢ j → i + 1 ≢ j → byte (put16 p i v) j ≡ byte p j
byte-put16_ne p i v j h k =
    get_or-set_ne (set p i (v % 256)) (i + 1) j (v / 256 % 256) 0 k
    ∙ get_or-set_ne p i j (v % 256) 0 h

pub byte-put16_low : (p : Packet) (i v : ℕ) → i + 2 ≤ length p → byte (put16 p i v) i ≡ v % 256
byte-put16_low p i v h =
    get_or-set_ne (set p i (v % 256)) (i + 1) i (v / 256 % 256) 0 (omega arith)
    ∙ get_or-set_self p i (v % 256) 0 (omega arith)

pub byte-put16_high :
    (p : Packet) (i v : ℕ) → i + 2 ≤ length p → byte (put16 p i v) (i + 1) ≡ v / 256 % 256
byte-put16_high p i v h =
    get_or-set_self (set p i (v % 256)) (i + 1) (v / 256 % 256) 0
      (omega (arith, length-set p i (v % 256)))

pub word16-put16_self :
    (p : Packet) (i v : ℕ) → i + 2 ≤ length p → v < 65536 → word16 (put16 p i v) i ≡ v
word16-put16_self p i v h lt = omega (arith, byte-put16_low p i v h, byte-put16_high p i v h)

pub word16-put16_ne :
    (p : Packet) (i v j : ℕ) → (i + 2 ≤ j) ⊎ (j + 2 ≤ i) → word16 (put16 p i v) j ≡ word16 p j
word16-put16_ne p i v j h = omega (
  arith,
  byte-put16_ne p i v j (omega arith) (omega arith),
  byte-put16_ne p i v (j + 1) (omega arith) (omega arith),
)

pub byte-blit_out :
    (bs : List ℕ) (p : Packet) (i j : ℕ)
    → (j < i) ⊎ (i + length bs ≤ j)
    → byte (blit p i bs) j ≡ byte p j
unfolding blit
byte-blit_out [] p i j h = refl
byte-blit_out (b ∷ bs) p i j h =
    byte-blit_out bs (set p i b) (i + 1) j (omega arith) ∙ get_or-set_ne p i j b 0 (omega arith)

pub byte-blit_in :
    (bs : List ℕ) (p : Packet) (i k : ℕ)
    → i + length bs ≤ length p
    → k < length bs
    → byte (blit p i bs) (i + k) ≡ get_or bs k 0
unfolding blit
byte-blit_in [] p i k h lt = absurd (omega arith)
byte-blit_in (b ∷ bs) p i zero h lt =
    let e : i + 0 ≡ i = omega arith in
    rw e (
      byte-blit_out bs (set p i b) (i + 1) i (inl (omega arith))
      ∙ get_or-set_self p i b 0 (omega arith))
byte-blit_in (b ∷ bs) p i (suc k) h lt =
    let e : i + suc k ≡ i + 1 + k = omega arith in
    rw e (byte-blit_in bs (set p i b) (i + 1) k (omega (arith, length-set p i b)) (omega arith))

-- Swapping the bytes of a 16-bit word twice gives it back.
pub swap16-swap16 : (x : ℕ) → x < 65536 → swap16 (swap16 x) ≡ x
swap16-swap16 x h = omega arith

pub swap16-lt : (x : ℕ) → swap16 x < 65536
swap16-lt x = omega arith

pub get_or-slice : (p : Packet) (i n k : ℕ) → k < n → get_or (slice p i n) k 0 ≡ byte p (i + k)
get_or-slice p i n k h = get_or-take n k (drop i p) 0 h ∙ get_or-drop i k p 0

pub length-slice : (p : Packet) (i n : ℕ) → i + n ≤ length p → length (slice p i n) ≡ n
length-slice p i n h = length-take n (drop i p) (omega (arith, length-drop i p))

-- Every element is a byte.
abbrev pub IsBytes : Packet → Type 0
IsBytes p = (i : ℕ) → byte p i < 256

pub word16-lt : (p : Packet) (i : ℕ) → IsBytes p → word16 p i < 65536
word16-lt p i b = omega (arith, b i, b (i + 1))

pub AllBytes-IsBytes : (p : Packet) → AllBytes p → (i : ℕ) → byte p i < 256
AllBytes-IsBytes [] h i = omega arith
AllBytes-IsBytes (b ∷ p) h zero = h.0
AllBytes-IsBytes (b ∷ p) h (suc i) = AllBytes-IsBytes p h.1 i
