-- ===== src/Raw/Writes.antt =====
-- The assignments to the headers in `make_ip_packet` of sock-raw-mmap-packet-ip/client/client.c.
use hack.Base.{
  ℕ, List, ◌≤◌, ◌<◌, length, ◌+◌, replicate, ◌∷◌, set, ◌≡◌, [], ◌*◌, ◌++◌, arith, ◌∙◌, some, ◌⊎◌,
  suc, refl, zero, none, Bool-cases, leb, inl, leb→le, inr, leb-false→lt,
}
use hack.Xdp.Memory.{blit, Packet, byte, word16, load16}
use hack.Xdp.Memory.Laws.{IsBytes, byte-blit_out, length-blit, copy_to-some, load16-some}
use hack.Base.{AllBytes}
use hack.Raw.{assign, sum_loop}

abbrev pub Assignments : Type 0
Assignments = List (ℕ × List ℕ)

abbrev pub Fits : ℕ → Assignments → Type 0
Fits n [] = Unit
Fits n ((i, bytes) ∷ later) = (i + length bytes ≤ n) × Fits n later

-- offset `j` lies outside what is assigned
abbrev pub Untouched : ℕ → Assignments → Type 0
Untouched j [] = Unit
Untouched j ((i, bytes) ∷ later) = ((j < i) ⊎ (i + length bytes ≤ j)) × Untouched j later

abbrev pub AllOfBytes : Assignments → Type 0
AllOfBytes [] = Unit
AllOfBytes ((i, bytes) ∷ later) = AllBytes bytes × AllOfBytes later

abbrev pub assigned : Assignments → Packet → Packet
assigned [] p = p
assigned ((i, bytes) ∷ later) p = assigned later (blit p i bytes)

pub assign-some :
    (ws : Assignments) (p : Packet) → Fits (length p) ws → assign ws p ≡ some (assigned ws p)
assign-some [] p h = refl
assign-some ((i, bytes) ∷ later) p h =
    let e = length-blit bytes p i in
    rw (copy_to-some p i bytes h.0) (assign-some later (blit p i bytes) (rw e h.1))

pub length-assigned : (ws : Assignments) (p : Packet) → length (assigned ws p) ≡ length p
length-assigned [] p = refl
length-assigned ((i, bytes) ∷ later) p =
    length-assigned later (blit p i bytes) ∙ length-blit bytes p i

pub byte-assigned :
    (ws : Assignments) (p : Packet) (j : ℕ) → Untouched j ws → byte (assigned ws p) j ≡ byte p j
byte-assigned [] p j h = refl
byte-assigned ((i, bytes) ∷ later) p j h =
    byte-assigned later (blit p i bytes) j h.1 ∙ byte-blit_out bytes p i j h.0

IsBytes-set : (p : Packet) (i b : ℕ) → b < 256 → IsBytes p → (j : ℕ) → byte (set p i b) j < 256
IsBytes-set [] i b lt h j = h j
IsBytes-set (x ∷ p) zero b lt h zero = lt
IsBytes-set (x ∷ p) zero b lt h (suc j) = h (suc j)
IsBytes-set (x ∷ p) (suc i) b lt h zero = h 0
IsBytes-set (x ∷ p) (suc i) b lt h (suc j) = IsBytes-set p i b lt (λ k. h (suc k)) j

IsBytes-blit :
    (bytes : List ℕ) (p : Packet) (i : ℕ) → AllBytes bytes → IsBytes p → IsBytes (blit p i bytes)
unfolding blit
IsBytes-blit [] p i all h = h
IsBytes-blit (b ∷ bytes) p i all h =
    IsBytes-blit bytes (set p i b) (i + 1) all.1 (IsBytes-set p i b all.0 h)

pub IsBytes-assigned :
    (ws : Assignments) (p : Packet) → AllOfBytes ws → IsBytes p → IsBytes (assigned ws p)
IsBytes-assigned [] p all h = h
IsBytes-assigned ((i, bytes) ∷ later) p all h =
    IsBytes-assigned later (blit p i bytes) all.1 (IsBytes-blit bytes p i all.0 h)

pub IsBytes-zeros :
    (n : ℕ) (heap : List ℕ) → IsBytes heap → (j : ℕ) → byte (replicate n 0 ++ heap) j < 256
IsBytes-zeros zero heap h j = h j
IsBytes-zeros (suc n) heap h zero = omega arith
IsBytes-zeros (suc n) heap h (suc j) = IsBytes-zeros n heap h j

pub byte-zeros : (n j : ℕ) (heap : List ℕ) → j < n → byte (replicate n 0 ++ heap) j ≡ 0
byte-zeros zero j heap h = absurd (omega arith)
byte-zeros (suc n) zero heap h = refl
byte-zeros (suc n) (suc j) heap h = byte-zeros n j heap (omega arith)

load16-none : (p : Packet) (i : ℕ) → length p < i + 2 → load16 p i ≡ none
unfolding load16
load16-none p i h = ground arith

pub sum_loop-none :
    (n : ℕ) (p : Packet) (i s : ℕ) → i ≤ length p → length p < i + 2 * n → sum_loop n p i s ≡ none
sum_loop-none zero p i s h lt = absurd (omega arith)
sum_loop-none (suc n) p i s h lt = elim (Bool-cases (leb (i + 2) (length p))) [
  | inl inside ↦
      rw (load16-some p i (leb→le _ _ inside))
        (sum_loop-none n p (i + 2) (s + word16 p i) (leb→le _ _ inside) (omega arith))
  | inr beyond ↦ rw (load16-none p i (leb-false→lt _ _ beyond)) refl
]
