-- ===== src/Xdp/BlockPort/Sums.antt =====
-- The checksum as ebpf-xdp/packet/kernel/xdp_packet_block.c updates it, and words and bytes beside a write.
use hack.Base.{
  ℕ, ◌+◌, ◌-◌, ◌/◌, ◌%◌, ◌≤◌, ◌<◌, ◌≡◌, ◌≢◌, ◌⊎◌, inl, inr, ◌∙◌, arith, tests, ==→eq, length,
  Bool-cases, ◌==◌, if◌then◌else◌,
}
use hack.Xdp.Memory.{Packet, byte, swap16, word16, put16, add16}
use hack.Xdp.Memory.Laws.{
  length-put16, word16-put16_self, byte-put16_ne, byte-put16_low, byte-put16_high,
}
use hack.Xdp.BlockPort.{lower_port}
use hack.Xdp.BlockPort.Closed.{bumped, checked}

-- `check + htons(1)`, the carry out of the field lost, and `htons(1)` for zero
abbrev pub next_check : ℕ → ℕ
next_check c = if add16 c 256 == 0 then 256 else add16 c 256

word16-bumped :
    (p : Packet) (c : ℕ) → c + 2 ≤ length p → word16 (bumped p c) c ≡ add16 (word16 p c) 256
word16-bumped p c h = word16-put16_self p c (add16 (word16 p c) 256) h (omega arith)

pub word16-checked_self :
    (p : Packet) (c : ℕ) → c + 2 ≤ length p → word16 (checked p c) c ≡ next_check (word16 p c)
unfolding checked
word16-checked_self p c h = ground (
  arith,
  word16-bumped p c h,
  word16-bumped (bumped p c) c (omega (arith, length-put16 p c (add16 (word16 p c) 256))),
)

pub byte-checked_ne : (p : Packet) (c j : ℕ) → c ≢ j → c + 1 ≢ j → byte (checked p c) j ≡ byte p j
unfolding checked
byte-checked_ne p c j h k = ground (
  arith,
  byte-put16_ne p c (add16 (word16 p c) 256) j h k,
  byte-put16_ne (bumped p c) c (add16 (word16 (bumped p c) c) 256) j h k,
)

pub word16-checked_ne : (p : Packet) (c i : ℕ) → i + 2 ≤ c → word16 (checked p c) i ≡ word16 p i
word16-checked_ne p c i h = omega (
  arith,
  byte-checked_ne p c i (omega arith) (omega arith),
  byte-checked_ne p c (i + 1) (omega arith) (omega arith),
)

-- numbers only: `d` and `c` are the port and the checksum as they are loaded
pub lower_port_lem :
    (d : ℕ) → d < 65536 → d ≢ 0 → (swap16 (lower_port d) ≡ swap16 d - 1) × (lower_port d < 65536)
lower_port_lem d h ne = omega arith

pub sum_kept :
    (d c : ℕ)
    → d < 65536
    → d ≢ 0
    → c < 65280
    → (lower_port d + next_check c) % 65535 ≡ (d + c) % 65535
sum_kept d c h ne lt = ground arith

pub sum_lost :
    (d c : ℕ)
    → d < 65536
    → d ≢ 0
    → c < 65536
    → 65280 ≤ c
    → (lower_port d + next_check c) % 65535 ≢ (d + c) % 65535
sum_lost d c h ne lt le = ground arith

-- offset `j` lies outside the 16-bit field at `i`
abbrev pub Outside : ℕ → ℕ → Type 0
Outside i j = (j < i) ⊎ (i + 2 ≤ j)

pub next_check-ne : (c : ℕ) → c < 65536 → next_check c ≢ c
next_check-ne c h = ground arith

-- Putting back the bytes that `p` had there undoes the change.
pub byte-put16_restored :
    (q p : Packet) (i v j : ℕ)
    → i + 2 ≤ length q
    → v % 256 ≡ byte p i
    → v / 256 % 256 ≡ byte p (i + 1)
    → (Outside i j → byte q j ≡ byte p j)
    → byte (put16 q i v) j ≡ byte p j
byte-put16_restored q p i v j fits low high rest = elim (Bool-cases (j == i)) [
  | inl at ↦ rw (==→eq j i at) (byte-put16_low q i v fits ∙ low)
  | inr off ↦ elim (Bool-cases (j == i + 1)) [
    | inl next ↦ rw (==→eq j (i + 1) next) (byte-put16_high q i v fits ∙ high)
    | inr out ↦ byte-put16_ne q i v j (omega tests) (omega tests) ∙ rest (omega tests)
  ]
]
