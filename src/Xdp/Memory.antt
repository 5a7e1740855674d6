-- ===== src/Xdp/Memory.antt =====
-- Packet memory of an XDP program (ebpf-xdp): `ctx->data` is offset 0, `ctx->data_end` the length.
-- Accesses are those of a little-endian machine, as the programs suppose, for instance where
-- ebpf-xdp/kernel/xdp_redirect_dev.c compares a loaded protocol with 0x08.
pub mod Laws
use hack.Base.{
  ℕ, ◌+◌, ◌*◌, ◌/◌, ◌%◌, ◌==◌, ltb, leb, if◌then◌else◌, Option, none, some, List, [], ◌∷◌, ◌>>=◌,
  length, get_or, set, take, drop, Bool,
}

abbrev pub Packet : Type 0
Packet = List ℕ

abbrev pub byte : Packet → ℕ → ℕ
byte p i = get_or p i 0

-- `bpf_htons` and `bpf_ntohs`
abbrev pub swap16 : ℕ → ℕ
swap16 x = x % 256 * 256 + x / 256 % 256

-- `uint16_t` addition
abbrev pub add16 : ℕ → ℕ → ℕ
add16 a b = (a + b) % 65536

unfoldable pub load8 : Packet → ℕ → Option ℕ
load8 p i = if ltb i (length p) then some (byte p i) else none

-- a `__be16` or `__u16` as it is loaded, with no change of byte order
abbrev pub word16 : Packet → ℕ → ℕ
word16 p i = byte p i + 256 * byte p (i + 1)

unfoldable pub load16 : Packet → ℕ → Option ℕ
load16 p i = if leb (i + 2) (length p) then some (word16 p i) else none

abbrev pub put16 : Packet → ℕ → ℕ → Packet
put16 p i v = set (set p i (v % 256)) (i + 1) (v / 256 % 256)

unfoldable pub store16 : Packet → ℕ → ℕ → Option Packet
store16 p i v = if leb (i + 2) (length p) then some (put16 p i v) else none

-- `n` bytes from offset `i` on, and their replacement
abbrev pub slice : Packet → ℕ → ℕ → List ℕ
slice p i n = take n (drop i p)

unfoldable pub blit : Packet → ℕ → List ℕ → Packet
blit p i [] = p
blit p i (b ∷ bs) = blit (set p i b) (i + 1) bs

-- `memcpy` out of the packet and into it
unfoldable pub copy_from : Packet → ℕ → ℕ → Option (List ℕ)
copy_from p i n = if leb (i + n) (length p) then some (slice p i n) else none

unfoldable pub copy_to : Packet → ℕ → List ℕ → Option Packet
copy_to p i bs = if leb (i + length bs) (length p) then some (blit p i bs) else none
