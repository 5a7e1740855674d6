-- ===== src/Raw.antt =====
-- The packets of sock-raw-mmap-packet-ip: client/client.c makes IP packets and puts them into a ring that
-- it shares with the kernel, server/server.c takes them out of another. `none` is an access outside the
-- memory that is given.
pub mod Checksum
pub mod Writes
pub mod Packets
mod Tests
use hack.Base.{
  List, ℕ, ◌∷◌, ◌/◌, Option, length, ◌%◌, [], ◌>>=◌, ◌+◌, some, replicate, ◌-◌, suc, ◌++◌, zero,
  take,
}
use hack.Xdp.Memory.{Packet, copy_to, load16, store16}

-- the sum of `nwords` words, as an `unsigned long`
abbrev pub sum_loop : ℕ → Packet → ℕ → ℕ → Option ℕ
sum_loop zero p buf sum = some sum
sum_loop (suc nwords) p buf sum = do w ← load16 p buf; sum_loop nwords p (buf + 2) (sum + w)

-- the carries are added twice, and the bits of the low word turned over
unfoldable pub fold : ℕ → ℕ
fold sum =
    let once = sum / 65536 + sum % 65536 in let twice = once + once / 65536 in 65535 - twice % 65536

unfoldable pub ipcsum : Packet → ℕ → ℕ → Option ℕ
unfolding fold
ipcsum p buf nwords = do sum ← sum_loop nwords p buf 0; some (fold sum)

abbrev pub client_hw_addr : List ℕ
client_hw_addr = 0xAA ∷ 0xAA ∷ 0xAA ∷ 2 ∷ 2 ∷ 2 ∷ []

abbrev pub server_hw_addr : List ℕ
server_hw_addr = 0xAA ∷ 0xAA ∷ 0xAA ∷ 1 ∷ 1 ∷ 1 ∷ []

-- a number as `htons` leaves it in memory
abbrev pub be16 : ℕ → List ℕ
be16 n = (n / 256 % 256) ∷ (n % 256) ∷ []

-- the assignments to the two headers, in their order, as offsets and bytes
abbrev pub assignments : ℕ → List (ℕ × List ℕ)
assignments msglen =
    (0, server_hw_addr)
    ∷ (6, client_hw_addr)
    ∷ (12, be16 0x0800)
    ∷ (14, 0x45 ∷ [])
    ∷ (15, 16 ∷ [])
    ∷ (16, be16 (20 + msglen))
    ∷ (18, be16 54321)
    ∷ (20, 0 ∷ 0 ∷ [])
    ∷ (22, 64 ∷ [])
    ∷ (26, 192 ∷ 168 ∷ 10 ∷ 2 ∷ [])
    ∷ (30, 192 ∷ 168 ∷ 10 ∷ 1 ∷ [])
    ∷ (23, 0xFD ∷ [])
    ∷ []

abbrev pub assign : List (ℕ × List ℕ) → Packet → Option Packet
assign [] p = some p
assign ((i, bytes) ∷ later) p = do q ← copy_to p i bytes; assign later q

-- `heap` is the memory behind what `malloc` gives.
unfoldable pub make_ip_packet : List ℕ → List ℕ → Option (ℕ × Packet)
make_ip_packet msg heap = do
  let msglen = length msg
  let packetlen = 34 + msglen
  p1 ← assign (assignments msglen) (replicate packetlen 0 ++ heap)
  check ← ipcsum p1 14 (20 + msglen)
  p2 ← store16 p1 24 check
  p3 ← copy_to p2 34 msg
  some (packetlen, take packetlen p3)
