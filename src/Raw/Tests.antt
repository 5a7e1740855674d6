-- ===== src/Raw/Tests.antt =====
-- Runs of sock-raw-mmap-packet-ip.
use hack.Base.{
  List, arith, ℕ, ◌∷◌, replicate, [], ◌≡◌, none, some, ◌<◌, ◌+◌, refl, get_or, ◌↔◌, ◌%◌,
}
use hack.Xdp.Memory.Laws.{IsBytes, AllBytes-IsBytes}
use hack.Raw.{ipcsum, make_ip_packet}
use hack.Xdp.Memory.{Packet, load16, put16, byte}
use hack.Raw.Packets.{make_ip_packet-beyond, cleared, make_ip_packet-checksum}
use hack.Raw.Checksum.{ipcsum-verifies, sum_of}

abbrev hello : List ℕ
hello = b'h' ∷ b'e' ∷ b'l' ∷ b'l' ∷ b'o' ∷ []

-- what lies behind an allocation
abbrev heap_bytes : List ℕ
heap_bytes = 7 ∷ replicate 30 0

heap_bytes-IsBytes : IsBytes heap_bytes
heap_bytes-IsBytes = AllBytes-IsBytes heap_bytes (omega arith)

-- The word 7 is added to the checksum.
make_ip_packet-checksum_example :
    (q : Packet) × (make_ip_packet hello heap_bytes ≡ some (39, q))
    × ((i : ℕ) → i < 5 → byte q (34 + i) ≡ get_or hello i 0)
    × ((ipcsum q 14 10 ≡ some 0) ↔ (sum_of 15 (cleared hello heap_bytes) 34 % 65535 ≡ 0))
make_ip_packet-checksum_example =
    make_ip_packet-checksum hello heap_bytes heap_bytes-IsBytes (omega arith) (omega arith)

make_ip_packet-beyond_run : make_ip_packet hello [] ≡ none
make_ip_packet-beyond_run = make_ip_packet-beyond hello [] (omega arith)

-- a header without its checksum
abbrev header : Packet
header =
    0x45 ∷ 16 ∷ 0 ∷ 25 ∷ 212 ∷ 49 ∷ 0 ∷ 0 ∷ 64 ∷ 253 ∷ 0 ∷ 0 ∷ 192 ∷ 168 ∷ 10 ∷ 2 ∷ 192 ∷ 168 ∷ 10
    ∷ 1 ∷ []

ipcsum-verifies_example :
    (c : ℕ) × (ipcsum header 0 10 ≡ some c)
    × (c < 65536)
    × (ipcsum (put16 header 10 c) 0 10 ≡ some 0)
ipcsum-verifies_example =
    ipcsum-verifies header 0 10 5 (AllBytes-IsBytes header (omega arith)) (omega arith)
      (omega arith) (omega arith) refl

ipcsum-header : ipcsum header 0 10 ≡ some 21264
unfolding ipcsum load16
ipcsum-header = refl
