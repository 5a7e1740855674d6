-- ===== src/Keth/Header.antt =====
-- The Ethernet headers that keth-if/kernel/core.c builds. A socket buffer is the bytes at `skb->data`.
pub mod Twin
use hack.Base.{ℕ, ◌+◌, ◌/◌, ◌%◌, Option, none, some, List, [], ◌∷◌, ◌++◌, drop}
use hack.Keth.Transmit.{flip_at}

-- `daddr ? daddr : dev->dev_addr`
abbrev pub address_or : Option (List ℕ) → List ℕ → List ℕ
address_or none dev_addr = dev_addr
address_or (some addr) dev_addr = addr

-- `hard_header_len`, as `ether_setup` sets it
abbrev pub hard_header_len : ℕ
hard_header_len = 14

-- Addresses are of `addr_len`, that is 6, bytes; the header is pushed before the payload.
unfoldable pub header : List ℕ → ℕ → Option (List ℕ) → Option (List ℕ) → List ℕ → ℕ × List ℕ
header dev_addr type daddr saddr payload =
    let h_proto = type / 256 % 256 ∷ type % 256 ∷ [] in
    let h_dest = flip_at (address_or daddr dev_addr) 5 in
    (hard_header_len, h_dest ++ address_or saddr dev_addr ++ h_proto ++ payload)

-- Both addresses, the first 12 bytes, are written over.
unfoldable pub rebuild_header : List ℕ → List ℕ → List ℕ
rebuild_header dev_addr payload = flip_at dev_addr 5 ++ dev_addr ++ drop 12 payload
