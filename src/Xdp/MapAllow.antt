-- ===== src/Xdp/MapAllow.antt =====
-- ebpf-xdp/kernel/xdp_map_allow.c: only UDP packets to the port that the map `allowed_addr` holds
-- pass. The map of the kernel is a parameter: what the lookup of a prefix length and an address
-- finds.
pub mod Exact
use hack.Base.{ℕ, ◌+◌, ◌%◌, Bool, not, ◌==◌, ltb, if◌then◌else◌, Option, none, some, ◌>>=◌, length}
use hack.Xdp.Action.{Action, drop, pass}
use hack.Xdp.Memory.{Packet, swap16, load8, load16}

-- `struct ipv4_lpm_key`
pub record Key : Type 0 where
  pub prefixlen : ℕ
  pub addr : ℕ

unfoldable pub allow_udp : Packet → ℕ → Option Action
allow_udp p allow_port =
    if ltb (length p) 42
    then some drop
    else do dest ← load16 p 36; some (if swap16 dest == allow_port then pass else drop)

-- `allow_port` is the low half of the value, as a little-endian machine loads it.
unfoldable pub allow_stored : Packet → ℕ → Option Action
unfolding allow_udp
allow_stored p value =
    let allow_port = value % 65536 in
    if allow_port == 0
    then some drop
    else do protocol ← load8 p 23; if protocol == 17 then allow_udp p allow_port else some drop

-- behind the lookup
unfoldable pub allow_found : Packet → Option ℕ → Option Action
unfolding allow_stored
allow_found p none = some drop
allow_found p (some value) = allow_stored p value

module _ (lookup_elem : Key → Option ℕ) where
  unfoldable pub allowed_addr_prog : Packet → Option Action
  allowed_addr_prog p = if ltb (length p) 14 then some drop else do
    h_proto ← load16 p 12
    if not (swap16 h_proto == 0x0800)
        then some pass
        else if ltb (length p) 34
        then some drop
        else allow_found p (lookup_elem (record { prefixlen = 32; addr = 0 }))
