-- ===== src/Xdp/Parsing.antt =====
-- ebpf-xdp/packet/kernel/parsing_helpers.h: a cursor that moves over the headers of a packet.
-- An `int` result is an option, `none` for -1; the other results are not negative.
pub mod Safety
pub mod Frames
use hack.Base.{
  ℕ, zero, suc, ◌+◌, ◌-◌, ◌*◌, ◌/◌, ◌%◌, Bool, ◌||◌, ◌==◌, ltb, if◌then◌else◌, Option, none, some,
  List, ◌>>=◌, length, set,
}
use hack.Xdp.Memory.{Packet, swap16, load8, load16}

abbrev pub eth_hlen : ℕ
eth_hlen = 14

abbrev pub eth_p_8021q : ℕ
eth_p_8021q = 0x8100

abbrev pub eth_p_8021ad : ℕ
eth_p_8021ad = 0x88a8

abbrev pub vlan_max_depth : ℕ
vlan_max_depth = 2

-- `nh->pos` when a parser returns, the header pointer that it has written through its last
-- argument, and its result.
pub record Parse : Type 0 where
  pub pos : ℕ
  pub hdr : Option ℕ
  pub ret : Option ℕ

-- `return -1` before anything is written
abbrev pub refused : ℕ → Parse
refused pos = record { pos = pos; hdr = none; ret = none }

unfoldable pub proto_is_vlan : ℕ → Bool
proto_is_vlan h_proto = h_proto == swap16 eth_p_8021q || h_proto == swap16 eth_p_8021ad

-- The variables of the loop over VLAN tags. `vlans` is the array of `struct collect_vlans`, or
-- `none` for a null pointer.
pub record Walk : Type 0 where
  pub vlh : ℕ
  pub h_proto : ℕ
  pub vlans : Option (List ℕ)

collect : Packet → ℕ → ℕ → Option (List ℕ) → Option (Option (List ℕ))
collect p vlh i none = some none
collect p vlh i (some id) = do tci ← load16 p vlh; some (some (set id i (swap16 tci % 4096)))

-- one round of the loop whose tests have passed
unfoldable pub vlan_round : Packet → ℕ → Walk → Option Walk
unfolding collect
vlan_round p i w = do
  h_proto ← load16 p (w.vlh + 2)
  vlans ← collect p w.vlh i w.vlans
  some (record { vlh = w.vlh + 4; h_proto = h_proto; vlans = vlans })

-- the loop, with `rounds` left of `VLAN_MAX_DEPTH`
unfoldable pub vlan_loop : ℕ → Packet → ℕ → Walk → Option Walk
vlan_loop zero p i w = some w
vlan_loop (suc rounds) p i w =
    let next = vlan_round p i w >>= λ w'. vlan_loop rounds p (i + 1) w' in
    if proto_is_vlan w.h_proto then if ltb (length p) (w.vlh + 4) then some w else next else some w

pub record VlanParse : Type 0 where
  pub parse : Parse
  pub vlans : Option (List ℕ)

unfoldable pub parse_ethhdr_vlan : Packet → ℕ → Option (List ℕ) → Option VlanParse
parse_ethhdr_vlan p pos vlans =
    if ltb (length p) (pos + eth_hlen)
    then some (record { parse = refused pos; vlans = vlans })
    else do
      h_proto ← load16 p (pos + 12)
      w ←
          vlan_loop vlan_max_depth p 0
            (record { vlh = pos + eth_hlen; h_proto = h_proto; vlans = vlans })
      some (record {
        parse = record { pos = w.vlh; hdr = some pos; ret = some w.h_proto };
        vlans = w.vlans;
      })

unfoldable pub parse_ethhdr : Packet → ℕ → Option Parse
parse_ethhdr p pos = do v ← parse_ethhdr_vlan p pos none; some v.parse

unfoldable pub parse_ip6hdr : Packet → ℕ → Option Parse
parse_ip6hdr p pos = if ltb (length p) (pos + 40) then some (refused pos) else do
  nexthdr ← load8 p (pos + 6)
  some (record { pos = pos + 40; hdr = some pos; ret = some nexthdr })

-- `ihl` is the low half of the first byte.
unfoldable pub parse_iphdr : Packet → ℕ → Option Parse
parse_iphdr p pos = if ltb (length p) (pos + 20) then some (refused pos) else do
  b ← load8 p pos
  let hdrsize = b % 16 * 4
  if ltb hdrsize 20
      then some (refused pos)
      else if ltb (length p) (pos + hdrsize)
      then some (refused pos)
      else do
        protocol ← load8 p (pos + 9)
        some (record { pos = pos + hdrsize; hdr = some pos; ret = some protocol })

-- `icmp6hdr` and `icmphdr` have 8 bytes, `icmphdr_common` has 4; each begins with its type.
unfoldable pub parse_icmp6hdr : Packet → ℕ → Option Parse
parse_icmp6hdr p pos = if ltb (length p) (pos + 8) then some (refused pos) else do
  icmp6_type ← load8 p pos
  some (record { pos = pos + 8; hdr = some pos; ret = some icmp6_type })

unfoldable pub parse_icmphdr : Packet → ℕ → Option Parse
parse_icmphdr p pos = if ltb (length p) (pos + 8) then some (refused pos) else do
  icmp_type ← load8 p pos
  some (record { pos = pos + 8; hdr = some pos; ret = some icmp_type })

unfoldable pub parse_icmphdr_common : Packet → ℕ → Option Parse
parse_icmphdr_common p pos = if ltb (length p) (pos + 4) then some (refused pos) else do
  icmp_type ← load8 p pos
  some (record { pos = pos + 4; hdr = some pos; ret = some icmp_type })

-- `len - sizeof(struct udphdr)` wraps as a `size_t` and is negative as an `int` when `len < 8`;
-- then the cursor and the header pointer have been written all the same.
unfoldable pub parse_udphdr : Packet → ℕ → Option Parse
parse_udphdr p pos = if ltb (length p) (pos + 8) then some (refused pos) else do
  len ← load16 p (pos + 4)
  some (record {
    pos = pos + 8;
    hdr = some pos;
    ret = if ltb (swap16 len) 8 then none else some (swap16 len - 8);
  })

-- `doff` is the high half of byte 12.
unfoldable pub parse_tcphdr : Packet → ℕ → Option Parse
parse_tcphdr p pos = if ltb (length p) (pos + 20) then some (refused pos) else do
  b ← load8 p (pos + 12)
  let len = b / 16 % 16 * 4
  if ltb len 20
      then some (refused pos)
      else if ltb (length p) (pos + len)
      then some (refused pos)
      else some (record { pos = pos + len; hdr = some pos; ret = some len })
