-- ===== src/Xdp/Rewrite.antt =====
-- ebpf-xdp/packet/kernel/rewrite_helpers.h: VLAN tags taken off and put on, addresses swapped.
-- The helper `bpf_xdp_adjust_head` of the kernel is a parameter: it gives the packet behind a moved
-- head, or `none` where it returns an error. `none` in a result is -1.
pub mod Swap
pub mod Tag
pub mod RoundTrip
use hack.Base.{
  ℕ, ◌+◌, ◌*◌, ◌/◌, ◌%◌, Bool, not, ◌==◌, ltb, if◌then◌else◌, Option, none, some, List, ◌>>=◌,
  length,
}
use hack.Base.Int.{ℤ, pos, negsuc}
use hack.Xdp.Memory.{Packet, swap16, load16, store16, copy_from, copy_to}
use hack.Xdp.Parsing.{proto_is_vlan, eth_p_8021q}

abbrev pub eth_alen : ℕ
eth_alen = 6

-- an `int` result beside the packet that the program leaves
abbrev pub Reply : Type 0
Reply = Packet × Option ℕ

-- `eth` is written back at the new start of the packet, with the EtherType behind the tag.
unfoldable pub pop_copy : List ℕ → ℕ → ℕ → Packet → Option Reply
pop_copy eth_cpy h_proto vlid p =
    if ltb (length p) 14
    then some (p, none)
    else do p1 ← copy_to p 0 eth_cpy; p2 ← store16 p1 12 h_proto; some (p2, some vlid)

unfoldable pub push_copy : List ℕ → ℕ → Packet → Option Reply
push_copy eth_cpy vlid p = if ltb (length p) 14 then some (p, none) else do
  p1 ← copy_to p 0 eth_cpy
  if ltb (length p1) 18 then some (p1, none) else do
    p2 ← store16 p1 14 (swap16 vlid)
    h_proto ← load16 p2 12
    p3 ← store16 p2 16 h_proto
    p4 ← store16 p3 12 (swap16 eth_p_8021q)
    some (p4, some 0)

-- the rest of a program behind a call of `bpf_xdp_adjust_head`
abbrev pub adjusted : Option Packet → Packet → (Packet → Option Reply) → Option Reply
adjusted none p k = some (p, none)
adjusted (some q) p k = k q

module _ (adjust_head : ℤ → Packet → Option Packet) where
  unfoldable pub vlan_tag_pop : Packet → ℕ → Option Reply
  unfolding pop_copy
  vlan_tag_pop p eth = do
    h_proto ← load16 p (eth + 12)
    if not (proto_is_vlan h_proto)
        then some (p, none)
        else if ltb (length p) (eth + 14 + 4)
        then some (p, none)
        else do
          tci ← load16 p (eth + 14)
          encapsulated ← load16 p (eth + 16)
          eth_cpy ← copy_from p eth 14
          adjusted (adjust_head (pos 4) p) p (pop_copy eth_cpy encapsulated (swap16 tci))

  unfoldable pub vlan_tag_push : Packet → ℕ → ℕ → Option Reply
  unfolding push_copy
  vlan_tag_push p eth vlid = do
    eth_cpy ← copy_from p eth 14
    adjusted (adjust_head (negsuc 3) p) p (push_copy eth_cpy vlid)

-- two fields of `n` bytes change places
unfoldable pub swap_fields : Packet → ℕ → ℕ → ℕ → Option Packet
swap_fields p a b n = do
  tmp ← copy_from p a n
  other ← copy_from p b n
  p1 ← copy_to p a other
  copy_to p1 b tmp

-- `h_dest` stands before `h_source`.
unfoldable pub swap_src_dst_mac : Packet → ℕ → Option Packet
unfolding swap_fields
swap_src_dst_mac p eth = swap_fields p (eth + 6) eth eth_alen

unfoldable pub swap_src_dst_ipv6 : Packet → ℕ → Option Packet
unfolding swap_fields
swap_src_dst_ipv6 p ipv6 = swap_fields p (ipv6 + 8) (ipv6 + 24) 16

unfoldable pub swap_src_dst_ipv4 : Packet → ℕ → Option Packet
unfolding swap_fields
swap_src_dst_ipv4 p iphdr = swap_fields p (iphdr + 12) (iphdr + 16) 4
