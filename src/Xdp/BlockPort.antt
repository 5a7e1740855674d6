-- ===== src/Xdp/BlockPort.antt =====
-- ebpf-xdp/packet/kernel/xdp_packet_block.c: the program lowers the port of UDP packets by one and
-- drops TCP packets to port 9999, counting them in the map `rxcnt`.
pub mod Closed
pub mod Safety
pub mod Sums
pub mod Ports
use hack.Base.{ℕ, ◌+◌, ◌-◌, ◌%◌, ◌^◌, Bool, ◌==◌, ltb, if◌then◌else◌, Option, none, some, ◌>>=◌}
use hack.Xdp.Action.{Action, aborted, drop, pass}
use hack.Xdp.Memory.{Packet, swap16, add16, load16, store16}
use hack.Xdp.Parsing.{Parse, parse_ethhdr, parse_iphdr, parse_ip6hdr, parse_udphdr, parse_tcphdr}

abbrev pub eth_p_ip : ℕ
eth_p_ip = 0x0800

abbrev pub eth_p_ipv6 : ℕ
eth_p_ipv6 = 0x86dd

abbrev pub ipproto_tcp : ℕ
ipproto_tcp = 6

abbrev pub ipproto_udp : ℕ
ipproto_udp = 17

abbrev pub blocked_port : ℕ
blocked_port = 9999

-- `rxcnt` is the counter that the lookup of key 0 finds, if it finds one.
pub record Outcome : Type 0 where
  pub packet : Packet
  pub rxcnt : Option ℕ
  pub action : Action

-- `check += bpf_htons(1)`, and once more where that gives 0, at the field's offset
unfoldable pub bump_check : Packet → ℕ → Option Packet
bump_check p check = do
  c ← load16 p check
  p1 ← store16 p check (add16 c (swap16 1))
  c1 ← load16 p1 check
  if c1 == 0 then store16 p1 check (add16 c1 (swap16 1)) else some p1

-- `bpf_htons(bpf_ntohs(dest) - 1)`; the argument of `bpf_htons` is a `__u16`.
abbrev pub lower_port : ℕ → ℕ
lower_port dest = swap16 ((swap16 dest + 65535) % 65536)

unfoldable pub rewrite_udp : Packet → ℕ → Option Packet
unfolding bump_check
rewrite_udp p udphdr = do
  dest ← load16 p (udphdr + 2)
  p1 ← store16 p (udphdr + 2) (lower_port dest)
  bump_check p1 (udphdr + 6)

-- `*value += 1`, on the 64 bits of a `long`
abbrev pub count_drop : Option ℕ → Option ℕ
count_drop none = none
count_drop (some value) = some ((value + 1) % 2 ^ 64)

unfoldable pub filter_tcp : Packet → Option ℕ → ℕ → Option Outcome
unfolding bump_check
filter_tcp p rxcnt tcphdr = do
  dest ← load16 p (tcphdr + 2)
  p1 ← store16 p (tcphdr + 2) (swap16 dest)
  p2 ← bump_check p1 (tcphdr + 16)
  dest1 ← load16 p2 (tcphdr + 2)
  if dest1 == blocked_port
      then some (record { packet = p2; rxcnt = count_drop rxcnt; action = drop })
      else do
        p3 ← store16 p2 (tcphdr + 2) (swap16 dest1)
        some (record { packet = p3; rxcnt = rxcnt; action = pass })

abbrev pub leaves : Packet → Option ℕ → Action → Outcome
leaves p rxcnt action = record { packet = p; rxcnt = rxcnt; action = action }

-- the branches behind the IP header, at the cursor `pos`
unfoldable pub handle_udp : Packet → Option ℕ → ℕ → Option Outcome
unfolding rewrite_udp
handle_udp p rxcnt pos = do
  r ← parse_udphdr p pos
  elim r.ret [
    | none ↦ some (leaves p rxcnt aborted)
    | some len ↦ do p1 ← rewrite_udp p pos; some (leaves p1 rxcnt pass)
  ]

unfoldable pub handle_tcp : Packet → Option ℕ → ℕ → Option Outcome
unfolding filter_tcp
handle_tcp p rxcnt pos = do
  r ← parse_tcphdr p pos
  elim r.ret [ none ↦ some (leaves p rxcnt aborted) | some len ↦ filter_tcp p rxcnt pos ]

-- An `ip_type` of -1 is neither protocol.
unfoldable pub transport : Packet → Option ℕ → ℕ → Option ℕ → Option Outcome
unfolding handle_udp handle_tcp
transport p rxcnt pos none = some (leaves p rxcnt pass)
transport p rxcnt pos (some ip_type) =
    if ip_type == ipproto_udp
    then handle_udp p rxcnt pos
    else if ip_type == ipproto_tcp
    then handle_tcp p rxcnt pos
    else some (leaves p rxcnt pass)

-- the branches behind the Ethernet header; `none` is an EtherType that is not parsed
abbrev pub parsed : Option Parse → Option (Option Parse)
parsed m = do r ← m; some (some r)

unfoldable pub parse_network : Packet → ℕ → ℕ → Option (Option Parse)
parse_network p pos eth_type =
    if eth_type == swap16 eth_p_ip
    then parsed (parse_iphdr p pos)
    else if eth_type == swap16 eth_p_ipv6
    then parsed (parse_ip6hdr p pos)
    else some none

unfoldable pub network : Packet → Option ℕ → ℕ → ℕ → Option Outcome
unfolding transport parse_network
network p rxcnt pos eth_type = do
  ip ← parse_network p pos eth_type
  elim ip [ none ↦ some (leaves p rxcnt pass) | some r ↦ transport p rxcnt r.pos r.ret ]

-- behind `parse_ethhdr`
unfoldable pub ethernet : Packet → Option ℕ → ℕ → Option ℕ → Option Outcome
unfolding network
ethernet p rxcnt pos none = some (leaves p rxcnt aborted)
ethernet p rxcnt pos (some eth_type) = network p rxcnt pos eth_type

unfoldable pub xdp_block_port_func : Packet → Option ℕ → Option Outcome
unfolding ethernet
xdp_block_port_func p rxcnt = do r ← parse_ethhdr p 0; ethernet p rxcnt r.pos r.ret
