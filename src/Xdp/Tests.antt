-- ===== src/Xdp/Tests.antt =====
-- Runs of the models of ebpf-xdp at concrete packets.
use hack.Base.{
  ℕ, drop, ◌≡◌, some, Option, arith, ◌∷◌, refl, inl, inr, ◌⊎◌, get_or, ◌&&◌, if◌then◌else◌, [],
  ◌==◌, none,
}
use hack.Base.Fault.{Runs, ◌>>=◌}
use hack.Base.Int.{ℤ, pos, negsuc}
use hack.Xdp.RedirectDev.Frames.{onward, Forwarded, xdp_sock2_prog-forward}
use hack.Xdp.Route.{Kernel}
use hack.Xdp.Parsing.Safety.{IsSound, parsers-IsSound}
use hack.Xdp.RedirectDev.{xdp_sock2_prog}
use hack.Xdp.Route.Answers.{Answers}
use hack.Xdp.Rewrite.{vlan_tag_push, vlan_tag_pop}
use hack.Xdp.MapAllow.Exact.{Decides, IsForeign, IsAllowed, allowed_addr_prog-exact}
use hack.Xdp.BlockPort.Safety.{IsTidy, xdp_block_port_func-safe}
use hack.Xdp.Parsing.{parse_ethhdr_vlan, parse_tcphdr}
use hack.Xdp.Rewrite.Tag.{HeadLaws}
use hack.Xdp.MapAllow.{Key, allowed_addr_prog}
use hack.Xdp.Memory.{Packet}
use hack.Xdp.BlockPort.{xdp_block_port_func}
use hack.Xdp.Action.{redirect}
use hack.Xdp.Rewrite.RoundTrip.{vlan_tag_pop-vlan_tag_push}
use hack.Xdp.Parsing.Frames.{parse_ethhdr_vlan-frame}
use hack.Xdp.Memory.Laws.{IsBytes, AllBytes-IsBytes}

-- An Ethernet frame with an IPv4 header without options, and 20 bytes behind it: for TCP a header to
-- port 9999, for UDP a header to that port and 12 bytes of data.
abbrev ipv4_frame : ℕ → Packet
ipv4_frame protocol =
    1 ∷ 2 ∷ 3 ∷ 4 ∷ 5 ∷ 6 ∷ 7 ∷ 8 ∷ 9 ∷ 10 ∷ 11 ∷ 12 ∷ 8 ∷ 0 ∷ 69 ∷ 0 ∷ 0 ∷ 40 ∷ 0 ∷ 0 ∷ 0 ∷ 0 ∷ 64
    ∷ protocol ∷ 0 ∷ 0 ∷ 10 ∷ 0 ∷ 0 ∷ 1 ∷ 10 ∷ 0 ∷ 0 ∷ 2 ∷ 0 ∷ 80 ∷ 39 ∷ 15 ∷ 0 ∷ 20 ∷ 0 ∷ 7 ∷ 0 ∷ 0
    ∷ 0 ∷ 0 ∷ 80 ∷ 16 ∷ 1 ∷ 0 ∷ 18 ∷ 52 ∷ 0 ∷ 0 ∷ []

abbrev icmp_frame : Packet
icmp_frame = ipv4_frame 1

abbrev tcp_frame : Packet
tcp_frame = ipv4_frame 6

abbrev udp_frame : Packet
udp_frame = ipv4_frame 17

tcp_frame-IsBytes : IsBytes tcp_frame
tcp_frame-IsBytes = AllBytes-IsBytes tcp_frame (ground arith)

udp_frame-IsBytes : IsBytes udp_frame
udp_frame-IsBytes = AllBytes-IsBytes udp_frame (ground arith)

-- There is a route from 10.0.0.1 to 10.0.0.2, through interface 3, and no other.
abbrev kernel : Kernel
kernel = record {
  fib_lookup = λ request.
      if get_or request.ipv4_src 3 0 == 1 && get_or request.ipv4_dst 3 0 == 2
      then (pos 0, record request { ifindex = 3 })
      else (negsuc 0, request);
  bpf_redirect = λ ifindex flags. redirect;
  redirect_map = λ index default. redirect;
}

abbrev map_of_port : Key → Option ℕ
map_of_port key = some 9999

-- The head moves by four bytes, either way.
abbrev adjust_head : ℤ → Packet → Option Packet
adjust_head (pos n) p = if n == 4 then some (drop 4 p) else none
adjust_head (negsuc n) p = if n == 3 then some (0 ∷ 0 ∷ 0 ∷ 0 ∷ p) else none

head_laws : HeadLaws adjust_head (0 ∷ 0 ∷ 0 ∷ 0 ∷ [])
head_laws = record { shrinks = λ p _. refl; grows = λ p. refl; four = refl }

parsers-IsSound_example : Runs (IsSound tcp_frame 20 34) (parse_tcphdr tcp_frame 34)
parsers-IsSound_example = (parsers-IsSound tcp_frame 34).7

-- a tag of 802.1ad around a tag of 802.1Q
parse_ethhdr_vlan-frame_example :
    parse_ethhdr_vlan
      (1 ∷ 2 ∷ 3 ∷ 4 ∷ 5 ∷ 6 ∷ 7 ∷ 8 ∷ 9 ∷ 10 ∷ 11 ∷ 12 ∷ 136 ∷ 168 ∷ 0 ∷ 7 ∷ 129 ∷ 0 ∷ 32 ∷ 5 ∷ 8
        ∷ 0 ∷ 69 ∷ [])
      0
      (some (0 ∷ 0 ∷ []))
    ≡ some (record {
      parse = record { pos = 22; hdr = some 0; ret = some 8 };
      vlans = some (7 ∷ 5 ∷ []);
    })
parse_ethhdr_vlan-frame_example =
    parse_ethhdr_vlan-frame (1 ∷ 2 ∷ 3 ∷ 4 ∷ 5 ∷ 6 ∷ 7 ∷ 8 ∷ 9 ∷ 10 ∷ 11 ∷ 12 ∷ [])
      (record { tpid = 0x88a8; tci = 7 } ∷ record { tpid = 0x8100; tci = 0x2005 } ∷ []) 0x0800
      (69 ∷ []) (some (0 ∷ 0 ∷ [])) refl (inr refl, omega arith, (inl refl, omega arith, tt))
      (omega arith) (omega arith) (omega arith) (omega arith)

xdp_block_port_func-safe_example :
    Runs (IsTidy tcp_frame (some 0)) (xdp_block_port_func tcp_frame (some 0))
xdp_block_port_func-safe_example = xdp_block_port_func-safe tcp_frame (some 0)

allowed_addr_prog-exact_example :
    Runs
      (Decides (IsForeign udp_frame ⊎ IsAllowed udp_frame 9999))
      (allowed_addr_prog map_of_port udp_frame)
allowed_addr_prog-exact_example = allowed_addr_prog-exact map_of_port udp_frame

vlan_tag_pop-vlan_tag_push_example :
    (vlan_tag_push adjust_head udp_frame 0 0x2005 >>= λ r. vlan_tag_pop adjust_head r.0 0)
    ≡ some (udp_frame, some 0x2005)
vlan_tag_pop-vlan_tag_push_example =
    vlan_tag_pop-vlan_tag_push adjust_head (0 ∷ 0 ∷ 0 ∷ 0 ∷ []) head_laws udp_frame 0x2005
      (omega arith) (omega arith) (omega arith) (omega arith)

xdp_sock2_prog-forward_example :
    Runs
      (Answers (pos 0) tcp_frame (Forwarded kernel 1 (onward kernel 1 tcp_frame).1 tcp_frame))
      (xdp_sock2_prog kernel 1 tcp_frame)
xdp_sock2_prog-forward_example =
    xdp_sock2_prog-forward kernel 1 tcp_frame (inl ((omega arith, refl, refl), omega arith))
