-- ===== src/Xdp/RedirectDev.antt =====
-- ebpf-xdp/kernel/xdp_redirect_dev.c: ICMP packets are reflected, and TCP and UDP packets sent on,
-- out of the interface that a route lookup gives.
pub mod Replies
pub mod Frames
use hack.Base.{ℕ, ◌+◌, Bool, not, ◌==◌, ltb, if◌then◌else◌, Option, none, some, ◌>>=◌, length}
use hack.Xdp.Action.{Action, pass}
use hack.Xdp.Memory.{Packet, load8, load16, copy_from, copy_to}
use hack.Xdp.Route.{Kernel, FibParams, fib_request, mac_bytes, Verdict, routed}

-- offsets of the fields behind an Ethernet header without tags
abbrev pub protocol_at : ℕ
protocol_at = 23

abbrev pub saddr_at : ℕ
saddr_at = 26

abbrev pub daddr_at : ℕ
daddr_at = 30

-- `memcpy` of the addresses of the next hop over those of the frame
unfoldable pub set_macs : Packet → FibParams → Option Packet
set_macs p fib = do p1 ← copy_to p 0 (mac_bytes fib.dmac); copy_to p1 6 (mac_bytes fib.smac)

-- source and destination of the IPv4 header change places
unfoldable pub reflect : Packet → Option Packet
reflect p = do
  oldipdst ← copy_from p daddr_at 4
  saddr ← copy_from p saddr_at 4
  p1 ← copy_to p daddr_at saddr
  copy_to p1 saddr_at oldipdst

-- what is done to an ICMP packet with a route
unfoldable pub rewrite_reply : Packet → FibParams → Option Packet
rewrite_reply p fib = do p1 ← reflect p; set_macs p1 fib

module _ (k : Kernel) (ingress_ifindex : ℕ) where
  -- Each branch ends by returning the action of `bpf_redirect`, whatever it is.
  unfoldable pub send_reflected : Packet → FibParams → Option Verdict
  send_reflected p fib = do p1 ← rewrite_reply p fib; some (p1, k.bpf_redirect fib.ifindex 0)

  unfoldable pub send_on : Packet → FibParams → Option Verdict
  send_on p fib = do p1 ← set_macs p fib; some (p1, k.bpf_redirect fib.ifindex 0)

  -- the route back to the sender
  unfoldable pub redirect_icmp : Packet → Option Verdict
  redirect_icmp p = do
    src ← copy_from p daddr_at 4
    dst ← copy_from p saddr_at 4
    let (rc, fib) = k.fib_lookup (fib_request src dst ingress_ifindex)
    routed rc p (send_reflected p fib)

  unfoldable pub redirect_tcp : Packet → Option Verdict
  redirect_tcp p = if ltb (length p) 54 then some (p, pass) else do
    src ← copy_from p saddr_at 4
    dst ← copy_from p daddr_at 4
    let (rc, fib) = k.fib_lookup (fib_request src dst ingress_ifindex)
    routed rc p (send_on p fib)

  unfoldable pub redirect_udp : Packet → Option Verdict
  redirect_udp p = if ltb (length p) 42 then some (p, pass) else do
    src ← copy_from p saddr_at 4
    dst ← copy_from p daddr_at 4
    let (rc, fib) = k.fib_lookup (fib_request src dst ingress_ifindex)
    routed rc p (send_on p fib)

  -- `0x08` is `htons(ETH_P_IP)` on a little-endian machine.
  unfoldable pub xdp_sock2_prog : Packet → Option Verdict
  xdp_sock2_prog p = if ltb (length p) 14 then some (p, pass) else do
    h_proto ← load16 p 12
    if not (h_proto == 0x08)
        then some (p, pass)
        else if ltb (length p) 34
        then some (p, pass)
        else do
          protocol ← load8 p protocol_at
          if protocol == 1
              then redirect_icmp p
              else if protocol == 6
              then redirect_tcp p
              else if protocol == 17
              then redirect_udp p
              else some (p, pass)
