-- ===== src/Xdp/RedirectXsk.antt =====
-- ebpf-xdp/kernel/xdp_redirect_xsk.c, and _xsk_def_xdp_prog.c beside it: packets go to the AF_XDP socket of their receive queue; ICMP,
-- TCP and UDP packets get the addresses that a route lookup gives first.
pub mod Frames
use hack.Base.{ℕ, ◌+◌, Bool, not, ◌==◌, ltb, if◌then◌else◌, Option, none, some, ◌>>=◌, length}
use hack.Xdp.Action.{Action, pass}
use hack.Xdp.Memory.{Packet, swap16, load8, load16, copy_from, copy_to}
use hack.Xdp.Route.{Kernel, FibParams, fib_request, mac_bytes, Verdict, routed}
use hack.Xdp.RedirectDev.{protocol_at, saddr_at, daddr_at, set_macs, rewrite_reply}

module _ (k : Kernel) (ingress_ifindex rx_queue_index : ℕ) where
  -- `return bpf_redirect_map(&if_redirect, index, XDP_PASS)`
  abbrev pub to_socket : Packet → Option Verdict
  to_socket p = some (p, k.redirect_map rx_queue_index pass)

  unfoldable pub xsk_reflected : Packet → FibParams → Option Verdict
  xsk_reflected p fib = do p1 ← rewrite_reply p fib; to_socket p1

  unfoldable pub xsk_on : Packet → FibParams → Option Verdict
  xsk_on p fib = do p1 ← set_macs p fib; to_socket p1

  unfoldable pub xsk_icmp : Packet → Option Verdict
  xsk_icmp p = do
    src ← copy_from p daddr_at 4
    dst ← copy_from p saddr_at 4
    let (rc, fib) = k.fib_lookup (fib_request src dst ingress_ifindex)
    routed rc p (xsk_reflected p fib)

  -- The transport header is pointed at and never read, so there is no test of its bounds.
  unfoldable pub xsk_tcp : Packet → Option Verdict
  xsk_tcp p = do
    src ← copy_from p saddr_at 4
    dst ← copy_from p daddr_at 4
    let (rc, fib) = k.fib_lookup (fib_request src dst ingress_ifindex)
    routed rc p (xsk_on p fib)

  unfoldable pub xsk_udp : Packet → Option Verdict
  xsk_udp p = do
    src ← copy_from p saddr_at 4
    dst ← copy_from p daddr_at 4
    let (rc, fib) = k.fib_lookup (fib_request src dst ingress_ifindex)
    routed rc p (xsk_on p fib)

  -- The flag is the volatile `refcnt`.
  unfoldable pub xdp_def_prog : ℕ → Packet → Option Verdict
  xdp_def_prog refcnt p =
      if refcnt == 0 then some (p, pass) else if ltb (length p) 14 then some (p, pass) else do
        h_proto ← load16 p 12
        if not (swap16 h_proto == 0x0800)
            then some (p, pass)
            else if ltb (length p) 34
            then some (p, pass)
            else do
              protocol ← load8 p protocol_at
              if protocol == 1
                  then xsk_icmp p
                  else if protocol == 6
                  then xsk_tcp p
                  else if protocol == 17
                  then xsk_udp p
                  else to_socket p

  -- ebpf-xdp/kernel/_xsk_def_xdp_prog.c: every IPv4 packet is sent on, whatever its protocol.
  unfoldable pub xsk_def_prog : ℕ → Packet → Option Verdict
  xsk_def_prog refcnt p =
      if refcnt == 0 then some (p, pass) else if ltb (length p) 14 then some (p, pass) else do
        h_proto ← load16 p 12
        if not (swap16 h_proto == 0x0800)
            then some (p, pass)
            else if ltb (length p) 34
            then some (p, pass)
            else do
              src ← copy_from p saddr_at 4
              dst ← copy_from p daddr_at 4
              let (rc, fib) = k.fib_lookup (fib_request src dst ingress_ifindex)
              routed rc p (xsk_on p fib)
