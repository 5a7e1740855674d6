-- ===== src/Xdp/RedirectXsk/Frames.antt =====
-- The frames that ebpf-xdp/kernel/xdp_redirect_xsk.c leaves.
use hack.Base.{ℕ, ◌≤◌, ◌≡◌, ◌≢◌, ◌⊎◌, refl, some, length, arith, le→ltb, ne→==-false, eq→==}
use hack.Base.Fault.{Runs, Runs-bind}
use hack.Base.Int.{ℤ}
use hack.Xdp.Action.{pass}
use hack.Xdp.Memory.{Packet, byte, swap16, word16, load8, load16, slice}
use hack.Xdp.Memory.Laws.{copy_from-some, load16-some}
use hack.Xdp.Route.Answers.{Answers, asks, routed-Answers}
use hack.Xdp.Route.{Kernel, FibParams, Verdict}
use hack.Xdp.RedirectDev.{rewrite_reply, set_macs}
use hack.Xdp.RedirectDev.Replies.{IsReply, IsForwarded, IsReply-Runs, forward-Runs}
use hack.Xdp.RedirectXsk.{
  xsk_reflected, xsk_on, xsk_icmp, xsk_tcp, xsk_udp, xdp_def_prog, xsk_def_prog,
}

module _ (k : Kernel) (ingress_ifindex rx_queue_index : ℕ) where
  -- what has been handed to the socket where the lookup succeeds
  abbrev pub ToSocket : (Packet → Type 0) → Verdict → Type 0
  ToSocket P v = (v.1 ≡ k.redirect_map rx_queue_index pass) × P v.0

  xsk_reflected-Runs :
      (p : Packet) (fib : FibParams)
      → 34 ≤ length p
      → Runs (ToSocket (IsReply fib p)) (xsk_reflected k ingress_ifindex rx_queue_index p fib)
  unfolding xsk_reflected
  xsk_reflected-Runs p fib h =
      Runs-bind (IsReply fib p) (ToSocket (IsReply fib p)) (rewrite_reply p fib)
        (λ q. some (q, k.redirect_map rx_queue_index pass)) (IsReply-Runs p fib h) λ q r. (refl, r)

  xsk_on-Runs :
      (p : Packet) (fib : FibParams)
      → 34 ≤ length p
      → Runs (ToSocket (IsForwarded fib p)) (xsk_on k ingress_ifindex rx_queue_index p fib)
  unfolding xsk_on
  xsk_on-Runs p fib h =
      Runs-bind (IsForwarded fib p) (ToSocket (IsForwarded fib p)) (set_macs p fib)
        (λ q. some (q, k.redirect_map rx_queue_index pass)) (forward-Runs p fib (omega arith))
        λ q f. (refl, f)

  -- the answer of the kernel to the request for an address, back or on
  abbrev pub back : Packet → ℤ × FibParams
  back p = k.fib_lookup (asks ingress_ifindex (slice p 30 4) (slice p 26 4))

  abbrev pub onward : Packet → ℤ × FibParams
  onward p = k.fib_lookup (asks ingress_ifindex (slice p 26 4) (slice p 30 4))

  xsk_icmp-Runs :
      (p : Packet)
      → 34 ≤ length p
      → Runs
          (Answers (back p).0 p (ToSocket (IsReply (back p).1 p)))
          (xsk_icmp k ingress_ifindex rx_queue_index p)
  unfolding xsk_icmp
  xsk_icmp-Runs p h =
      rw (copy_from-some p 30 4 h, copy_from-some p 26 4 (omega arith))
        (routed-Answers (back p).0 p (ToSocket (IsReply (back p).1 p)) _
          (xsk_reflected-Runs p (back p).1 h))

  xsk_transport-Runs :
      (p : Packet)
      → 34 ≤ length p
      → Runs
          (Answers (onward p).0 p (ToSocket (IsForwarded (onward p).1 p)))
          (xsk_tcp k ingress_ifindex rx_queue_index p)
        × Runs
            (Answers (onward p).0 p (ToSocket (IsForwarded (onward p).1 p)))
            (xsk_udp k ingress_ifindex rx_queue_index p)
  unfolding xsk_tcp xsk_udp
  xsk_transport-Runs p h =
      rw (copy_from-some p 26 4 (omega arith), copy_from-some p 30 4 h)
        (let sent =
            routed-Answers (onward p).0 p (ToSocket (IsForwarded (onward p).1 p)) _
              (xsk_on-Runs p (onward p).1 h) in
          (sent, sent))

  -- An IPv4 frame with a whole header.
  abbrev pub IsIpv4 : Packet → Type 0
  IsIpv4 p = (34 ≤ length p) × (swap16 (word16 p 12) ≡ 0x0800)

  -- With a reference count other than 0, an ICMP packet over IPv4 is reflected by the answer of the
  -- route lookup, to the socket of the receive queue; without a neighbour it passes, and otherwise it
  -- is dropped, unchanged.
  pub xdp_def_prog-icmp :
      (refcnt : ℕ) (p : Packet)
      → refcnt ≢ 0
      → IsIpv4 p
      → byte p 23 ≡ 1
      → Runs
          (Answers (back p).0 p (ToSocket (IsReply (back p).1 p)))
          (xdp_def_prog k ingress_ifindex rx_queue_index refcnt p)
  unfolding xdp_def_prog load8 load16
  xdp_def_prog-icmp refcnt p live h e = ground (arith, xsk_icmp-Runs p)

  -- With a reference count other than 0, a TCP or UDP packet over IPv4 is sent on by the answer of the
  -- route lookup, to the socket of the receive queue; without a neighbour it passes, and otherwise it
  -- is dropped, unchanged.
  pub xdp_def_prog-forward :
      (refcnt : ℕ) (p : Packet)
      → refcnt ≢ 0
      → IsIpv4 p
      → (byte p 23 ≡ 6) ⊎ (byte p 23 ≡ 17)
      → Runs
          (Answers (onward p).0 p (ToSocket (IsForwarded (onward p).1 p)))
          (xdp_def_prog k ingress_ifindex rx_queue_index refcnt p)
  unfolding xdp_def_prog load8 load16
  xdp_def_prog-forward refcnt p live h e = ground (arith, xsk_transport-Runs p)

  -- With a reference count other than 0, an IPv4 packet of another protocol than ICMP, TCP and UDP goes
  -- to the socket of the receive queue unchanged, with no lookup.
  pub xdp_def_prog-other :
      (refcnt : ℕ) (p : Packet)
      → refcnt ≢ 0
      → IsIpv4 p
      → byte p 23 ≢ 1
      → byte p 23 ≢ 6
      → byte p 23 ≢ 17
      → xdp_def_prog k ingress_ifindex rx_queue_index refcnt p
        ≡ some (p, k.redirect_map rx_queue_index pass)
  unfolding xdp_def_prog load8 load16
  xdp_def_prog-other refcnt p live h icmp tcp udp = ground arith

  -- A frame that is not IPv4, or too short for its header, passes unchanged in both programs.
  pub xdp_def_prog-pass :
      (refcnt : ℕ) (p : Packet)
      → ¬ IsIpv4 p
      → (xdp_def_prog k ingress_ifindex rx_queue_index refcnt p ≡ some (p, pass))
        × (xsk_def_prog k ingress_ifindex rx_queue_index refcnt p ≡ some (p, pass))
  unfolding xdp_def_prog xsk_def_prog load8 load16
  xdp_def_prog-pass refcnt p h = (ground arith, ground arith)

  def_transport-Runs :
      (refcnt : ℕ) (p : Packet)
      → refcnt ≢ 0
      → 34 ≤ length p
      → swap16 (word16 p 12) ≡ 0x0800
      → Runs
          (Answers (onward p).0 p (ToSocket (IsForwarded (onward p).1 p)))
          (xsk_def_prog k ingress_ifindex rx_queue_index refcnt p)
  unfolding xsk_def_prog
  def_transport-Runs refcnt p live h ip =
      rw
        (
          ne→==-false refcnt 0 live,
          le→ltb (length p) 14 (omega arith),
          load16-some p 12 (omega arith),
          eq→== (swap16 (word16 p 12)) 0x0800 ip,
          le→ltb (length p) 34 h,
          copy_from-some p 26 4 (omega arith),
          copy_from-some p 30 4 h,
        )
        (routed-Answers (onward p).0 p (ToSocket (IsForwarded (onward p).1 p)) _
          (xsk_on-Runs p (onward p).1 h))

  -- With a reference count other than 0, the default program sends every IPv4 packet by the answer of
  -- the route lookup to the socket of the receive queue, with nothing changed but its Ethernet
  -- addresses; without a neighbour it passes, and otherwise it is dropped, unchanged.
  pub xsk_def_prog-forward :
      (refcnt : ℕ) (p : Packet)
      → refcnt ≢ 0
      → IsIpv4 p
      → Runs
          (Answers (onward p).0 p (ToSocket (IsForwarded (onward p).1 p)))
          (xsk_def_prog k ingress_ifindex rx_queue_index refcnt p)
  xsk_def_prog-forward refcnt p live h = def_transport-Runs refcnt p live h.0 h.1
