-- ===== src/Xdp/RedirectDev/Frames.antt =====
-- The frames that ebpf-xdp/kernel/xdp_redirect_dev.c leaves.
use hack.Base.{ℕ, ◌≤◌, ◌<◌, ◌≡◌, ◌⊎◌, refl, some, length, arith, le→ltb, lt→ltb}
use hack.Base.Fault.{Runs, Runs-bind}
use hack.Base.Int.{ℤ}
use hack.Xdp.Action.{pass}
use hack.Xdp.Memory.{Packet, byte, word16, load8, load16, slice}
use hack.Xdp.Memory.Laws.{copy_from-some}
use hack.Xdp.Route.Answers.{Answers, asks, routed-Answers}
use hack.Xdp.Route.{Kernel, FibParams, Verdict}
use hack.Xdp.RedirectDev.{
  set_macs, send_reflected, send_on, redirect_icmp, redirect_tcp, redirect_udp, xdp_sock2_prog,
  rewrite_reply,
}
use hack.Xdp.RedirectDev.Replies.{IsReply, IsForwarded, IsReply-Runs, forward-Runs}

module _ (k : Kernel) (ingress_ifindex : ℕ) where
  -- what has been sent where the lookup succeeds
  abbrev pub Replied : FibParams → Packet → Verdict → Type 0
  Replied fib p v = (v.1 ≡ k.bpf_redirect fib.ifindex 0) × IsReply fib p v.0

  abbrev pub Forwarded : FibParams → Packet → Verdict → Type 0
  Forwarded fib p v = (v.1 ≡ k.bpf_redirect fib.ifindex 0) × IsForwarded fib p v.0

  send_reflected-Runs :
      (p : Packet) (fib : FibParams)
      → 34 ≤ length p
      → Runs (Replied fib p) (send_reflected k ingress_ifindex p fib)
  unfolding send_reflected
  send_reflected-Runs p fib h =
      Runs-bind (IsReply fib p) (Replied fib p) (rewrite_reply p fib) _ (IsReply-Runs p fib h)
        λ q r. (refl, r)

  send_on-Runs :
      (p : Packet) (fib : FibParams)
      → 12 ≤ length p
      → Runs (Forwarded fib p) (send_on k ingress_ifindex p fib)
  unfolding send_on
  send_on-Runs p fib h =
      Runs-bind (IsForwarded fib p) (Forwarded fib p) (set_macs p fib) _ (forward-Runs p fib h)
        λ q f. (refl, f)

  -- the answer of the kernel to the request for an address, back or on
  abbrev pub back : Packet → ℤ × FibParams
  back p = k.fib_lookup (asks ingress_ifindex (slice p 30 4) (slice p 26 4))

  abbrev pub onward : Packet → ℤ × FibParams
  onward p = k.fib_lookup (asks ingress_ifindex (slice p 26 4) (slice p 30 4))

  redirect_icmp-Runs :
      (p : Packet)
      → 34 ≤ length p
      → Runs (Answers (back p).0 p (Replied (back p).1 p)) (redirect_icmp k ingress_ifindex p)
  unfolding redirect_icmp
  redirect_icmp-Runs p h =
      rw (copy_from-some p 30 4 h, copy_from-some p 26 4 (omega arith))
        (routed-Answers (back p).0 p (Replied (back p).1 p) _ (send_reflected-Runs p (back p).1 h))

  redirect_tcp-Runs :
      (p : Packet)
      → 54 ≤ length p
      → Runs (Answers (onward p).0 p (Forwarded (onward p).1 p)) (redirect_tcp k ingress_ifindex p)
  unfolding redirect_tcp
  redirect_tcp-Runs p h =
      rw
        (
          le→ltb (length p) 54 h,
          copy_from-some p 26 4 (omega arith),
          copy_from-some p 30 4 (omega arith),
        )
        (routed-Answers (onward p).0 p (Forwarded (onward p).1 p) _
          (send_on-Runs p (onward p).1 (omega arith)))

  redirect_udp-Runs :
      (p : Packet)
      → 42 ≤ length p
      → Runs (Answers (onward p).0 p (Forwarded (onward p).1 p)) (redirect_udp k ingress_ifindex p)
  unfolding redirect_udp
  redirect_udp-Runs p h =
      rw
        (
          le→ltb (length p) 42 h,
          copy_from-some p 26 4 (omega arith),
          copy_from-some p 30 4 (omega arith),
        )
        (routed-Answers (onward p).0 p (Forwarded (onward p).1 p) _
          (send_on-Runs p (onward p).1 (omega arith)))

  transport_short :
      (p : Packet)
      → (length p < 54 → redirect_tcp k ingress_ifindex p ≡ some (p, pass))
        × (length p < 42 → redirect_udp k ingress_ifindex p ≡ some (p, pass))
  unfolding redirect_tcp redirect_udp
  transport_short p = ((λ h. rw (lt→ltb (length p) 54 h)), λ h. rw (lt→ltb (length p) 42 h))

  -- An IPv4 frame with a whole header, and its protocol.
  abbrev pub IsIpv4 : Packet → ℕ → Type 0
  IsIpv4 p protocol = (34 ≤ length p) × (word16 p 12 ≡ 0x08) × (byte p 23 ≡ protocol)

  -- An ICMP packet over IPv4 is reflected: with a route it goes back with its IPv4 addresses swapped
  -- and the addresses of the next hop, and nothing else changed, and the action is that of
  -- `bpf_redirect`; without a neighbour it passes, and otherwise it is dropped, unchanged.
  pub xdp_sock2_prog-icmp :
      (p : Packet)
      → IsIpv4 p 1
      → Runs (Answers (back p).0 p (Replied (back p).1 p)) (xdp_sock2_prog k ingress_ifindex p)
  unfolding xdp_sock2_prog load8 load16
  xdp_sock2_prog-icmp p (len, ip, proto) = ground (arith, redirect_icmp-Runs p)

  -- A TCP or UDP packet over IPv4 whose transport header lies in the packet is sent on, by a
  -- lookup with its source as the source: with a route it keeps everything but its Ethernet
  -- addresses, which become those of the next hop, and the action is that of `bpf_redirect`;
  -- without a neighbour it passes, and otherwise it is dropped, unchanged.
  pub xdp_sock2_prog-forward :
      (p : Packet)
      → (IsIpv4 p 6 × (54 ≤ length p)) ⊎ (IsIpv4 p 17 × (42 ≤ length p))
      → Runs
          (Answers (onward p).0 p (Forwarded (onward p).1 p))
          (xdp_sock2_prog k ingress_ifindex p)
  unfolding xdp_sock2_prog load8 load16
  xdp_sock2_prog-forward p h = ground (arith, redirect_tcp-Runs p, redirect_udp-Runs p)

  -- A packet that is no ICMP packet over IPv4, and no TCP or UDP packet over IPv4 with a whole
  -- transport header, goes up to the kernel unchanged, with no lookup.
  pub xdp_sock2_prog-pass :
      (p : Packet)
      → ¬ IsIpv4 p 1
      → ¬ (IsIpv4 p 6 × (54 ≤ length p))
      → ¬ (IsIpv4 p 17 × (42 ≤ length p))
      → xdp_sock2_prog k ingress_ifindex p ≡ some (p, pass)
  unfolding xdp_sock2_prog load8 load16
  xdp_sock2_prog-pass p icmp tcp udp = ground (arith, transport_short p)
