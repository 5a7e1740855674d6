-- ===== src/Keth/Receive/Conserve.antt =====
-- Reception and the interrupt handlers of keth-if/kernel/core.c keep the invariant of the devices
-- and lose no packet buffer.
use hack.Base.{ℕ, zero, suc, ◌+◌, Bool, Option, none, some, arith, Bool-cases, inl, inr}
use hack.Keth.Model.{Dev, PacketBuf, Net, at, Kernel, Ends, Ends-bind, Ends-mono}
use hack.Keth.Pool.{release_buffer, dequeue_buf, is_empty}
use hack.Keth.Pool.Sound.{IsSound, Conserves, release_buffer-Conserves, dequeue_buf-Conserves}
use hack.Keth.Receive.{poll_handed, receive, poll_packet, poll_loop, finish_poll, poll}

-- the common case: no packet is handed over, and none is handed back
abbrev pub Keeps : Kernel → Net → Net → Type 0
Keeps k s s' = IsSound k s' × Conserves s s' none none

pub Conserves-trans :
    (s s' s'' : Net) (i m o : Option PacketBuf)
    → Conserves s s' i m
    → Conserves s' s'' m o
    → Conserves s s'' i o
Conserves-trans s s' s'' i m o c c' = omega arith

Conserves-after :
    (s s' s'' : Net) (i o : Option PacketBuf)
    → Conserves s s' none none
    → Conserves s' s'' i o
    → Conserves s s'' i o
Conserves-after s s' s'' i o c c' = omega arith

Conserves-none : (s : Net) → Conserves s s none none
Conserves-none s = omega arith

module _ (k : Kernel) where
  receive-Conserves :
      (s : Net) (d : Dev) (ok : Bool) (pkt : PacketBuf)
      → IsSound k s
      → IsSound k (receive s d ok pkt) × Conserves s (receive s d ok pkt) none none
  unfolding receive
  receive-Conserves s d ok pkt v = ground arith

  poll_handed-Keeps :
      (ok : Bool) (d : Dev) (pkt : Option PacketBuf) (s : Net)
      → IsSound k s
      → Ends (λ s'. IsSound k s' × Conserves s s' pkt none) (poll_handed k ok d pkt s)
  unfolding poll_handed
  poll_handed-Keeps ok d none s v = (v, Conserves-none s)
  poll_handed-Keeps ok d (some pkt) s v =
      let (v1, c1) = receive-Conserves s d ok pkt v in
      Ends-mono _ (λ s'. IsSound k s' × Conserves s s' (some pkt) none)
        (release_buffer k (receive s d ok pkt) pkt)
        (release_buffer-Conserves k (receive s d ok pkt) pkt v1)
        λ s' (v2, c2). (v2, Conserves-after s (receive s d ok pkt) s' (some pkt) none c1 c2)

  pub poll_packet-Keeps :
      (ok : Bool) (s : Net) (d : Dev) → IsSound k s → Ends (Keeps k s) (poll_packet k ok s d)
  unfolding poll_packet
  poll_packet-Keeps ok s d v =
      Ends-bind (λ r. IsSound k r.1 × Conserves s r.1 none r.0) (Keeps k s) (dequeue_buf s d) _
        (dequeue_buf-Conserves k s d v)
        λ (pkt, s1) (v1, c1).
          Ends-mono _ (Keeps k s) (poll_handed k ok d pkt s1) (poll_handed-Keeps ok d pkt s1 v1)
            λ s2 (v2, c2). (v2, Conserves-trans s s1 s2 none pkt none c1 c2)

  pub poll_loop-Keeps :
      (n npackets : ℕ) (ok : ℕ → Bool) (s : Net) (d : Dev)
      → IsSound k s
      → Ends (λ r. Keeps k s r.1) (poll_loop k n npackets ok s d)
  unfolding poll_loop
  poll_loop-Keeps zero npackets ok s d v = (v, Conserves-none s)
  poll_loop-Keeps (suc n) npackets ok s d v = elim (Bool-cases (is_empty (at s d).rx_queue)) [
    | inl stop ↦ rw stop (v, Conserves-none s)
    | inr more ↦ rw more (
        Ends-bind (Keeps k s) (λ r. Keeps k s r.1) (poll_packet k (ok npackets) s d) _
          (poll_packet-Keeps (ok npackets) s d v)
          λ s1 (v1, c1).
            Ends-mono _ (λ r. Keeps k s r.1) (poll_loop k n (npackets + 1) ok s1 d)
              (poll_loop-Keeps n (npackets + 1) ok s1 d v1)
              λ r (v2, c2). (v2, Conserves-trans s s1 r.1 none none none c1 c2))
  ]

  finish_poll-Keeps :
      (budget : ℕ) (complete : Bool) (d : Dev) (n : ℕ) (s : Net)
      → IsSound k s
      → Ends (λ r. Keeps k s r.1) (finish_poll budget complete d (n, s))
  unfolding finish_poll
  finish_poll-Keeps budget complete d n s v = ground arith

  -- From sound devices a poll always ends; it leaves them sound, and every packet buffer is still in
  -- the pool of its device or on a receive list.
  pub poll-Keeps :
      (budget : ℕ) (ok : ℕ → Bool) (complete : Bool) (s : Net) (d : Dev)
      → IsSound k s
      → Ends (λ r. Keeps k s r.1) (poll k budget ok complete s d)
  unfolding poll
  poll-Keeps budget ok complete s d v =
      Ends-bind (λ r. Keeps k s r.1) (λ r. Keeps k s r.1) (poll_loop k budget 0 ok s d) _
        (poll_loop-Keeps budget 0 ok s d v)
        λ r (v1, c1).
          Ends-mono _ (λ r'. Keeps k s r'.1) (finish_poll budget complete d r)
            (finish_poll-Keeps budget complete d r.0 r.1 v1)
            λ r' (v2, c2). (v2, Conserves-trans s r.1 r'.1 none none none c1 c2)
