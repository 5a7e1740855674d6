-- ===== src/Keth/Receive/Rounds.antt =====
-- What one round of the NAPI poll in keth-if/kernel/core.c does to the device.
use hack.Base.{
  ℕ, zero, if◌then◌else◌, Bool, List, leb, ◌≡◌, ◌+◌, suc, length, ◌∷◌, drop, arith, some, false,
  Option, none, ◌∙◌, [], refl,
}
use hack.Keth.Model.{
  Kernel, Device, PacketBuf, Call, netif_receive_skb, Net, Dev, at, Ends, Ends-bind, Ends-and, eth0,
  Ends-mono, eth1,
}
use hack.Keth.Receive.{poll_packet, poll_handed, receive}
use hack.Keth.Pool.{dequeue_buf, release_buffer}
use hack.Keth.Pool.Sound.{IsSound, Conserves, dequeue_buf-Conserves}

-- the smaller of a budget and a number of packets
abbrev pub min : ℕ → ℕ → ℕ
min a b = if leb a b then a else b

-- The calls to the network stack for the first `n` packets of a receive list, which stands with the
-- newest packet first; `ok` tells for which rounds, from round `i` on, a socket buffer is there.
abbrev pub handed : ℕ → ℕ → (ℕ → Bool) → List PacketBuf → List Call → List Call
handed zero i ok packets calls = calls
handed (suc n) i ok [] calls = calls
handed (suc n) i ok (pkt ∷ packets) calls =
    handed n (i + 1) ok packets (if ok i then netif_receive_skb pkt.bytes ∷ calls else calls)

-- what a round does to the device that is polled
pub record Round (ok : Bool) (pkt : PacketBuf) (rest : List PacketBuf) (x y : Device) : Type 0 where
  pub queue : y.rx_queue ≡ rest
  pub calls : y.calls ≡ (if ok then netif_receive_skb pkt.bytes ∷ x.calls else x.calls)
  pub enabled : y.rx_int_enabled ≡ x.rx_int_enabled

-- what the loop does, when it has counted up to `npackets`
pub record Received (n npackets : ℕ) (ok : ℕ → Bool) (x : Device) (r : ℕ) (y : Device)
    : Type 0 where
  pub count : r ≡ npackets + min n (length x.rx_queue)
  pub queue : y.rx_queue ≡ drop n x.rx_queue
  pub calls : y.calls ≡ handed n npackets ok x.rx_queue x.calls
  pub enabled : y.rx_int_enabled ≡ x.rx_int_enabled

-- what releasing a packet leaves alone
record Same (x y : Device) : Type 0 where
  pub queue : y.rx_queue ≡ x.rx_queue
  pub calls : y.calls ≡ x.calls
  pub enabled : y.rx_int_enabled ≡ x.rx_int_enabled

record Head (pkt : PacketBuf) (rest : List PacketBuf) (x : Device) (o : Option PacketBuf)
    (y : Device) : Type 0 where
  given : o ≡ some pkt
  pub queue : y.rx_queue ≡ rest
  pub calls : y.calls ≡ x.calls
  pub enabled : y.rx_int_enabled ≡ x.rx_int_enabled

dequeue_buf-Head :
    (pkt : PacketBuf) (rest : List PacketBuf) (s : Net) (d : Dev)
    → (at s d).locked ≡ false
    → (at s d).rx_queue ≡ pkt ∷ rest
    → Ends (λ r. Head pkt rest (at s d) r.0 (at r.1 d)) (dequeue_buf s d)
unfolding dequeue_buf
dequeue_buf-Head pkt rest s d free e = ground arith

pub IsSound-free : (k : Kernel) (s : Net) (d : Dev) → IsSound k s → (at s d).locked ≡ false
IsSound-free k s eth0 v = v.sound0.unlocked
IsSound-free k s eth1 v = v.sound1.unlocked

pub Received-end :
    (n npackets : ℕ) (ok : ℕ → Bool) (x : Device)
    → x.rx_queue ≡ []
    → Received (suc n) npackets ok x npackets x
Received-end n npackets ok x e = ground arith

pub Received-step :
    (n npackets : ℕ) (ok : ℕ → Bool) (pkt : PacketBuf) (rest : List PacketBuf) (x y z : Device)
    (r : ℕ)
    → x.rx_queue ≡ pkt ∷ rest
    → Round (ok npackets) pkt rest x y
    → Received n (npackets + 1) ok y r z
    → Received (suc n) npackets ok x r z
Received-step n npackets ok pkt rest x y z r e round got = record {
  count = rw e (got.count ∙ rw round.queue (ground arith));
  queue = rw e (got.queue ∙ rw round.queue refl);
  calls = rw e (got.calls ∙ rw round.queue (rw round.calls refl));
  enabled = got.enabled ∙ round.enabled;
}

module _ (k : Kernel) where
  release_buffer-Same :
      (pkt : PacketBuf) (s : Net) (d : Dev)
      → (at s pkt.dev).locked ≡ false
      → Ends (λ s'. Same (at s d) (at s' d)) (release_buffer k s pkt)
  unfolding release_buffer
  release_buffer-Same pkt s d free = ground arith

  receive-free :
      (s : Net) (d : Dev) (ok : Bool) (pkt : PacketBuf) (d' : Dev)
      → IsSound k s
      → (at (receive s d ok pkt) d').locked ≡ false
  unfolding receive
  receive-free s d ok pkt d' v = ground arith

  Round-of :
      (s : Net) (d : Dev) (ok : Bool) (pkt : PacketBuf) (rest : List PacketBuf) (x y : Device)
      → Head pkt rest x (some pkt) (at s d)
      → Same (at (receive s d ok pkt) d) y
      → Round ok pkt rest x y
  unfolding receive
  Round-of s d ok pkt rest x y h same = ground arith

  poll_handed-Round :
      (ok : Bool) (pkt : PacketBuf) (rest : List PacketBuf) (x : Device) (s : Net) (d : Dev)
      → IsSound k s
      → Head pkt rest x (some pkt) (at s d)
      → Ends (λ s'. Round ok pkt rest x (at s' d)) (poll_handed k ok d (some pkt) s)
  unfolding poll_handed
  poll_handed-Round ok pkt rest x s d v h =
      Ends-mono (λ s'. Same (at (receive s d ok pkt) d) (at s' d)) _
        (release_buffer k (receive s d ok pkt) pkt)
        (release_buffer-Same pkt (receive s d ok pkt) d (receive-free s d ok pkt pkt.dev v))
        λ s' same. Round-of s d ok pkt rest x (at s' d) h same

  pub poll_packet-Round :
      (ok : Bool) (pkt : PacketBuf) (rest : List PacketBuf) (s : Net) (d : Dev)
      → IsSound k s
      → (at s d).rx_queue ≡ pkt ∷ rest
      → Ends (λ s'. Round ok pkt rest (at s d) (at s' d)) (poll_packet k ok s d)
  unfolding poll_packet
  poll_packet-Round ok pkt rest s d v e =
      Ends-bind
        (λ r. Head pkt rest (at s d) r.0 (at r.1 d) × (IsSound k r.1 × Conserves s r.1 none r.0)) _
        (dequeue_buf s d) _
        (Ends-and _ _ (dequeue_buf s d) (dequeue_buf-Head pkt rest s d (IsSound-free k s d v) e)
          (dequeue_buf-Conserves k s d v))
        λ r (h, (v1, c)). rw h.given (
          poll_handed-Round ok pkt rest (at s d) r.1 d v1
            (record { given = refl; queue = h.queue; calls = h.calls; enabled = h.enabled }))
