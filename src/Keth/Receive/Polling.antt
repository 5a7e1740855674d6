-- ===== src/Keth/Receive/Polling.antt =====
-- What one call of the NAPI poll in keth-if/kernel/core.c receives.
use hack.Base.{
  ℕ, zero, if◌then◌else◌, Bool, List, ◌≡◌, ◌+◌, suc, length, ◌∷◌, drop, arith, false, ◌∙◌, [], refl,
  ltb, ◌&&◌, true,
}
use hack.Keth.Model.{Kernel, Device, PacketBuf, Net, Dev, at, Ends, Ends-bind, Ends-and, Ends-mono}
use hack.Keth.Receive.{poll_packet, poll_loop, poll, finish_poll}
use hack.Keth.Pool.Sound.{IsSound}
use hack.Keth.Receive.Conserve.{Keeps, poll_packet-Keeps, poll_loop-Keeps}
use hack.Keth.Receive.Rounds.{
  Received, min, Received-end, handed, IsSound-free, Round, poll_packet-Round, Received-step,
}

-- what the end of a poll does to the device, which has received `n` packets
record Finish (n budget : ℕ) (complete : Bool) (x : Device) (r : ℕ) (y : Device) : Type 0 where
  count : r ≡ n
  queue : y.rx_queue ≡ x.rx_queue
  calls : y.calls ≡ x.calls
  enabled : y.rx_int_enabled ≡ (if ltb n budget && complete then true else x.rx_int_enabled)

finish_poll-Finish :
    (budget : ℕ) (complete : Bool) (n : ℕ) (s : Net) (d : Dev)
    → (at s d).locked ≡ false
    → Ends
        (λ r. Finish n budget complete (at s d) r.0 (at r.1 d))
        (finish_poll budget complete d (n, s))
unfolding finish_poll
finish_poll-Finish budget complete n s d free = ground arith

ltb-min : (budget n : ℕ) → ltb (0 + min budget n) budget ≡ ltb n budget
ltb-min budget n = ground arith

-- what a poll that counts `r` packets does to the device
pub record Polled (budget : ℕ) (ok : ℕ → Bool) (complete : Bool) (x : Device) (r : ℕ) (y : Device)
    : Type 0 where
  pub count : r ≡ min budget (length x.rx_queue)
  pub queue : y.rx_queue ≡ drop budget x.rx_queue
  pub calls : y.calls ≡ handed budget 0 ok x.rx_queue x.calls
  pub enabled :
      y.rx_int_enabled
      ≡ (if ltb (length x.rx_queue) budget && complete then true else x.rx_int_enabled)

finish_lem :
    (budget : ℕ) (ok : ℕ → Bool) (complete : Bool) (s : Net) (d : Dev) (n : ℕ) (s1 : Net)
    → Received budget 0 ok (at s d) n (at s1 d)
    → (at s1 d).locked ≡ false
    → Ends
        (λ r. Polled budget ok complete (at s d) r.0 (at r.1 d))
        (finish_poll budget complete d (n, s1))
finish_lem budget ok complete s d n s1 got free =
    Ends-mono (λ r. Finish n budget complete (at s1 d) r.0 (at r.1 d)) _
      (finish_poll budget complete d (n, s1)) (finish_poll-Finish budget complete n s1 d free)
      λ r end. record {
        count = omega (arith, end.count, got.count);
        queue = end.queue ∙ got.queue;
        calls = end.calls ∙ got.calls;
        enabled =
            end.enabled
            ∙ rw got.count (rw (ltb-min budget (length (at s d).rx_queue)) (rw got.enabled refl));
      }

module _ (k : Kernel) where
  -- the claim for the rest of the loop gives the claim for a round more
  poll_loop-next :
      (n npackets : ℕ) (ok : ℕ → Bool) (s : Net) (d : Dev) (queue : List PacketBuf)
      → IsSound k s
      → ((s' : Net)
          → IsSound k s'
          → Ends
              (λ r. Received n (npackets + 1) ok (at s' d) r.0 (at r.1 d))
              (poll_loop k n (npackets + 1) ok s' d))
      → (at s d).rx_queue ≡ queue
      → Ends
          (λ r. Received (suc n) npackets ok (at s d) r.0 (at r.1 d))
          (poll_loop k (suc n) npackets ok s d)
  unfolding poll_loop
  poll_loop-next n npackets ok s d [] v ih e = rw e (Received-end n npackets ok (at s d) e)
  poll_loop-next n npackets ok s d (pkt ∷ rest) v ih e = rw e (
      Ends-bind (λ s1. Round (ok npackets) pkt rest (at s d) (at s1 d) × Keeps k s s1) _
        (poll_packet k (ok npackets) s d) _
        (Ends-and _ _ (poll_packet k (ok npackets) s d)
          (poll_packet-Round k (ok npackets) pkt rest s d v e)
          (poll_packet-Keeps k (ok npackets) s d v))
        λ s1 (round, kept).
          Ends-mono (λ r. Received n (npackets + 1) ok (at s1 d) r.0 (at r.1 d)) _
            (poll_loop k n (npackets + 1) ok s1 d) (ih s1 kept.0)
            λ r got.
              Received-step n npackets ok pkt rest (at s d) (at s1 d) (at r.1 d) r.0 e round got)

  poll_loop-Received :
      (n npackets : ℕ) (ok : ℕ → Bool) (s : Net) (d : Dev)
      → IsSound k s
      → Ends (λ r. Received n npackets ok (at s d) r.0 (at r.1 d)) (poll_loop k n npackets ok s d)
  unfolding poll_loop
  poll_loop-Received zero npackets ok s d v = record {
    count = ground arith;
    queue = refl;
    calls = refl;
    enabled = refl;
  }
  poll_loop-Received (suc n) npackets ok s d v =
      poll_loop-next n npackets ok s d (at s d).rx_queue v
        (λ s' v'. poll_loop-Received n (npackets + 1) ok s' d v') refl

  -- A poll with a budget, of a sound device: it receives the smaller of the budget and the length of
  -- the receive list; it hands the newest packets on first, in the order of the list, each to
  -- `netif_receive_skb` unless no socket buffer is to be had; it takes them off the list; and it
  -- enables receive interrupts again only if it stopped below the budget and `napi_complete_done`
  -- agrees.
  pub poll-receives :
      (budget : ℕ) (ok : ℕ → Bool) (complete : Bool) (s : Net) (d : Dev)
      → IsSound k s
      → Ends
          (λ r. Polled budget ok complete (at s d) r.0 (at r.1 d))
          (poll k budget ok complete s d)
  unfolding poll
  poll-receives budget ok complete s d v =
      Ends-bind (λ r. Received budget 0 ok (at s d) r.0 (at r.1 d) × Keeps k s r.1) _
        (poll_loop k budget 0 ok s d) _
        (Ends-and _ _ (poll_loop k budget 0 ok s d) (poll_loop-Received budget 0 ok s d v)
          (poll_loop-Keeps k budget 0 ok s d v))
        λ r (got, kept). finish_lem budget ok complete s d r.0 r.1 got (IsSound-free k r.1 d kept.0)
