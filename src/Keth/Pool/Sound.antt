-- ===== src/Keth/Pool/Sound.antt =====
-- The invariant of the devices of keth-if/kernel/core.c, and who owns a packet buffer.
use hack.Base.{
  ℕ, ◌+◌, ◌≡◌, ◌≢◌, Bool, true, false, Option, none, some, List, [], ◌∷◌, arith, length,
}
use hack.Keth.Model.{Dev, eth0, eth1, same_dev, PacketBuf, Device, Net, at, Kernel, Ends}
use hack.Keth.Pool.{get_tx_buffer, release_buffer, enqueue_buf, dequeue_buf}

-- What the kernel's transmit queue is relied on for.
pub record QueueLaws (k : Kernel) : Type 0 where
  pub stopped-stop : (q : ℕ) → k.queue_stopped (k.stop_queue q) ≡ true

abbrev pub AllOf : Dev → List PacketBuf → Type 0
AllOf d [] = Unit
AllOf d (pkt ∷ ps) = (pkt.dev ≡ d) × AllOf d ps

-- Between the calls of the driver the lock of a device is free, its pool holds packets of its own,
-- and an empty pool has stopped the transmit queue.
pub record DevSound (k : Kernel) (d : Dev) (x : Device) : Type 0 where
  pub unlocked : x.locked ≡ false
  pub homes : AllOf d x.ppool
  pub stops : x.ppool ≡ [] → k.queue_stopped x.queue ≡ true

pub record IsSound (k : Kernel) (s : Net) : Type 0 where
  pub sound0 : DevSound k eth0 s.dev0
  pub sound1 : DevSound k eth1 s.dev1

abbrev pub one_if : Bool → ℕ
one_if true = 1
one_if false = 0

-- how many packets of a list belong to the pool of a device
abbrev pub inflight : Dev → List PacketBuf → ℕ
inflight d [] = 0
inflight d (pkt ∷ ps) = one_if (same_dev pkt.dev d) + inflight d ps

-- all packets of a device: in its pool, and on the receive lists of both
abbrev pub owned : Dev → Net → ℕ
owned d s = length (at s d).ppool + inflight d s.dev0.rx_queue + inflight d s.dev1.rx_queue

-- the packet that a call has been handed, or hands back
abbrev pub inhand : Dev → Option PacketBuf → ℕ
inhand d none = 0
inhand d (some pkt) = one_if (same_dev pkt.dev d)

-- A call that is handed the packet `i` and hands back `o` loses no packet, of either device.
pub record Conserves (s s' : Net) (i o : Option PacketBuf) : Type 0 where
  pub packets0 : owned eth0 s' + inhand eth0 o ≡ owned eth0 s + inhand eth0 i
  pub packets1 : owned eth1 s' + inhand eth1 o ≡ owned eth1 s + inhand eth1 i

pub release_buffer-Conserves :
    (k : Kernel) (s : Net) (pkt : PacketBuf)
    → IsSound k s
    → Ends (λ s'. IsSound k s' × Conserves s s' (some pkt) none) (release_buffer k s pkt)
unfolding release_buffer
release_buffer-Conserves k s pkt v = ground arith

pub enqueue_buf-Conserves :
    (k : Kernel) (s : Net) (d : Dev) (pkt : PacketBuf)
    → IsSound k s
    → Ends (λ s'. IsSound k s' × Conserves s s' (some pkt) none) (enqueue_buf s d pkt)
unfolding enqueue_buf
enqueue_buf-Conserves k s d pkt v = ground arith

pub dequeue_buf-Conserves :
    (k : Kernel) (s : Net) (d : Dev)
    → IsSound k s
    → Ends (λ r. IsSound k r.1 × Conserves s r.1 none r.0) (dequeue_buf s d)
unfolding dequeue_buf
dequeue_buf-Conserves k s d v = ground arith

pub get_tx_buffer-Conserves :
    (k : Kernel) (s : Net) (d : Dev)
    → QueueLaws k
    → IsSound k s
    → (at s d).ppool ≢ []
    → Ends (λ r. IsSound k r.1 × Conserves s r.1 none r.0 × (r.0 ≢ none)) (get_tx_buffer k s d)
unfolding get_tx_buffer
get_tx_buffer-Conserves k s d law v ne = ground (arith, law.stopped-stop (at s d).queue)
