-- ===== src/Keth/Receive/Handlers.antt =====
-- The interrupt handlers of keth-if/kernel/core.c keep the invariant of the devices and lose no packet
-- buffer.
use hack.Base.{◌+◌, ◌≡◌, Bool, true, false, Option, none, some, arith}
use hack.Keth.Model.{
  Dev, eth0, eth1, PacketBuf, Net, at, put, Kernel, done, Ends, Ends-mono, spin_lock, spin_unlock,
}
use hack.Keth.Pool.Sound.{IsSound, Conserves, owned, inhand, release_buffer-Conserves}
use hack.Keth.Receive.{
  regular_rx, regular_tx, release_if, clear_status, regular_interrupt, napi_rx, napi_tx,
  napi_interrupt, interrupt,
}
use hack.Keth.Receive.Conserve.{Keeps, Conserves-trans}

-- What the steps of a handler, under its lock, leave alone, and the packet `o` that they unlink.
record Inside (s t : Net) (o : Option PacketBuf) : Type 0 where
  pool0 : t.dev0.ppool ≡ s.dev0.ppool
  pool1 : t.dev1.ppool ≡ s.dev1.ppool
  queue0 : t.dev0.queue ≡ s.dev0.queue
  queue1 : t.dev1.queue ≡ s.dev1.queue
  locked0 : t.dev0.locked ≡ s.dev0.locked
  locked1 : t.dev1.locked ≡ s.dev1.locked
  packets0 : owned eth0 t + inhand eth0 o ≡ owned eth0 s
  packets1 : owned eth1 t + inhand eth1 o ≡ owned eth1 s

Inside-then : (s t u : Net) (o : Option PacketBuf) → Inside s t none → Inside t u o → Inside s u o
Inside-then s t u o i j = ground arith

Inside-last : (s t u : Net) (o : Option PacketBuf) → Inside s t o → Inside t u none → Inside s u o
Inside-last s t u o i j = ground arith

abbrev lock : Net → Dev → Net
lock s d = put s d (record (at s d) { locked = true })

module _ (k : Kernel) where
  spin_lock-done : (s : Net) (d : Dev) → IsSound k s → spin_lock s d ≡ done (lock s d)
  unfolding spin_lock
  spin_lock-done s d v = ground arith

  unlock_lem :
      (s t : Net) (d : Dev) (o : Option PacketBuf)
      → IsSound k s
      → Inside (lock s d) t o
      → IsSound k (spin_unlock t d) × Conserves s (spin_unlock t d) none o
  unfolding spin_unlock
  unlock_lem s t d o v i = ground arith

clear_status-Inside : (s : Net) (d : Dev) → Inside s (clear_status s d) none
clear_status-Inside s d = ground arith

napi_rx-Inside : (intr : Bool) (s : Net) (d : Dev) → Inside s (napi_rx intr s d) none
unfolding napi_rx
napi_rx-Inside intr s d = ground arith

napi_tx-Inside : (intr : Bool) (s : Net) (d : Dev) → Inside s (napi_tx intr s d) none
unfolding napi_tx
napi_tx-Inside intr s d = ground arith

regular_tx-Inside : (intr : Bool) (s : Net) (d : Dev) → Inside s (regular_tx intr s d) none
unfolding regular_tx
regular_tx-Inside intr s d = ground arith

regular_rx-Inside :
    (ok intr : Bool) (s : Net) (d : Dev) → let r = regular_rx ok intr s d in Inside s r.1 r.0
unfolding regular_rx
regular_rx-Inside ok intr s d = ground arith

module _ (k : Kernel) where
  release_if-Conserves :
      (s : Net) (pkt : Option PacketBuf)
      → IsSound k s
      → Ends (λ s'. IsSound k s' × Conserves s s' pkt none) (release_if k s pkt)
  release_if-Conserves s none v = (v, omega arith)
  release_if-Conserves s (some pkt) v = release_buffer-Conserves k s pkt v

  regular_interrupt-Keeps :
      (ok : Bool) (s : Net) (d : Dev) → IsSound k s → Ends (Keeps k s) (regular_interrupt k ok s d)
  unfolding regular_interrupt
  regular_interrupt-Keeps ok s d v =
      let s1 = lock s d in
      let t = clear_status s1 d in
      let r = regular_rx ok (at s1 d).status.rx_intr t d in
      let u = regular_tx (at s1 d).status.tx_intr r.1 d in
      let inside =
        Inside-last s1 r.1 u r.0
          (Inside-then s1 t r.1 r.0 (clear_status-Inside s1 d)
            (regular_rx-Inside ok (at s1 d).status.rx_intr t d))
          (regular_tx-Inside (at s1 d).status.tx_intr r.1 d) in
      let (v1, c1) = unlock_lem k s u d r.0 v inside in
      rw (spin_lock-done k s d v) (
        Ends-mono _ (Keeps k s) (release_if k (spin_unlock u d) r.0)
          (release_if-Conserves (spin_unlock u d) r.0 v1)
          λ s' (v2, c2). (v2, Conserves-trans s (spin_unlock u d) s' none r.0 none c1 c2))

  napi_interrupt-Keeps : (s : Net) (d : Dev) → IsSound k s → Ends (Keeps k s) (napi_interrupt s d)
  unfolding napi_interrupt
  napi_interrupt-Keeps s d v =
      let s1 = lock s d in
      let t = clear_status s1 d in
      let r = napi_rx (at s1 d).status.rx_intr t d in
      let u = napi_tx (at s1 d).status.tx_intr r d in
      let inside =
        Inside-last s1 r u none
          (Inside-then s1 t r none (clear_status-Inside s1 d)
            (napi_rx-Inside (at s1 d).status.rx_intr t d))
          (napi_tx-Inside (at s1 d).status.tx_intr r d) in
      rw (spin_lock-done k s d v) (unlock_lem k s u d none v inside)

  -- From sound devices either interrupt handler ends; it leaves them sound, and loses no packet.
  pub interrupt-Keeps :
      (use_napi ok : Bool) (s : Net) (d : Dev)
      → IsSound k s
      → Ends (Keeps k s) (interrupt k use_napi ok s d)
  unfolding interrupt
  interrupt-Keeps true ok s d v = napi_interrupt-Keeps s d v
  interrupt-Keeps false ok s d v = regular_interrupt-Keeps ok s d v
