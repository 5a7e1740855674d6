-- ===== src/Keth/Control/Limits.antt =====
-- The configuration calls of keth-if/kernel/core.c, and recovery from a transmission timeout.
use hack.Base.{
  ℕ, ◌≡◌, Bool, false, List, if◌then◌else◌, leb, true, ◌&&◌, [], length, ◌+◌, arith, suc, ◌∷◌, zero,
  ◌<◌, refl,
}
use hack.Keth.Model.{
  Kernel, Params, Net, Device, Dev, at, PacketBuf, Ends, put, spin_lock, Ends-bind, spin_unlock,
  eth0, eth1,
}
use hack.Keth.Pool.{fill, fresh, setup_pool, teardown_pool}
use hack.Keth.Control.{change_mtu, Reply, zero_ok, minus, einval, tx_timeout, refill}
use hack.Keth.Pool.Sound.{IsSound, AllOf}
use hack.Keth.Receive.Conserve.{Keeps}
use hack.Keth.Receive.{interrupt}
use hack.Keth.Receive.Handlers.{interrupt-Keeps}

-- what `dummeth_change_mtu` does to its device
pub record Set (new_mtu : ℕ) (x : Device) (r : Reply) (y : Device) : Type 0 where
  pub reply : r ≡ (if leb 68 new_mtu && leb new_mtu 1500 then zero_ok else minus einval)
  pub mtu : y.mtu ≡ (if leb 68 new_mtu && leb new_mtu 1500 then new_mtu else x.mtu)
  pub free : y.locked ≡ false

-- On a device whose lock is free, `dummeth_change_mtu` sets the size and returns 0 exactly for sizes
-- from 68 to 1500; otherwise it returns `-EINVAL` and the device keeps its size. The lock is free
-- afterwards.
pub change_mtu-exact :
    (new_mtu : ℕ) (s : Net) (d : Dev)
    → (at s d).locked ≡ false
    → Ends (λ r. Set new_mtu (at s d) r.0 (at r.1 d)) (change_mtu new_mtu s d)
unfolding change_mtu
change_mtu-exact new_mtu s d free = ground arith

pub length-fill :
    (n i : ℕ) (kmalloc : ℕ → Bool) (d : Dev) (pool : List PacketBuf)
    → ((j : ℕ) → kmalloc j ≡ true)
    → AllOf d pool
    → (length (fill n i kmalloc d pool) ≡ n + length pool) × AllOf d (fill n i kmalloc d pool)
unfolding fill
length-fill zero i kmalloc d pool ok home = (omega arith, home)
length-fill (suc n) i kmalloc d pool ok home =
    let (len, homes) = length-fill n (i + 1) kmalloc d (fresh d ∷ pool) ok (refl, home) in
    rw (ok i) (omega (arith, len), homes)

-- What the kernel's transmit queue is relied on for when it is woken.
abbrev pub WakeLaw : Kernel → Type 0
WakeLaw k = (q : ℕ) → k.queue_stopped (k.wake_queue q) ≡ false

-- A pool that is full, with the queue running.
pub record IsReady (k : Kernel) (n : ℕ) (s : Net) (d : Dev) : Type 0 where
  pub sound : IsSound k s
  pub full : length (at s d).ppool ≡ n
  pub running : k.queue_stopped (at s d).queue ≡ false

module _ (k : Kernel) (q : Params) where
  refill-IsReady :
      (kmalloc : ℕ → Bool) (s : Net) (d : Dev)
      → WakeLaw k
      → ((i : ℕ) → kmalloc i ≡ true)
      → 0 < q.pool_size
      → IsSound k s
      → Ends (λ s'. IsReady k q.pool_size s' d) (refill k q kmalloc s d)
  unfolding refill spin_lock spin_unlock setup_pool teardown_pool
  refill-IsReady kmalloc s eth0 wake each some_packet v =
      let pool = length-fill q.pool_size 0 kmalloc eth0 [] each tt in
      ground (arith, pool.0, pool.1, wake s.dev0.queue)
  refill-IsReady kmalloc s eth1 wake each some_packet v =
      let pool = length-fill q.pool_size 0 kmalloc eth1 [] each tt in
      ground (arith, pool.0, pool.1, wake s.dev1.queue)

  -- A transmission timeout on sound devices ends, with the devices sound, the device's pool
  -- holding `pool_size` packets, at least one, and its queue running, where each `kmalloc`
  -- succeeds and a queue that is woken runs.
  pub tx_timeout-IsReady :
      (kmalloc : ℕ → Bool) (ok : Bool) (s : Net) (d : Dev)
      → WakeLaw k
      → ((i : ℕ) → kmalloc i ≡ true)
      → 0 < q.pool_size
      → IsSound k s
      → Ends (λ s'. IsReady k q.pool_size s' d) (tx_timeout k q kmalloc ok s d)
  unfolding tx_timeout
  tx_timeout-IsReady kmalloc ok s d wake each some_packet v =
      let s1 = put s d (record (at s d) { status = record (at s d).status { tx_intr = true } }) in
      Ends-bind (Keeps k s1) _ (interrupt k q.use_napi ok s1 d) _
        (interrupt-Keeps k q.use_napi ok s1 d (ground arith))
        λ s2 (v2, c2). refill-IsReady kmalloc _ d wake each some_packet (ground arith)
