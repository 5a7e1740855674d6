-- ===== src/Keth/Startup/Sound.antt =====
-- The devices that keth-if/kernel/core.c sets up satisfy the invariant that its operations keep.
use hack.Base.{ℕ, Bool, ◌≡◌, true, ◌<◌, length, [], arith, refl}
use hack.Keth.Startup.{setup}
use hack.Keth.Pool.{setup_pool, fill}
use hack.Keth.Receive.{rx_ints}
use hack.Keth.Model.{Kernel, Params, Net, eth0, eth1, Dev, at}
use hack.Keth.Pool.Sound.{IsSound}
use hack.Keth.Control.Limits.{length-fill}

-- Both devices set up with a pool of at least one packet, each `kmalloc` succeeding: they are sound,
-- with full pools, empty receive lists, and receive interrupts on.
pub setup-IsSound :
    (k : Kernel) (q : Params) (kmalloc : ℕ → Bool) (s : Net)
    → ((i : ℕ) → kmalloc i ≡ true)
    → 0 < q.pool_size
    → let s' = setup q kmalloc (setup q kmalloc s eth0) eth1 in
      IsSound k s'
      × ((d : Dev)
          → (length (at s' d).ppool ≡ q.pool_size)
            × ((at s' d).rx_queue ≡ [])
            × ((at s' d).rx_int_enabled ≡ true))
unfolding setup setup_pool rx_ints
setup-IsSound k q kmalloc s each some_packet =
    let pool0 = length-fill q.pool_size 0 kmalloc eth0 [] each tt in
    let pool1 = length-fill q.pool_size 0 kmalloc eth1 [] each tt in
    (
      ground (arith, pool0.0, pool0.1, pool1.0, pool1.1),
      go (omega (arith, pool0.0)) (omega (arith, pool1.0)),
    )
  where
    go :
        length (fill q.pool_size 0 kmalloc eth0 []) ≡ q.pool_size
        → length (fill q.pool_size 0 kmalloc eth1 []) ≡ q.pool_size
        → (d : Dev)
        → (length (at (setup q kmalloc (setup q kmalloc s eth0) eth1) d).ppool ≡ q.pool_size)
          × ((at (setup q kmalloc (setup q kmalloc s eth0) eth1) d).rx_queue ≡ [])
          × ((at (setup q kmalloc (setup q kmalloc s eth0) eth1) d).rx_int_enabled ≡ true)
    go e0 e1 eth0 = (e0, refl, refl)
    go e0 e1 eth1 = (e1, refl, refl)
