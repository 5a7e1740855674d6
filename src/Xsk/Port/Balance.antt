-- ===== src/Xsk/Port/Balance.antt =====
-- The bursts of a port of ebpf-xdp/xsk/af_rxtx.c lose and double no buffer.
use hack.Base.{
  ℕ, List, ◌≡◌, ◌+◌, take, ◌∷◌, [], length, arith, ◌≤◌, suc, zero, ◌⊎◌, inl, inr, Bool-cases, ◌==◌,
  length-take,
}
use hack.Base.Fault.{Runs, Runs-bind, Runs-mono, Runs-and}
use hack.Xsk.Pool.{Bpool, Bcache, bcache_cons, bcache_prod, bcache_cons_check}
use hack.Xsk.Port.{
  Port, Desc, Rings, fill_fq, prod_all, port_tx_burst, rx_packets, wait_room, port_rx_burst,
  max_burst_rx,
}
use hack.Xsk.Pool.Balance.{
  Good, in_pool, PoolOk, CacheOk, in_cache, bcache_prod-Good, Good-Good, bcache_prod-balance,
  bcache_cons-Good, Good-CacheOk, bcache_cons-balance, bcache_cons_check-Good,
  bcache_cons_check-balance, capacity, Good-capacity,
}
use hack.Xsk.Pool.Sums.{sum_all-take, one, sum_all, sum_all-append, sum_all-one}

abbrev pub in_both : (ℕ → ℕ) → Bpool → Bcache → ℕ
in_both w bp bc = in_pool w bp + in_cache w bc

abbrev pub Produced : (ℕ → ℕ) → Bpool → ℕ → Bpool × Bcache → Type 0
Produced w bp total r = Good bp r.0 r.1 × (in_both w r.0 r.1 ≡ total)

step-prod_all :
    (w : ℕ → ℕ) (bp bp1 : Bpool) (bc bc1 : Bcache) (addr : ℕ) (later : List ℕ)
    → Good bp bp1 bc1
    → in_both w bp1 bc1 ≡ in_both w bp bc + w addr
    → Runs (Produced w bp1 (in_both w bp1 bc1 + sum_all w later)) (prod_all bp1 bc1 later)
    → Runs (Produced w bp (in_both w bp bc + (w addr + sum_all w later))) (prod_all bp1 bc1 later)
step-prod_all w bp bp1 bc bc1 addr later g e rest =
    Runs-mono _ _ (prod_all bp1 bc1 later) rest
      λ r q. (Good-Good bp bp1 r.0 bc1 r.1 g q.0, omega (arith, q.1, e))

pub prod_all-balance :
    (w : ℕ → ℕ) (bp : Bpool) (bc : Bcache) (addrs : List ℕ)
    → PoolOk bp
    → CacheOk bp.params.n_buffers_per_slab bc
    → in_both one bp bc + length addrs ≤ capacity bp
    → Runs (Produced w bp (in_both w bp bc + sum_all w addrs)) (prod_all bp bc addrs)
unfolding prod_all
prod_all-balance w bp bc [] p c total = ground arith
prod_all-balance w bp bc (addr ∷ later) p c total =
    let outside = length (addr ∷ later) in
    let good = bcache_prod-Good bp bc p c addr outside (omega arith) total in
    let all = bcache_prod-balance bp bc p c w addr outside (omega arith) total in
    let count = bcache_prod-balance bp bc p c one addr outside (omega arith) total in
    Runs-bind _ _ (bcache_prod bp bc addr) _ (Runs-and _ _ _ good (Runs-and _ _ _ all count)) λ r q.
      step-prod_all w bp r.0 bc r.1 addr later q.0 q.1.0 (
        prod_all-balance w r.0 r.1 later q.0.pool_ok (Good-CacheOk bp r.0 r.1 q.0)
          (omega (arith, total, q.1.1, Good-capacity bp r.0 r.1 q.0)))

pub fill_fq-balance :
    (w : ℕ → ℕ) (bp : Bpool) (bc : Bcache) (n : ℕ)
    → PoolOk bp
    → CacheOk bp.params.n_buffers_per_slab bc
    → n ≤ bc.n_buffers_cons
    → Runs
        (λ r. Good bp bp r.1 × (sum_all w r.0 + in_cache w r.1 ≡ in_cache w bc) × (length r.0 ≡ n))
        (fill_fq n bc)
unfolding fill_fq
fill_fq-balance w bp bc zero p c le = ground arith
fill_fq-balance w bp bc (suc n) p c le =
    Runs-bind _ _ (bcache_cons bc) _
      (Runs-and _ _ _ (bcache_cons-Good bp bc p c (omega arith))
        (bcache_cons-balance bp bc p c w (omega arith)))
      λ r q.
        Runs-bind _ _ (fill_fq n r.1) _
          (fill_fq-balance w bp r.1 n p q.0.0.cache_ok (omega (arith, q.0.1)))
          λ s t. (t.0, omega (arith, t.1, q.1), omega (arith, t.2))

-- the buffers that a port holds, in its cache and in its rings
abbrev pub in_descs : (ℕ → ℕ) → List Desc → ℕ
in_descs w ds = sum_all (λ (d : Desc). w d.addr) ds

abbrev pub in_rings : (ℕ → ℕ) → Port → ℕ
in_rings w p = in_descs w p.rxq + in_descs w p.txq + sum_all w p.umem_fq + sum_all w p.umem_cq

-- What is relied on of the rings: they give no more than there is or was asked for, and at some time
-- they have room.
abbrev pub Grants : ℕ → List ℕ → Type 0
Grants n [] = ⊥
Grants n (status ∷ later) = (status ≡ n) ⊎ Grants n later

pub record RingLaws (k : Rings) : Type 0 where
  pub peek_asked : (n m : ℕ) → k.peek n m ≤ n
  pub peek_there : (n m : ℕ) → k.peek n m ≤ m
  pub fq_grants : (n : ℕ) → Grants n (k.fq_statuses n)
  pub tx_grants : (n : ℕ) → Grants n (k.tx_statuses n)

wait_room-Runs :
    (n : ℕ) (statuses : List ℕ) → Grants n statuses → Runs (λ _. Unit {0}) (wait_room n statuses)
unfolding wait_room
wait_room-Runs n [] h = absurd h
wait_room-Runs n (status ∷ later) (inl e) = ground arith
wait_room-Runs n (status ∷ later) (inr h) = ground (arith, wait_room-Runs n later h)

abbrev pub PortKept : (ℕ → ℕ) → Bpool → ℕ → Bpool → Port → Type 0
PortKept w bp total bp' p' = Good bp bp' p'.bc × (in_both w bp' p'.bc + in_rings w p' ≡ total)

module _ (k : Rings) (law : RingLaws k) (w : ℕ → ℕ) where
  rx_packets-balance :
      (n : ℕ) (bp : Bpool) (p : Port)
      → PoolOk bp
      → CacheOk bp.params.n_buffers_per_slab p.bc
      → n ≤ p.bc.n_buffers_cons
      → n ≤ length p.rxq
      → Runs
          (λ r.
            Good bp r.1 r.2.bc
            × (in_descs w r.0 + (in_both w r.1 r.2.bc + in_rings w r.2)
                ≡ in_both w bp p.bc + in_rings w p)
            × (length r.0 ≡ n))
          (rx_packets k bp p n)
  unfolding rx_packets
  rx_packets-balance n bp p ok c le there = elim (Bool-cases (n == 0)) [
    | inl z ↦ rw z (ground (arith, z))
    | inr nz ↦ rw nz (
        Runs-bind _ _ (wait_room n (k.fq_statuses n)) _
          (wait_room-Runs n (k.fq_statuses n) (law.fq_grants n))
          λ _ _. Runs-bind _ _ (fill_fq n p.bc) _ (fill_fq-balance w bp p.bc n ok c le) λ r q. (
            q.0,
            omega (
              arith,
              q.1,
              sum_all-take (λ (d : Desc). w d.addr) n p.rxq,
              sum_all-append w p.umem_fq r.0,
            ),
            length-take n p.rxq there,
          ))
  ]

  -- A burst of reception ends, and the buffers of the packets that it hands out are those that the
  -- port's rings and cache have lost.
  pub port_rx_burst-balance :
      (bp : Bpool) (p : Port)
      → PoolOk bp
      → CacheOk bp.params.n_buffers_per_slab p.bc
      → Runs
          (λ r.
            Good bp r.1 r.2.bc
            × (in_descs w r.0 + (in_both w r.1 r.2.bc + in_rings w r.2)
                ≡ in_both w bp p.bc + in_rings w p)
            × (length r.0 ≤ max_burst_rx))
          (port_rx_burst k bp p)
  unfolding port_rx_burst
  port_rx_burst-balance bp p ok c =
      Runs-bind _ _ (bcache_cons_check bp p.bc 1) _
        (Runs-and _ _ _ (bcache_cons_check-Good bp p.bc ok c 1 (omega (arith, ok.some_room)))
          (bcache_cons_check-balance bp p.bc ok c w 1))
        λ r q. elim (Bool-cases (r.0 == 0)) [
          | inl z ↦ rw z (q.0.0, omega (arith, q.1), omega arith)
          | inr nz ↦ rw nz (
              let p1 : Port = record p { bc = r.2 } in
              let n = k.peek r.0 (length p.rxq) in
              let asked = law.peek_asked r.0 (length p.rxq) in
              Runs-mono _ _ (rx_packets k r.1 p1 n)
                (rx_packets-balance n r.1 p1 q.0.0.pool_ok (Good-CacheOk bp r.1 r.2 q.0.0)
                  (omega (arith, asked, q.0.2)) (law.peek_there r.0 (length p.rxq)))
                λ s t. (
                  Good-Good bp r.1 s.1 r.2 s.2.bc q.0.0 t.0,
                  omega (arith, t.1, q.1),
                  omega (arith, t.2, asked, q.0.1),
                ))
        ]

  pub port_tx_burst-balance :
      (comp_size : ℕ) (burst : List Desc) (bp : Bpool) (p : Port)
      → PoolOk bp
      → CacheOk bp.params.n_buffers_per_slab p.bc
      → in_both one bp p.bc + in_rings one p ≤ capacity bp
      → Runs
          (λ r.
            Good bp r.0 r.1.bc
            × (in_both w r.0 r.1.bc + in_rings w r.1
                ≡ in_both w bp p.bc + in_rings w p + in_descs w burst))
          (port_tx_burst k comp_size bp p burst)
  unfolding port_tx_burst
  port_tx_burst-balance comp_size burst bp p ok c total =
      let m = k.peek comp_size (length p.umem_cq) in
      let sum = sum_all-take w m p.umem_cq in
      Runs-bind _ _ (wait_room (length burst) (k.tx_statuses (length burst))) _
        (wait_room-Runs (length burst) (k.tx_statuses (length burst))
          (law.tx_grants (length burst)))
        λ _ _.
          Runs-bind _ _ (prod_all bp p.bc (take m p.umem_cq)) _
            (prod_all-balance w bp p.bc (take m p.umem_cq) ok c
              (omega (arith, total, sum_all-take one m p.umem_cq, sum_all-one (take m p.umem_cq))))
            λ r q.
              (q.0, omega (arith, q.1, sum, sum_all-append (λ (d : Desc). w d.addr) p.txq burst))
