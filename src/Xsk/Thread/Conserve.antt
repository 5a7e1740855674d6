-- ===== src/Xsk/Thread/Conserve.antt =====
-- No frame of ebpf-xdp/xsk/af_rxtx.c is lost or doubled on its way from the pool through the rings of
-- the ports and back, in a round of a thread.
use hack.Base.{
  ℕ, List, ◌<◌, length, ◌+◌, ◌∷◌, [], set, get_or, ◌≤◌, ◌≡◌, suc, refl, zero, arith, ap, lt→ltb,
  length-set, subst, sym, ◌∙◌,
}
use hack.Base.Fault.{Runs, Runs-bind, Runs-and, Runs-mono}
use hack.Xsk.Pool.{Bpool, Bcache, BpoolParams}
use hack.Xsk.Thread.{n_bursts, World, no_port, tx_packet, send_burst, forward, tx_packets}
use hack.Xsk.Pool.Balance.{
  PoolOk, in_pool, CacheOk, in_cache, SamePool, Good, Good-CacheOk, Good-capacity, capacity,
}
use hack.Xsk.Port.{Port, Desc, Rings, port_tx_burst, port_rx_burst}
use hack.Xsk.Port.Balance.{
  in_rings, in_descs, RingLaws, in_both, port_tx_burst-balance, port_rx_burst-balance,
}
use hack.Xsk.Pool.Sums.{one, sum_all, sum_all-set}

abbrev pub AllCaches : ℕ → List Port → Type 0
AllCaches per [] = Unit
AllCaches per (p ∷ ports) = CacheOk per p.bc × AllCaches per ports

abbrev pub AllIdle : List (List Desc) → Type 0
AllIdle [] = Unit
AllIdle (btx ∷ btxs) = (btx ≡ []) × AllIdle btxs

abbrev pub in_port : (ℕ → ℕ) → Port → ℕ
in_port w p = in_cache w p.bc + in_rings w p

-- the weight of all buffers, wherever they are
abbrev pub in_world : (ℕ → ℕ) → World → ℕ
in_world w s = in_pool w s.pool + sum_all (in_port w) s.ports + sum_all (in_descs w) s.burst_tx

-- Between two rounds of the threads no packet waits in a burst, and the buffers are no more than the
-- slabs of the pool can hold.
pub record WorldOk (s : World) : Type 0 where
  pub pool_ok : PoolOk s.pool
  pub caches : AllCaches s.pool.params.n_buffers_per_slab s.ports
  pub idle : AllIdle s.burst_tx
  pub bursts : length s.burst_tx ≡ n_bursts
  pub within : in_world one s ≤ capacity s.pool

pub get_or-AllCaches :
    (per i : ℕ) (ports : List Port)
    → AllCaches per ports
    → i < length ports
    → CacheOk per (get_or ports i no_port).bc
get_or-AllCaches per i [] h lt = absurd (omega arith)
get_or-AllCaches per zero (p ∷ ports) h lt = h.0
get_or-AllCaches per (suc i) (p ∷ ports) h lt = get_or-AllCaches per i ports h.1 (omega arith)

set-AllCaches :
    (per i : ℕ) (ports : List Port) (p : Port)
    → AllCaches per ports
    → CacheOk per p.bc
    → AllCaches per (set ports i p)
set-AllCaches per i [] p h c = tt
set-AllCaches per zero (x ∷ ports) p h c = (c, h.1)
set-AllCaches per (suc i) (x ∷ ports) p h c = (h.0, set-AllCaches per i ports p h.1 c)

get_or-AllIdle : (i : ℕ) (btxs : List (List Desc)) → AllIdle btxs → get_or btxs i [] ≡ []
get_or-AllIdle i [] h = refl
get_or-AllIdle zero (b ∷ btxs) h = h.0
get_or-AllIdle (suc i) (b ∷ btxs) h = get_or-AllIdle i btxs h.1

set-AllIdle : (i : ℕ) (btxs : List (List Desc)) → AllIdle btxs → AllIdle (set btxs i [])
set-AllIdle i [] h = tt
set-AllIdle zero (b ∷ btxs) h = (refl, h.1)
set-AllIdle (suc i) (b ∷ btxs) h = (h.0, set-AllIdle i btxs h.1)

-- What a port of the world has gained or lost, the world has.
pub in_world-set :
    (w : ℕ → ℕ) (s : World) (pool : Bpool) (i : ℕ) (p : Port) (btxs : List (List Desc))
    → i < length s.ports
    → in_world w (record s { pool = pool; ports = set s.ports i p; burst_tx = btxs })
        + in_pool w s.pool
        + in_port w (get_or s.ports i no_port)
        + sum_all (in_descs w) s.burst_tx
      ≡ in_world w s + in_pool w pool + in_port w p + sum_all (in_descs w) btxs
in_world-set w s pool i p btxs lt = omega (arith, sum_all-set (in_port w) i s.ports p no_port lt)

-- what a round keeps of the world beside its invariant
pub record SameFrame (s s' : World) : Type 0 where
  pub same_pool : SamePool s.pool s'.pool
  pub same_ports : length s'.ports ≡ length s.ports

abbrev pub Moves : (ℕ → ℕ) → World → ℕ → World → Type 0
Moves w s total s' = WorldOk s' × SameFrame s s' × (in_world w s' ≡ total)

sum_all-idle :
    (w : ℕ → ℕ) (i : ℕ) (btxs : List (List Desc))
    → AllIdle btxs
    → sum_all (in_descs w) (set btxs i []) ≡ sum_all (in_descs w) btxs
sum_all-idle w i [] h = refl
sum_all-idle w zero (b ∷ btxs) h = rw h.0 refl
sum_all-idle w (suc i) (b ∷ btxs) h = ap (λ (n : ℕ). in_descs w b + n) (sum_all-idle w i btxs h.1)

pub Good-AllCaches :
    (bp bp' : Bpool) (bc' : Bcache) (ports : List Port)
    → Good bp bp' bc'
    → AllCaches bp.params.n_buffers_per_slab ports
    → AllCaches bp'.params.n_buffers_per_slab ports
Good-AllCaches bp bp' bc' ports g h =
    subst (λ (q : BpoolParams). AllCaches q.n_buffers_per_slab ports) (sym g.same.params_kept) h

-- A port and the pool change in a call.
pub set-WorldOk :
    (s : World) (pool : Bpool) (i : ℕ) (p : Port) (btxs : List (List Desc))
    → WorldOk s
    → Good s.pool pool p.bc
    → AllIdle btxs
    → length btxs ≡ length s.burst_tx
    → in_world one (record s { pool = pool; ports = set s.ports i p; burst_tx = btxs })
      ≤ capacity s.pool
    → WorldOk (record s { pool = pool; ports = set s.ports i p; burst_tx = btxs })
      × SameFrame s (record s { pool = pool; ports = set s.ports i p; burst_tx = btxs })
set-WorldOk s pool i p btxs ok g idle len within = (
  record {
    pool_ok = g.pool_ok;
    caches =
        set-AllCaches pool.params.n_buffers_per_slab i s.ports p
          (Good-AllCaches s.pool pool p.bc s.ports g ok.caches) (Good-CacheOk s.pool pool p.bc g);
    idle = idle;
    bursts = len ∙ ok.bursts;
    within = omega (arith, within, Good-capacity s.pool pool p.bc g);
  },
  record { same_pool = g.same; same_ports = length-set s.ports i p },
)

SameFrame-SameFrame : (s s1 s2 : World) → SameFrame s s1 → SameFrame s1 s2 → SameFrame s s2
SameFrame-SameFrame s s1 s2 f g = ground arith

module _ (k : Rings) (law : RingLaws k) (w : ℕ → ℕ) (comp_size b j : ℕ) where
  -- One packet more goes out at once.
  tx_packet-Moves :
      (s : World) (ok : WorldOk s) (lb : b < n_bursts) (lj : j < length s.ports) (d : Desc)
      → in_world one s + 1 ≤ capacity s.pool
      → Runs (Moves w s (in_world w s + w d.addr)) (tx_packet k comp_size b j s d)
  unfolding tx_packet send_burst
  tx_packet-Moves s ok lb lj d room =
      let p = get_or s.ports j no_port in
      let c = get_or-AllCaches s.pool.params.n_buffers_per_slab j s.ports ok.caches lj in
      let bounded = sum_all-set (in_port one) j s.ports no_port no_port lj in
      let total : in_both one s.pool p.bc + in_rings one p ≤ capacity s.pool =
        omega (arith, room, bounded) in
      rw (lt→ltb b (length s.burst_tx) (omega (arith, ok.bursts, lb))) (
        rw (get_or-AllIdle b s.burst_tx ok.idle) (
          rw (lt→ltb j (length s.ports) lj) (
            Runs-bind _ _ (port_tx_burst k comp_size s.pool p (d ∷ [])) _
              (Runs-and _ _ _
                (port_tx_burst-balance k law w comp_size (d ∷ []) s.pool p ok.pool_ok c total)
                (port_tx_burst-balance k law one comp_size (d ∷ []) s.pool p ok.pool_ok c total))
              λ r q.
                let btxs = set s.burst_tx b [] in
                let sums = in_world-set one s r.0 j r.1 btxs lj in
                let (good, frame) =
                  set-WorldOk s r.0 j r.1 btxs ok q.0.0 (set-AllIdle b s.burst_tx ok.idle)
                    (length-set s.burst_tx b [])
                    (omega (arith, room, sums, q.1.1, sum_all-idle one b s.burst_tx ok.idle)) in
                (
                  good,
                  frame,
                  omega (
                    arith,
                    in_world-set w s r.0 j r.1 btxs lj,
                    q.0.1,
                    sum_all-idle w b s.burst_tx ok.idle,
                  ),
                ))))

  tx_packets-Moves :
      (s : World) (ok : WorldOk s) (lb : b < n_bursts) (lj : j < length s.ports) (burst : List Desc)
      → length burst ≤ 1
      → in_world one s + in_descs one burst ≤ capacity s.pool
      → Runs (Moves w s (in_world w s + in_descs w burst)) (tx_packets k comp_size b j s burst)
  unfolding tx_packets
  tx_packets-Moves s ok lb lj [] le room = (
    ok,
    record { same_pool = record { params_kept = refl; n_slabs_kept = refl }; same_ports = refl },
    omega arith,
  )
  tx_packets-Moves s ok lb lj (d ∷ []) le room =
      Runs-bind _ _ (tx_packet k comp_size b j s d) _ (tx_packet-Moves s ok lb lj d (omega arith))
        λ s' q. (q.0, q.1, omega (arith, q.2))
  tx_packets-Moves s ok lb lj (d ∷ e ∷ later) le room = absurd (omega arith)

  -- The round of a thread for a port.
  pub forward-Moves :
      (i : ℕ) (s : World) (ok : WorldOk s) (lb : b < n_bursts) (li : i < length s.ports)
      (lj : j < length s.ports)
      → Runs (Moves w s (in_world w s)) (forward k comp_size b i j s)
  unfolding forward
  forward-Moves i s ok lb li lj =
      let p = get_or s.ports i no_port in
      let c = get_or-AllCaches s.pool.params.n_buffers_per_slab i s.ports ok.caches li in
      rw (lt→ltb i (length s.ports) li) (
        Runs-bind _ _ (port_rx_burst k s.pool p) _
          (Runs-and _ _ _ (port_rx_burst-balance k law w s.pool p ok.pool_ok c)
            (port_rx_burst-balance k law one s.pool p ok.pool_ok c))
          λ r q.
            let s1 : World = record s { pool = r.1; ports = set s.ports i r.2 } in
            let before = in_world-set one s r.1 i r.2 s.burst_tx li in
            let (good, frame) =
              set-WorldOk s r.1 i r.2 s.burst_tx ok q.0.0 ok.idle refl
                (omega (arith, ok.within, before, q.1.1)) in
            Runs-mono _ _ (tx_packets k comp_size b j s1 r.0)
              (tx_packets-Moves s1 good lb (omega (arith, lj, frame.same_ports)) r.0 q.0.2
                (omega (arith, ok.within, before, q.1.1, Good-capacity s.pool r.1 r.2.bc q.0.0)))
              λ s2 t. (
                t.0,
                SameFrame-SameFrame s s1 s2 frame t.1,
                omega (arith, t.2, q.0.1, in_world-set w s r.1 i r.2 s.burst_tx li),
              ))
