-- ===== src/Xsk/Thread/Kept.antt =====
-- The frames of a world around `port_init` of ebpf-xdp/xsk/af_rxtx.c, and around a move of the kernel between
-- the rings of a port.
use hack.Base.{
  ℕ, ◌≡◌, ◌<◌, length, some, ◌∷◌, [], List, get_or, set, ◌++◌, refl, ap, subst, arith, sym,
}
use hack.Base.Fault.{Runs-eq}
use hack.Xsk.Pool.{Bpool}
use hack.Xsk.Thread.{World, no_port}
use hack.Xsk.Thread.Conserve.{
  WorldOk, in_world, AllCaches, in_port, Good-AllCaches, get_or-AllCaches, set-WorldOk,
  in_world-set,
}
use hack.Xsk.Port.{Host, Port, port_init}
use hack.Xsk.Port.Balance.{in_rings}
use hack.Xsk.Port.Open.{ReservedOk, port_init-Answer}
use hack.Xsk.Pool.Balance.{SamePool, CacheOk, Good-CacheOk, in_cache, Good, Good-capacity}
use hack.Xsk.Pool.Sums.{one, sum_all-append}

AllCaches-append :
    (per : ℕ) (ports : List Port) (p : Port)
    → AllCaches per ports
    → CacheOk per p.bc
    → AllCaches per (ports ++ p ∷ [])
AllCaches-append per [] p h c = (c, tt)
AllCaches-append per (x ∷ ports) p h c = (h.0, AllCaches-append per ports p h.1 c)

abbrev pub Kept : (ℕ → ℕ) → World → World → Type 0
Kept w s s' = WorldOk s' × SamePool s.pool s'.pool × (in_world w s' ≡ in_world w s)

-- A weight that all addresses of a frame share, and the weight 1.
module _ (w : ℕ → ℕ) (s : World) (ok : WorldOk s) where
  pub opens-Kept :
      (host : Host) (size : ℕ) (p : Port) (bp : Bpool)
      → ReservedOk s.pool
      → port_init host size s.pool ≡ some (some p, bp)
      → Kept w s (record { pool = bp; ports = s.ports ++ p ∷ []; burst_tx = s.burst_tx })
  opens-Kept host size p bp r e =
      let (all, _, _) = Runs-eq _ _ _ (port_init-Answer w host size s.pool ok.pool_ok r) e in
      let (count, _, _) = Runs-eq _ _ _ (port_init-Answer one host size s.pool ok.pool_ok r) e in
      let g = all.open_good in
      let weighs = sum_all-append (in_port w) s.ports (p ∷ []) in
      let counts = sum_all-append (in_port one) s.ports (p ∷ []) in
      (
        record {
          pool_ok = g.pool_ok;
          caches =
              AllCaches-append bp.params.n_buffers_per_slab s.ports p
                (Good-AllCaches s.pool bp p.bc s.ports g ok.caches) (Good-CacheOk s.pool bp p.bc g);
          idle = ok.idle;
          bursts = ok.bursts;
          within =
              omega (arith, ok.within, count.open_balance, counts, Good-capacity s.pool bp p.bc g);
        },
        g.same,
        omega (arith, all.open_balance, weighs),
      )

  -- The kernel moves a frame from one ring of a port to another.
  pub ring-Kept :
      (i : ℕ) (p : Port)
      → i < length s.ports
      → p.bc ≡ (get_or s.ports i no_port).bc
      → in_rings w p ≡ in_rings w (get_or s.ports i no_port)
      → in_rings one p ≡ in_rings one (get_or s.ports i no_port)
      → Kept w s (record s { ports = set s.ports i p })
  ring-Kept i p lt same e e1 =
      let per = s.pool.params.n_buffers_per_slab in
      let c = subst (CacheOk per) (sym same) (get_or-AllCaches per i s.ports ok.caches lt) in
      let cache = ap (in_cache w) same in
      let cache1 = ap (in_cache one) same in
      let g : Good s.pool s.pool p.bc = record {
        pool_ok = ok.pool_ok;
        cache_ok = c;
        same = record { params_kept = refl; n_slabs_kept = refl };
      } in
      let (good, frame) =
        set-WorldOk s s.pool i p s.burst_tx ok g ok.idle refl
          (omega (arith, ok.within, in_world-set one s s.pool i p s.burst_tx lt, e1, cache1)) in
      (good, frame.same_pool, omega (arith, in_world-set w s s.pool i p s.burst_tx lt, e, cache))
