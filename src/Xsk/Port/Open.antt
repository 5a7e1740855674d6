-- ===== src/Xsk/Port/Open.antt =====
-- What `port_init` of ebpf-xdp/xsk/af_rxtx.c leaves on each of its ways out.
use hack.Base.{
  ℕ, Bool, Option, ◌-◌, some, ◌≡◌, ◌≤◌, none, ◌⊎◌, arith, length, ◌+◌, ◌%◌, ◌≢◌, Bool-cases,
  length-set, ltb, ◌==◌, set, inl, inr, ne→==, ltb-false→le, ==→eq, tests, refl,
}
use hack.Base.Fault.{Runs, Runs-bind, Runs-and}
use hack.Xsk.Port.{Host, Port, check_cache, open_port, port_free, fill_fq, port_init}
use hack.Xsk.Pool.{bcache_init, Bpool, Bcache, bcache_cons_check, bcache_free, bcache_slab_size}
use hack.Xsk.Pool.Balance.{
  AllLength, Good, CacheOk, get_or-length, in_pool, PoolOk, SamePool, bcache_cons_check-Good,
  bcache_cons_check-balance, Good-CacheOk, in_cache,
}
use hack.Xsk.Port.Balance.{in_both, in_rings, fill_fq-balance}

-- The reserved slabs are given out and taken back in pairs.
pub record ReservedOk (bp : Bpool) : Type 0 where
  pub reserved_lengths : AllLength bp.params.n_buffers_per_slab bp.slabs_reserved
  pub reserved_left : bp.n_slabs_reserved_available ≤ length bp.slabs_reserved
  pub pairs : bp.n_slabs_reserved_available % 2 ≡ 0

-- the pool without a pair of reserved slabs
abbrev pub pair_taken : Bpool → Bpool
pair_taken bp =
    let left = bp.n_slabs_reserved_available - 2 in record bp { n_slabs_reserved_available = left }

pub record EmptyCache (bp : Bpool) (bc : Bcache) : Type 0 where
  pub cache_ok : CacheOk bp.params.n_buffers_per_slab bc
  pub no_cons : bc.n_buffers_cons ≡ 0
  pub no_prod : bc.n_buffers_prod ≡ 0
  pub pair : 2 ≤ bp.n_slabs_reserved_available

abbrev Cached : Bpool → Option Bcache × Bpool → Type 0
Cached bp (none, bp') = bp' ≡ bp
Cached bp (some bc, bp') = EmptyCache bp bc × (bp' ≡ pair_taken bp)

-- A cache has two reserved slabs and no buffer; there is none where memory or reserved slabs ran out.
bcache_init-Cached :
    (calloc : Bool) (bp : Bpool) → ReservedOk bp → Runs (Cached bp) (bcache_init calloc bp)
unfolding bcache_init
bcache_init-Cached calloc bp r =
    let per = bp.params.n_buffers_per_slab in
    let n = bp.n_slabs_reserved_available in
    ground (
      arith,
      get_or-length per (n - 1) bp.slabs_reserved,
      get_or-length per (n - 2) bp.slabs_reserved,
    )

-- a port that is open: its fill ring is full, and no buffer of the pool is gone
pub record Opened (w : ℕ → ℕ) (size : ℕ) (bp bp' : Bpool) (p : Port) : Type 0 where
  pub open_good : Good bp bp' p.bc
  pub open_balance : in_both w bp' p.bc + in_rings w p ≡ in_pool w bp
  pub open_filled : length p.umem_fq ≡ size
  pub open_pair : bp'.n_slabs_reserved_available + 2 ≡ bp.n_slabs_reserved_available

-- With no port the reserved slabs are all back, but for one way out: where the socket could not be put
-- into the map, the pair of slabs stays with the port that nobody has.
abbrev pub Answer : (ℕ → ℕ) → Host → ℕ → Bpool → Option Port × Bpool → Type 0
Answer w host size bp (some p, bp') =
    Opened w size bp bp' p × (host.create_status ≡ 0) × (host.update_status ≡ 0)
Answer w host size bp (none, bp') =
    (bp'.n_slabs_reserved_available ≡ bp.n_slabs_reserved_available)
    ⊎ ((bp'.n_slabs_reserved_available + 2 ≡ bp.n_slabs_reserved_available)
        × (host.update_status ≢ 0))

-- the reserved slabs before the pair of this port was taken
abbrev Taken : Bpool → Bpool → Type 0
Taken bp bp1 =
    (bp1.n_slabs_reserved_available + 2 ≡ bp.n_slabs_reserved_available)
    × (length bp1.slabs_reserved ≡ length bp.slabs_reserved)

port_free-Answer :
    (w : ℕ → ℕ) (host : Host) (size : ℕ) (bp bp1 : Bpool) (bc : Bcache)
    → ReservedOk bp
    → Taken bp bp1
    → Runs (Answer w host size bp) (port_free bp1 (some bc))
unfolding bcache_free
port_free-Answer w host size bp bp1 bc r taken =
    let left = bp1.n_slabs_reserved_available in
    ground (
      arith,
      length-set bp1.slabs_reserved left bc.slab_prod,
      length-set (set bp1.slabs_reserved left bc.slab_prod) (left + 1) bc.slab_cons,
    )

open_port-Answer :
    (w : ℕ → ℕ) (host : Host) (size : ℕ) (bp bp1 : Bpool) (bc : Bcache)
    → PoolOk bp1
    → CacheOk bp1.params.n_buffers_per_slab bc
    → SamePool bp bp1
    → ReservedOk bp
    → Taken bp bp1
    → size ≤ bc.n_buffers_cons
    → in_both w bp1 bc ≡ in_pool w bp
    → Runs (Answer w host size bp) (open_port host size bp1 bc)
unfolding open_port
open_port-Answer w host size bp bp1 bc p c same r taken le total =
    elim (Bool-cases (host.create_status == 0)) [
      | inr created ↦ rw created (port_free-Answer w host size bp bp1 bc r taken)
      | inl created ↦ rw created (elim (Bool-cases (host.update_status == 0)) [
        | inr put ↦ rw put (inr (taken.0, ne→== _ _ put))
        | inl put ↦ rw put (
            Runs-bind _ _ (fill_fq size bc) _ (fill_fq-balance w bp1 bc size p c le) λ s q. (
              record {
                open_good = ground (arith, q, same);
                open_balance = omega (arith, q.1, total);
                open_filled = q.2;
                open_pair = taken.0;
              },
              ==→eq _ _ created,
              ==→eq _ _ put,
            ))
      ])
    ]

bcache_cons_check-reserved :
    (bp : Bpool) (bc : Bcache) (n : ℕ)
    → PoolOk bp
    → Runs
        (λ r.
          (r.1.n_slabs_reserved_available ≡ bp.n_slabs_reserved_available)
          × (r.1.slabs_reserved ≡ bp.slabs_reserved))
        (bcache_cons_check bp bc n)
unfolding bcache_cons_check
bcache_cons_check-reserved bp bc n p = ground arith

EmptyCache-weight : (w : ℕ → ℕ) (bp : Bpool) (bc : Bcache) → EmptyCache bp bc → in_cache w bc ≡ 0
EmptyCache-weight w bp bc e = rw (e.no_cons, e.no_prod) refl

Taken-kept :
    (bp bp1 bp2 : Bpool)
    → Taken bp bp1
    → (bp2.n_slabs_reserved_available ≡ bp1.n_slabs_reserved_available)
      × (bp2.slabs_reserved ≡ bp1.slabs_reserved)
    → Taken bp bp2
Taken-kept bp bp1 bp2 h k = ground arith

check_cache-Answer :
    (w : ℕ → ℕ) (host : Host) (size : ℕ) (bp : Bpool) (bc : Bcache)
    → PoolOk bp
    → ReservedOk bp
    → EmptyCache bp bc
    → Runs (Answer w host size bp) (check_cache host size (pair_taken bp) (some bc))
unfolding check_cache bcache_slab_size
check_cache-Answer w host size bp bc p r e =
    let bp1 = pair_taken bp in
    let p1 : PoolOk bp1 = record {
      some_room = p.some_room;
      slab_lengths = p.slab_lengths;
      all_slabs = p.all_slabs;
      full_slabs = p.full_slabs;
    } in
    let pair : Taken bp bp1 = (omega (arith, e.pair), refl) in
    elim (Bool-cases (ltb bp.params.n_buffers_per_slab size)) [
      | inl small ↦ rw small (port_free-Answer w host size bp bp1 bc r pair)
      | inr fits ↦ rw fits (
          Runs-bind _ _ (bcache_cons_check bp1 bc size) _
            (Runs-and _ _ _
              (bcache_cons_check-Good bp1 bc p1 e.cache_ok size (ltb-false→le _ _ fits))
              (Runs-and _ _ _ (bcache_cons_check-balance bp1 bc p1 e.cache_ok w size)
                (bcache_cons_check-reserved bp1 bc size p1)))
            λ s q. elim (Bool-cases (ltb s.0 size)) [
              | inl few ↦
                  rw few
                    (port_free-Answer w host size bp s.1 s.2 r (Taken-kept bp bp1 s.1 pair q.1.1))
              | inr enough ↦ rw enough (
                  open_port-Answer w host size bp s.1 s.2 q.0.0.pool_ok
                    (Good-CacheOk bp1 s.1 s.2 q.0.0)
                    (record {
                      params_kept = q.0.0.same.params_kept;
                      n_slabs_kept = q.0.0.same.n_slabs_kept;
                    })
                    r (Taken-kept bp bp1 s.1 pair q.1.1) (omega tests)
                    (omega (arith, q.1.0, EmptyCache-weight w bp bc e)))
            ])
    ]

with_cache-Answer :
    (w : ℕ → ℕ) (host : Host) (size : ℕ) (bp : Bpool)
    → PoolOk bp
    → ReservedOk bp
    → (a : Option Bcache × Bpool) → Cached bp a
    → Runs (Answer w host size bp) (check_cache host size a.1 a.0)
with_cache-Answer w host size bp p r (none, bp') e =
    unfold check_cache in unfold bcache_free in rw e (inl refl)
with_cache-Answer w host size bp p r (some bc, bp') e =
    rw e.1 (check_cache-Answer w host size bp bc p r e.0)

-- `port_init` comes to an end inside its arrays. It gives a port with a full fill ring, all buffers
-- that were in the pool in the pool, the port's cache or that ring, and one pair of reserved slabs less;
-- or it gives none, and all reserved slabs are back, except where `xsk_socket__update_xskmap` fails.
pub port_init-Answer :
    (w : ℕ → ℕ) (host : Host) (size : ℕ) (bp : Bpool)
    → PoolOk bp
    → ReservedOk bp
    → Runs (Answer w host size bp) (port_init host size bp)
unfolding port_init
port_init-Answer w host size bp p r = elim (Bool-cases host.calloc_port) [
  | inr no_port ↦ rw no_port (inl refl)
  | inl some_port ↦ rw some_port (
      Runs-bind _ _ (bcache_init host.calloc_cache bp) _ (bcache_init-Cached host.calloc_cache bp r)
        (with_cache-Answer w host size bp p r))
]
