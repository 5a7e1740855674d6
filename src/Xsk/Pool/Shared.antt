-- ===== src/Xsk/Pool/Shared.antt =====
-- The pool of ebpf-xdp/xsk/af_rxtx.c under the caches of many threads. A step is one call of one of
-- them: each call uses the pool in one stretch under its lock, if at all, and else only its own cache, so
-- the steps of the threads come in any order.
use hack.Base.{
  ℕ, ◌<◌, get_or, [], List, ◌+◌, ◌∷◌, length, set, suc, arith, ◌≤◌, zero, subst, ◌*◌, ◌≡◌, sym,
  some, ◌++◌, ◌∙◌, ap, refl,
}
use hack.Base.Fault.{Runs-some, Runs-eq}
use hack.Xsk.Pool.{Bpool, Bcache, bcache_cons_check, BpoolParams, bcache_cons, bcache_prod}
use hack.Xsk.Pool.Balance.{
  PoolOk, in_pool, Good, CacheOk, in_cache, Good-CacheOk, Good-capacity, bcache_prod-balance,
  bcache_cons_check-Good, bcache_cons_check-balance, bcache_cons-Good, bcache_cons-balance,
  bcache_prod-Good,
}
use hack.Xsk.Pool.Sums.{one, sum_all, sum_all-set, sum_all-append}

-- `outside` are the buffers that were taken and have not been put back.
pub record Shared : Type 0 where
  pub pool : Bpool
  pub caches : List Bcache
  pub outside : List ℕ

abbrev pub no_cache : Bcache
no_cache = record { slab_cons = []; slab_prod = []; n_buffers_cons = 0; n_buffers_prod = 0 }

abbrev pub cache_at : Shared → ℕ → Bcache
cache_at s i = get_or s.caches i no_cache

-- a call of a cache, with the pool and the cache that it leaves
abbrev pub after_call : Shared → ℕ → Bpool → Bcache → List ℕ → Shared
after_call s i bp bc outside = record { pool = bp; caches = set s.caches i bc; outside = outside }

pub data Use (s s' : Shared) : Type 0 where
  checks :
      (i n r : ℕ) (bp : Bpool) (bc : Bcache)
      → i < length s.caches
      → n ≤ s.pool.params.n_buffers_per_slab
      → bcache_cons_check s.pool (cache_at s i) n ≡ some (r, bp, bc)
      → s' ≡ after_call s i bp bc s.outside
      → Use s s'
  takes :
      (i buffer : ℕ) (bc : Bcache)
      → i < length s.caches
      → 0 < (cache_at s i).n_buffers_cons
      → bcache_cons (cache_at s i) ≡ some (buffer, bc)
      → s' ≡ after_call s i s.pool bc (buffer ∷ s.outside)
      → Use s s'
  puts :
      (i buffer : ℕ) (before after : List ℕ) (bp : Bpool) (bc : Bcache)
      → i < length s.caches
      → s.outside ≡ before ++ buffer ∷ after
      → bcache_prod s.pool (cache_at s i) buffer ≡ some (bp, bc)
      → s' ≡ after_call s i bp bc (before ++ after)
      → Use s s'

pub data Uses (s : Shared) : Shared → Type 0 where
  unused : Uses s s
  more : {s1 s2 : Shared} → Uses s s1 → Use s1 s2 → Uses s s2

abbrev pub CachesOk : ℕ → List Bcache → Type 0
CachesOk per [] = Unit
CachesOk per (bc ∷ later) = CacheOk per bc × CachesOk per later

abbrev pub in_shared : (ℕ → ℕ) → Shared → ℕ
in_shared w s = in_pool w s.pool + sum_all (in_cache w) s.caches + sum_all w s.outside

pub record SharedOk (s : Shared) : Type 0 where
  pub shared_pool : PoolOk s.pool
  pub shared_caches : CachesOk s.pool.params.n_buffers_per_slab s.caches
  pub shared_within : in_shared one s ≤ s.pool.n_slabs * s.pool.params.n_buffers_per_slab

get_or-CachesOk :
    (per i : ℕ) (caches : List Bcache)
    → CachesOk per caches
    → i < length caches
    → CacheOk per (get_or caches i no_cache)
get_or-CachesOk per i [] h lt = absurd (omega arith)
get_or-CachesOk per zero (bc ∷ later) h lt = h.0
get_or-CachesOk per (suc i) (bc ∷ later) h lt = get_or-CachesOk per i later h.1 (omega arith)

set-CachesOk :
    (per i : ℕ) (caches : List Bcache) (bc : Bcache)
    → CachesOk per caches
    → CacheOk per bc
    → CachesOk per (set caches i bc)
set-CachesOk per i [] bc h c = tt
set-CachesOk per zero (x ∷ later) bc h c = (c, h.1)
set-CachesOk per (suc i) (x ∷ later) bc h c = (h.0, set-CachesOk per i later bc h.1 c)

-- A call keeps the shared state well formed where it keeps the count, and what its cache and pool gain
-- it takes from outside.
after_call-SharedOk :
    (s : Shared) (i : ℕ) (bp : Bpool) (bc : Bcache) (outside : List ℕ)
    → SharedOk s
    → Good s.pool bp bc
    → i < length s.caches
    → in_pool one bp + in_cache one bc + sum_all one outside
      ≤ in_pool one s.pool + in_cache one (cache_at s i) + sum_all one s.outside
    → SharedOk (after_call s i bp bc outside)
after_call-SharedOk s i bp bc outside ok g lt le = record {
  shared_pool = g.pool_ok;
  shared_caches =
      set-CachesOk bp.params.n_buffers_per_slab i s.caches bc
        (subst (λ (q : BpoolParams). CachesOk q.n_buffers_per_slab s.caches)
          (sym g.same.params_kept) ok.shared_caches)
        (Good-CacheOk s.pool bp bc g);
  shared_within = omega (
    arith,
    ok.shared_within,
    le,
    sum_all-set (in_cache one) i s.caches bc no_cache lt,
    Good-capacity s.pool bp bc g,
  );
}

-- What is known of a buffer that is outside.
outside_bound :
    (s : Shared) (i buffer : ℕ) (before after : List ℕ)
    → SharedOk s
    → i < length s.caches
    → s.outside ≡ before ++ buffer ∷ after
    → in_pool one s.pool + in_cache one (cache_at s i) + 1
      ≤ s.pool.n_slabs * s.pool.params.n_buffers_per_slab
outside_bound s i buffer before after ok lt e = omega (
  arith,
  ok.shared_within,
  sum_all-set (in_cache one) i s.caches no_cache no_cache lt,
  ap (sum_all one) e,
  sum_all-append one before (buffer ∷ after),
)

abbrev Weighs : (ℕ → ℕ) → Shared → Shared → Type 0
Weighs w s s' = SharedOk s' × (in_shared w s' ≡ in_shared w s)

Use-Weighs : (w : ℕ → ℕ) (s s' : Shared) → SharedOk s → Use s s' → Weighs w s s'
Use-Weighs w s s' ok (checks i n r bp bc lt le e e') =
    let c = get_or-CachesOk s.pool.params.n_buffers_per_slab i s.caches ok.shared_caches lt in
    let p = ok.shared_pool in
    let m = bcache_cons_check s.pool (cache_at s i) n in
    let good = Runs-eq _ m _ (bcache_cons_check-Good s.pool (cache_at s i) p c n le) e in
    let all = Runs-eq _ m _ (bcache_cons_check-balance s.pool (cache_at s i) p c w n) e in
    let count = Runs-eq _ m _ (bcache_cons_check-balance s.pool (cache_at s i) p c one n) e in
    rw e' (
      after_call-SharedOk s i bp bc s.outside ok good.0 lt (omega (arith, count)),
      omega (arith, all, sum_all-set (in_cache w) i s.caches bc no_cache lt),
    )
Use-Weighs w s s' ok (takes i buffer bc lt some_left e e') =
    let c = get_or-CachesOk s.pool.params.n_buffers_per_slab i s.caches ok.shared_caches lt in
    let p = ok.shared_pool in
    let m = bcache_cons (cache_at s i) in
    let good = Runs-eq _ m _ (bcache_cons-Good s.pool (cache_at s i) p c some_left) e in
    let all = Runs-eq _ m _ (bcache_cons-balance s.pool (cache_at s i) p c w some_left) e in
    let count = Runs-eq _ m _ (bcache_cons-balance s.pool (cache_at s i) p c one some_left) e in
    rw e' (
      after_call-SharedOk s i s.pool bc (buffer ∷ s.outside) ok good.0 lt (omega (arith, count)),
      omega (arith, all, sum_all-set (in_cache w) i s.caches bc no_cache lt),
    )
Use-Weighs w s s' ok (puts i buffer before after bp bc lt there e e') =
    let c = get_or-CachesOk s.pool.params.n_buffers_per_slab i s.caches ok.shared_caches lt in
    let p = ok.shared_pool in
    let m = bcache_prod s.pool (cache_at s i) buffer in
    let room = outside_bound s i buffer before after ok lt there in
    let good =
      Runs-eq _ m _ (bcache_prod-Good s.pool (cache_at s i) p c buffer 1 (omega arith) room) e in
    let all =
      Runs-eq _ m _ (bcache_prod-balance s.pool (cache_at s i) p c w buffer 1 (omega arith) room)
        e in
    let count =
      Runs-eq _ m _ (bcache_prod-balance s.pool (cache_at s i) p c one buffer 1 (omega arith) room)
        e in
    let old = λ (v : ℕ → ℕ). ap (sum_all v) there ∙ sum_all-append v before (buffer ∷ after) in
    let new = λ (v : ℕ → ℕ). sum_all-append v before after in
    rw e' (
      after_call-SharedOk s i bp bc (before ++ after) ok good lt
          (omega (arith, count, old one, new one)),
      omega (arith, all, old w, new w, sum_all-set (in_cache w) i s.caches bc no_cache lt),
    )

-- Whatever calls of whatever caches have been made, in whatever order: each buffer is as often in the
-- pool, in the caches and outside together as at the start.
pub Uses-Weighs : (w : ℕ → ℕ) (s s' : Shared) → SharedOk s → Uses s s' → Weighs w s s'
Uses-Weighs w s s' ok unused = (ok, refl)
Uses-Weighs w s s' ok (more u step) =
    let before = Uses-Weighs w s _ ok u in
    let now = Use-Weighs w _ s' before.0 step in (now.0, now.1 ∙ before.1)

-- And then a buffer that is outside can be put back by any of the caches: where its slab is full, the
-- pool has an empty one, as the code supposes. The buffer is in the pool or the cache once more behind the
-- call, and nothing else has come or gone.
pub bcache_prod-finds_room :
    (w : ℕ → ℕ) (s s' : Shared) (i buffer : ℕ) (before after : List ℕ)
    → SharedOk s
    → Uses s s'
    → i < length s'.caches
    → s'.outside ≡ before ++ buffer ∷ after
    → (bp : Bpool) × (bc : Bcache) × (bcache_prod s'.pool (cache_at s' i) buffer ≡ some (bp, bc))
      × (in_pool w bp + in_cache w bc ≡ in_pool w s'.pool + in_cache w (cache_at s' i) + w buffer)
bcache_prod-finds_room w s s' i buffer before after ok u lt there =
    let now = (Uses-Weighs w s s' ok u).0 in
    let c = get_or-CachesOk s'.pool.params.n_buffers_per_slab i s'.caches now.shared_caches lt in
    let room = outside_bound s' i buffer before after now lt there in
    let (r, e, sum) = Runs-some _ (bcache_prod s'.pool (cache_at s' i) buffer) (
      bcache_prod-balance s'.pool (cache_at s' i) now.shared_pool c w buffer 1 (omega arith)
        room) in
    (r.0, r.1, e, sum)
