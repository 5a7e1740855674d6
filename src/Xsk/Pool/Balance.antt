-- ===== src/Xsk/Pool/Balance.antt =====
-- No buffer of ebpf-xdp/xsk/af_rxtx.c is lost or doubled between a pool and its caches. Buffers are
-- weighed: with the weight 1 for one buffer and 0 for the others the sum says how often it is there,
-- and with the weight 1 for all it counts them.
use hack.Base.{
  ℕ, zero, suc, ◌+◌, List, [], ◌∷◌, ◌≡◌, length, ◌≤◌, ◌<◌, ◌*◌, arith, set, get_or, ◌-◌, length-set,
  get_or-set_self,
}
use hack.Base.Fault.{Runs}
use hack.Xsk.Pool.{Bpool, Bcache, bcache_cons_check, bcache_prod, bcache_cons}
use hack.Xsk.Pool.Sums.{one, sum_first-suc, sum_first, sum_first-set, sum_first-one}

abbrev pub AllLength : ℕ → List (List ℕ) → Type 0
AllLength per [] = Unit
AllLength per (s ∷ slabs) = (length s ≡ per) × AllLength per slabs

pub get_or-length :
    (per i : ℕ) (slabs : List (List ℕ))
    → AllLength per slabs
    → i < length slabs
    → length (get_or slabs i []) ≡ per
get_or-length per i [] h lt = absurd (omega arith)
get_or-length per zero (s ∷ slabs) h lt = h.0
get_or-length per (suc i) (s ∷ slabs) h lt = get_or-length per i slabs h.1 (omega arith)

pub set-AllLength :
    (per i : ℕ) (slabs : List (List ℕ)) (s : List ℕ)
    → AllLength per slabs
    → length s ≡ per
    → AllLength per (set slabs i s)
set-AllLength per i [] s h e = tt
set-AllLength per zero (x ∷ slabs) s h e = (e, h.1)
set-AllLength per (suc i) (x ∷ slabs) s h e = (h.0, set-AllLength per i slabs s h.1 e)

-- `n` full slabs hold `n` times as many buffers as one.
pub slabs-count :
    (per n : ℕ) (slabs : List (List ℕ))
    → AllLength per slabs
    → n ≤ length slabs
    → sum_first (sum_first one per) n slabs ≡ n * per
slabs-count per zero slabs h le = omega arith
slabs-count per (suc n) [] h le = absurd (omega arith)
slabs-count per (suc n) (s ∷ slabs) h le =
    grind
      (arith, slabs-count per n slabs h.1 (omega arith), sum_first-one per s (omega (arith, h.0)))

-- Every slab has room for as many buffers as the pool says, and the full ones stand in front.
pub record PoolOk (bp : Bpool) : Type 0 where
  pub some_room : 0 < bp.params.n_buffers_per_slab
  pub slab_lengths : AllLength bp.params.n_buffers_per_slab bp.slabs
  pub all_slabs : length bp.slabs ≡ bp.n_slabs
  pub full_slabs : bp.n_slabs_available ≤ bp.n_slabs

pub record CacheOk (per : ℕ) (bc : Bcache) : Type 0 where
  pub cons_length : length bc.slab_cons ≡ per
  pub prod_length : length bc.slab_prod ≡ per
  pub cons_room : bc.n_buffers_cons ≤ per
  pub prod_room : bc.n_buffers_prod ≤ per

abbrev pub in_pool : (ℕ → ℕ) → Bpool → ℕ
in_pool w bp = sum_first (sum_first w bp.params.n_buffers_per_slab) bp.n_slabs_available bp.slabs

abbrev pub in_cache : (ℕ → ℕ) → Bcache → ℕ
in_cache w bc =
    sum_first w bc.n_buffers_cons bc.slab_cons + sum_first w bc.n_buffers_prod bc.slab_prod

-- what a call leaves of the pool that it found
pub record SamePool (bp bp' : Bpool) : Type 0 where
  pub params_kept : bp'.params ≡ bp.params
  pub n_slabs_kept : bp'.n_slabs ≡ bp.n_slabs

pub record Good (bp bp' : Bpool) (bc' : Bcache) : Type 0 where
  pub pool_ok : PoolOk bp'
  pub cache_ok : CacheOk bp.params.n_buffers_per_slab bc'
  pub same : SamePool bp bp'

module _ (bp : Bpool) (bc : Bcache) (p : PoolOk bp)
    (c : CacheOk bp.params.n_buffers_per_slab bc) where
  pub bcache_cons_check-Good :
      (n : ℕ)
      → n ≤ bp.params.n_buffers_per_slab
      → Runs
          (λ r. Good bp r.1 r.2 × (r.0 ≤ n) × (r.0 ≤ r.2.n_buffers_cons))
          (bcache_cons_check bp bc n)
  unfolding bcache_cons_check
  bcache_cons_check-Good n le = ground (
    arith,
    get_or-length bp.params.n_buffers_per_slab (bp.n_slabs_available - 1) bp.slabs,
    set-AllLength bp.params.n_buffers_per_slab (bp.n_slabs_available - 1) bp.slabs bc.slab_cons,
    length-set bp.slabs (bp.n_slabs_available - 1) bc.slab_cons,
  )

  pub bcache_cons_check-balance :
      (w : ℕ → ℕ) (n : ℕ)
      → Runs
          (λ r. in_pool w r.1 + in_cache w r.2 ≡ in_pool w bp + in_cache w bc)
          (bcache_cons_check bp bc n)
  unfolding bcache_cons_check
  bcache_cons_check-balance w n =
      let per = bp.params.n_buffers_per_slab in
      let left = bp.n_slabs_available - 1 in
      ground (
        arith,
        sum_first-suc (sum_first w per) left bp.slabs [],
        sum_first-set (sum_first w per) left left bp.slabs bc.slab_cons,
      )

  pub bcache_cons-Good :
      0 < bc.n_buffers_cons
      → Runs (λ r. Good bp bp r.1 × (r.1.n_buffers_cons + 1 ≡ bc.n_buffers_cons)) (bcache_cons bc)
  unfolding bcache_cons
  bcache_cons-Good pos_count = ground arith

  pub bcache_cons-balance :
      (w : ℕ → ℕ)
      → 0 < bc.n_buffers_cons
      → Runs (λ r. w r.0 + in_cache w r.1 ≡ in_cache w bc) (bcache_cons bc)
  unfolding bcache_cons
  bcache_cons-balance w some_left =
      ground (arith, sum_first-suc w (bc.n_buffers_cons - 1) bc.slab_cons 0)

  -- The cache and the pool cannot be full at once while a buffer is outside of both.
  empty_slab :
      (outside : ℕ)
      → 0 < outside
      → in_pool one bp + in_cache one bc + outside ≤ bp.n_slabs * bp.params.n_buffers_per_slab
      → bp.params.n_buffers_per_slab ≤ bc.n_buffers_prod
      → bp.n_slabs_available < bp.n_slabs
  empty_slab outside some_out total full =
      let per = bp.params.n_buffers_per_slab in
      grind (
        arith,
        slabs-count per bp.n_slabs_available bp.slabs p.slab_lengths
            (omega (arith, p.full_slabs, p.all_slabs)),
        sum_first-one bc.n_buffers_prod bc.slab_prod (omega (arith, c.prod_room, c.prod_length)),
      )

  pub bcache_prod-Good :
      (buffer outside : ℕ)
      → 0 < outside
      → in_pool one bp + in_cache one bc + outside ≤ bp.n_slabs * bp.params.n_buffers_per_slab
      → Runs (λ r. Good bp r.0 r.1) (bcache_prod bp bc buffer)
  unfolding bcache_prod
  bcache_prod-Good buffer outside some_out total =
      let per = bp.params.n_buffers_per_slab in
      ground (
        arith,
        empty_slab outside some_out total,
        get_or-length per bp.n_slabs_available bp.slabs,
        set-AllLength per bp.n_slabs_available bp.slabs bc.slab_prod,
        length-set bp.slabs bp.n_slabs_available bc.slab_prod,
        length-set bc.slab_prod bc.n_buffers_prod buffer,
        length-set (get_or bp.slabs bp.n_slabs_available []) 0 buffer,
      )

  pub bcache_prod-balance :
      (w : ℕ → ℕ) (buffer outside : ℕ)
      → 0 < outside
      → in_pool one bp + in_cache one bc + outside ≤ bp.n_slabs * bp.params.n_buffers_per_slab
      → Runs
          (λ r. in_pool w r.0 + in_cache w r.1 ≡ in_pool w bp + in_cache w bc + w buffer)
          (bcache_prod bp bc buffer)
  unfolding bcache_prod
  bcache_prod-balance w buffer outside some_out total =
      let per = bp.params.n_buffers_per_slab in
      let slab = get_or bp.slabs bp.n_slabs_available [] in
      let slabs = set bp.slabs bp.n_slabs_available bc.slab_prod in
      let partial = set bc.slab_prod bc.n_buffers_prod buffer in
      ground (
        arith,
        empty_slab outside some_out total,
        get_or-length per bp.n_slabs_available bp.slabs,
        length-set bp.slabs bp.n_slabs_available bc.slab_prod,
        length-set bc.slab_prod bc.n_buffers_prod buffer,
        length-set slab 0 buffer,
        sum_first-suc (sum_first w per) bp.n_slabs_available slabs [],
        sum_first-set (sum_first w per) bp.n_slabs_available bp.n_slabs_available bp.slabs
            bc.slab_prod,
        get_or-set_self bp.slabs bp.n_slabs_available bc.slab_prod [],
        sum_first-suc w bc.n_buffers_prod partial 0,
        sum_first-set w bc.n_buffers_prod bc.n_buffers_prod bc.slab_prod buffer,
        get_or-set_self bc.slab_prod bc.n_buffers_prod buffer 0,
        sum_first-suc w 0 (set slab 0 buffer) 0,
        get_or-set_self slab 0 buffer 0,
      )

pub Good-CacheOk :
    (bp bp' : Bpool) (bc' : Bcache) → Good bp bp' bc' → CacheOk bp'.params.n_buffers_per_slab bc'
Good-CacheOk bp bp' bc' g = ground arith

pub Good-Good :
    (bp bp1 bp2 : Bpool) (bc1 bc2 : Bcache) → Good bp bp1 bc1 → Good bp1 bp2 bc2 → Good bp bp2 bc2
Good-Good bp bp1 bp2 bc1 bc2 g h = ground arith

abbrev pub capacity : Bpool → ℕ
capacity bp = bp.n_slabs * bp.params.n_buffers_per_slab

pub Good-capacity : (bp bp' : Bpool) (bc' : Bcache) → Good bp bp' bc' → capacity bp' ≡ capacity bp
Good-capacity bp bp' bc' g = ground arith
