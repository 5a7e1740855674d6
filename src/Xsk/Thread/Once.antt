-- ===== src/Xsk/Thread/Once.antt =====
-- From the start of ebpf-xdp/xsk on, every frame of the pool is in one place.
use hack.Base.{
  ℕ, ◌<◌, ◌*◌, ◌+◌, [], ◌≤◌, arith, ◌^◌, ◌%◌, ◌/◌, ◌≡◌, if◌then◌else◌, ap, leb, ◌∙◌, ◌&&◌, ltb, suc,
  zero, refl, replicate, List, length, length-replicate,
}
use native.Mathlib.Nat.{mod-eq_of_lt, mul-div_left}
use hack.Xsk.Pool.{BpoolParams}
use hack.Xsk.Port.{Desc}
use hack.Xsk.Port.Balance.{in_descs}
use hack.Xsk.Thread.{World, no_bursts, n_bursts}
use hack.Xsk.Thread.Conserve.{WorldOk, AllIdle}
use hack.Xsk.Pool.Start.{dimension, dimension-PoolOk, sum_from}
use hack.Xsk.Pool.Balance.{slabs-count, in_pool}
use hack.Xsk.Thread.Reach.{counted, Reach, copies, Reach-Keeps}
use hack.Xsk.Pool.Sums.{one, sum_all}

-- the program behind `bpool_init`, with no port yet
abbrev pub start : BpoolParams → World
start params = record { pool = dimension params; ports = []; burst_tx = no_bursts }

-- Sizes at which no number of `bpool_init` wraps around.
pub record Fits (params : BpoolParams) : Type 0 where
  pub slab_room : 0 < params.n_buffers_per_slab
  pub buffer_room : 0 < params.buffer_size
  pub slabs_fit : params.n_buffers + params.n_buffers_per_slab ≤ 2 ^ 32
  pub area_fits : (dimension params).n_buffers * params.buffer_size ≤ 2 ^ 64

address-frame :
    (k n size : ℕ) → 0 < size → k < n → n * size ≤ 2 ^ 64 → ((k * size) % 2 ^ 64) / size ≡ k
address-frame k n size room lt fits =
    let small : k * size < 2 ^ 64 = grind arith in
    ap (λ x. x / size) (mod-eq_of_lt small) ∙ mul-div_left k room

-- Of the addresses of the frames `i` to `i + n - 1` one lies in the frame `f`, if it is among them.
sum_from-counted :
    (size f total n i : ℕ)
    → 0 < size
    → i + n ≤ total
    → total * size ≤ 2 ^ 64
    → sum_from (λ k. counted size f ((k * size) % 2 ^ 64)) n i
      ≡ (if leb i f && ltb f (i + n) then 1 else 0)
sum_from-counted size f total zero i room le fits = ground arith
sum_from-counted size f total (suc n) i room le fits = ground (
  arith,
  address-frame i total size room (omega arith) fits,
  sum_from-counted size f total n (i + 1) room (omega arith) fits,
)

dimension-full :
    (params : BpoolParams) → (dimension params).n_slabs_available ≡ (dimension params).n_slabs
unfolding dimension
dimension-full params = refl

AllIdle-replicate : (n : ℕ) → AllIdle (replicate n [])
AllIdle-replicate zero = tt
AllIdle-replicate (suc n) = (refl, AllIdle-replicate n)

sum_all-replicate : (w : ℕ → ℕ) (n : ℕ) → sum_all (in_descs w) (replicate n []) ≡ 0
sum_all-replicate w zero = refl
sum_all-replicate w (suc n) = omega (arith, sum_all-replicate w n)

no_bursts-idle :
    (w : ℕ → ℕ)
    → AllIdle no_bursts × (length no_bursts ≡ n_bursts) × (sum_all (in_descs w) no_bursts ≡ 0)
unfolding no_bursts
no_bursts-idle w = (
  AllIdle-replicate n_bursts,
  length-replicate {A = List Desc} n_bursts [],
  sum_all-replicate w n_bursts,
)

copies-start :
    (params : BpoolParams) (f : ℕ)
    → copies (start params) f ≡ in_pool (counted params.buffer_size f) (dimension params)
unfolding dimension
copies-start params f = omega (arith, no_bursts-idle (counted params.buffer_size f))

pub start-WorldOk : (params : BpoolParams) → Fits params → WorldOk (start params)
start-WorldOk params fits =
    let (p, _, _, _) = dimension-PoolOk one params fits.slab_room fits.slabs_fit in
    let bp = dimension params in
    let per = bp.params.n_buffers_per_slab in
    let count =
      slabs-count per bp.n_slabs_available bp.slabs p.slab_lengths
        (omega (arith, p.full_slabs, p.all_slabs)) in
    let full : bp.n_slabs_available * per ≡ bp.n_slabs * per =
      ap (λ n. n * per) (dimension-full params) in
    record {
      pool_ok = p;
      caches = tt;
      idle = (no_bursts-idle one).0;
      bursts = (no_bursts-idle one).1;
      within = omega (arith, count, full, no_bursts-idle one);
    }

-- From the start of the program on, whatever ports are opened, whatever rounds the threads make and
-- whatever the kernel does, in whatever order, each frame of the pool is in exactly one place: in the
-- pool or a cache, in a ring of a port, or in a burst.
pub Reach-once :
    (params : BpoolParams) (s : World) (f : ℕ)
    → Fits params
    → Reach (start params) s
    → f < (dimension params).n_buffers
    → copies s f ≡ 1
Reach-once params s f fits r lt =
    let size = params.buffer_size in
    let w = counted size f in
    let n = (dimension params).n_buffers in
    let keeps = Reach-Keeps (start params) s (start-WorldOk params fits) r in
    let (_, _, _, sum) = dimension-PoolOk w params fits.slab_room fits.slabs_fit in
    let once = sum_from-counted size f n n 0 fits.buffer_room (omega arith) fits.area_fits in
    let one_place : ◌≡◌ {A = ℕ} (if leb 0 f && ltb f (0 + n) then 1 else 0) 1 =
      ground (arith, lt) in
    keeps.same_copies f ∙ copies-start params f ∙ sum ∙ once ∙ one_place
