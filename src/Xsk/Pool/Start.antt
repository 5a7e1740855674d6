-- ===== src/Xsk/Pool/Start.antt =====
-- Setting up and taking down the pool of ebpf-xdp/xsk/af_rxtx.c: how it is dimensioned, and what it
-- holds of the host on each way out.
use hack.Base.{
  ℕ, ◌≡◌, Option, ◌+◌, List, true, false, Bool, none, some, if◌then◌else◌, ◌-◌, [], ◌⊎◌, not, ◌%◌,
  suc, ◌^◌, ◌*◌, ◌/◌, ◌∷◌, zero, replicate, ◌<◌, length, arith, refl, ◌≤◌, ap, ◌∙◌,
}
use native.Mathlib.Nat.{div-add-mod', mod-lt}
use hack.Xsk.Pool.{Bpool, BpoolParams}
use hack.Xsk.Pool.Balance.{AllLength, PoolOk, in_pool}
use hack.Xsk.Pool.Sums.{sum_first}

-- What the host answers: `setrlimit` and the calls that give memory, a mutex, a mapping and the
-- kernel's memory area.
pub record PoolHost : Type 0 where
  pub setrlimit_ok : Bool
  pub calloc_ok : Bool
  pub mutex_ok : Bool
  pub mmap_ok : Bool
  pub umem_ok : Bool

-- what the program holds of the host for a pool
pub record Held : Type 0 where
  pub memory : Bool
  pub mutex : Bool
  pub mapping : Bool
  pub umem : Bool

abbrev pub nothing_held : Held
nothing_held = record { memory = false; mutex = false; mapping = false; umem = false }

abbrev pub all_held : Held
all_held = record { memory = true; mutex = true; mapping = true; umem = true }

-- the loop over `buffers`, with `n` rounds left from buffer `i` on
unfoldable pub buffers_from : ℕ → ℕ → ℕ → List ℕ
buffers_from buffer_size zero i = []
buffers_from buffer_size (suc n) i = (i * buffer_size) % 2 ^ 64 ∷ buffers_from buffer_size n (i + 1)

-- the loop over `slabs`: slab `i` is the part of `buffers` that its pointer points to
unfoldable pub slabs_from : BpoolParams → ℕ → ℕ → List (List ℕ)
unfolding buffers_from
slabs_from params zero i = []
slabs_from params (suc n) i =
    let per = params.n_buffers_per_slab in
    buffers_from params.buffer_size per (i * per) ∷ slabs_from params n (i + 1)

-- The number of slabs is computed in 32 bits, and so is the size of the memory for the kernel.
unfoldable pub dimension : BpoolParams → Bpool
unfolding slabs_from
dimension params =
    let per = params.n_buffers_per_slab in
    let n_slabs = ((params.n_buffers + per - 1) % 2 ^ 32) / per in
    let n_slabs_reserved = (params.n_users_max * 2) % 2 ^ 32 in
    let n_buffers = n_slabs * per in
    record {
      params = record params { n_buffers = n_buffers % 2 ^ 32 };
      slabs = slabs_from params n_slabs 0;
      slabs_reserved = replicate n_slabs_reserved (replicate per 0);
      n_slabs = n_slabs;
      n_slabs_reserved = n_slabs_reserved;
      n_buffers = n_buffers;
      n_slabs_available = n_slabs;
      n_slabs_reserved_available = n_slabs_reserved;
      umem_size = (n_buffers % 2 ^ 32 * params.buffer_size) % 2 ^ 32;
    }

unfoldable pub bpool_init : PoolHost → BpoolParams → Option Bpool × Held
unfolding dimension
bpool_init host params =
    let h1 = record nothing_held { memory = true } in
    let h2 = record h1 { mutex = true } in
    let h3 = record h2 { mapping = true } in
    if not host.setrlimit_ok
    then (none, nothing_held)
    else if not host.calloc_ok
    then (none, nothing_held)
    else if not host.mutex_ok
    then (none, record h1 { memory = false })
    else if not host.mmap_ok
    then (none, record h2 { mutex = false; memory = false })
    else if not host.umem_ok
    then (none, record h3 { mapping = false; mutex = false; memory = false })
    else (some (dimension params), record h3 { umem = true })

unfoldable pub bpool_free : Option Bpool → Held → Held
bpool_free none h = h
bpool_free (some bp) h = record h { umem = false; mapping = false; mutex = false; memory = false }

-- Where `bpool_init` gives no pool it holds nothing of the host; where it gives one it holds all four,
-- and `bpool_free` then gives all four back.
pub bpool_init-held :
    (host : PoolHost) (params : BpoolParams)
    → ((bpool_init host params).0 ≡ none × ((bpool_init host params).1 ≡ nothing_held))
      ⊎ (((bpool_init host params).0 ≡ some (dimension params))
          × ((bpool_init host params).1 ≡ all_held)
          × (bpool_free (bpool_init host params).0 (bpool_init host params).1 ≡ nothing_held))
unfolding bpool_init bpool_free
bpool_init-held host params = ground arith

-- the sum over `n` numbers from `i` on
abbrev pub sum_from : (ℕ → ℕ) → ℕ → ℕ → ℕ
sum_from g zero i = 0
sum_from g (suc n) i = g i + sum_from g n (i + 1)

sum_from-add :
    (g : ℕ → ℕ) (a b i : ℕ) → sum_from g (a + b) i ≡ sum_from g a i + sum_from g b (i + a)
sum_from-add g zero b i =
    let e : zero + b ≡ b = omega arith in
    let f : i + zero ≡ i = omega arith in rw (e, f) (omega arith)
sum_from-add g (suc a) b i =
    let e : suc a + b ≡ suc (a + b) = omega arith in
    let f : i + 1 + a ≡ i + suc a = omega arith in
    rw e (rw (← f) (omega (arith, sum_from-add g a b (i + 1))))

abbrev frame : (ℕ → ℕ) → ℕ → ℕ → ℕ
frame w buffer_size k = w ((k * buffer_size) % 2 ^ 64)

buffers-sum :
    (w : ℕ → ℕ) (size n i : ℕ) → sum_first w n (buffers_from size n i) ≡ sum_from (frame w size) n i
unfolding buffers_from
buffers-sum w size zero i = refl
buffers-sum w size (suc n) i = ap (λ (k : ℕ). frame w size i + k) (buffers-sum w size n (i + 1))

slabs-sum :
    (w : ℕ → ℕ) (params : BpoolParams) (n i : ℕ)
    → sum_first (sum_first w params.n_buffers_per_slab) n (slabs_from params n i)
      ≡ sum_from
          (frame w params.buffer_size)
          (n * params.n_buffers_per_slab)
          (i * params.n_buffers_per_slab)
unfolding slabs_from
slabs-sum w params zero i =
    let e : zero * params.n_buffers_per_slab ≡ zero = omega arith in rw e refl
slabs-sum w params (suc n) i =
    let per = params.n_buffers_per_slab in
    let g = frame w params.buffer_size in
    let e : suc n * per ≡ per + n * per = grind arith in
    let f : (i + 1) * per ≡ i * per + per = grind arith in
    rw e (
      ground (
        arith,
        sum_from-add g per (n * per) (i * per),
        f,
        slabs-sum w params n (i + 1),
        buffers-sum w params.buffer_size per (i * per),
      ))

length-buffers_from : (size n i : ℕ) → length (buffers_from size n i) ≡ n
unfolding buffers_from
length-buffers_from size zero i = refl
length-buffers_from size (suc n) i = ap suc (length-buffers_from size n (i + 1))

slabs_from-lengths :
    (params : BpoolParams) (n i : ℕ)
    → AllLength params.n_buffers_per_slab (slabs_from params n i)
      × (length (slabs_from params n i) ≡ n)
unfolding slabs_from
slabs_from-lengths params zero i = (tt, refl)
slabs_from-lengths params (suc n) i =
    let per = params.n_buffers_per_slab in
    let rest = slabs_from-lengths params n (i + 1) in
    ((length-buffers_from params.buffer_size per (i * per), rest.0), ap suc rest.1)

-- A pool of slabs with room is well formed at the start. Where the rounding to whole slabs does not
-- wrap around, it holds at least as many buffers as were asked for, less than a slab more, and every
-- buffer from the first to the last once.
pub dimension-PoolOk :
    (w : ℕ → ℕ) (params : BpoolParams)
    → 0 < params.n_buffers_per_slab
    → params.n_buffers + params.n_buffers_per_slab ≤ 2 ^ 32
    → PoolOk (dimension params)
      × (params.n_buffers ≤ (dimension params).n_buffers)
      × ((dimension params).n_buffers < params.n_buffers + params.n_buffers_per_slab)
      × (in_pool w (dimension params)
          ≡ sum_from (frame w params.buffer_size) (dimension params).n_buffers 0)
unfolding dimension
dimension-PoolOk w params room fits =
    let per = params.n_buffers_per_slab in
    let n = ((params.n_buffers + per - 1) % 2 ^ 32) / per in
    let slabs = slabs_from-lengths params n 0 in
    let a = params.n_buffers + per - 1 in
    let small : a % 2 ^ 32 ≡ a = omega arith in
    let whole : a / per * per + a % per ≡ a = div-add-mod' a per in
    let rest : a % per < per = mod-lt a room in
    let z : zero * per ≡ zero = omega arith in
    let sums =
      slabs-sum w params n 0 ∙ ap (λ i. sum_from (frame w params.buffer_size) (n * per) i) z in
    (
      record {
        some_room = room;
        slab_lengths = slabs.0;
        all_slabs = slabs.1;
        full_slabs = omega arith;
      },
      rw small (omega (arith, whole, rest)),
      rw small (omega (arith, whole, rest)),
      sums,
    )
