-- ===== src/Xsk/Pool.antt =====
-- The buffer pool of ebpf-xdp/xsk/af_rxtx.c and the caches that stand before it. A slab is the list
-- of the buffers that its array holds: the code only exchanges the pointers to slabs, so a slab is
-- never reached from two places. `none` is an access outside an array.
pub mod Start
pub mod Sums
pub mod Balance
pub mod Shared
mod Tests
use hack.Base.{
  ℕ, ◌+◌, ◌-◌, ◌<◌, Bool, true, false, not, if◌then◌else◌, ltb, ◌==◌, Option, none, some, List, [],
  get_or, set, length, ◌>>=◌,
}

pub record BpoolParams : Type 0 where
  pub n_buffers : ℕ
  pub buffer_size : ℕ
  pub n_users_max : ℕ
  pub n_buffers_per_slab : ℕ

-- `struct bpool`, with the size of the memory that is given to the kernel
pub record Bpool : Type 0 where
  pub params : BpoolParams
  pub slabs : List (List ℕ)
  pub slabs_reserved : List (List ℕ)
  pub n_slabs : ℕ
  pub n_slabs_reserved : ℕ
  pub n_buffers : ℕ
  pub n_slabs_available : ℕ
  pub n_slabs_reserved_available : ℕ
  pub umem_size : ℕ

pub record Bcache : Type 0 where
  pub slab_cons : List ℕ
  pub slab_prod : List ℕ
  pub n_buffers_cons : ℕ
  pub n_buffers_prod : ℕ

module _ {A : Type 0} where
  abbrev pub load : List A → ℕ → A → Option A
  load xs i d = if ltb i (length xs) then some (get_or xs i d) else none

  abbrev pub store : List A → ℕ → A → Option (List A)
  store xs i v = if ltb i (length xs) then some (set xs i v) else none

unfoldable pub bcache_slab_size : Bpool → ℕ
bcache_slab_size bp = bp.params.n_buffers_per_slab

-- `calloc` tells whether there is memory for the cache. Where one reserved slab is left, the index
-- of the second one wraps around, and lies outside.
unfoldable pub bcache_init : Bool → Bpool → Option (Option Bcache × Bpool)
bcache_init calloc bp =
    if not calloc
    then some (none, bp)
    else if bp.n_slabs_reserved_available == 0
    then some (none, bp)
    else if bp.n_slabs_reserved_available == 1
    then none
    else do
      slab_cons ← load bp.slabs_reserved (bp.n_slabs_reserved_available - 1) []
      slab_prod ← load bp.slabs_reserved (bp.n_slabs_reserved_available - 2) []
      let left = bp.n_slabs_reserved_available - 2
      some (
        some (record {
          slab_cons = slab_cons;
          slab_prod = slab_prod;
          n_buffers_cons = 0;
          n_buffers_prod = 0;
        }),
        record bp { n_slabs_reserved_available = left },
      )

unfoldable pub bcache_free : Bpool → Option Bcache → Option Bpool
bcache_free bp none = some bp
bcache_free bp (some bc) = do
  slabs ← store bp.slabs_reserved bp.n_slabs_reserved_available bc.slab_prod
  slabs_reserved ← store slabs (bp.n_slabs_reserved_available + 1) bc.slab_cons
  let left = bp.n_slabs_reserved_available + 2
  some (record bp { slabs_reserved = slabs_reserved; n_slabs_reserved_available = left })

-- how many of `n_buffers` can be taken, after a trade with the pool where the cache is empty
unfoldable pub bcache_cons_check : Bpool → Bcache → ℕ → Option (ℕ × Bpool × Bcache)
bcache_cons_check bp bc n_buffers =
    if not (bc.n_buffers_cons == 0)
    then some (if ltb bc.n_buffers_cons n_buffers then bc.n_buffers_cons else n_buffers, bp, bc)
    else if bp.n_slabs_available == 0
    then some (0, bp, bc)
    else do
      let n_slabs_available = bp.n_slabs_available - 1
      slab_full ← load bp.slabs n_slabs_available []
      slabs ← store bp.slabs n_slabs_available bc.slab_cons
      let n_buffers_cons = bp.params.n_buffers_per_slab
      some (
        n_buffers,
        record bp { slabs = slabs; n_slabs_available = n_slabs_available },
        record bc { slab_cons = slab_full; n_buffers_cons = n_buffers_cons },
      )

-- With no buffer in the cache the index wraps around, and lies outside.
unfoldable pub bcache_cons : Bcache → Option (ℕ × Bcache)
bcache_cons bc = if bc.n_buffers_cons == 0 then none else do
  let n_buffers_cons = bc.n_buffers_cons - 1
  buffer ← load bc.slab_cons n_buffers_cons 0
  some (buffer, record bc { n_buffers_cons = n_buffers_cons })

unfoldable pub bcache_prod : Bpool → Bcache → ℕ → Option (Bpool × Bcache)
bcache_prod bp bc buffer =
    if ltb bc.n_buffers_prod bp.params.n_buffers_per_slab
    then (do
      slab_prod ← store bc.slab_prod bc.n_buffers_prod buffer
      some (bp, record bc { slab_prod = slab_prod; n_buffers_prod = bc.n_buffers_prod + 1 }))
    else do
      let n_slabs_available = bp.n_slabs_available
      slab_empty ← load bp.slabs n_slabs_available []
      slabs ← store bp.slabs n_slabs_available bc.slab_prod
      slab_prod ← store slab_empty 0 buffer
      some (
        record bp { slabs = slabs; n_slabs_available = n_slabs_available + 1 },
        record bc { slab_prod = slab_prod; n_buffers_prod = 1 },
      )
