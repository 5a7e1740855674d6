-- ===== src/Xsk/Pool/Tests.antt =====
-- Runs of the pool of ebpf-xdp/xsk, with two slabs of two buffers.
use hack.Base.{arith, ◌∷◌, refl, []}
use hack.Xsk.Pool.{bcache_cons, Bpool}
use hack.Xsk.Pool.Shared.{SharedOk, Shared, Uses, more, cache_at, unused, takes}

abbrev empty_pool : Bpool
empty_pool = record {
  params = record { n_buffers = 4; buffer_size = 16; n_users_max = 2; n_buffers_per_slab = 2 };
  slabs = (0 ∷ 16 ∷ []) ∷ (0 ∷ 0 ∷ []) ∷ [];
  slabs_reserved = (0 ∷ 0 ∷ []) ∷ (0 ∷ 0 ∷ []) ∷ (0 ∷ 0 ∷ []) ∷ (0 ∷ 0 ∷ []) ∷ [];
  n_slabs = 2;
  n_slabs_reserved = 4;
  n_buffers = 4;
  n_slabs_available = 0;
  n_slabs_reserved_available = 2;
  umem_size = 64;
}

-- The slab for giving back is full, and all slabs of the pool are empty.
abbrev full_cache : Shared
full_cache = record {
  pool = empty_pool;
  caches =
      record {
        slab_cons = 32 ∷ 16 ∷ [];
        slab_prod = 0 ∷ 48 ∷ [];
        n_buffers_cons = 2;
        n_buffers_prod = 2;
      }
      ∷ [];
  outside = [];
}

abbrev one_out : Shared
one_out = record full_cache {
  caches =
      record {
        slab_cons = 32 ∷ 16 ∷ [];
        slab_prod = 0 ∷ 48 ∷ [];
        n_buffers_cons = 1;
        n_buffers_prod = 2;
      }
      ∷ [];
  outside = 16 ∷ [];
}

full_cache-SharedOk : SharedOk full_cache
full_cache-SharedOk = record {
  shared_pool = record {
    some_room = omega arith;
    slab_lengths = omega arith;
    all_slabs = refl;
    full_slabs = omega arith;
  };
  shared_caches = (
    record {
      cons_length = refl;
      prod_length = refl;
      cons_room = omega arith;
      prod_room = omega arith;
    },
    tt,
  );
  shared_within = omega arith;
}

one_taken : Uses full_cache one_out
unfolding bcache_cons
one_taken = more unused (takes 0 16 (cache_at one_out 0) (omega arith) (omega arith) refl refl)
