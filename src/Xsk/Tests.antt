-- ===== src/Xsk/Tests.antt =====
-- Runs of the model of ebpf-xdp/xsk on a pool of two slabs of two buffers.
use hack.Base.{◌∷◌, arith, if◌then◌else◌, true, [], inr, ltb, inl, refl, ◌≡◌, false, ◌<◌, some, set}
use hack.Base.Fault.{Runs}
use hack.Xsk.Pool.{
  Bpool, BpoolParams, bcache_init, bcache_free, bcache_slab_size, bcache_cons_check, bcache_cons,
  bcache_prod,
}
use hack.Xsk.Port.{
  Port, port_init, Rings, Host, fill_fq, port_rx_burst, port_tx_burst, prod_all, wait_room,
}
use hack.Xsk.Pool.Start.{dimension, PoolHost}
use hack.Xsk.Port.Balance.{RingLaws}
use hack.Xsk.Thread.Once.{Fits, start, start-WorldOk, Reach-once}
use hack.Xsk.Thread.Loops.{thread_func_poll, Revents}
use hack.Xsk.Thread.Conserve.{WorldOk}
use hack.Xsk.Thread.Reach.{
  copies, Reach, Reach-Keeps, Reach-forward, next, here, opens, receives, forwards,
}
use hack.Xsk.Thread.{forward, World, no_bursts}
use hack.Xsk.Pool.Balance.{PoolOk}
use hack.Xsk.Port.Open.{ReservedOk, Answer, port_init-Answer}
use hack.Xsk.Thread.Total.{round, thread_func_poll-Reach}

abbrev small : BpoolParams
small = record { n_buffers = 3; buffer_size = 16; n_users_max = 2; n_buffers_per_slab = 2 }

abbrev good_host : Host
good_host = record { calloc_port = true; calloc_cache = true; create_status = 0; update_status = 0 }

abbrev rings : Rings
rings = record {
  peek = λ n m. if ltb n m then n else m;
  fq_statuses = λ n. 0 ∷ n ∷ [];
  tx_statuses = λ n. n ∷ [];
}

rings-RingLaws : RingLaws rings
rings-RingLaws = record {
  peek_asked = λ n m. ground arith;
  peek_there = λ n m. ground arith;
  fq_grants = λ n. inr (inl refl);
  tx_grants = λ n. inl refl;
}

small-Fits : Fits small
unfolding dimension
small-Fits = record {
  slab_room = omega arith;
  buffer_room = omega arith;
  slabs_fit = omega arith;
  area_fits = omega arith;
}

abbrev port0 : Port
port0 = record {
  bc = record {
    slab_cons = 32 ∷ 48 ∷ [];
    slab_prod = 0 ∷ 0 ∷ [];
    n_buffers_cons = 1;
    n_buffers_prod = 0;
  };
  rxq = [];
  txq = [];
  umem_fq = 48 ∷ [];
  umem_cq = [];
  n_pkts_rx = 0;
  n_pkts_tx = 0;
}

abbrev pool1 : Bpool
pool1 = record {
  params = record { n_buffers = 4; buffer_size = 16; n_users_max = 2; n_buffers_per_slab = 2 };
  slabs = (0 ∷ 16 ∷ []) ∷ (0 ∷ 0 ∷ []) ∷ [];
  slabs_reserved = (0 ∷ 0 ∷ []) ∷ (0 ∷ 0 ∷ []) ∷ (0 ∷ 0 ∷ []) ∷ (0 ∷ 0 ∷ []) ∷ [];
  n_slabs = 2;
  n_slabs_reserved = 4;
  n_buffers = 4;
  n_slabs_available = 1;
  n_slabs_reserved_available = 2;
  umem_size = 64;
}

-- one port is open
abbrev world1 : World
world1 = record { pool = pool1; ports = port0 ∷ []; burst_tx = no_bursts }

-- the kernel has received a packet, four bytes into the frame
abbrev world2 : World
world2 = record {
  pool = pool1;
  ports = record port0 { umem_fq = []; rxq = record { addr = 52; len = 7 } ∷ [] } ∷ [];
  burst_tx = no_bursts;
}

-- the packet is on its way out, and the other buffer of the cache waits for the next one
abbrev world3 : World
world3 = record {
  pool = pool1;
  ports =
      record port0 {
        bc = record port0.bc { n_buffers_cons = 0 };
        umem_fq = 32 ∷ [];
        txq = record { addr = 52; len = 7 } ∷ [];
        n_pkts_rx = 1;
        n_pkts_tx = 1;
      }
      ∷ [];
  burst_tx = set no_bursts 0 [];
}

small-ReservedOk : ReservedOk (dimension small)
unfolding dimension
small-ReservedOk = record {
  reserved_lengths = omega arith;
  reserved_left = omega arith;
  pairs = refl;
}

small-PoolOk : PoolOk (dimension small)
small-PoolOk = (start-WorldOk small small-Fits).pool_ok

port_init_run : port_init good_host 1 (dimension small) ≡ some (some port0, pool1)
unfolding port_init dimension bcache_init bcache_free bcache_slab_size bcache_cons_check bcache_cons
    fill_fq
port_init_run = refl

forward_run : forward rings 8 0 0 0 world2 ≡ some world3
unfolding forward port_rx_burst port_tx_burst bcache_cons_check bcache_cons bcache_prod fill_fq
    prod_all wait_room no_bursts
forward_run = refl

reached2 : Reach (start small) world2
unfolding dimension
reached2 =
    next (next here (opens good_host 1 port0 pool1 small-ReservedOk port_init_run refl))
      (receives 0 48 [] (record { addr = 52; len = 7 }) (omega arith) refl refl refl)

reached : Reach (start small) world3
reached =
    next reached2
      (forwards rings 8 0 0 0 rings-RingLaws (omega arith) (omega arith) (omega arith) forward_run)

three_few : 3 < (dimension small).n_buffers
unfolding dimension
three_few = omega arith

Reach-once_example : copies world3 3 ≡ 1
Reach-once_example = Reach-once small world3 3 small-Fits reached three_few

Reach-forward_example : (s2 : World) × (forward rings 8 0 0 0 world3 ≡ some s2) × WorldOk s2
Reach-forward_example =
    Reach-forward (start small) world3 rings 8 0 0 0 0 (start-WorldOk small small-Fits) reached
      rings-RingLaws (omega arith) (omega arith) (omega arith) (omega arith)

port_init-Answer_example :
    Runs
      (Answer (λ _. 1) (record good_host { update_status = 1 }) 1 (dimension small))
      (port_init (record good_host { update_status = 1 }) 1 (dimension small))
port_init-Answer_example =
    port_init-Answer (λ _. 1) (record good_host { update_status = 1 }) 1 (dimension small)
      small-PoolOk small-ReservedOk

world2-WorldOk : WorldOk world2
world2-WorldOk =
    (Reach-Keeps (start small) world2 (start-WorldOk small small-Fits) reached2).still_ok

abbrev packets : Revents
packets = record { pollin = true; pollerr = false; pollhup = false }

thread_func_poll-Reach_example :
    (s' : World) × (thread_func_poll (round rings 8 1 0) (7 ∷ []) ((packets ∷ []) ∷ []) world2
      ≡ some s')
    × Reach world2 s'
thread_func_poll-Reach_example =
    thread_func_poll-Reach rings rings-RingLaws 8 1 0 (7 ∷ []) ((packets ∷ []) ∷ []) world2
      world2-WorldOk (omega arith) (omega arith) (omega arith) (tt, tt) refl (refl, tt)

abbrev no_mmap : PoolHost
no_mmap = record {
  setrlimit_ok = true;
  calloc_ok = true;
  mutex_ok = true;
  mmap_ok = false;
  umem_ok = true;
}
