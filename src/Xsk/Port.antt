-- ===== src/Xsk/Port.antt =====
-- The ports of ebpf-xdp/xsk/af_rxtx.c. A port has its socket's rings and its cache of buffers. A
-- ring is the list of its entries, oldest first; which entries a ring gives, and when it has room, the
-- library libxdp and the kernel decide. That the code wakes the kernel while it waits changes nothing
-- of this state, and is left out.
pub mod Balance
pub mod Open
use hack.Base.{
  ℕ, zero, suc, ◌+◌, ◌%◌, ◌^◌, Bool, not, if◌then◌else◌, ltb, ◌==◌, Option, none, some, List, [],
  ◌∷◌, ◌++◌, length, take, drop, map, ◌>>=◌,
}
use hack.Xsk.Pool.{
  Bpool, Bcache, bcache_slab_size, bcache_init, bcache_free, bcache_cons_check, bcache_cons,
  bcache_prod,
}

-- `struct xdp_desc`, and an entry of `struct burst_rx` and `struct burst_tx`
pub record Desc : Type 0 where
  pub addr : ℕ
  pub len : ℕ

pub record Port : Type 0 where
  pub bc : Bcache
  pub rxq : List Desc
  pub txq : List Desc
  pub umem_fq : List ℕ
  pub umem_cq : List ℕ
  pub n_pkts_rx : ℕ
  pub n_pkts_tx : ℕ

-- What a call is answered: how many entries `xsk_ring_cons__peek` gives, of so many asked for and so
-- many there, and what `xsk_ring_prod__reserve` returns, one call after the other, for so many entries.
pub record Rings : Type 0 where
  pub peek : ℕ → ℕ → ℕ
  pub fq_statuses : ℕ → List ℕ
  pub tx_statuses : ℕ → List ℕ

abbrev pub max_burst_rx : ℕ
max_burst_rx = 1

abbrev pub max_burst_tx : ℕ
max_burst_tx = 1

-- the loop that asks for room until it is there; `none` if it still waits at the end of the answers
unfoldable pub wait_room : ℕ → List ℕ → Option (Unit {0})
wait_room n [] = none
wait_room n (status ∷ later) = if status == n then some tt else wait_room n later

-- the loops that write `n` buffers of the cache to the fill ring
unfoldable pub fill_fq : ℕ → Bcache → Option (List ℕ × Bcache)
fill_fq zero bc = some ([], bc)
fill_fq (suc n) bc = do
  (buffer, bc1) ← bcache_cons bc
  (later, bc2) ← fill_fq n bc1
  some (buffer ∷ later, bc2)

-- the loop over the completed buffers
unfoldable pub prod_all : Bpool → Bcache → List ℕ → Option (Bpool × Bcache)
prod_all bp bc [] = some (bp, bc)
prod_all bp bc (addr ∷ later) = do (bp1, bc1) ← bcache_prod bp bc addr; prod_all bp1 bc1 later

module _ (k : Rings) where
  -- with `n_pkts` packets in front of the receive ring
  unfoldable pub rx_packets : Bpool → Port → ℕ → Option (List Desc × Bpool × Port)
  rx_packets bp p n_pkts = if n_pkts == 0 then some ([], bp, p) else do
    _ ← wait_room n_pkts (k.fq_statuses n_pkts)
    (addrs, bc) ← fill_fq n_pkts p.bc
    some (
      take n_pkts p.rxq,
      bp,
      record p {
        bc = bc;
        rxq = drop n_pkts p.rxq;
        umem_fq = p.umem_fq ++ addrs;
        n_pkts_rx = (p.n_pkts_rx + n_pkts) % 2 ^ 64;
      },
    )

  -- The packets that are returned are those that the code writes to the burst.
  unfoldable pub port_rx_burst : Bpool → Port → Option (List Desc × Bpool × Port)
  unfolding rx_packets
  port_rx_burst bp p = do
    (n_pkts, bp1, bc) ← bcache_cons_check bp p.bc max_burst_rx
    let p1 = record p { bc = bc }
    if n_pkts == 0 then some ([], bp1, p1) else rx_packets bp1 p1 (k.peek n_pkts (length p.rxq))

  unfoldable pub port_tx_burst : ℕ → Bpool → Port → List Desc → Option (Bpool × Port)
  port_tx_burst comp_size bp p burst = do
    _ ← wait_room (length burst) (k.tx_statuses (length burst))
    let n_pkts = k.peek comp_size (length p.umem_cq)
    (bp1, bc) ← prod_all bp p.bc (take n_pkts p.umem_cq)
    some (
      bp1,
      record p {
        bc = bc;
        txq = p.txq ++ burst;
        umem_cq = drop n_pkts p.umem_cq;
        n_pkts_tx = (p.n_pkts_tx + length burst) % 2 ^ 64;
      },
    )

-- Whether there is memory for the port and for its cache, and the answers of
-- `xsk_socket__create_shared` and `xsk_socket__update_xskmap`.
pub record Host : Type 0 where
  pub calloc_port : Bool
  pub calloc_cache : Bool
  pub create_status : ℕ
  pub update_status : ℕ

-- `port_free` gives the cache back; no port is returned.
abbrev pub port_free : Bpool → Option Bcache → Option (Option Port × Bpool)
port_free bp bc = do bp1 ← bcache_free bp bc; some (none, bp1)

-- with a cache that can fill the ring
unfoldable pub open_port : Host → ℕ → Bpool → Bcache → Option (Option Port × Bpool)
open_port host umem_fq_size bp bc =
    if not (host.create_status == 0)
    then port_free bp (some bc)
    else if not (host.update_status == 0)
    then some (none, bp)
    else do
      (addrs, bc1) ← fill_fq umem_fq_size bc
      some (
        some (record {
          bc = bc1;
          rxq = [];
          txq = [];
          umem_fq = addrs;
          umem_cq = [];
          n_pkts_rx = 0;
          n_pkts_tx = 0;
        }),
        bp,
      )

unfoldable pub check_cache : Host → ℕ → Bpool → Option Bcache → Option (Option Port × Bpool)
unfolding open_port
check_cache host umem_fq_size bp none = port_free bp none
check_cache host umem_fq_size bp (some bc) =
    if ltb (bcache_slab_size bp) umem_fq_size then port_free bp (some bc) else do
      (n_buffers, bp1, bc1) ← bcache_cons_check bp bc umem_fq_size
      if ltb n_buffers umem_fq_size
          then port_free bp1 (some bc1)
          else open_port host umem_fq_size bp1 bc1

unfoldable pub port_init : Host → ℕ → Bpool → Option (Option Port × Bpool)
unfolding check_cache
port_init host umem_fq_size bp =
    if not host.calloc_port
    then some (none, bp)
    else do (bc, bp1) ← bcache_init host.calloc_cache bp; check_cache host umem_fq_size bp1 bc
