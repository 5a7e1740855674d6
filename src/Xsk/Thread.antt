-- ===== src/Xsk/Thread.antt =====
-- The forwarding threads of ebpf-xdp/xsk/af_rxtx.c over the ports of all threads and the pool that
-- they share. `none` is an access outside an array, or an endless wait.
pub mod Conserve
pub mod Kept
pub mod Reach
pub mod Loops
pub mod Schedule
pub mod Turns
pub mod Total
pub mod Once
mod Tests
use hack.Base.{
  ◌≡◌, ℕ, [], List, Option, some, ◌>>=◌, ◌∷◌, if◌then◌else◌, set, not, ltb, length, none, ◌+◌, ◌==◌,
  ◌++◌, ◌*◌, replicate,
}
use hack.Xsk.Args.{max_threads}
use hack.Xsk.Pool.{Bpool, Bcache, load, store}
use hack.Xsk.Port.{Port, Desc, Rings, max_burst_tx, port_rx_burst, port_tx_burst}

-- the length of the arrays `ports_rx`, `ports_tx` and `burst_tx` of a thread
abbrev pub max_ports_per_thread : ℕ
max_ports_per_thread = 16

-- `burst_tx` is what the arrays of that name of all threads hold, one thread behind the other.
pub record World : Type 0 where
  pub pool : Bpool
  pub ports : List Port
  pub burst_tx : List (List Desc)

-- the number of the entries of all threads together
abbrev pub n_bursts : ℕ
n_bursts = max_threads * max_ports_per_thread

-- the entry of a thread for its port with a local number
abbrev pub burst_of : (thread place : ℕ) → ℕ
burst_of thread place = thread * max_ports_per_thread + place

-- `burst_tx` of all threads before they start
unfoldable pub no_bursts : List (List Desc)
no_bursts = replicate n_bursts []

-- what is read where there is no port
abbrev pub no_port : Port
no_port = record {
  bc = record { slab_cons = []; slab_prod = []; n_buffers_cons = 0; n_buffers_prod = 0 };
  rxq = [];
  txq = [];
  umem_fq = [];
  umem_cq = [];
  n_pkts_rx = 0;
  n_pkts_tx = 0;
}

module _ (k : Rings) (comp_size b j : ℕ) where
  -- the burst in entry `b` is full, and goes out of port `j`
  unfoldable pub send_burst : World → List Desc → Option World
  send_burst w btx = do
    port_tx ← load w.ports j no_port
    (pool, port) ← port_tx_burst k comp_size w.pool port_tx btx
    some (record w { pool = pool; ports = set w.ports j port; burst_tx = set w.burst_tx b [] })

  -- A packet is put behind those that wait in the burst.
  unfoldable pub tx_packet : World → Desc → Option World
  unfolding send_burst
  tx_packet w d = do
    btx ← load w.burst_tx b []
    if not (ltb (length btx) max_burst_tx)
        then none
        else if length btx + 1 == max_burst_tx
        then send_burst w (btx ++ d ∷ [])
        else some (record w { burst_tx = set w.burst_tx b (btx ++ d ∷ []) })

  unfoldable pub tx_packets : World → List Desc → Option World
  unfolding tx_packet
  tx_packets w [] = some w
  tx_packets w (d ∷ later) = do w1 ← tx_packet w d; tx_packets w1 later

-- the body of the loops of `thread_func` and `thread_func_poll`, from port `i` to port `j` by the burst
-- in entry `b`
unfoldable pub forward : Rings → (comp_size b i j : ℕ) → World → Option World
unfolding tx_packets
forward k comp_size b i j w = do
  port_rx ← load w.ports i no_port
  (burst, pool, port) ← port_rx_burst k w.pool port_rx
  tx_packets k comp_size b j (record w { pool = pool; ports = set w.ports i port }) burst
