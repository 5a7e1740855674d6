-- ===== src/Keth/Receive.antt =====
-- Reception, polling and the two interrupt handlers of keth-if/kernel/core.c.
pub mod Conserve
pub mod Rounds
pub mod Polling
pub mod Handlers
pub mod Freed
use hack.Base.{
  ℕ, zero, suc, ◌+◌, Bool, true, false, ltb, leb, ◌&&◌, if◌then◌else◌, Option, none, some, List, [],
  ◌∷◌,
}
use hack.Keth.Model.{
  Dev, PacketBuf, SkBuff, Stats, add64, Status, quiet, Call, netif_rx, netif_receive_skb,
  napi_schedule, kfree_skb, Device, Net, at, put, Kernel, Outcome, done, ◌>>=◌, spin_lock,
  spin_unlock,
}
use hack.Keth.Pool.{release_buffer, dequeue_buf, unlink, is_empty}

unfoldable pub rx_ints : Net → Dev → Bool → Net
rx_ints s d enable = put s d (record (at s d) { rx_int_enabled = enable })

abbrev pub count_rx : Stats → ℕ → Stats
count_rx t datalen = record t {
  rx_packets = add64 t.rx_packets 1;
  rx_bytes = add64 t.rx_bytes datalen;
}

abbrev pub count_drop : Stats → Stats
count_drop t = record t { rx_dropped = add64 t.rx_dropped 1 }

abbrev pub count_tx : Stats → ℕ → Stats
count_tx t tx_packetlen = record t {
  tx_packets = add64 t.tx_packets 1;
  tx_bytes = add64 t.tx_bytes tx_packetlen;
}

-- `skb_ok` says whether `dev_alloc_skb` gives a buffer.
unfoldable pub rx : Net → Dev → Bool → PacketBuf → Net
rx s d skb_ok pkt =
    let dev = at s d in
    if skb_ok
    then put s d (record dev {
      stats = count_rx dev.stats pkt.datalen;
      calls = netif_rx pkt.bytes ∷ dev.calls;
    })
    else put s d (record dev { stats = count_drop dev.stats })

-- one packet of `dummeth_poll`, dequeued
unfoldable pub receive : Net → Dev → Bool → PacketBuf → Net
receive s d skb_ok pkt =
    let dev = at s d in
    if skb_ok
    then put s d (record dev {
      stats = count_rx dev.stats pkt.datalen;
      calls = netif_receive_skb pkt.bytes ∷ dev.calls;
    })
    else put s d (record dev { stats = count_drop dev.stats })

abbrev pub clear_status : Net → Dev → Net
clear_status s d = put s d (record (at s d) { status = quiet })

-- `complete` is the answer of `napi_complete_done`.
unfoldable pub finish_poll : ℕ → Bool → Dev → ℕ × Net → Outcome (ℕ × Net)
unfolding rx_ints spin_lock spin_unlock
finish_poll budget complete d (npackets, s) = if leb budget npackets then done (npackets, s) else do
  s1 ← spin_lock s d
  done (npackets, spin_unlock (if complete then rx_ints s1 d true else s1) d)

-- the branch for `DUMMETH_RX_INTR` of the regular handler
unfoldable pub regular_rx : Bool → Bool → Net → Dev → Option PacketBuf × Net
unfolding rx
regular_rx skb_ok intr s d =
    let (pkt, next) = unlink (at s d).rx_queue in
    let s1 = put s d (record (at s d) { rx_queue = next }) in
    if intr
    then elim pkt [ none ↦ (none, s) | some pkt ↦ (some pkt, rx s1 d skb_ok pkt) ]
    else (none, s)

-- The branch for `DUMMETH_TX_INTR`: the socket buffer is freed, and `skb` keeps pointing at it.
unfoldable pub regular_tx : Bool → Net → Dev → Net
regular_tx intr s d =
    let dev = at s d in
    if intr
    then put s d (record dev {
      stats = count_tx dev.stats dev.tx_packetlen;
      calls = kfree_skb dev.skb ∷ dev.calls;
    })
    else s

unfoldable pub napi_rx : Bool → Net → Dev → Net
unfolding rx_ints
napi_rx intr s d =
    let s1 = rx_ints s d false in
    if intr then put s1 d (record (at s1 d) { calls = napi_schedule ∷ (at s1 d).calls }) else s

-- Here a socket buffer is freed once, and forgotten.
free_skb : Option ℕ → List Call → List Call
free_skb none calls = calls
free_skb (some skb) calls = kfree_skb (some skb) ∷ calls

unfoldable pub napi_tx : Bool → Net → Dev → Net
unfolding free_skb
napi_tx intr s d =
    let dev = at s d in
    if intr
    then put s d (record dev {
      stats = count_tx dev.stats dev.tx_packetlen;
      calls = free_skb dev.skb dev.calls;
      skb = none;
    })
    else s

unfoldable pub napi_interrupt : Net → Dev → Outcome Net
unfolding napi_rx napi_tx spin_lock spin_unlock
napi_interrupt s d = do
  s1 ← spin_lock s d
  let statusword = (at s1 d).status
  let s2 = napi_rx statusword.rx_intr (clear_status s1 d) d
  done (spin_unlock (napi_tx statusword.tx_intr s2 d) d)

module _ (k : Kernel) where
  -- The rest of a round of `dummeth_poll` behind its tests: the packet is dequeued, handed on or
  -- dropped, and given back to the pool that it came from. The receive list that was tested is not
  -- empty, so the first case does not arise.
  unfoldable pub poll_handed : Bool → Dev → Option PacketBuf → Net → Outcome Net
  poll_handed skb_ok d none s = done s
  poll_handed skb_ok d (some pkt) s = release_buffer k (receive s d skb_ok pkt) pkt

  unfoldable pub poll_packet : Bool → Net → Dev → Outcome Net
  poll_packet skb_ok s d = do (pkt, s1) ← dequeue_buf s d; poll_handed skb_ok d pkt s1

  -- the loop, with `n` packets of the budget left and `npackets` received
  unfoldable pub poll_loop : ℕ → ℕ → (ℕ → Bool) → Net → Dev → Outcome (ℕ × Net)
  poll_loop zero npackets skb_ok s d = done (npackets, s)
  poll_loop (suc n) npackets skb_ok s d =
      let rest =
        poll_packet (skb_ok npackets) s d >>= λ s1. poll_loop n (npackets + 1) skb_ok s1 d in
      if is_empty (at s d).rx_queue then done (npackets, s) else rest

  unfoldable pub poll : ℕ → (ℕ → Bool) → Bool → Net → Dev → Outcome (ℕ × Net)
  poll budget skb_ok complete s d = do
    r ← poll_loop budget 0 skb_ok s d
    finish_poll budget complete d r

  -- a packet that the handler has unlinked goes back when the lock is free
  abbrev pub release_if : Net → Option PacketBuf → Outcome Net
  release_if s none = done s
  release_if s (some pkt) = release_buffer k s pkt

  unfoldable pub regular_interrupt : Bool → Net → Dev → Outcome Net
  unfolding regular_rx regular_tx spin_lock spin_unlock
  regular_interrupt skb_ok s d = do
    s1 ← spin_lock s d
    let statusword = (at s1 d).status
    let (pkt, s2) = regular_rx skb_ok statusword.rx_intr (clear_status s1 d) d
    let s3 = regular_tx statusword.tx_intr s2 d
    release_if (spin_unlock s3 d) pkt

  -- `dummeth_interrupt`, as `dummeth_init_module` sets it
  unfoldable pub interrupt : Bool → Bool → Net → Dev → Outcome Net
  interrupt use_napi skb_ok s d =
      if use_napi then napi_interrupt s d else regular_interrupt skb_ok s d
