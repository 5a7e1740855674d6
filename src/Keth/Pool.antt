-- ===== src/Keth/Pool.antt =====
-- The packet pool and the receive list of keth-if/kernel/core.c.
pub mod Sound
use hack.Base.{
  ℕ, zero, suc, ◌+◌, Bool, true, false, ◌&&◌, if◌then◌else◌, Option, none, some, List, [], ◌∷◌,
}
use hack.Keth.Model.{
  Dev, PacketBuf, Device, Net, at, put, Kernel, Outcome, done, ◌>>=◌, spin_lock, spin_unlock,
}

-- A buffer as `kmalloc` gives it: what it holds is written before it is read.
abbrev pub fresh : Dev → PacketBuf
fresh d = record { dev = d; datalen = 0; bytes = [] }

-- the loop of `dummeth_setup_pool`, with `n` rounds left; `kmalloc` tells which call succeeds
unfoldable pub fill : ℕ → ℕ → (ℕ → Bool) → Dev → List PacketBuf → List PacketBuf
fill zero i kmalloc d pool = pool
fill (suc n) i kmalloc d pool =
    let rest = fill n (i + 1) kmalloc d (fresh d ∷ pool) in if kmalloc i then rest else pool

unfoldable pub setup_pool : ℕ → (ℕ → Bool) → Net → Dev → Net
unfolding fill
setup_pool pool_size kmalloc s d =
    put s d (record (at s d) { ppool = fill pool_size 0 kmalloc d [] })

-- the loop of `dummeth_teardown_pool`
unfoldable pub drain : List PacketBuf → List PacketBuf
drain [] = []
drain (pkt ∷ next) = drain next

unfoldable pub teardown_pool : Net → Dev → Net
unfolding drain
teardown_pool s d = put s d (record (at s d) { ppool = drain (at s d).ppool })

abbrev pub is_empty {ℓ} : {A : Type ℓ} → List A → Bool
is_empty [] = true
is_empty (x ∷ xs) = false

module _ (k : Kernel) where
  -- under the lock; the branch of an empty pool returns with the lock held, as the code does
  take_buffer : Net → Dev → List PacketBuf → Option PacketBuf × Net
  take_buffer s d [] = (none, s)
  take_buffer s d (pkt ∷ next) =
      let dev = at s d in
      let queue = if is_empty next then k.stop_queue dev.queue else dev.queue in
      (some pkt, spin_unlock (put s d (record dev { ppool = next; queue = queue })) d)

  unfoldable pub get_tx_buffer : Net → Dev → Outcome (Option PacketBuf × Net)
  unfolding take_buffer spin_lock spin_unlock
  get_tx_buffer s d = do s1 ← spin_lock s d; done (take_buffer s1 d (at s1 d).ppool)

  unfoldable pub release_buffer : Net → PacketBuf → Outcome Net
  unfolding spin_lock spin_unlock
  release_buffer s pkt = do
    s1 ← spin_lock s pkt.dev
    let next = (at s1 pkt.dev).ppool
    let s2 = spin_unlock (put s1 pkt.dev (record (at s1 pkt.dev) { ppool = pkt ∷ next })) pkt.dev
    let dev = at s2 pkt.dev
    done (
        if k.queue_stopped dev.queue && is_empty next
        then put s2 pkt.dev (record dev { queue = k.wake_queue dev.queue })
        else s2)

unfoldable pub enqueue_buf : Net → Dev → PacketBuf → Outcome Net
unfolding spin_lock spin_unlock
enqueue_buf s d pkt = do
  s1 ← spin_lock s d
  done (spin_unlock (put s1 d (record (at s1 d) { rx_queue = pkt ∷ (at s1 d).rx_queue })) d)

-- the head of the receive list, and the list without it
abbrev pub unlink : List PacketBuf → Option PacketBuf × List PacketBuf
unlink [] = (none, [])
unlink (pkt ∷ next) = (some pkt, next)

unfoldable pub dequeue_buf : Net → Dev → Outcome (Option PacketBuf × Net)
unfolding spin_lock spin_unlock
dequeue_buf s d = do
  s1 ← spin_lock s d
  let (pkt, next) = unlink (at s1 d).rx_queue
  done (pkt, spin_unlock (put s1 d (record (at s1 d) { rx_queue = next })) d)
