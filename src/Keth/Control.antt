-- ===== src/Keth/Control.antt =====
-- The control operations of keth-if/kernel/core.c: configuration, timeouts, start and stop.
pub mod Limits
use hack.Base.{
  ℕ, ◌+◌, Bool, true, false, ltb, ◌==◌, ◌||◌, not, if◌then◌else◌, Option, none, some, List, [], ◌∷◌,
}
use hack.Keth.Model.{
  Dev, eth0, eth1, Status, Stats, add64, Device, Net, at, put, Params, Kernel, Outcome, done, ◌>>=◌,
  spin_lock, spin_unlock, Call, napi_enable, napi_disable,
}
use hack.Keth.Pool.{setup_pool, teardown_pool}
use hack.Keth.Receive.{interrupt, rx_ints}

-- negative results
pub data Errno : Type 0 where
  einval ebusy eopnotsupp : Errno

pub data Reply : Type 0 where
  zero_ok : Reply
  minus : Errno → Reply

-- `new_mtu` is not negative here: a negative one is below 68 and refused likewise.
unfoldable pub change_mtu : ℕ → Net → Dev → Outcome (Reply × Net)
unfolding spin_lock spin_unlock
change_mtu new_mtu s d = if ltb new_mtu 68 || ltb 1500 new_mtu then done (minus einval, s) else do
  s1 ← spin_lock s d
  done (zero_ok, spin_unlock (put s1 d (record (at s1 d) { mtu = new_mtu })) d)

-- "\0DETH1" and "\0DETH0"
abbrev pub hw_addr : Dev → List ℕ
hw_addr eth1 = 0 ∷ b'D' ∷ b'E' ∷ b'T' ∷ b'H' ∷ b'1' ∷ []
hw_addr eth0 = 0 ∷ b'D' ∷ b'E' ∷ b'T' ∷ b'H' ∷ b'0' ∷ []

abbrev pub note_if : Bool → Call → List Call → List Call
note_if true c calls = c ∷ calls
note_if false c calls = calls

module _ (k : Kernel) (q : Params) where
  unfoldable pub open_dev : Net → Dev → Net
  open_dev s d =
      let dev = at s d in
      put s d (record dev {
        dev_addr = hw_addr d;
        calls = note_if q.use_napi napi_enable dev.calls;
        queue = k.start_queue dev.queue;
      })

  unfoldable pub stop_dev : Net → Dev → Net
  stop_dev s d =
      let dev = at s d in
      put s d (record dev {
        queue = k.stop_queue dev.queue;
        calls = note_if q.use_napi napi_disable dev.calls;
      })

  -- `dummeth_set_config`, with the fields of `struct ifmap` that it reads
  unfoldable pub set_config : ℕ → ℕ → Net → Dev → Reply × Net
  set_config base_addr irq s d =
      let dev = at s d in
      if dev.is_up
      then (minus ebusy, s)
      else if not (base_addr == dev.base_addr)
      then (minus eopnotsupp, s)
      else if not (irq == dev.irq)
      then (zero_ok, put s d (record dev { irq = irq }))
      else (zero_ok, s)

  -- the pool is thrown away and made anew, and the queue woken
  unfoldable pub refill : (ℕ → Bool) → Net → Dev → Outcome Net
  unfolding spin_lock spin_unlock setup_pool teardown_pool
  refill kmalloc s d = do
    s1 ← spin_lock s d
    let s2 = spin_unlock (setup_pool q.pool_size kmalloc (teardown_pool s1 d) d) d
    done (put s2 d (record (at s2 d) { queue = k.wake_queue (at s2 d).queue }))

  unfoldable pub tx_timeout : (ℕ → Bool) → Bool → Net → Dev → Outcome Net
  tx_timeout kmalloc skb_ok s d = do
    let s1 = put s d (record (at s d) { status = record (at s d).status { tx_intr = true } })
    s2 ← interrupt k q.use_napi skb_ok s1 d
    let t = (at s2 d).stats
    let s3 = put s2 d (record (at s2 d) { stats = record t { tx_errors = add64 t.tx_errors 1 } })
    refill kmalloc s3 d
