-- ===== src/Keth/Model.antt =====
-- The state of keth-if/kernel/core.c: `struct net_device`, `struct dummeth_priv` and
-- `struct dummeth_packet` of core.h, and what the driver asks of the kernel.
use hack.Base.{ℕ, ◌+◌, ◌%◌, ◌^◌, Bool, true, false, if◌then◌else◌, Option, List}

-- `dummeth_devs[0]` and `dummeth_devs[1]`
pub data Dev : Type 0 where
  eth0 eth1 : Dev

abbrev pub other : Dev → Dev
other eth0 = eth1
other eth1 = eth0

abbrev pub same_dev : Dev → Dev → Bool
same_dev eth0 eth0 = true
same_dev eth1 eth1 = true
same_dev _ _ = false

-- `struct dummeth_packet`. `next` is the rest of the list that holds the packet; `data` is the part
-- of the array that `datalen` says is filled.
pub record PacketBuf : Type 0 where
  pub dev : Dev
  pub datalen : ℕ
  pub bytes : List ℕ

-- `ETH_DATA_LEN`, the size of the array `data`
abbrev pub eth_data_len : ℕ
eth_data_len = 1500

-- A socket buffer: its address, and the bytes at `skb->data`, of which there are `skb->len`.
pub record SkBuff : Type 0 where
  pub addr : ℕ
  pub bytes : List ℕ

-- `struct net_device_stats`, of 64-bit counters
pub record Stats : Type 0 where
  pub rx_packets : ℕ
  pub rx_bytes : ℕ
  pub rx_dropped : ℕ
  pub tx_packets : ℕ
  pub tx_bytes : ℕ
  pub tx_errors : ℕ

abbrev pub add64 : ℕ → ℕ → ℕ
add64 a b = (a + b) % 2 ^ 64

-- the bits `DUMMETH_RX_INTR` and `DUMMETH_TX_INTR` of `status`
pub record Status : Type 0 where
  pub rx_intr : Bool
  pub tx_intr : Bool

abbrev pub quiet : Status
quiet = record { rx_intr = false; tx_intr = false }

-- The calls of the kernel by which a device hands something over, last one first.
pub data Call : Type 0 where
  netif_rx : List ℕ → Call
  netif_receive_skb : List ℕ → Call
  napi_schedule : Call
  kfree_skb : Option ℕ → Call
  napi_enable : Call
  napi_disable : Call

-- A device and its private part. `skb` is the address of a socket buffer, and `queue` is the kernel's state of the transmit queue.
pub record Device : Type 0 where
  pub stats : Stats
  pub status : Status
  pub ppool : List PacketBuf
  pub rx_queue : List PacketBuf
  pub rx_int_enabled : Bool
  pub tx_packetlen : ℕ
  pub tx_packetdata : List ℕ
  pub skb : Option ℕ
  pub locked : Bool
  pub queue : ℕ
  pub mtu : ℕ
  pub dev_addr : List ℕ
  pub base_addr : ℕ
  pub irq : ℕ
  pub is_up : Bool
  pub calls : List Call

pub record Net : Type 0 where
  pub dev0 : Device
  pub dev1 : Device

abbrev pub at : Net → Dev → Device
at s eth0 = s.dev0
at s eth1 = s.dev1

abbrev pub put : Net → Dev → Device → Net
put s eth0 d = record s { dev0 = d }
put s eth1 d = record s { dev1 = d }

-- the module parameters that the modelled code reads
pub record Params : Type 0 where
  pub lockup : ℕ
  pub use_napi : Bool
  pub pool_size : ℕ

-- What the driver asks of the kernel: the transmit queue of a device, and the checksum of an IPv4
-- header of so many words, as it is stored.
pub record Kernel : Type 0 where
  pub stop_queue : ℕ → ℕ
  pub start_queue : ℕ → ℕ
  pub wake_queue : ℕ → ℕ
  pub queue_stopped : ℕ → Bool
  pub ip_fast_csum : List ℕ → ℕ → ℕ

-- A call ends with a state, waits forever for a lock that the driver itself holds, or writes past
-- the array of a packet.
pub data Outcome {ℓ} (A : Type ℓ) : Type ℓ where
  done : A → Outcome A
  deadlock : Outcome A
  overflow : Outcome A

infixl 5 ◌>>=◌
abbrev pub ◌>>=◌ {ℓ κ} : {A : Type ℓ} {B : Type κ} → Outcome A → (A → Outcome B) → Outcome B
done a >>= f = f a
deadlock >>= f = deadlock
overflow >>= f = overflow

-- It ends, in a state with the property.
abbrev pub Ends {ℓ} : {A : Type ℓ} → (A → Type 0) → Outcome A → Type 0
Ends P (done a) = P a
Ends P deadlock = ⊥
Ends P overflow = ⊥

-- `spin_lock` and `spin_lock_irqsave`: a lock that is held is waited for.
unfoldable pub spin_lock : Net → Dev → Outcome Net
spin_lock s d =
    if (at s d).locked then deadlock else done (put s d (record (at s d) { locked = true }))

unfoldable pub spin_unlock : Net → Dev → Net
spin_unlock s d = put s d (record (at s d) { locked = false })

module _ {ℓ} {A : Type ℓ} where
  pub Ends-bind {κ} :
      {B : Type κ} (P : A → Type 0) (Q : B → Type 0) (m : Outcome A) (f : A → Outcome B)
      → Ends P m
      → ((a : A) → P a → Ends Q (f a))
      → Ends Q (m >>= f)
  Ends-bind P Q (done a) f h g = g a h
  Ends-bind P Q deadlock f h g = absurd h
  Ends-bind P Q overflow f h g = absurd h

  pub Ends-mono : (P Q : A → Type 0) (m : Outcome A) → Ends P m → ((a : A) → P a → Q a) → Ends Q m
  Ends-mono P Q (done a) h g = g a h
  Ends-mono P Q deadlock h g = absurd h
  Ends-mono P Q overflow h g = absurd h

  pub Ends-and : (P Q : A → Type 0) (m : Outcome A) → Ends P m → Ends Q m → Ends (λ a. P a × Q a) m
  Ends-and P Q (done a) h g = (h, g)
  Ends-and P Q deadlock h g = absurd h
  Ends-and P Q overflow h g = absurd h
