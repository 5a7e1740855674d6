-- ===== src/Keth/Startup.antt =====
-- The setting up of a device, and the entry and the exit of the module, in keth-if/kernel/core.c.
pub mod Sound
pub mod Leaks
use hack.Base.{ℕ, Bool, Option, List, if◌then◌else◌, some, not, ◌∷◌, none, [], false, true}
use hack.Keth.Model.{Dev, Params, Net, eth1, at, eth0, put, quiet}
use hack.Keth.Pool.{setup_pool}
use hack.Keth.Receive.{rx_ints}

-- `memset` over the private part, then what `dummeth_setup` writes. The fields of the device that the
-- kernel's `ether_setup` fills, the queue among them, are taken from the device that is given.
unfoldable pub setup : Params → (ℕ → Bool) → Net → Dev → Net
setup q kmalloc s d =
    let dev = at s d in
    let s1 = put s d (record dev {
      stats = record {
        rx_packets = 0;
        rx_bytes = 0;
        rx_dropped = 0;
        tx_packets = 0;
        tx_bytes = 0;
        tx_errors = 0;
      };
      status = quiet;
      ppool = [];
      rx_queue = [];
      rx_int_enabled = false;
      tx_packetlen = 0;
      tx_packetdata = [];
      skb = none;
      locked = false;
    }) in
    setup_pool q.pool_size kmalloc (rx_ints s1 d true) d

-- what the module asks of the kernel for its devices
pub data Ask : Type 0 where
  alloc_netdev register_netdevice unregister_netdev teardown free_netdev : Dev → Ask

pub data Result : Type 0 where
  success enomem : Result
  err : ℕ → Result

-- `r` is `none` where `register_netdevice` is not negative, and the error otherwise.
abbrev pub after_register1 : Option ℕ → List Ask → Result × List Ask
after_register1 none asks = (success, asks)
after_register1 (some e) asks = (err e, free_netdev eth1 ∷ free_netdev eth0 ∷ asks)

abbrev pub after_register0 : Option ℕ → Option ℕ → List Ask → Result × List Ask
after_register0 none r1 asks = after_register1 r1 (register_netdevice eth1 ∷ asks)
after_register0 (some e) r1 asks = (err e, free_netdev eth0 ∷ asks)

-- `alloc0` and `alloc1` tell whether the devices are allocated. The calls stand last one first.
unfoldable pub init_module : Bool → Bool → Option ℕ → Option ℕ → Result × List Ask
init_module alloc0 alloc1 r0 r1 =
    if not alloc0
    then (enomem, [])
    else if not alloc1
    then (enomem, alloc_netdev eth0 ∷ [])
    else after_register0 r0 r1
        (register_netdevice eth0 ∷ alloc_netdev eth1 ∷ alloc_netdev eth0 ∷ [])

-- one round of the loop; `present` is the test of `dummeth_devs[i]`
abbrev pub cleanup_device : Bool → Dev → List Ask → List Ask
cleanup_device present d asks =
    if present then free_netdev d ∷ teardown d ∷ unregister_netdev d ∷ asks else asks

unfoldable pub cleanup_module : Bool → Bool → List Ask → List Ask
cleanup_module present0 present1 asks =
    cleanup_device present1 eth1 (cleanup_device present0 eth0 asks)
