-- ===== src/Keth/Tests.antt =====
-- Runs of the model of keth-if/kernel/core.c on concrete devices.
use hack.Base.{List, refl, false, replicate, [], true, ◌==◌, ◌∷◌, arith, some}
use hack.Keth.Receive.{interrupt, poll}
use hack.Keth.Transmit.{xmit, rewrite_frame, pad}
use hack.Keth.Model.{Ends, SkBuff, Net, Params, Kernel, eth0, PacketBuf, eth1, Device}
use hack.Keth.Pool.Sound.{IsSound, QueueLaws}
use hack.Keth.Control.Limits.{WakeLaw}
use hack.Keth.Receive.Polling.{Polled, poll-receives}
use hack.Keth.Transmit.Delivery.{Delivered, xmit-delivers}
use hack.Keth.Receive.Conserve.{Keeps, poll-Keeps}
use hack.Keth.Pool.{fresh}
use hack.Keth.Transmit.Conserve.{xmit-Keeps}
use hack.Keth.Receive.Handlers.{interrupt-Keeps}

-- A transmit queue is 0 while it runs and 1 while it is stopped. The checksum is a constant.
abbrev kernel : Kernel
kernel = record {
  stop_queue = λ queue. 1;
  start_queue = λ queue. 0;
  wake_queue = λ queue. 0;
  queue_stopped = λ queue. queue == 1;
  ip_fast_csum = λ header words. 4660;
}

laws : QueueLaws kernel
laws = record { stopped-stop = λ queue. refl }

wakes : WakeLaw kernel
wakes queue = refl

abbrev params : Params
params = record { lockup = 0; use_napi = true; pool_size = 2 }

abbrev idle : List PacketBuf → List PacketBuf → Device
idle pool received = record {
  stats = record {
    rx_packets = 0;
    rx_bytes = 0;
    rx_dropped = 0;
    tx_packets = 0;
    tx_bytes = 0;
    tx_errors = 0;
  };
  status = record { rx_intr = true; tx_intr = true };
  ppool = pool;
  rx_queue = received;
  rx_int_enabled = true;
  tx_packetlen = 0;
  tx_packetdata = [];
  skb = some 7;
  locked = false;
  queue = 0;
  mtu = 1500;
  dev_addr = [];
  base_addr = 0;
  irq = 0;
  is_up = true;
  calls = [];
}

-- One packet of the first device is on the receive list of the second.
abbrev net : Net
net = record {
  dev0 = idle (fresh eth0 ∷ []) [];
  dev1 = idle (fresh eth1 ∷ fresh eth1 ∷ []) (fresh eth0 ∷ []);
}

net-IsSound : IsSound kernel net
net-IsSound = record {
  sound0 = record { unlocked = refl; homes = (refl, tt); stops = λ e. absurd (cc) };
  sound1 = record { unlocked = refl; homes = (refl, (refl, tt)); stops = λ e. absurd (cc) };
}

-- a net whose first device has an empty pool
abbrev dry : Net
dry = record { dev0 = idle [] []; dev1 = idle [] [] }

abbrev skb : SkBuff
skb = record { addr = 7; bytes = replicate 34 1 }

xmit-Keeps_example : Ends (Keeps kernel net) (xmit kernel params true skb net eth0)
xmit-Keeps_example = xmit-Keeps kernel params true skb net eth0 laws net-IsSound refl (omega arith)

poll-Keeps_example : Ends (λ r. Keeps kernel net r.1) (poll kernel 2 (λ i. true) true net eth1)
poll-Keeps_example = poll-Keeps kernel 2 (λ i. true) true net eth1 net-IsSound

interrupt-Keeps_example : Ends (Keeps kernel net) (interrupt kernel false true net eth1)
interrupt-Keeps_example = interrupt-Keeps kernel false true net eth1 net-IsSound

xmit-delivers_example :
    Ends
      (Delivered (rewrite_frame kernel (pad skb.bytes)) (fresh eth0) net eth0)
      (xmit kernel params true skb net eth0)
xmit-delivers_example =
    xmit-delivers kernel params true skb net eth0 (fresh eth0) [] laws net-IsSound refl refl
      (omega arith)

poll-receives_example :
    Ends
      (λ r. Polled 2 (λ i. true) true net.dev1 r.0 r.1.dev1)
      (poll kernel 2 (λ i. true) true net eth1)
poll-receives_example = poll-receives kernel 2 (λ i. true) true net eth1 net-IsSound
