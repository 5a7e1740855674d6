-- ===== src/Keth/Transmit.antt =====
-- Transmission in keth-if/kernel/core.c: a frame that one device sends is put on the receive list of
-- the other.
pub mod Conserve
pub mod Faults
pub mod Delivery
pub mod Twice
use hack.Base.{
  ℕ, ◌+◌, ◌-◌, ◌%◌, ◌/◌, ◌*◌, Bool, true, false, ltb, ◌==◌, ◌&&◌, not, if◌then◌else◌, Option, none,
  some, List, [], ◌∷◌, ◌++◌, length, get_or, set, drop, replicate,
}
use hack.Keth.Model.{
  Dev, other, PacketBuf, eth_data_len, SkBuff, Status, Device, Net, at, put, Params, Kernel,
  Outcome, done, overflow, ◌>>=◌, add64,
}
use hack.Keth.Pool.{get_tx_buffer, enqueue_buf}
use hack.Keth.Receive.{interrupt}

-- `x ^= 1`
abbrev pub flip_bit : ℕ → ℕ
flip_bit x = if x % 2 == 0 then x + 1 else x - 1

abbrev pub flip_at : List ℕ → ℕ → List ℕ
flip_at buf i = set buf i (flip_bit (get_or buf i 0))

-- the third bytes of source and destination, behind the Ethernet header of 14 bytes
abbrev pub flip_nets : List ℕ → List ℕ
flip_nets buf = flip_at (flip_at buf 28) 32

-- the checksum of the IPv4 header, stored in the order of the machine's bytes
abbrev pub store_check : List ℕ → ℕ → List ℕ
store_check buf check = set (set buf 24 (check % 256)) 25 (check / 256 % 256)

-- `memcpy(tx_buffer->data, buf, len)`
abbrev pub fill_buffer : PacketBuf → List ℕ → Outcome PacketBuf
fill_buffer tx_buffer buf =
    if ltb eth_data_len (length buf)
    then overflow
    else done (record tx_buffer { datalen = length buf; bytes = buf })

-- The frame is left where the transmit interrupt looks for it.
abbrev pub loaded : Net → Dev → List ℕ → Net
loaded s d buf = put s d (record (at s d) {
  tx_packetlen = length buf;
  tx_packetdata = buf;
  status = record (at s d).status { tx_intr = true };
})

-- The test for a simulated lockup: `lockup` is 0 where none is asked for.
abbrev pub locks_up : Params → Device → Bool
locks_up q dev = not (q.lockup == 0) && add64 dev.stats.tx_packets 1 % q.lockup == 0

-- `netif_stop_queue`
abbrev pub stopped : Kernel → Net → Dev → Net
stopped k s d = put s d (record (at s d) { queue = k.stop_queue (at s d).queue })

-- `ETH_ZLEN`, to which a short frame is filled up with zeros
abbrev pub eth_zlen : ℕ
eth_zlen = 60

abbrev pub pad : List ℕ → List ℕ
pad bytes =
    if ltb (length bytes) eth_zlen then bytes ++ replicate (eth_zlen - length bytes) 0 else bytes

module _ (k : Kernel) where
  -- `ih->check` is 0 while the checksum is computed over `ihl` words.
  unfoldable pub rewrite_frame : List ℕ → List ℕ
  rewrite_frame buf =
      let cleared = store_check (flip_nets buf) 0 in
      let ihl = get_or cleared 14 0 % 16 in
      store_check cleared (k.ip_fast_csum (drop 14 cleared) ihl)

  -- the receive interrupt on the twin device
  unfoldable pub notify : Params → Bool → Net → Dev → Outcome Net
  notify q skb_ok s dest =
      if (at s dest).rx_int_enabled
      then interrupt k q.use_napi skb_ok
          (put s dest
            (record (at s dest) { status = record (at s dest).status { rx_intr = true } }))
          dest
      else done s

  -- the transmit interrupt on the sending device, or the simulated lockup
  unfoldable pub complete_tx : Params → Bool → List ℕ → Net → Dev → Outcome Net
  complete_tx q skb_ok buf s d =
      let s1 = loaded s d buf in
      if locks_up q (at s1 d) then done (stopped k s1 d) else interrupt k q.use_napi skb_ok s1 d

  -- with the packet taken from the pool of the sending device
  unfoldable pub deliver : Params → Bool → List ℕ → PacketBuf → Net → Dev → Outcome Net
  deliver q skb_ok buf tx_buffer s d = do
    pkt ← fill_buffer tx_buffer buf
    s1 ← enqueue_buf s (other d) pkt
    s2 ← notify q skb_ok s1 (other d)
    complete_tx q skb_ok buf s2 d

  -- Without a packet `dummeth_hw_tx` gives up.
  unfoldable pub with_buffer : Params → Bool → List ℕ → Dev → Option PacketBuf → Net → Outcome Net
  with_buffer q skb_ok frame d none s = done s
  with_buffer q skb_ok frame d (some pkt) s = deliver q skb_ok frame pkt s d

  unfoldable pub hw_tx_frame : Params → Bool → List ℕ → Net → Dev → Outcome Net
  hw_tx_frame q skb_ok frame s d = do
    (tx_buffer, s1) ← get_tx_buffer k s d
    with_buffer q skb_ok frame d tx_buffer s1

  unfoldable pub hw_tx : Params → Bool → List ℕ → Net → Dev → Outcome Net
  hw_tx q skb_ok buf s d =
      if ltb (length buf) 34 then done s else hw_tx_frame q skb_ok (rewrite_frame buf) s d

  unfoldable pub xmit : Params → Bool → SkBuff → Net → Dev → Outcome Net
  xmit q skb_ok skb s d =
      hw_tx q skb_ok (pad skb.bytes) (put s d (record (at s d) { skb = some skb.addr })) d
