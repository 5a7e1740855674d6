-- ===== src/Keth/Transmit/Faults.antt =====
-- Two ways in which a transmission of keth-if/kernel/core.c goes wrong: a pool that is empty, and a
-- frame that is longer than the array of a packet.
use hack.Base.{
  ℕ, List, ◌≡◌, true, false, ◌∷◌, [], arith, some, none, Bool, ◌<◌, ◌∙◌, length, ltb, refl,
}
use hack.Keth.Model.{
  Kernel, Params, Net, Dev, PacketBuf, at, deadlock, Ends, SkBuff, Ends-bind, overflow, put,
  Ends-mono, eth0, eth1,
}
use hack.Keth.Pool.{get_tx_buffer}
use hack.Keth.Transmit.{xmit, hw_tx_frame, hw_tx, with_buffer, deliver, rewrite_frame, pad}
use hack.Keth.Transmit.Conserve.{length-rewrite_frame, pad-length}

module _ (k : Kernel) (q : Params) where
  get_tx_buffer-empty :
      (s : Net) (d : Dev)
      → (at s d).locked ≡ false
      → (at s d).ppool ≡ []
      → Ends (λ r. (r.0 ≡ none) × ((at r.1 d).locked ≡ true)) (get_tx_buffer k s d)
  unfolding get_tx_buffer
  get_tx_buffer-empty s d free e = ground arith

  get_tx_buffer-locked :
      (s : Net) (d : Dev) → (at s d).locked ≡ true → get_tx_buffer k s d ≡ deadlock
  unfolding get_tx_buffer
  get_tx_buffer-locked s d held = ground arith

  get_tx_buffer-some :
      (s : Net) (d : Dev) (pkt : PacketBuf) (rest : List PacketBuf)
      → (at s d).locked ≡ false
      → (at s d).ppool ≡ pkt ∷ rest
      → Ends (λ r. r.0 ≡ some pkt) (get_tx_buffer k s d)
  unfolding get_tx_buffer
  get_tx_buffer-some s d pkt rest free e = ground arith

  hw_tx_frame-empty :
      (ok : Bool) (buf : List ℕ) (s : Net) (d : Dev)
      → (at s d).locked ≡ false
      → (at s d).ppool ≡ []
      → Ends (λ s'. (at s' d).locked ≡ true) (hw_tx_frame k q ok buf s d)
  unfolding hw_tx_frame with_buffer
  hw_tx_frame-empty ok buf s d free e =
      Ends-bind (λ r. (r.0 ≡ none) × ((at r.1 d).locked ≡ true)) _ (get_tx_buffer k s d) _
        (get_tx_buffer-empty s d free e) λ r (o, held). rw o held

  hw_tx_frame-locked :
      (ok : Bool) (buf : List ℕ) (s : Net) (d : Dev)
      → (at s d).locked ≡ true
      → hw_tx_frame k q ok buf s d ≡ deadlock
  unfolding hw_tx_frame
  hw_tx_frame-locked ok buf s d held = rw (get_tx_buffer-locked s d held) refl

  -- what `dummeth_xmit` comes to, since a frame that is filled up is never too short
  pub xmit-lem :
      (ok : Bool) (skb : SkBuff) (s : Net) (d : Dev)
      → xmit k q ok skb s d
        ≡ hw_tx_frame k q ok
            (rewrite_frame k (pad skb.bytes))
            (put s d (record (at s d) { skb = some skb.addr }))
            d
  unfolding xmit hw_tx
  xmit-lem ok skb s d =
      let long : ltb (length (pad skb.bytes)) 34 ≡ false = ground (arith, pad-length skb.bytes) in
      rw long refl

  xmit-locked :
      (ok : Bool) (skb : SkBuff) (s : Net) (d : Dev)
      → (at s d).locked ≡ true
      → xmit k q ok skb s d ≡ deadlock
  xmit-locked ok skb s eth0 held = xmit-lem ok skb s eth0 ∙ hw_tx_frame-locked ok _ _ eth0 held
  xmit-locked ok skb s eth1 held = xmit-lem ok skb s eth1 ∙ hw_tx_frame-locked ok _ _ eth1 held

  -- A transmission on a device whose pool is empty, with its lock free, returns with the lock held,
  -- and from then on each transmission on that device waits for the lock forever.
  pub xmit-empty :
      (ok : Bool) (skb : SkBuff) (s : Net) (d : Dev)
      → (at s d).locked ≡ false
      → (at s d).ppool ≡ []
      → Ends
          (λ s'.
            ((at s' d).locked ≡ true)
            × ((ok' : Bool) (skb' : SkBuff) → xmit k q ok' skb' s' d ≡ deadlock))
          (xmit k q ok skb s d)
  xmit-empty ok skb s d free e = rw (xmit-lem ok skb s d) (
      Ends-mono (λ s'. (at s' d).locked ≡ true) _ (hw_tx_frame k q ok _ _ d) (go d free e)
        λ s' held. (held, λ ok' skb'. xmit-locked ok' skb' s' d held))
    where
      go :
          (d : Dev)
          → (at s d).locked ≡ false
          → (at s d).ppool ≡ []
          → Ends
              (λ s'. (at s' d).locked ≡ true)
              (hw_tx_frame k q ok
                (rewrite_frame k (pad skb.bytes))
                (put s d (record (at s d) { skb = some skb.addr }))
                d)
      go eth0 free e = hw_tx_frame-empty ok _ _ eth0 free e
      go eth1 free e = hw_tx_frame-empty ok _ _ eth1 free e

  hw_tx_frame-overflow :
      (ok : Bool) (buf : List ℕ) (s : Net) (d : Dev) (pkt : PacketBuf) (rest : List PacketBuf)
      → (at s d).locked ≡ false
      → (at s d).ppool ≡ pkt ∷ rest
      → 1500 < length buf
      → hw_tx_frame k q ok buf s d ≡ overflow
  unfolding hw_tx_frame with_buffer deliver get_tx_buffer
  hw_tx_frame-overflow ok buf s d pkt rest free e long = ground arith

  -- A frame of more than 1500 bytes, the Ethernet header counted, is written past the end of the
  -- packet's array, when the lock of the device is free and its pool has a packet.
  pub xmit-overflow :
      (ok : Bool) (skb : SkBuff) (s : Net) (d : Dev) (pkt : PacketBuf) (rest : List PacketBuf)
      → (at s d).locked ≡ false
      → (at s d).ppool ≡ pkt ∷ rest
      → 1500 < length skb.bytes
      → xmit k q ok skb s d ≡ overflow
  xmit-overflow ok skb s d pkt rest free e long = xmit-lem ok skb s d ∙ go d free e
    where
      longer : 1500 < length (rewrite_frame k (pad skb.bytes))
      longer = rw (length-rewrite_frame k (pad skb.bytes)) (ground arith)

      go :
          (d : Dev)
          → (at s d).locked ≡ false
          → (at s d).ppool ≡ pkt ∷ rest
          → hw_tx_frame k q ok
              (rewrite_frame k (pad skb.bytes))
              (put s d (record (at s d) { skb = some skb.addr }))
              d
            ≡ overflow
      go eth0 free e = hw_tx_frame-overflow ok _ _ eth0 pkt rest free e longer
      go eth1 free e = hw_tx_frame-overflow ok _ _ eth1 pkt rest free e longer
