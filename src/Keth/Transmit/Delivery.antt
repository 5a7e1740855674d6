-- ===== src/Keth/Transmit/Delivery.antt =====
-- Where a frame goes that is sent in keth-if/kernel/core.c: to the receive list of the other device.
use hack.Base.{
  List, ◌≡◌, Bool, false, ℕ, true, ◌∷◌, arith, some, refl, length, ◌≤◌, if◌then◌else◌, le→ltb, ◌≢◌,
  [], none, ap, ◌∙◌,
}
use hack.Keth.Model.{
  Kernel, Params, Net, Dev, PacketBuf, spin_lock, at, spin_unlock, Ends, other, Device, eth0, put,
  eth1, Ends-mono, SkBuff, Outcome, done, Ends-bind, Ends-and,
}
use hack.Keth.Transmit.{
  complete_tx, notify, rewrite_frame, pad, xmit, hw_tx_frame, deliver, with_buffer,
}
use hack.Keth.Pool.{get_tx_buffer, enqueue_buf}
use hack.Keth.Receive.{interrupt, napi_interrupt, napi_rx, napi_tx}
use hack.Keth.Pool.Sound.{
  QueueLaws, IsSound, Conserves, get_tx_buffer-Conserves, enqueue_buf-Conserves,
}
use hack.Keth.Transmit.Conserve.{skb_lem, length-rewrite_frame, pad-length, notify-Keeps}
use hack.Keth.Transmit.Faults.{xmit-lem}
use hack.Keth.Receive.Rounds.{IsSound-free}
use hack.Keth.Receive.Conserve.{Keeps}

-- what a step leaves alone on a device, and what its receive list becomes
record Holds (got : List PacketBuf) (x y : Device) : Type 0 where
  queue : y.rx_queue ≡ got
  enabled : y.rx_int_enabled ≡ x.rx_int_enabled
  calls : y.calls ≡ x.calls

-- the receive list is as it was, and receive interrupts are off
record Quiet (x y : Device) : Type 0 where
  queue : y.rx_queue ≡ x.rx_queue
  disabled : y.rx_int_enabled ≡ false

napi_interrupt-Quiet :
    (s : Net) (d : Dev)
    → (at s d).locked ≡ false
    → (at s d).status.rx_intr ≡ true
    → Ends (λ s'. Quiet (at s d) (at s' d)) (napi_interrupt s d)
unfolding napi_interrupt napi_rx napi_tx spin_lock spin_unlock
napi_interrupt-Quiet s eth0 free intr = ground arith
napi_interrupt-Quiet s eth1 free intr = ground arith

Ends-if :
    (b : Bool) (P : Net → Type 0) (m : Outcome Net) (s : Net)
    → Ends P m
    → (b ≡ false → P s)
    → Ends P (if b then m else done s)
Ends-if true P m s h g = h
Ends-if false P m s h g = g refl

-- The frame is at the head of the other device's receive list, and its receive interrupts are off.
abbrev pub Delivered : List ℕ → PacketBuf → Net → Dev → Net → Type 0
Delivered buf pkt s d s' =
    ((at s' (other d)).rx_queue
      ≡ record pkt { datalen = length buf; bytes = buf } ∷ (at s (other d)).rx_queue)
    × ((at s' (other d)).rx_int_enabled ≡ false)

module _ (k : Kernel) (q : Params) where
  get_tx_buffer-Head :
      (s : Net) (d : Dev) (pkt : PacketBuf) (rest : List PacketBuf)
      → (at s d).locked ≡ false
      → (at s d).ppool ≡ pkt ∷ rest
      → Ends
          (λ r.
            (r.0 ≡ some pkt) × Holds (at s (other d)).rx_queue (at s (other d)) (at r.1 (other d)))
          (get_tx_buffer k s d)
  unfolding get_tx_buffer
  get_tx_buffer-Head s d pkt rest free e = ground arith

  notify-Quiet :
      (ok : Bool) (s : Net) (d : Dev)
      → q.use_napi ≡ true
      → (at s d).locked ≡ false
      → Ends (λ s'. Quiet (at s d) (at s' d)) (notify k q ok s d)
  unfolding notify interrupt
  notify-Quiet ok s d napi free =
      Ends-if (at s d).rx_int_enabled (λ s'. Quiet (at s d) (at s' d)) _ s (rw napi (go d free))
        λ off. record { queue = refl; disabled = off }
    where
      go :
          (d : Dev)
          → (at s d).locked ≡ false
          → let s1 =
              put s d (record (at s d) { status = record (at s d).status { rx_intr = true } }) in
            Ends (λ s'. Quiet (at s d) (at s' d)) (napi_interrupt s1 d)
      go eth0 free =
          let s1 =
            put s eth0
              (record (at s eth0) { status = record (at s eth0).status { rx_intr = true } }) in
          Ends-mono _ _ (napi_interrupt s1 eth0) (napi_interrupt-Quiet s1 eth0 free refl)
            λ s' c. record { queue = c.queue; disabled = c.disabled }
      go eth1 free =
          let s1 =
            put s eth1
              (record (at s eth1) { status = record (at s eth1).status { rx_intr = true } }) in
          Ends-mono _ _ (napi_interrupt s1 eth1) (napi_interrupt-Quiet s1 eth1 free refl)
            λ s' c. record { queue = c.queue; disabled = c.disabled }

  complete_tx-Holds :
      (ok : Bool) (buf : List ℕ) (s : Net) (d : Dev)
      → q.use_napi ≡ true
      → (at s d).locked ≡ false
      → Ends (λ s'. at s' (other d) ≡ at s (other d)) (complete_tx k q ok buf s d)
  unfolding complete_tx interrupt napi_interrupt napi_rx napi_tx spin_lock spin_unlock
  complete_tx-Holds ok buf s d napi free = ground arith

  enqueue_buf-Head :
      (s : Net) (d : Dev) (pkt : PacketBuf)
      → (at s d).locked ≡ false
      → Ends (λ s'. (at s' d).rx_queue ≡ pkt ∷ (at s d).rx_queue) (enqueue_buf s d pkt)
  unfolding enqueue_buf
  enqueue_buf-Head s d pkt free = ground arith

  deliver-Head :
      (ok : Bool) (buf : List ℕ) (pkt : PacketBuf) (s : Net) (d : Dev)
      → IsSound k s
      → q.use_napi ≡ true
      → length buf ≤ 1500
      → Ends (Delivered buf pkt s d) (deliver k q ok buf pkt s d)
  unfolding deliver
  deliver-Head ok buf pkt s d v napi fits =
      let filled : PacketBuf = record pkt { datalen = length buf; bytes = buf } in
      rw (le→ltb 1500 (length buf) fits) (
        Ends-bind
          (λ s1.
            ((at s1 (other d)).rx_queue ≡ filled ∷ (at s (other d)).rx_queue)
            × (IsSound k s1 × Conserves s s1 (some filled) none))
          _ (enqueue_buf s (other d) filled) _
          (Ends-and _ _ (enqueue_buf s (other d) filled)
            (enqueue_buf-Head s (other d) filled (IsSound-free k s (other d) v))
            (enqueue_buf-Conserves k s (other d) filled v))
          λ s1 (head, v1).
            Ends-bind (λ s2. Quiet (at s1 (other d)) (at s2 (other d)) × Keeps k s1 s2) _
              (notify k q ok s1 (other d)) _
              (Ends-and _ _ (notify k q ok s1 (other d))
                (notify-Quiet ok s1 (other d) napi (IsSound-free k s1 (other d) v1.0))
                (notify-Keeps k q ok s1 (other d) v1.0))
              λ s2 (quiet, kept).
                Ends-mono _ _ (complete_tx k q ok buf s2 d)
                  (complete_tx-Holds ok buf s2 d napi (IsSound-free k s2 d kept.0))
                  λ s3 same. (
                    ap (λ x. x.rx_queue) same ∙ quiet.queue ∙ head,
                    ap (λ x. x.rx_int_enabled) same ∙ quiet.disabled,
                  ))

  hw_tx_frame-Head :
      (ok : Bool) (buf : List ℕ) (s : Net) (d : Dev) (pkt : PacketBuf) (rest : List PacketBuf)
      → QueueLaws k
      → IsSound k s
      → q.use_napi ≡ true
      → (at s d).ppool ≡ pkt ∷ rest
      → length buf ≤ 1500
      → Ends (Delivered buf pkt s d) (hw_tx_frame k q ok buf s d)
  unfolding hw_tx_frame with_buffer
  hw_tx_frame-Head ok buf s d pkt rest law v napi e fits =
      let ne : (at s d).ppool ≢ [] = ground arith in
      Ends-bind
        (λ r.
          ((r.0 ≡ some pkt) × Holds (at s (other d)).rx_queue (at s (other d)) (at r.1 (other d)))
          × (IsSound k r.1 × Conserves s r.1 none r.0 × (r.0 ≢ none)))
        _ (get_tx_buffer k s d) _
        (Ends-and _ _ (get_tx_buffer k s d)
          (get_tx_buffer-Head s d pkt rest (IsSound-free k s d v) e)
          (get_tx_buffer-Conserves k s d law v ne))
        λ r ((given, holds), sound). rw given (
          Ends-mono (Delivered buf pkt r.1 d) _ (deliver k q ok buf pkt r.1 d)
            (deliver-Head ok buf pkt r.1 d sound.0 napi fits)
            λ s' (head, off). (
              head ∙ ap (λ l. record pkt { datalen = length buf; bytes = buf } ∷ l) holds.queue,
              off,
            ))

  -- A frame of at most 1500 bytes, sent with NAPI from sound devices, on a device whose pool is
  -- not empty, where a queue that the driver stops counts as stopped: the first packet of that
  -- pool stands at the head of the receive list of the other device, filled with the frame, which
  -- has been padded and rewritten, and nothing else is put on that list; the other device's
  -- receive interrupts are off.
  pub xmit-delivers :
      (ok : Bool) (skb : SkBuff) (s : Net) (d : Dev) (pkt : PacketBuf) (rest : List PacketBuf)
      → QueueLaws k
      → IsSound k s
      → q.use_napi ≡ true
      → (at s d).ppool ≡ pkt ∷ rest
      → length skb.bytes ≤ 1500
      → let buf = rewrite_frame k (pad skb.bytes) in
        Ends (Delivered buf pkt s d) (xmit k q ok skb s d)
  xmit-delivers ok skb s d pkt rest law v napi e fits =
      let buf = rewrite_frame k (pad skb.bytes) in
      let short : length buf ≤ 1500 =
        rw (length-rewrite_frame k (pad skb.bytes)) ((pad-length skb.bytes).1 fits) in
      rw (xmit-lem k q ok skb s d) (go d v e short)
    where
      buf : List ℕ
      buf = rewrite_frame k (pad skb.bytes)

      go :
          (d : Dev)
          → IsSound k s
          → (at s d).ppool ≡ pkt ∷ rest
          → length buf ≤ 1500
          → Ends
              (Delivered buf pkt s d)
              (hw_tx_frame k q ok buf (put s d (record (at s d) { skb = some skb.addr })) d)
      go eth0 v e short =
          hw_tx_frame-Head ok buf _ eth0 pkt rest law (skb_lem k q s eth0 (some skb.addr) v).0 napi
            e short
      go eth1 v e short =
          hw_tx_frame-Head ok buf _ eth1 pkt rest law (skb_lem k q s eth1 (some skb.addr) v).0 napi
            e short
