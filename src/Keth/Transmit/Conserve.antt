-- ===== src/Keth/Transmit/Conserve.antt =====
-- Transmission in keth-if/kernel/core.c keeps the invariant of the devices and loses no packet buffer.
use hack.Base.{
  ℕ, ◌-◌, ◌%◌, ◌/◌, ◌≤◌, ◌≡◌, ◌≢◌, ◌∙◌, refl, Bool, true, false, Option, none, some, List, [],
  arith, length, ltb, le→ltb, Bool-cases, inl, inr, length-set, length-append, length-replicate,
  replicate, get_or, set,
}
use hack.Keth.Model.{
  Dev, eth0, eth1, other, PacketBuf, SkBuff, Status, Params, Net, at, put, Kernel, Ends, Ends-bind,
  Ends-mono,
}
use hack.Keth.Pool.{get_tx_buffer, enqueue_buf}
use hack.Keth.Pool.Sound.{
  QueueLaws, IsSound, Conserves, enqueue_buf-Conserves, get_tx_buffer-Conserves,
}
use hack.Keth.Receive.{interrupt}
use hack.Keth.Receive.Conserve.{Keeps, Conserves-trans}
use hack.Keth.Receive.Handlers.{interrupt-Keeps}
use hack.Keth.Transmit.{
  flip_bit, flip_nets, loaded, stopped, store_check, rewrite_frame, notify, locks_up, complete_tx,
  deliver, with_buffer, hw_tx_frame, hw_tx, pad, xmit,
}

length-store_check : (b : List ℕ) (c : ℕ) → length (store_check b c) ≡ length b
length-store_check b c =
    length-set (set b 24 (c % 256)) 25 (c / 256 % 256) ∙ length-set b 24 (c % 256)

pub length-flip_nets : (b : List ℕ) → length (flip_nets b) ≡ length b
length-flip_nets b =
    length-set (set b 28 (flip_bit (get_or b 28 0))) 32 _
    ∙ length-set b 28 (flip_bit (get_or b 28 0))

pub length-rewrite_frame : (k : Kernel) (buf : List ℕ) → length (rewrite_frame k buf) ≡ length buf
unfolding rewrite_frame
length-rewrite_frame k buf =
    length-store_check _ _ ∙ length-store_check (flip_nets buf) 0 ∙ length-flip_nets buf

pub pad-length : (b : List ℕ) → (60 ≤ length (pad b)) × (length b ≤ 1500 → length (pad b) ≤ 1500)
pad-length b = ground (
  arith,
  length-append b (replicate (60 - length b) 0),
  length-replicate {A = ℕ} (60 - length b) 0,
)

module _ (k : Kernel) (q : Params) where
  -- a sound state whose device is marked for an interrupt, or stopped
  marked-Keeps :
      (s : Net) (d : Dev) (status : Status)
      → IsSound k s
      → Keeps k s (put s d (record (at s d) { status = status }))
  marked-Keeps s d status v = ground arith

  pub notify-Keeps :
      (ok : Bool) (s : Net) (d : Dev) → IsSound k s → Ends (Keeps k s) (notify k q ok s d)
  unfolding notify
  notify-Keeps ok s d v =
      let status : Status = record (at s d).status { rx_intr = true } in
      ground (
        arith,
        marked-Keeps s d status v,
        interrupt-Keeps k q.use_napi ok (put s d (record (at s d) { status = status })) d,
      )

  loaded-Keeps :
      (s : Net) (d : Dev) (buf : List ℕ)
      → QueueLaws k
      → IsSound k s
      → Keeps k s (loaded s d buf) × Keeps k s (stopped k (loaded s d buf) d)
  loaded-Keeps s d buf law v = ground (arith, law.stopped-stop (at s d).queue)

  complete_tx-Keeps :
      (ok : Bool) (buf : List ℕ) (s : Net) (d : Dev)
      → QueueLaws k
      → IsSound k s
      → Ends (Keeps k s) (complete_tx k q ok buf s d)
  unfolding complete_tx
  complete_tx-Keeps ok buf s d law v =
      let s1 = loaded s d buf in
      let ((v1, c1), jammed) = loaded-Keeps s d buf law v in
      elim (Bool-cases (locks_up q (at s1 d))) [
        | inl up ↦ rw up jammed
        | inr free ↦ rw free (
            Ends-mono _ (Keeps k s) (interrupt k q.use_napi ok s1 d)
              (interrupt-Keeps k q.use_napi ok s1 d v1)
              λ s2 (v2, c2). (v2, Conserves-trans s s1 s2 none none none c1 c2))
      ]

  Conserves-3 :
      (s s1 s2 s3 : Net) (pkt : PacketBuf) (n : ℕ) (buf : List ℕ)
      → Conserves s s1 (some (record pkt { datalen = n; bytes = buf })) none
      → Conserves s1 s2 none none
      → Conserves s2 s3 none none
      → Conserves s s3 (some pkt) none
  Conserves-3 s s1 s2 s3 pkt n buf c1 c2 c3 = omega arith

  deliver-Keeps :
      (ok : Bool) (buf : List ℕ) (pkt : PacketBuf) (s : Net) (d : Dev)
      → QueueLaws k
      → IsSound k s
      → length buf ≤ 1500
      → Ends (λ s'. IsSound k s' × Conserves s s' (some pkt) none) (deliver k q ok buf pkt s d)
  unfolding deliver
  deliver-Keeps ok buf pkt s d law v fits =
      let filled : PacketBuf = record pkt { datalen = length buf; bytes = buf } in
      rw (le→ltb 1500 (length buf) fits) (
        Ends-bind (λ s1. IsSound k s1 × Conserves s s1 (some filled) none) _
          (enqueue_buf s (other d) filled) _ (enqueue_buf-Conserves k s (other d) filled v)
          λ s1 (v1, c1).
            Ends-bind (Keeps k s1) _ (notify k q ok s1 (other d)) _
              (notify-Keeps ok s1 (other d) v1)
              λ s2 (v2, c2).
                Ends-mono _ (λ s'. IsSound k s' × Conserves s s' (some pkt) none)
                  (complete_tx k q ok buf s2 d) (complete_tx-Keeps ok buf s2 d law v2)
                  λ s3 (v3, c3). (v3, Conserves-3 s s1 s2 s3 pkt (length buf) buf c1 c2 c3))

  with_buffer-Keeps :
      (ok : Bool) (buf : List ℕ) (d : Dev) (pkt : Option PacketBuf) (s : Net)
      → QueueLaws k
      → IsSound k s
      → length buf ≤ 1500
      → pkt ≢ none
      → Ends (λ s'. IsSound k s' × Conserves s s' pkt none) (with_buffer k q ok buf d pkt s)
  unfolding with_buffer
  with_buffer-Keeps ok buf d none s law v fits given = absurd (given refl)
  with_buffer-Keeps ok buf d (some pkt) s law v fits given = deliver-Keeps ok buf pkt s d law v fits

  hw_tx_frame-Keeps :
      (ok : Bool) (buf : List ℕ) (s : Net) (d : Dev)
      → QueueLaws k
      → IsSound k s
      → (at s d).ppool ≢ []
      → length buf ≤ 1500
      → Ends (Keeps k s) (hw_tx_frame k q ok buf s d)
  unfolding hw_tx_frame
  hw_tx_frame-Keeps ok buf s d law v ne fits =
      Ends-bind (λ r. IsSound k r.1 × Conserves s r.1 none r.0 × (r.0 ≢ none)) (Keeps k s)
        (get_tx_buffer k s d) _ (get_tx_buffer-Conserves k s d law v ne)
        λ (pkt, s1) (v1, c1, given).
          Ends-mono _ (Keeps k s) (with_buffer k q ok buf d pkt s1)
            (with_buffer-Keeps ok buf d pkt s1 law v1 fits given)
            λ s2 (v2, c2). (v2, Conserves-trans s s1 s2 none pkt none c1 c2)

  -- an empty pool has stopped the queue
  running-pool :
      (s : Net) (d : Dev)
      → IsSound k s
      → k.queue_stopped (at s d).queue ≡ false
      → (at s d).ppool ≢ []
  running-pool s d v running = ground arith

  hw_tx-Keeps :
      (ok : Bool) (buf : List ℕ) (s : Net) (d : Dev)
      → QueueLaws k
      → IsSound k s
      → (at s d).ppool ≢ []
      → length buf ≤ 1500
      → Ends (Keeps k s) (hw_tx k q ok buf s d)
  unfolding hw_tx
  hw_tx-Keeps ok buf s d law v ne fits = elim (Bool-cases (ltb (length buf) 34)) [
    | inl short ↦ rw short (v, omega arith)
    | inr long ↦ rw long (
        hw_tx_frame-Keeps ok (rewrite_frame k buf) s d law v ne
          (rw (length-rewrite_frame k buf) fits))
  ]

  pub skb_lem :
      (s : Net) (d : Dev) (skb : Option ℕ)
      → IsSound k s
      → Keeps k s (put s d (record (at s d) { skb = skb }))
  skb_lem s d skb v = ground arith

  skb-pool :
      (s : Net) (d : Dev) (skb : Option ℕ)
      → (at s d).ppool ≢ []
      → (at (put s d (record (at s d) { skb = skb })) d).ppool ≢ []
  skb-pool s eth0 skb ne = ne
  skb-pool s eth1 skb ne = ne

  -- A frame of at most 1500 bytes on a device whose queue is not stopped, as the kernel sends it,
  -- where a queue that the driver stops counts as stopped: from sound devices the transmission
  -- ends with the devices sound, so with both locks free, and every packet buffer is in the pool
  -- of its device or on a receive list.
  pub xmit-Keeps :
      (ok : Bool) (skb : SkBuff) (s : Net) (d : Dev)
      → QueueLaws k
      → IsSound k s
      → k.queue_stopped (at s d).queue ≡ false
      → length skb.bytes ≤ 1500
      → Ends (Keeps k s) (xmit k q ok skb s d)
  unfolding xmit
  xmit-Keeps ok skb s d law v running fits =
      let s1 = put s d (record (at s d) { skb = some skb.addr }) in
      let (v1, c1) = skb_lem s d (some skb.addr) v in
      Ends-mono _ (Keeps k s) (hw_tx k q ok (pad skb.bytes) s1 d)
        (hw_tx-Keeps ok (pad skb.bytes) s1 d law v1
          (skb-pool s d (some skb.addr) (running-pool s d v running))
          ((pad-length skb.bytes).1 fits))
        λ s2 (v2, c2). (v2, Conserves-trans s s1 s2 none none none c1 c2)
