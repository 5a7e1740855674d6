-- ===== src/Xdp/Rewrite/RoundTrip.antt =====
-- ebpf-xdp/packet/kernel/rewrite_helpers.h: a VLAN tag that is put on is taken off again.
use hack.Base.{
  ℕ, List, Option, length, ◌++◌, ◌≤◌, ◌≡◌, ◌+◌, some, arith, ◌∙◌, length-append, drop, length-drop,
  ◌<◌, inr, sym, inl, get_or-append_right, ◌>>=◌, ◌-◌, get_or-drop, subst, list_ext, ap₂, ap, ◌⊎◌,
}
use hack.Base.Int.{ℤ}
use hack.Xdp.Memory.{Packet, put16, blit, word16, swap16, slice, byte}
use hack.Xdp.Rewrite.{vlan_tag_pop, vlan_tag_push}
use hack.Xdp.Parsing.{eth_p_8021q}
use hack.Xdp.Memory.Laws.{
  length-put16, length-blit, length-slice, word16-put16_ne, word16-put16_self, byte-put16_ne,
  byte-blit_out, byte-blit_in, swap16-lt, get_or-slice, swap16-swap16, byte-put16_low,
  byte-put16_high,
}
use hack.Xdp.Rewrite.Tag.{
  HeadLaws, popped, tagged, pushed, copied, push_lem, length-tagged, pop_lem, length-copied,
}

-- where a byte of the Ethernet header stands
spot : (j : ℕ) → (j < 12) ⊎ ((14 ≤ j) ⊎ ((j ≡ 12) ⊎ (j ≡ 13)))
spot j = ground arith

module _ (adjust_head : ℤ → Packet → Option Packet) (room : List ℕ)
    (law : HeadLaws adjust_head room) where
  byte-copied_low :
      (p : Packet) (j : ℕ) → 14 ≤ length p → j < 14 → byte (copied room p) j ≡ byte p j
  byte-copied_low p j h lt =
      let e : 0 + j ≡ j = omega arith in
      subst (λ i. byte (copied room p) i ≡ byte p i) e
        (byte-blit_in (slice p 0 14) (room ++ p) 0 j
            (omega (arith, length-append room p, length-slice p 0 14 h))
            (omega (arith, length-slice p 0 14 h))
          ∙ get_or-slice p 0 14 j lt)

  byte-copied_high :
      (p : Packet) (j : ℕ) → 14 ≤ length p → 10 ≤ j → byte (copied room p) (4 + j) ≡ byte p j
  byte-copied_high p j h ge =
      byte-blit_out (slice p 0 14) (room ++ p) 0 (4 + j) (ground (arith, length-slice p 0 14 h))
      ∙ rw (sym law.four) (get_or-append_right room p j 0)

  byte-pushed_low :
      (p : Packet) (vlid j : ℕ) → 14 ≤ length p → j < 12 → byte (pushed room p vlid) j ≡ byte p j
  byte-pushed_low p vlid j h lt =
      let q = tagged room p vlid in
      byte-put16_ne (put16 q 16 (word16 q 12)) 12 (swap16 eth_p_8021q) j (omega arith) (omega arith)
      ∙ byte-put16_ne q 16 (word16 q 12) j (omega arith) (omega arith)
      ∙ byte-put16_ne (copied room p) 14 (swap16 vlid) j (omega arith) (omega arith)
      ∙ byte-copied_low p j h (omega arith)

  byte-pushed_high :
      (p : Packet) (vlid j : ℕ)
      → 14 ≤ length p
      → 14 ≤ j
      → byte (pushed room p vlid) (4 + j) ≡ byte p j
  byte-pushed_high p vlid j h ge =
      let q = tagged room p vlid in
      byte-put16_ne (put16 q 16 (word16 q 12)) 12 (swap16 eth_p_8021q) (4 + j) (omega arith)
        (omega arith)
      ∙ byte-put16_ne q 16 (word16 q 12) (4 + j) (omega arith) (omega arith)
      ∙ byte-put16_ne (copied room p) 14 (swap16 vlid) (4 + j) (omega arith) (omega arith)
      ∙ byte-copied_high p j h (omega arith)

  word16-tagged :
      (p : Packet) (vlid : ℕ) → 14 ≤ length p → word16 (tagged room p vlid) 12 ≡ word16 p 12
  word16-tagged p vlid h =
      word16-put16_ne (copied room p) 14 (swap16 vlid) 12 (inr (omega arith))
      ∙ omega (arith, byte-copied_low p 12 h (omega arith), byte-copied_low p 13 h (omega arith))

  -- the three words of the tag
  word16-pushed :
      (p : Packet) (vlid : ℕ)
      → 14 ≤ length p
      → word16 p 12 < 65536
      → (word16 (pushed room p vlid) 12 ≡ swap16 eth_p_8021q)
        × (word16 (pushed room p vlid) 14 ≡ swap16 vlid)
        × (word16 (pushed room p vlid) 16 ≡ word16 p 12)
  word16-pushed p vlid h small =
      let q = tagged room p vlid in
      let r = put16 q 16 (word16 q 12) in
      let lq = length-tagged adjust_head room law p vlid in
      let lr = length-put16 q 16 (word16 q 12) in
      let lc = length-copied adjust_head room law p in
      let proto = swap16 eth_p_8021q in
      let w = word16-tagged p vlid h in
      (
        word16-put16_self r 12 proto (omega (arith, lq, lr)) (swap16-lt eth_p_8021q),
        word16-put16_ne r 12 proto 14 (inl (omega arith))
            ∙ word16-put16_ne q 16 (word16 q 12) 14 (inr (omega arith))
            ∙ word16-put16_self (copied room p) 14 (swap16 vlid) (omega (arith, lc))
                (swap16-lt vlid),
        word16-put16_ne r 12 proto 16 (inl (omega arith))
            ∙ word16-put16_self q 16 (word16 q 12) (omega (arith, lq)) (omega (arith, w, small))
            ∙ w,
      )

  byte-popped_low : (q : Packet) (j : ℕ) → 18 ≤ length q → j < 12 → byte (popped q) j ≡ byte q j
  byte-popped_low q j h lt =
      let e : 0 + j ≡ j = omega arith in
      let s = length-slice q 0 14 (omega arith) in
      byte-put16_ne (blit (drop 4 q) 0 (slice q 0 14)) 12 (word16 q 16) j (omega arith)
        (omega arith)
      ∙ subst (λ i. byte (blit (drop 4 q) 0 (slice q 0 14)) i ≡ byte q i) e
          (byte-blit_in (slice q 0 14) (drop 4 q) 0 j (omega (arith, s, length-drop 4 q))
              (omega (arith, s))
            ∙ get_or-slice q 0 14 j (omega arith))

  byte-popped_high :
      (q : Packet) (j : ℕ) → 18 ≤ length q → 14 ≤ j → byte (popped q) j ≡ byte q (4 + j)
  byte-popped_high q j h ge =
      byte-put16_ne (blit (drop 4 q) 0 (slice q 0 14)) 12 (word16 q 16) j (omega arith)
        (omega arith)
      ∙ byte-blit_out (slice q 0 14) (drop 4 q) 0 j
          (ground (arith, length-slice q 0 14 (omega arith)))
      ∙ get_or-drop 4 j q 0

  length-popped : (q : Packet) → length (popped q) ≡ length q - 4
  length-popped q =
      length-put16 (blit (drop 4 q) 0 (slice q 0 14)) 12 (word16 q 16)
      ∙ length-blit (slice q 0 14) (drop 4 q) 0
      ∙ length-drop 4 q

  length-pushed : (p : Packet) (vlid : ℕ) → length (pushed room p vlid) ≡ 4 + length p
  length-pushed p vlid =
      let q = tagged room p vlid in
      length-put16 (put16 q 16 (word16 q 12)) 12 (swap16 eth_p_8021q)
      ∙ length-put16 q 16 (word16 q 12)
      ∙ length-tagged adjust_head room law p vlid

  byte-popped-pushed :
      (p : Packet) (vlid j : ℕ)
      → 14 ≤ length p
      → byte p 12 < 256
      → byte p 13 < 256
      → byte (popped (pushed room p vlid)) j ≡ byte p j
  byte-popped-pushed p vlid j h b12 b13 =
      let q = pushed room p vlid in
      let lq = length-pushed p vlid in
      let ld = length-drop 4 q in
      let l = length-blit (slice q 0 14) (drop 4 q) 0 in
      let long : 18 ≤ length q = omega (arith, lq) in
      let w = (word16-pushed p vlid h (omega arith)).2 in
      let b = blit (drop 4 q) 0 (slice q 0 14) in
      elim (spot j) [
        | inl low ↦ byte-popped_low q j long low ∙ byte-pushed_low p vlid j h low
        | inr (inl high) ↦ byte-popped_high q j long high ∙ byte-pushed_high p vlid j h high
        | inr (inr (inl e)) ↦
            rw e
              (byte-put16_low b 12 (word16 q 16) (omega (arith, l, ld, lq)) ∙ omega (arith, w, b12))
        | inr (inr (inr e)) ↦ rw e (
            byte-put16_high b 12 (word16 q 16) (omega (arith, l, ld, lq))
            ∙ omega (arith, w, b12, b13))
      ]

  -- For a packet of at least 14 bytes, whose EtherType is two bytes, and a tag of 16 bits, where
  -- `bpf_xdp_adjust_head` moves the head and keeps the bytes behind it: `vlan_tag_push` at the
  -- start of the packet succeeds, and a `vlan_tag_pop` after it succeeds too, gives the packet
  -- back as it was, and returns the whole tag that was pushed, with its upper four bits.
  pub vlan_tag_pop-vlan_tag_push :
      (p : Packet) (vlid : ℕ)
      → 14 ≤ length p
      → byte p 12 < 256
      → byte p 13 < 256
      → vlid < 65536
      → (vlan_tag_push adjust_head p 0 vlid >>= λ r. vlan_tag_pop adjust_head r.0 0)
        ≡ some (p, some vlid)
  vlan_tag_pop-vlan_tag_push p vlid h b12 b13 lt =
      let q = pushed room p vlid in
      let lq = length-pushed p vlid in
      let long : 18 ≤ length q = omega (arith, lq) in
      let (proto, tci, inner) = word16-pushed p vlid h (omega arith) in
      let same : popped q ≡ p =
        list_ext (popped q) p 0 (omega (arith, length-popped q, lq))
          λ j _. byte-popped-pushed p vlid j h b12 b13 in
      rw (push_lem adjust_head room law p vlid h) (
        pop_lem adjust_head room law q long proto
        ∙ ap₂ (λ a b. some (a, some b)) same (ap swap16 tci ∙ swap16-swap16 vlid lt))
