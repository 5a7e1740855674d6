-- ===== src/Xdp/Rewrite/Tag.antt =====
-- ebpf-xdp/packet/kernel/rewrite_helpers.h: the packets that the VLAN operations write.
use hack.Base.{
  ℕ, List, Option, length, ◌++◌, ◌≤◌, ◌≡◌, ◌+◌, some, arith, ◌∙◌, length-append, drop, le→ltb,
  length-drop, refl,
}
use hack.Base.Int.{ℤ, negsuc, pos}
use hack.Xdp.Memory.{Packet, put16, blit, word16, swap16, slice}
use hack.Xdp.Rewrite.{vlan_tag_pop, vlan_tag_push, pop_copy, push_copy}
use hack.Xdp.Parsing.{eth_p_8021q, proto_is_vlan}
use hack.Xdp.Memory.Laws.{
  load16-some, copy_from-some, length-put16, length-blit, length-slice, copy_to-some, store16-some,
}

-- What the programs rely on `bpf_xdp_adjust_head` for, with a packet that is long enough: the head moves,
-- and the bytes behind it stay; a head that moves out has four bytes of any content before the packet.
pub record HeadLaws (adjust_head : ℤ → Packet → Option Packet) (room : List ℕ) : Type 0 where
  pub shrinks : (p : Packet) → 18 ≤ length p → adjust_head (pos 4) p ≡ some (drop 4 p)
  pub grows : (p : Packet) → adjust_head (negsuc 3) p ≡ some (room ++ p)
  pub four : length room ≡ 4

-- the packet with the tag, as `vlan_tag_push` writes it
abbrev pub copied : List ℕ → Packet → Packet
copied room p = blit (room ++ p) 0 (slice p 0 14)

abbrev pub tagged : List ℕ → Packet → ℕ → Packet
tagged room p vlid = put16 (copied room p) 14 (swap16 vlid)

abbrev pub pushed : List ℕ → Packet → ℕ → Packet
pushed room p vlid =
    let q = tagged room p vlid in put16 (put16 q 16 (word16 q 12)) 12 (swap16 eth_p_8021q)

-- the packet without it, as `vlan_tag_pop` writes it
abbrev pub popped : Packet → Packet
popped q = put16 (blit (drop 4 q) 0 (slice q 0 14)) 12 (word16 q 16)

module _ (adjust_head : ℤ → Packet → Option Packet) (room : List ℕ)
    (law : HeadLaws adjust_head room) where
  pub length-copied : (p : Packet) → length (copied room p) ≡ 4 + length p
  length-copied p =
      omega (arith, length-blit (slice p 0 14) (room ++ p) 0, length-append room p, law.four)

  pub length-tagged : (p : Packet) (vlid : ℕ) → length (tagged room p vlid) ≡ 4 + length p
  length-tagged p vlid = length-put16 (copied room p) 14 (swap16 vlid) ∙ length-copied p

  pub push_copy_lem :
      (p : Packet) (vlid : ℕ)
      → 14 ≤ length p
      → push_copy (slice p 0 14) vlid (room ++ p) ≡ some (pushed room p vlid, some 0)
  unfolding push_copy
  push_copy_lem p vlid h =
      let l = length-append room p in
      let c = length-copied p in
      let t = length-tagged p vlid in
      let s = length-slice p 0 14 h in
      let q = tagged room p vlid in
      rw (le→ltb (length (room ++ p)) 14 (omega (arith, l))) (
        rw (copy_to-some (room ++ p) 0 (slice p 0 14) (omega (arith, l, s))) (
          rw (le→ltb (length (copied room p)) 18 (omega (arith, c))) (
            rw (store16-some (copied room p) 14 (swap16 vlid) (omega (arith, c))) (
              rw (load16-some q 12 (omega (arith, t))) (
                rw (store16-some q 16 (word16 q 12) (omega (arith, t))) (
                  rw
                    (store16-some (put16 q 16 (word16 q 12)) 12 (swap16 eth_p_8021q)
                      (omega (arith, t, length-put16 q 16 (word16 q 12))))
                    refl))))))

  pub push_lem :
      (p : Packet) (vlid : ℕ)
      → 14 ≤ length p
      → vlan_tag_push adjust_head p 0 vlid ≡ some (pushed room p vlid, some 0)
  unfolding vlan_tag_push
  push_lem p vlid h = rw (copy_from-some p 0 14 h) (rw (law.grows p) (push_copy_lem p vlid h))

  pub pop_copy_lem :
      (q : Packet) (vlid : ℕ)
      → 18 ≤ length q
      → pop_copy (slice q 0 14) (word16 q 16) vlid (drop 4 q) ≡ some (popped q, some vlid)
  unfolding pop_copy
  pop_copy_lem q vlid h =
      let l = length-drop 4 q in
      let s = length-slice q 0 14 (omega arith) in
      rw (le→ltb (length (drop 4 q)) 14 (omega (arith, l))) (
        rw (copy_to-some (drop 4 q) 0 (slice q 0 14) (omega (arith, l, s))) (
          rw
            (store16-some (blit (drop 4 q) 0 (slice q 0 14)) 12 (word16 q 16)
              (omega (arith, l, length-blit (slice q 0 14) (drop 4 q) 0)))
            refl))

  pub pop_lem :
      (q : Packet)
      → 18 ≤ length q
      → word16 q 12 ≡ swap16 eth_p_8021q
      → vlan_tag_pop adjust_head q 0 ≡ some (popped q, some (swap16 (word16 q 14)))
  unfolding vlan_tag_pop proto_is_vlan
  pop_lem q h tag = rw (load16-some q 12 (omega arith)) (
      rw tag (
        rw (le→ltb (length q) 18 h) (
          rw (load16-some q 14 (omega arith)) (
            rw (load16-some q 16 h) (
              rw (copy_from-some q 0 14 (omega arith))
                (rw (law.shrinks q h) (pop_copy_lem q (swap16 (word16 q 14)) h)))))))
