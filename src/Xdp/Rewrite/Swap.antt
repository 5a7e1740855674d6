-- ===== src/Xdp/Rewrite/Swap.antt =====
-- ebpf-xdp/packet/kernel/rewrite_helpers.h: what swapping two addresses does, and that it undoes itself.
use hack.Base.{
  ℕ, ◌<◌, arith, ◌⊎◌, ◌≡◌, length, ◌+◌, list_ext, some, ◌≤◌, ◌∙◌, refl, ◌>>=◌, inr, ◌-◌, ap, inl,
}
use hack.Xdp.Rewrite.{swap_fields, swap_src_dst_mac, swap_src_dst_ipv4, swap_src_dst_ipv6}
use hack.Xdp.Memory.{Packet, byte, blit, slice}
use hack.Xdp.Memory.Laws.{
  length-slice, length-blit, byte-blit_in, byte-blit_out, copy_from-some, get_or-slice,
  copy_to-some,
}

-- two fields of `n` bytes, in the packet and apart
pub record AreApart (p : Packet) (a b n : ℕ) : Type 0 where
  pub first : a + n ≤ length p
  pub second : b + n ≤ length p
  pub apart : (a + n ≤ b) ⊎ (b + n ≤ a)

abbrev swapped : Packet → ℕ → ℕ → ℕ → Packet
swapped p a b n = blit (blit p a (slice p b n)) b (slice p a n)

length-swapped : (p : Packet) (a b n : ℕ) → length (swapped p a b n) ≡ length p
length-swapped p a b n =
    length-blit (slice p a n) (blit p a (slice p b n)) b ∙ length-blit (slice p b n) p a

swap_fields-some :
    (p : Packet) (a b n : ℕ) → AreApart p a b n → swap_fields p a b n ≡ some (swapped p a b n)
unfolding swap_fields
swap_fields-some p a b n h =
    let la = length-slice p a n h.first in
    let lb = length-slice p b n h.second in
    rw (copy_from-some p a n h.first) (
      rw (copy_from-some p b n h.second) (
        rw (copy_to-some p a (slice p b n) (omega (arith, lb, h.first))) (
          rw
            (copy_to-some (blit p a (slice p b n)) b (slice p a n)
              (omega (arith, la, h.second, length-blit (slice p b n) p a)))
            refl)))

byte-swapped_a :
    (p : Packet) (a b n i : ℕ)
    → AreApart p a b n
    → i < n
    → byte (swapped p a b n) (a + i) ≡ byte p (b + i)
byte-swapped_a p a b n i h lt =
    let la = length-slice p a n h.first in
    let lb = length-slice p b n h.second in
    byte-blit_out (slice p a n) (blit p a (slice p b n)) b (a + i) (ground (arith, la, h.apart))
    ∙ byte-blit_in (slice p b n) p a i (omega (arith, lb, h.first)) (omega (arith, lb))
    ∙ get_or-slice p b n i lt

byte-swapped_b :
    (p : Packet) (a b n i : ℕ)
    → AreApart p a b n
    → i < n
    → byte (swapped p a b n) (b + i) ≡ byte p (a + i)
byte-swapped_b p a b n i h lt =
    let la = length-slice p a n h.first in
    byte-blit_in (slice p a n) (blit p a (slice p b n)) b i
      (omega (arith, la, h.second, length-blit (slice p b n) p a)) (omega (arith, la))
    ∙ get_or-slice p a n i lt

byte-swapped_out :
    (p : Packet) (a b n j : ℕ)
    → AreApart p a b n
    → (j < a) ⊎ (a + n ≤ j)
    → (j < b) ⊎ (b + n ≤ j)
    → byte (swapped p a b n) j ≡ byte p j
byte-swapped_out p a b n j h oa ob =
    let la = length-slice p a n h.first in
    let lb = length-slice p b n h.second in
    byte-blit_out (slice p a n) (blit p a (slice p b n)) b j (ground (arith, la))
    ∙ byte-blit_out (slice p b n) p a j (ground (arith, lb))

AreApart-swapped : (p : Packet) (a b n : ℕ) → AreApart p a b n → AreApart (swapped p a b n) a b n
AreApart-swapped p a b n h = record {
  first = omega (arith, h.first, length-swapped p a b n);
  second = omega (arith, h.second, length-swapped p a b n);
  apart = h.apart;
}

-- an offset is outside a field, or a known distance into it
place : (a n j : ℕ) → ((j < a) ⊎ (a + n ≤ j)) ⊎ ((j ≡ a + (j - a)) × (j - a < n))
place a n j = ground arith

byte-swapped-swapped :
    (p : Packet) (a b n j : ℕ)
    → AreApart p a b n
    → byte (swapped (swapped p a b n) a b n) j ≡ byte p j
byte-swapped-swapped p a b n j h =
    let q = swapped p a b n in
    let hq = AreApart-swapped p a b n h in
    elim (place a n j) [
      | inr (e, lt) ↦
          rw e (byte-swapped_a q a b n (j - a) hq lt ∙ byte-swapped_b p a b n (j - a) h lt)
      | inl oa ↦ elim (place b n j) [
        | inr (e, lt) ↦
            rw e (byte-swapped_b q a b n (j - b) hq lt ∙ byte-swapped_a p a b n (j - b) h lt)
        | inl ob ↦ byte-swapped_out q a b n j hq oa ob ∙ byte-swapped_out p a b n j h oa ob
      ]
    ]

swapped-swapped : (p : Packet) (a b n : ℕ) → AreApart p a b n → swapped (swapped p a b n) a b n ≡ p
swapped-swapped p a b n h =
    let q = swapped p a b n in
    list_ext (swapped q a b n) p 0 (length-swapped q a b n ∙ length-swapped p a b n)
      λ j lt. byte-swapped-swapped p a b n j h

swap_fields-swap_fields :
    (p : Packet) (a b n : ℕ)
    → AreApart p a b n
    → (swap_fields p a b n >>= λ q. swap_fields q a b n) ≡ some p
swap_fields-swap_fields p a b n h = rw (swap_fields-some p a b n h) (
    swap_fields-some (swapped p a b n) a b n (AreApart-swapped p a b n h)
    ∙ ap some (swapped-swapped p a b n h))

-- A swap of the addresses of an Ethernet, an IPv4 and an IPv6 header that lie in the packet never
-- fails, and a second one gives the packet back.
pub swap_src_dst-twice :
    (p : Packet) (eth iphdr ipv6 : ℕ)
    → eth + 14 ≤ length p
    → iphdr + 20 ≤ length p
    → ipv6 + 40 ≤ length p
    → ((swap_src_dst_mac p eth >>= λ q. swap_src_dst_mac q eth) ≡ some p)
      × ((swap_src_dst_ipv4 p iphdr >>= λ q. swap_src_dst_ipv4 q iphdr) ≡ some p)
      × ((swap_src_dst_ipv6 p ipv6 >>= λ q. swap_src_dst_ipv6 q ipv6) ≡ some p)
unfolding swap_src_dst_mac swap_src_dst_ipv4 swap_src_dst_ipv6
swap_src_dst-twice p eth iphdr ipv6 fits4 fits20 fits40 = (
  swap_fields-swap_fields p (eth + 6) eth 6 (ground arith),
  swap_fields-swap_fields p (iphdr + 12) (iphdr + 16) 4 (ground arith),
  swap_fields-swap_fields p (ipv6 + 8) (ipv6 + 24) 16 (ground arith),
)
