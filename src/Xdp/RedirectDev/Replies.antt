-- ===== src/Xdp/RedirectDev/Replies.antt =====
-- What `reflect`, `set_macs` and `rewrite_reply` of ebpf-xdp/kernel/xdp_redirect_dev.c leave of a frame.
use hack.Base.{ℕ, ◌+◌, ◌≤◌, ◌<◌, ◌≡◌, ◌⊎◌, inl, inr, refl, ◌∙◌, some, length, arith, get_or}
use hack.Base.Fault.{Runs, Runs-bind, Runs-mono}
use hack.Xdp.Memory.{Packet, byte, blit, slice}
use hack.Xdp.Memory.Laws.{
  copy_from-some, copy_to-some, length-blit, byte-blit_in, byte-blit_out, length-slice,
  get_or-slice,
}
use hack.Xdp.Route.{FibParams, mac_bytes}
use hack.Xdp.RedirectDev.{set_macs, reflect, rewrite_reply}

-- The Ethernet addresses of `q` are those of the next hop.
pub record HasMacs (fib : FibParams) (q : Packet) : Type 0 where
  pub dest : (i : ℕ) → i < 6 → byte q i ≡ get_or (mac_bytes fib.dmac) i 0
  pub source : (i : ℕ) → i < 6 → byte q (6 + i) ≡ get_or (mac_bytes fib.smac) i 0

set_macs-Runs :
    (p : Packet) (fib : FibParams)
    → 12 ≤ length p
    → Runs
        (λ q. (length q ≡ length p) × HasMacs fib q × ((j : ℕ) → 12 ≤ j → byte q j ≡ byte p j))
        (set_macs p fib)
unfolding set_macs
set_macs-Runs p fib h =
    rw
      (
        copy_to-some p 0 (mac_bytes fib.dmac) h',
        copy_to-some (blit p 0 (mac_bytes fib.dmac)) 6 (mac_bytes fib.smac)
            (omega (arith, length-blit (mac_bytes fib.dmac) p 0)),
      )
      (
        length-blit (mac_bytes fib.smac) (blit p 0 (mac_bytes fib.dmac)) 6
            ∙ length-blit (mac_bytes fib.dmac) p 0,
        record {
          dest = λ i lt.
              byte-blit_out (mac_bytes fib.smac) (blit p 0 (mac_bytes fib.dmac)) 6 i (inl lt)
              ∙ (let e : 0 + i ≡ i = omega arith in
                  rw e at (byte-blit_in (mac_bytes fib.dmac) p 0 i h' lt));
          source = λ i lt.
              byte-blit_in (mac_bytes fib.smac) (blit p 0 (mac_bytes fib.dmac)) 6 i
                (omega (arith, length-blit (mac_bytes fib.dmac) p 0)) lt;
        },
        λ j le.
            byte-blit_out (mac_bytes fib.smac) (blit p 0 (mac_bytes fib.dmac)) 6 j (inr le)
            ∙ byte-blit_out (mac_bytes fib.dmac) p 0 j (inr (omega arith)),
      )
  where
    h' : 0 + 6 ≤ length p
    h' = omega arith

-- What `reflect` leaves: the two addresses of the IPv4 header have changed places.
pub record IsReflected (p q : Packet) : Type 0 where
  pub saddr : (i : ℕ) → i < 4 → byte q (26 + i) ≡ byte p (30 + i)
  pub daddr : (i : ℕ) → i < 4 → byte q (30 + i) ≡ byte p (26 + i)
  pub other : (j : ℕ) → (j < 26) ⊎ (34 ≤ j) → byte q j ≡ byte p j

module _ (p : Packet) (h : 34 ≤ length p) where
  length_saddr : length (slice p 26 4) ≡ 4
  length_saddr = length-slice p 26 4 (omega arith)

  length_daddr : length (slice p 30 4) ≡ 4
  length_daddr = length-slice p 30 4 h

  abbrev swapped_daddr : Packet
  swapped_daddr = blit p 30 (slice p 26 4)

  abbrev swapped : Packet
  swapped = blit swapped_daddr 26 (slice p 30 4)

  length-swapped_daddr : length swapped_daddr ≡ length p
  length-swapped_daddr = length-blit (slice p 26 4) p 30

  swapped-IsReflected : IsReflected p swapped
  swapped-IsReflected = record {
    saddr = λ i lt.
        byte-blit_in (slice p 30 4) swapped_daddr 26 i
          (omega (arith, length-swapped_daddr, length_daddr)) (omega (arith, length_daddr))
        ∙ get_or-slice p 30 4 i lt;
    daddr = λ i lt.
        byte-blit_out (slice p 30 4) swapped_daddr 26 (30 + i) (inr (omega (arith, length_daddr)))
        ∙ byte-blit_in (slice p 26 4) p 30 i (omega (arith, length_saddr))
            (omega (arith, length_saddr))
        ∙ get_or-slice p 26 4 i lt;
    other = λ j out.
        byte-blit_out (slice p 30 4) swapped_daddr 26 j (omega (arith, length_daddr))
        ∙ byte-blit_out (slice p 26 4) p 30 j (omega (arith, length_saddr));
  }

  reflect-closed : reflect p ≡ some swapped
  unfolding reflect
  reflect-closed =
      rw
        (
          copy_from-some p 30 4 h,
          copy_from-some p 26 4 (omega arith),
          copy_to-some p 30 (slice p 26 4) (omega (arith, length_saddr)),
          copy_to-some swapped_daddr 26 (slice p 30 4)
              (omega (arith, length-swapped_daddr, length_daddr)),
        )
        refl

  pub reflect-Runs : Runs (λ q. (length q ≡ length p) × IsReflected p q) (reflect p)
  reflect-Runs =
      rw reflect-closed
        (length-blit (slice p 30 4) swapped_daddr 26 ∙ length-swapped_daddr, swapped-IsReflected)

-- The reply that leaves for the route `fib`: addresses swapped, next hop set, nothing else changed.
pub record IsReply (fib : FibParams) (p q : Packet) : Type 0 where
  pub same_length : length q ≡ length p
  pub macs : HasMacs fib q
  pub saddr : (i : ℕ) → i < 4 → byte q (26 + i) ≡ byte p (30 + i)
  pub daddr : (i : ℕ) → i < 4 → byte q (30 + i) ≡ byte p (26 + i)
  pub other : (j : ℕ) → 12 ≤ j → (j < 26) ⊎ (34 ≤ j) → byte q j ≡ byte p j

-- The frame that is sent on: next hop set, nothing behind the Ethernet addresses changed.
pub record IsForwarded (fib : FibParams) (p q : Packet) : Type 0 where
  pub same_length : length q ≡ length p
  pub macs : HasMacs fib q
  pub other : (j : ℕ) → 12 ≤ j → byte q j ≡ byte p j

pub IsReply-Runs :
    (p : Packet) (fib : FibParams) → 34 ≤ length p → Runs (IsReply fib p) (rewrite_reply p fib)
unfolding rewrite_reply
IsReply-Runs p fib h = Runs-bind _ (IsReply fib p) (reflect p) _ (reflect-Runs p h) λ p1 (len, r).
    Runs-mono _ (IsReply fib p) (set_macs p1 fib) (set_macs-Runs p1 fib (omega arith))
      λ q (len', m, keep). record {
        same_length = len' ∙ len;
        macs = m;
        saddr = λ i lt. keep (26 + i) (omega arith) ∙ r.saddr i lt;
        daddr = λ i lt. keep (30 + i) (omega arith) ∙ r.daddr i lt;
        other = λ j le out. keep j le ∙ r.other j out;
      }

pub forward-Runs :
    (p : Packet) (fib : FibParams) → 12 ≤ length p → Runs (IsForwarded fib p) (set_macs p fib)
forward-Runs p fib h =
    Runs-mono _ (IsForwarded fib p) (set_macs p fib) (set_macs-Runs p fib h)
      λ q (len, m, keep). record { same_length = len; macs = m; other = keep }
