-- ===== src/Xdp/BlockPort/Ports.antt =====
-- What ebpf-xdp/packet/kernel/xdp_packet_block.c does to the ports and checksums of UDP and TCP
-- headers.
use hack.Base.{
  ℕ, ◌+◌, ◌-◌, ◌%◌, sym, ◌≤◌, ◌≡◌, ◌≢◌, ◌↔◌, inl, inr, refl, ap, ◌∙◌, Option, arith, ==→eq, ne→==,
  length, Bool-cases, ◌==◌,
}
use hack.Base.Fault.{Runs}
use hack.Xdp.Action.{drop, pass}
use hack.Xdp.Memory.{Packet, byte, swap16, word16, put16}
use hack.Xdp.Memory.Laws.{
  length-put16, word16-put16_self, word16-put16_ne, byte-put16_ne, IsBytes, word16-lt,
}
use hack.Xdp.BlockPort.{Outcome, rewrite_udp, filter_tcp, lower_port, count_drop}
use hack.Xdp.BlockPort.Closed.{
  udp_lowered, rewrite_udp-closed, tcp_counted, filter_tcp-closed, length-tcp_counted,
}
use hack.Xdp.BlockPort.Sums.{
  next_check, word16-checked_self, byte-checked_ne, word16-checked_ne, lower_port_lem, sum_kept,
  sum_lost, next_check-ne, byte-put16_restored, Outside,
}

module _ (p : Packet) (pos : ℕ) (fits : pos + 8 ≤ length p) (bytes : IsBytes p) where
  udp_port : (word16 (udp_lowered p pos) (pos + 2) ≡ lower_port (word16 p (pos + 2)))
  udp_port =
      word16-checked_ne (put16 p (pos + 2) (lower_port (word16 p (pos + 2)))) (pos + 6) (pos + 2)
        (omega arith)
      ∙ word16-put16_self p (pos + 2) (lower_port (word16 p (pos + 2))) (omega arith) (omega arith)

  udp_check : word16 (udp_lowered p pos) (pos + 6) ≡ next_check (word16 p (pos + 6))
  udp_check =
      word16-checked_self (put16 p (pos + 2) (lower_port (word16 p (pos + 2)))) (pos + 6)
        (omega (arith, length-put16 p (pos + 2) (lower_port (word16 p (pos + 2)))))
      ∙ ap next_check (
          word16-put16_ne p (pos + 2) (lower_port (word16 p (pos + 2))) (pos + 6)
            (inl (omega arith)))

  udp_other :
      (j : ℕ) → Outside (pos + 2) j → Outside (pos + 6) j → byte (udp_lowered p pos) j ≡ byte p j
  udp_other j h k =
      byte-checked_ne (put16 p (pos + 2) (lower_port (word16 p (pos + 2)))) (pos + 6) j
        (omega arith) (omega arith)
      ∙ byte-put16_ne p (pos + 2) (lower_port (word16 p (pos + 2))) j (omega arith) (omega arith)

-- The port is one less, and no byte has changed but those of the port and of the checksum. Their
-- ones' complement sum is the same exactly when the low byte of the checksum was not 255.
abbrev pub IsLowered : Packet → ℕ → Packet → Type 0
IsLowered p pos q =
    (swap16 (word16 q (pos + 2)) ≡ swap16 (word16 p (pos + 2)) - 1)
    × ((j : ℕ) → Outside (pos + 2) j → Outside (pos + 6) j → byte q j ≡ byte p j)
    × ((byte p (pos + 7) ≢ 255) ↔ (
        (word16 q (pos + 2) + word16 q (pos + 6)) % 65535
        ≡ (word16 p (pos + 2) + word16 p (pos + 6)) % 65535))

-- A UDP header inside a packet of bytes, to another port than 0, has its port lowered by one and no
-- byte changed but those of its port and its checksum. The ones' complement sum of port and
-- checksum stays what it was exactly when the low byte of the checksum was not 255: the update
-- loses the carry out of that byte.
pub rewrite_udp-checksum :
    (p : Packet) (pos : ℕ)
    → pos + 8 ≤ length p
    → IsBytes p
    → word16 p (pos + 2) ≢ 0
    → Runs (IsLowered p pos) (rewrite_udp p pos)
rewrite_udp-checksum p pos fits bytes ne =
    let d = word16 p (pos + 2) in
    let c = word16 p (pos + 6) in
    let lt = word16-lt p (pos + 2) bytes in
    let e : pos + 6 + 1 ≡ pos + 7 = omega arith in
    rw (rewrite_udp-closed p pos fits) (
      rw (udp_port p pos fits bytes) (lower_port_lem d lt ne).0,
      udp_other p pos fits bytes,
      (
        λ h.
            rw (udp_port p pos fits bytes, udp_check p pos fits bytes)
              (sum_kept d c lt ne (rw e (omega (arith, bytes (pos + 6), bytes (pos + 7))))),
        λ s h.
            sum_lost d c lt ne (word16-lt p (pos + 6) bytes) (rw e (omega arith))
              (rw (udp_port p pos fits bytes, udp_check p pos fits bytes) at s),
      ),
    )

module _ (p : Packet) (pos : ℕ) (fits : pos + 20 ≤ length p) (bytes : IsBytes p) where
  tcp_port : word16 (tcp_counted p pos) (pos + 2) ≡ swap16 (word16 p (pos + 2))
  tcp_port =
      word16-checked_ne (put16 p (pos + 2) (swap16 (word16 p (pos + 2)))) (pos + 16) (pos + 2)
        (omega arith)
      ∙ word16-put16_self p (pos + 2) (swap16 (word16 p (pos + 2))) (omega arith) (omega arith)

  tcp_check : word16 (tcp_counted p pos) (pos + 16) ≡ next_check (word16 p (pos + 16))
  tcp_check =
      word16-checked_self (put16 p (pos + 2) (swap16 (word16 p (pos + 2)))) (pos + 16)
        (omega (arith, length-put16 p (pos + 2) (swap16 (word16 p (pos + 2)))))
      ∙ ap next_check
          (word16-put16_ne p (pos + 2) (swap16 (word16 p (pos + 2))) (pos + 16) (inl (omega arith)))

  tcp_other :
      (j : ℕ) → Outside (pos + 2) j → Outside (pos + 16) j → byte (tcp_counted p pos) j ≡ byte p j
  tcp_other j h k =
      byte-checked_ne (put16 p (pos + 2) (swap16 (word16 p (pos + 2)))) (pos + 16) j (omega arith)
        (omega arith)
      ∙ byte-put16_ne p (pos + 2) (swap16 (word16 p (pos + 2))) j (omega arith) (omega arith)

  abbrev passed : Packet
  passed = put16 (tcp_counted p pos) (pos + 2) (swap16 (swap16 (word16 p (pos + 2))))

  passed-byte : (j : ℕ) → Outside (pos + 16) j → byte passed j ≡ byte p j
  passed-byte j h =
      byte-put16_restored (tcp_counted p pos) p (pos + 2) (swap16 (swap16 (word16 p (pos + 2)))) j
        (omega (arith, length-tcp_counted p pos))
        (omega (arith, bytes (pos + 2), bytes (pos + 2 + 1)))
        (omega (arith, bytes (pos + 2), bytes (pos + 2 + 1))) (λ k. tcp_other j k h)

  passed-check : word16 passed (pos + 16) ≢ word16 p (pos + 16)
  passed-check same = next_check-ne (word16 p (pos + 16)) (word16-lt p (pos + 16) bytes) (
      sym tcp_check
      ∙ sym (
          word16-put16_ne (tcp_counted p pos) (pos + 2) (swap16 (swap16 (word16 p (pos + 2))))
            (pos + 16) (inl (omega arith)))
      ∙ same)

-- dropped and counted to port 9999; otherwise passed with another checksum, and no other change
abbrev pub IsFiltered : Packet → Option ℕ → ℕ → Outcome → Type 0
IsFiltered p rxcnt pos o =
    (swap16 (word16 p (pos + 2)) ≡ 9999 → (o.action ≡ drop) × (o.rxcnt ≡ count_drop rxcnt))
    × (swap16 (word16 p (pos + 2)) ≢ 9999
        → (o.action ≡ pass)
          × (o.rxcnt ≡ rxcnt)
          × ((j : ℕ) → Outside (pos + 16) j → byte o.packet j ≡ byte p j)
          × (word16 o.packet (pos + 16) ≢ word16 p (pos + 16)))

-- A TCP header inside a packet of bytes: to port 9999 the packet is dropped and counted. To any
-- other port it passes with the same port and every other byte the same but those of the checksum,
-- which is no longer what it was, although nothing that it covers has changed.
pub filter_tcp-checksum :
    (p : Packet) (rxcnt : Option ℕ) (pos : ℕ)
    → pos + 20 ≤ length p
    → IsBytes p
    → Runs (IsFiltered p rxcnt pos) (filter_tcp p rxcnt pos)
filter_tcp-checksum p rxcnt pos fits bytes =
    rw (filter_tcp-closed p rxcnt pos fits, tcp_port p pos fits bytes)
      (elim (Bool-cases (swap16 (word16 p (pos + 2)) == 9999)) [
        | inl hit ↦ rw hit ((λ _. (refl, refl)), λ ne. absurd (ne (==→eq _ _ hit)))
        | inr miss ↦ rw miss (
          (λ e. absurd (ne→== _ _ miss e)),
          λ _. (refl, refl, passed-byte p pos fits bytes, passed-check p pos fits bytes),
        )
      ])
