-- ===== src/Xdp/BlockPort/Closed.antt =====
-- The packets that the rewriting of ebpf-xdp/packet/kernel/xdp_packet_block.c leaves, written out.
use hack.Base.{ℕ, ◌+◌, ◌≤◌, ◌≡◌, refl, ◌∙◌, Option, some, arith, length, ◌==◌, if◌then◌else◌}
use hack.Xdp.Action.{drop, pass}
use hack.Xdp.Memory.{Packet, swap16, word16, put16, add16}
use hack.Xdp.Memory.Laws.{load16-some, store16-some, length-put16}
use hack.Xdp.BlockPort.{
  leaves, bump_check, rewrite_udp, filter_tcp, lower_port, count_drop, blocked_port,
}

-- one addition to the field at `c`
abbrev pub bumped : Packet → ℕ → Packet
bumped p c = put16 p c (add16 (word16 p c) (swap16 1))

-- one or two, as `bump_check` makes them
unfoldable pub checked : Packet → ℕ → Packet
checked p c = if word16 (bumped p c) c == 0 then bumped (bumped p c) c else bumped p c

length-bumped : (p : Packet) (c : ℕ) → length (bumped p c) ≡ length p
length-bumped p c = length-put16 p c (add16 (word16 p c) (swap16 1))

pub length-checked : (p : Packet) (c : ℕ) → length (checked p c) ≡ length p
unfolding checked
length-checked p c = ground (arith, length-bumped p c, length-bumped (bumped p c) c)

bump_check-closed : (p : Packet) (c : ℕ) → c + 2 ≤ length p → bump_check p c ≡ some (checked p c)
unfolding bump_check checked
bump_check-closed p c h =
    rw
      (
        load16-some p c h,
        store16-some p c (add16 (word16 p c) (swap16 1)) h,
        load16-some (bumped p c) c (omega (arith, length-bumped p c)),
        store16-some (bumped p c) c (add16 (word16 (bumped p c) c) (swap16 1))
            (omega (arith, length-bumped p c)),
      )
      (ground arith)

-- the UDP branch
abbrev udp_stored : Packet → ℕ → Packet
udp_stored p pos = put16 p (pos + 2) (lower_port (word16 p (pos + 2)))

abbrev pub udp_lowered : Packet → ℕ → Packet
udp_lowered p pos = checked (udp_stored p pos) (pos + 6)

pub length-udp_lowered : (p : Packet) (pos : ℕ) → length (udp_lowered p pos) ≡ length p
length-udp_lowered p pos =
    length-checked (udp_stored p pos) (pos + 6)
    ∙ length-put16 p (pos + 2) (lower_port (word16 p (pos + 2)))

pub rewrite_udp-closed :
    (p : Packet) (pos : ℕ) → pos + 8 ≤ length p → rewrite_udp p pos ≡ some (udp_lowered p pos)
unfolding rewrite_udp
rewrite_udp-closed p pos h =
    rw
      (
        load16-some p (pos + 2) (omega arith),
        store16-some p (pos + 2) (lower_port (word16 p (pos + 2))) (omega arith),
      )
      (bump_check-closed (udp_stored p pos) (pos + 6)
        (omega (arith, length-put16 p (pos + 2) (lower_port (word16 p (pos + 2))))))

-- the TCP branch up to the test of the port
abbrev tcp_stored : Packet → ℕ → Packet
tcp_stored p pos = put16 p (pos + 2) (swap16 (word16 p (pos + 2)))

abbrev pub tcp_counted : Packet → ℕ → Packet
tcp_counted p pos = checked (tcp_stored p pos) (pos + 16)

pub length-tcp_counted : (p : Packet) (pos : ℕ) → length (tcp_counted p pos) ≡ length p
length-tcp_counted p pos =
    length-checked (tcp_stored p pos) (pos + 16)
    ∙ length-put16 p (pos + 2) (swap16 (word16 p (pos + 2)))

pub filter_tcp-closed :
    (p : Packet) (rxcnt : Option ℕ) (pos : ℕ)
    → pos + 20 ≤ length p
    → filter_tcp p rxcnt pos ≡ (
        if word16 (tcp_counted p pos) (pos + 2) == blocked_port
        then some (leaves (tcp_counted p pos) (count_drop rxcnt) drop)
        else some (
            leaves
              (put16 (tcp_counted p pos) (pos + 2) (swap16 (word16 (tcp_counted p pos) (pos + 2))))
              rxcnt
              pass))
unfolding filter_tcp
filter_tcp-closed p rxcnt pos h =
    rw
      (
        load16-some p (pos + 2) (omega arith),
        store16-some p (pos + 2) (swap16 (word16 p (pos + 2))) (omega arith),
        bump_check-closed (tcp_stored p pos) (pos + 16)
            (omega (arith, length-put16 p (pos + 2) (swap16 (word16 p (pos + 2))))),
        load16-some (tcp_counted p pos) (pos + 2) (omega (arith, length-tcp_counted p pos)),
        store16-some (tcp_counted p pos) (pos + 2) (swap16 (word16 (tcp_counted p pos) (pos + 2)))
            (omega (arith, length-tcp_counted p pos)),
      )
      refl
