-- ===== src/Raw/Packets.antt =====
-- The packets that `make_ip_packet` of sock-raw-mmap-packet-ip/client/client.c makes.
use hack.Base.{
  ℕ, List, ◌≤◌, ◌<◌, length, ◌+◌, replicate, ◌∷◌, ◌≡◌, [], ◌++◌, arith, ◌∙◌, some, refl, none, inl,
  length-append, take, ap, length-replicate, get_or-take, get_or, drop, ◌^◌, ◌↔◌, ◌%◌, length-take,
}
use hack.Xdp.Memory.{blit, Packet, byte, put16}
use hack.Xdp.Memory.Laws.{
  IsBytes, byte-blit_out, length-blit, copy_to-some, length-put16, store16-some, byte-blit_in,
}
use hack.Raw.{assign, fold, make_ip_packet, assignments, ipcsum}
use hack.Raw.Checksum.{
  sum_of, sum_of-add, sum_of-eq, ipcsum-some, sum_of-put16, fold_lem, sum_of-lt, fold-zero,
}
use hack.Raw.Writes.{
  assign-some, length-assigned, byte-assigned, IsBytes-assigned, IsBytes-zeros, byte-zeros,
  sum_loop-none, assigned,
}

lt_of_part : (a b : ℕ) → 0 < a → 0 < a + b
lt_of_part a b h = omega arith

receiver_lem :
    (header later all c : ℕ)
    → all ≡ header + later
    → (all + c) % 65535 ≡ 0
    → ((header + c) % 65535 ≡ 0) ↔ (later % 65535 ≡ 0)
receiver_lem header later all c e h = ((λ k. omega arith), λ k. omega arith)

module _ (msg heap : List ℕ) where
  -- the memory as `memset` leaves it
  abbrev pub cleared : Packet
  cleared = replicate (34 + length msg) 0 ++ heap

  abbrev headed : Packet
  headed = assigned (assignments (length msg)) cleared

  length-cleared : length cleared ≡ 34 + length msg + length heap
  length-cleared =
      length-append (replicate (34 + length msg) 0) heap
      ∙ ap (λ n. n + length heap) (length-replicate (34 + length msg) 0)

  assign-headed : assign (assignments (length msg)) cleared ≡ some headed
  assign-headed = assign-some (assignments (length msg)) cleared (omega (arith, length-cleared))

  length-headed : length headed ≡ 34 + length msg + length heap
  length-headed = length-assigned (assignments (length msg)) cleared ∙ length-cleared

  -- With less than 20 more bytes than the message behind the allocation, the checksum reads past all memory.
  pub make_ip_packet-beyond : length heap < 20 + length msg → make_ip_packet msg heap ≡ none
  unfolding make_ip_packet ipcsum
  make_ip_packet-beyond short = rw assign-headed (
      rw
        (sum_loop-none (20 + length msg) headed 14 0 (omega (arith, length-headed))
          (omega (arith, length-headed, short)))
        refl)

  module _ (bytes : IsBytes heap) (small : length msg < 65516)
      (room : 20 + length msg ≤ length heap) where
    IsBytes-headed : IsBytes headed
    IsBytes-headed =
        IsBytes-assigned (assignments (length msg)) cleared (omega arith)
          (IsBytes-zeros (34 + length msg) heap bytes)

    abbrev all_words : ℕ
    all_words = sum_of (20 + length msg) headed 14

    abbrev check : ℕ
    check = fold all_words

    abbrev checked : Packet
    checked = blit (put16 headed 24 check) 34 msg

    length-checked : length checked ≡ 34 + length msg + length heap
    length-checked =
        length-blit msg (put16 headed 24 check) 34 ∙ length-put16 headed 24 check ∙ length-headed

    make_ip_packet-some :
        make_ip_packet msg heap ≡ some (34 + length msg, take (34 + length msg) checked)
    unfolding make_ip_packet
    make_ip_packet-some = rw assign-headed (
        rw (ipcsum-some (20 + length msg) headed 14 (omega (arith, length-headed, room))) (
          rw (store16-some headed 24 check (omega (arith, length-headed))) (
            rw
              (copy_to-some (put16 headed 24 check) 34 msg
                (omega (arith, length-put16 headed 24 check, length-headed)))
              refl)))

    all_small : all_words < 2 ^ 32
    all_small = omega (arith, sum_of-lt (20 + length msg) headed 14 IsBytes-headed, small)

    -- the sum of the header's words before and after the checksum is put there
    header_sum : sum_of 10 (take (34 + length msg) checked) 14 ≡ sum_of 10 headed 14 + check
    header_sum =
        sum_of-eq 10 (put16 headed 24 check) (take (34 + length msg) checked) 14 (λ j le lt.
          get_or-take (34 + length msg) j checked 0 (omega arith)
          ∙ byte-blit_out msg (put16 headed 24 check) 34 j (inl (omega arith)))
        ∙ sum_of-put16 10 5 headed 14 check (omega arith) (omega (arith, length-headed))
            (omega (
              arith,
              byte-assigned (assignments (length msg)) cleared 24 (omega arith),
              byte-assigned (assignments (length msg)) cleared 25 (omega arith),
              byte-zeros (34 + length msg) 24 heap (omega arith),
              byte-zeros (34 + length msg) 25 heap (omega arith),
            ))
            (fold_lem all_words all_small).1

    all_split : all_words ≡ sum_of 10 headed 14 + sum_of (10 + length msg) cleared 34
    all_split =
        ap (λ n. sum_of n headed 14)
          (let e : 20 + length msg ≡ 10 + (10 + length msg) = omega arith in e)
        ∙ sum_of-add 10 (10 + length msg) headed 14
        ∙ ap (λ n. sum_of 10 headed 14 + n)
            (sum_of-eq (10 + length msg) cleared headed 34
              (λ j le lt. byte-assigned (assignments (length msg)) cleared j (omega arith)))

    -- the byte of version and header length
    first_byte : byte headed 14 ≡ 0x45
    first_byte =
        let ws = assignments (length msg) in
        let before = assigned (take 3 ws) cleared in
        byte-assigned (drop 4 ws) (blit before 14 (0x45 ∷ [])) 14 (omega arith)
        ∙ byte-blit_in (0x45 ∷ []) before 14 0
            (omega (arith, length-assigned (take 3 ws) cleared, length-cleared)) (omega arith)

    header_pos : 0 < sum_of 10 headed 14
    header_pos = omega (arith, first_byte)

    -- Enough bytes behind the allocation for the reading of `ipcsum`, and a message that fits into an IP packet: the
    -- packet is made, and carries the message. Its checksum is one that a receiver accepts exactly when the words
    -- behind the header, which `ipcsum` adds up too, make a multiple of 65535: it counts words where the header
    -- has half as many, and adds up the message's length besides.
    pub make_ip_packet-checksum :
        (q : Packet) × (make_ip_packet msg heap ≡ some (34 + length msg, q))
        × ((i : ℕ) → i < length msg → byte q (34 + i) ≡ get_or msg i 0)
        × ((ipcsum q 14 10 ≡ some 0) ↔ (sum_of (10 + length msg) cleared 34 % 65535 ≡ 0))
    make_ip_packet-checksum =
        let q = take (34 + length msg) checked in
        let total = sum_of 10 headed 14 + check in
        let (folded, word, some_sum) = fold_lem all_words all_small in
        let header_small = sum_of-lt 10 headed 14 IsBytes-headed in
        let accepts =
          receiver_lem (sum_of 10 headed 14) (sum_of (10 + length msg) cleared 34) all_words check
            all_split folded in
        let positive = lt_of_part (sum_of 10 headed 14) check header_pos in
        let zero_iff = fold-zero total (omega arith) in
        let header_words =
          ipcsum-some 10 q 14
            (omega (arith, length-take (34 + length msg) checked (omega (arith, length-checked))))
          ∙ ap (λ s. some (fold s)) header_sum in
        (
          q,
          make_ip_packet-some,
          (λ i lt.
              get_or-take (34 + length msg) (34 + i) checked 0 (omega arith)
              ∙ byte-blit_in msg (put16 headed 24 check) 34 i
                  (omega (arith, length-put16 headed 24 check, length-headed)) lt),
          (
            (λ e. accepts.0 (zero_iff.0 (cc (e, header_words))).1),
            λ e. header_words ∙ ap some (zero_iff.1 (positive, accepts.1 e)),
          ),
        )
