-- ===== src/Xdp/Parsing/Safety.antt =====
-- No parser of ebpf-xdp/packet/kernel/parsing_helpers.h reads outside the packet, and a header that
-- a parser accepts lies inside it.
use hack.Base.{
  ℕ, zero, suc, ◌+◌, ◌*◌, ◌%◌, ◌/◌, ◌≤◌, ◌≡◌, ◌≢◌, inl, inr, Option, none, some, List, arith,
  length, Bool-cases, ltb, tests,
}
use hack.Base.Fault.{Runs, Runs-bind, Runs-mono}
use hack.Xdp.Memory.{Packet, byte, word16, load8, load16}
use hack.Xdp.Parsing.{
  Parse, Walk, vlan_round, vlan_loop, parse_ethhdr_vlan, parse_ethhdr, parse_ip6hdr, parse_iphdr,
  parse_icmp6hdr, parse_icmphdr, parse_icmphdr_common, parse_udphdr, parse_tcphdr, proto_is_vlan,
}

-- What a parser of a header of at least `size` bytes at `pos` may return: the cursor does not move
-- back, nor out of the packet, and a header that is accepted stands at `pos`, inside the packet and
-- before the new cursor.
pub record IsSound (p : Packet) (size pos : ℕ) (r : Parse) : Type 0 where
  pub monotone : pos ≤ r.pos
  pub inside : pos ≤ length p → r.pos ≤ length p
  pub accepted : r.ret ≢ none → (r.hdr ≡ some pos) × (pos + size ≤ r.pos) × (r.pos ≤ length p)

pub parse_ip6hdr-IsSound : (p : Packet) (pos : ℕ) → Runs (IsSound p 40 pos) (parse_ip6hdr p pos)
unfolding parse_ip6hdr load8 load16
parse_ip6hdr-IsSound p pos = ground arith

pub parse_iphdr-IsSound : (p : Packet) (pos : ℕ) → Runs (IsSound p 20 pos) (parse_iphdr p pos)
unfolding parse_iphdr load8 load16
parse_iphdr-IsSound p pos = ground arith

pub parse_icmp6hdr-IsSound : (p : Packet) (pos : ℕ) → Runs (IsSound p 8 pos) (parse_icmp6hdr p pos)
unfolding parse_icmp6hdr load8 load16
parse_icmp6hdr-IsSound p pos = ground arith

pub parse_icmphdr-IsSound : (p : Packet) (pos : ℕ) → Runs (IsSound p 8 pos) (parse_icmphdr p pos)
unfolding parse_icmphdr load8 load16
parse_icmphdr-IsSound p pos = ground arith

pub parse_icmphdr_common-IsSound :
    (p : Packet) (pos : ℕ) → Runs (IsSound p 4 pos) (parse_icmphdr_common p pos)
unfolding parse_icmphdr_common load8 load16
parse_icmphdr_common-IsSound p pos = ground arith

pub parse_udphdr-IsSound : (p : Packet) (pos : ℕ) → Runs (IsSound p 8 pos) (parse_udphdr p pos)
unfolding parse_udphdr load8 load16
parse_udphdr-IsSound p pos = ground arith

pub parse_tcphdr-IsSound : (p : Packet) (pos : ℕ) → Runs (IsSound p 20 pos) (parse_tcphdr p pos)
unfolding parse_tcphdr load8 load16
parse_tcphdr-IsSound p pos = ground arith

-- A round that has passed its tests loads inside the packet, and moves by one tag.
vlan_round_lem :
    (p : Packet) (i : ℕ) (w : Walk)
    → w.vlh + 4 ≤ length p
    → Runs (λ w'. w'.vlh ≡ w.vlh + 4) (vlan_round p i w)
unfolding vlan_round load16
vlan_round_lem p i w h = ground arith

-- `n` rounds pass over `n` tags at most, and stop inside the packet.
abbrev Stops : Packet → ℕ → Walk → Walk → Type 0
Stops p n w w' = (w.vlh ≤ w'.vlh) × (w'.vlh ≤ w.vlh + 4 * n) × (w'.vlh ≤ length p)

vlan_loop-Stops :
    (n : ℕ) (p : Packet) (i : ℕ) (w : Walk)
    → w.vlh ≤ length p
    → Runs (Stops p n w) (vlan_loop n p i w)
unfolding vlan_loop
vlan_loop-Stops zero p i w h = omega arith
vlan_loop-Stops (suc n) p i w h = elim (Bool-cases (proto_is_vlan w.h_proto)) [
  | inl tagged ↦ elim (Bool-cases (ltb (length p) (w.vlh + 4))) [
    | inl short ↦ rw tagged (rw short (omega arith))
    | inr fits ↦ rw tagged (
        rw fits (
          Runs-bind (λ w'. w'.vlh ≡ w.vlh + 4) (Stops p (suc n) w) _ _
            (vlan_round_lem p i w (omega tests))
            λ w' e.
              Runs-mono (Stops p n w') _ _ (vlan_loop-Stops n p (i + 1) w' (omega tests))
                λ w'' s. omega arith))
  ]
  | inr plain ↦ rw plain (omega arith)
]

--
pub parse_ethhdr_vlan-IsSound :
    (p : Packet) (pos : ℕ) (vlans : Option (List ℕ))
    → Runs
        (λ r. IsSound p 14 pos r.parse × (r.parse.pos ≤ pos + 22))
        (parse_ethhdr_vlan p pos vlans)
unfolding parse_ethhdr_vlan load16
parse_ethhdr_vlan-IsSound p pos vlans = ground (
  arith,
  vlan_loop-Stops 2 p 0 (record { vlh = pos + 14; h_proto = word16 p (pos + 12); vlans = vlans }),
)

pub parse_ethhdr-IsSound : (p : Packet) (pos : ℕ) → Runs (IsSound p 14 pos) (parse_ethhdr p pos)
unfolding parse_ethhdr
parse_ethhdr-IsSound p pos = ground (arith, parse_ethhdr_vlan-IsSound p pos none)

-- On every packet and from every cursor, each of the eight header parsers ends without a read
-- outside the packet. It never moves the cursor back or out of the packet, and a header that it
-- accepts stands where the cursor was and lies, whole, inside the packet before the new cursor.
pub parsers-IsSound :
    (p : Packet) (pos : ℕ)
    → Runs (IsSound p 14 pos) (parse_ethhdr p pos)
      × Runs (IsSound p 20 pos) (parse_iphdr p pos)
      × Runs (IsSound p 40 pos) (parse_ip6hdr p pos)
      × Runs (IsSound p 8 pos) (parse_icmp6hdr p pos)
      × Runs (IsSound p 8 pos) (parse_icmphdr p pos)
      × Runs (IsSound p 4 pos) (parse_icmphdr_common p pos)
      × Runs (IsSound p 8 pos) (parse_udphdr p pos)
      × Runs (IsSound p 20 pos) (parse_tcphdr p pos)
parsers-IsSound p pos = (
  parse_ethhdr-IsSound p pos,
  parse_iphdr-IsSound p pos,
  parse_ip6hdr-IsSound p pos,
  parse_icmp6hdr-IsSound p pos,
  parse_icmphdr-IsSound p pos,
  parse_icmphdr_common-IsSound p pos,
  parse_udphdr-IsSound p pos,
  parse_tcphdr-IsSound p pos,
)

-- The header at `pos` has the length `n`, in 32-bit words of at least five, and lies in the packet.
abbrev pub HasHeader : Packet → ℕ → ℕ → Type 0
HasHeader p pos n = (5 ≤ n) × (pos + 4 * n ≤ length p)

-- accepted with the value `ret` exactly where there is a header of `n` words, which is skipped
abbrev pub Accepts : Packet → ℕ → ℕ → ℕ → Parse → Type 0
Accepts p pos n ret r =
    (HasHeader p pos n → (r.ret ≡ some ret) × (r.pos ≡ pos + 4 * n))
    × (¬ HasHeader p pos n → (r.ret ≡ none) × (r.pos ≡ pos))

-- `parse_iphdr` accepts exactly the headers whose `ihl` is 5 or more and which lie whole in the
-- packet, options included; it then returns the protocol byte and moves past the options. So does
-- `parse_tcphdr` by `doff`, and returns the length of the header.
pub variable_headers :
    (p : Packet) (pos : ℕ)
    → let ihl = byte p pos % 16 in
      let doff = byte p (pos + 12) / 16 % 16 in
      Runs (Accepts p pos ihl (byte p (pos + 9))) (parse_iphdr p pos)
      × Runs (Accepts p pos doff (4 * doff)) (parse_tcphdr p pos)
unfolding parse_iphdr parse_tcphdr load8
variable_headers p pos = (ground arith, ground arith)
