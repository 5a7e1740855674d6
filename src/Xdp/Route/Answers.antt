-- ===== src/Xdp/Route/Answers.antt =====
-- What the programs of ebpf-xdp/kernel do with the answer of a route lookup.
use hack.Base.{ℕ, List, ◌≡◌, ◌≢◌, ==→eq, ap, refl, false, ◌==◌, Bool-cases, inl, inr, Option, arith}
use hack.Base.Fault.{Runs, Runs-mono}
use hack.Base.Int.{ℤ, pos, negsuc}
use hack.Xdp.Action.{drop, pass}
use hack.Xdp.Memory.{Packet}
use hack.Xdp.Route.{FibParams, zero_mac, Verdict, routed}

-- the request for the route of an IPv4 packet from `source` to `destination` that came in there
abbrev pub asks : (ingress_ifindex : ℕ) (source destination : List ℕ) → FibParams
asks ingress_ifindex source destination = record {
  family = 2;
  ipv4_src = source;
  ipv4_dst = destination;
  ifindex = ingress_ifindex;
  dmac = zero_mac;
  smac = zero_mac;
}

-- With the code 0, of a route, `Sent` holds; with the code 7, of a neighbour that is not known, the packet
-- goes up unchanged, to have one resolved; with every other code it is dropped unchanged.
abbrev pub Answers : ℤ → Packet → (Verdict → Type 0) → Verdict → Type 0
Answers rc p Sent v =
    (rc ≡ pos 0 → Sent v) × (rc ≡ pos 7 → v ≡ (p, pass)) × (rc ≢ pos 0 → rc ≢ pos 7 → v ≡ (p, drop))

pub routed-Answers :
    (rc : ℤ) (p : Packet) (Sent : Verdict → Type 0) (m : Option Verdict)
    → Runs Sent m
    → Runs (Answers rc p Sent) (routed rc p m)
routed-Answers (negsuc n) p Sent m h = ((λ e. cc), (λ e. cc), λ _ _. refl)
routed-Answers (pos n) p Sent m h = elim (Bool-cases (n == 0)) [
  | inl zero_code ↦
      let is_zero : n ≡ 0 = ==→eq n 0 zero_code in
      let other : (n == 7) ≡ false = ground arith in
      rw (zero_code, other)
        (Runs-mono Sent _ m h λ v s. ((λ _. s), (λ e. cc), λ off _. absurd (off (ap pos is_zero))))
  | inr other ↦ elim (Bool-cases (n == 7)) [
    | inl seven ↦
        let is_seven : n ≡ 7 = ==→eq n 7 seven in
        rw (other, seven) ((λ e. cc), (λ _. refl), λ _ off. absurd (off (ap pos is_seven)))
    | inr failed ↦ rw (other, failed) ((λ e. cc), (λ e. cc), λ _ _. refl)
  ]
]
