-- ===== src/Xdp/Route.antt =====
-- What ebpf-xdp/kernel/xdp_redirect_dev.c and xdp_redirect_xsk.c ask of the kernel: the route
-- lookup and the redirections are parameters.
pub mod Answers
use hack.Base.{ℕ, Bool, true, false, not, ◌&&◌, ◌==◌, if◌then◌else◌, Option, some, List, [], ◌∷◌}
use hack.Base.Int.{ℤ, pos, negsuc}
use hack.Xdp.Action.{Action, drop, pass}
use hack.Xdp.Memory.{Packet}

-- the `ETH_ALEN` bytes of an address
pub record Mac : Type 0 where
  pub b0 : ℕ
  pub b1 : ℕ
  pub b2 : ℕ
  pub b3 : ℕ
  pub b4 : ℕ
  pub b5 : ℕ

abbrev pub mac_bytes : Mac → List ℕ
mac_bytes m = m.b0 ∷ m.b1 ∷ m.b2 ∷ m.b3 ∷ m.b4 ∷ m.b5 ∷ []

abbrev pub zero_mac : Mac
zero_mac = record { b0 = 0; b1 = 0; b2 = 0; b3 = 0; b4 = 0; b5 = 0 }

-- The fields of `struct bpf_fib_lookup` that the programs use. An IPv4 address is its four bytes.
pub record FibParams : Type 0 where
  pub family : ℕ
  pub ipv4_src : List ℕ
  pub ipv4_dst : List ℕ
  pub ifindex : ℕ
  pub dmac : Mac
  pub smac : Mac

abbrev pub af_inet : ℕ
af_inet = 2

-- zeroed, and filled for a lookup
abbrev pub fib_request : List ℕ → List ℕ → ℕ → FibParams
fib_request src dst ingress_ifindex = record {
  family = af_inet;
  ipv4_src = src;
  ipv4_dst = dst;
  ifindex = ingress_ifindex;
  dmac = zero_mac;
  smac = zero_mac;
}

pub record Kernel : Type 0 where
  pub fib_lookup : FibParams → ℤ × FibParams
  pub bpf_redirect : ℕ → ℕ → Action
  pub redirect_map : ℕ → Action → Action

abbrev pub is_code : ℤ → ℕ → Bool
is_code (pos n) k = n == k
is_code (negsuc n) k = false

-- `BPF_FIB_LKUP_RET_SUCCESS` and `BPF_FIB_LKUP_RET_NO_NEIGH`
abbrev pub fib_success : ℤ → Bool
fib_success rc = is_code rc 0

abbrev pub fib_no_neigh : ℤ → Bool
fib_no_neigh rc = is_code rc 7

abbrev pub Verdict : Type 0
Verdict = Packet × Action

-- The tests behind a lookup; `k` goes on with the route.
abbrev pub routed : ℤ → Packet → Option Verdict → Option Verdict
routed rc p k =
    if not (fib_success rc) && not (fib_no_neigh rc)
    then some (p, drop)
    else if fib_no_neigh rc
    then some (p, pass)
    else k
