-- ===== src/Xdp/MapAllow/Exact.antt =====
-- Exactly which packets ebpf-xdp/kernel/xdp_map_allow.c lets pass.
use hack.Base.{ℕ, ◌%◌, ◌≤◌, ◌≡◌, ◌≢◌, ◌↔◌, ◌⊎◌, refl, Option, none, some, length, arith}
use hack.Base.Fault.{Runs}
use hack.Xdp.Action.{Action, drop, pass}
use hack.Xdp.Memory.{Packet, byte, swap16, word16, load8, load16}
use hack.Xdp.MapAllow.{Key, allowed_addr_prog, allow_found}

-- the one key that is looked up
abbrev pub any_host : Key
any_host = record { prefixlen = 32; addr = 0 }

-- An Ethernet header of another protocol than IPv4.
abbrev pub IsForeign : Packet → Type 0
IsForeign p = (14 ≤ length p) × (swap16 (word16 p 12) ≢ 0x0800)

-- An IPv4 header without options and a UDP header whose destination is the low half of `value`.
pub record IsAllowed (p : Packet) (value : ℕ) : Type 0 where
  pub whole : 42 ≤ length p
  pub ipv4 : swap16 (word16 p 12) ≡ 0x0800
  pub udp : byte p 23 ≡ 17
  pub port : swap16 (word16 p 36) ≡ value % 65536
  pub nonzero : value % 65536 ≢ 0

-- The packet is allowed by what the lookup finds.
abbrev pub AllowedBy : Packet → Option ℕ → Type 0
AllowedBy p none = ⊥
AllowedBy p (some value) = IsAllowed p value

-- `a` passes exactly where the condition holds, and drops otherwise.
abbrev pub Decides : Type 0 → Action → Type 0
Decides Condition a = ((a ≡ pass) ⊎ (a ≡ drop)) × ((a ≡ pass) ↔ Condition)

allow_found-exact :
    (p : Packet) (found : Option ℕ)
    → 34 ≤ length p
    → swap16 (word16 p 12) ≡ 0x0800
    → Runs (Decides (AllowedBy p found)) (allow_found p found)
unfolding allow_found load8 load16
allow_found-exact p none h ip = ground arith
allow_found-exact p (some value) h ip = ground arith

-- with what the lookup finds as a variable
found-exact :
    (lookup_elem : Key → Option ℕ) (p : Packet) (found : Option ℕ)
    → lookup_elem any_host ≡ found
    → Runs (Decides (IsForeign p ⊎ AllowedBy p found)) (allowed_addr_prog lookup_elem p)
unfolding allowed_addr_prog load16
found-exact lookup_elem p none e = ground (arith, allow_found-exact p none)
found-exact lookup_elem p (some value) e = ground (arith, allow_found-exact p (some value))

-- On every packet the program ends without a read outside it, and passes or drops it. It passes
-- exactly the frames that are not IPv4 and the UDP packets whose destination port, where it stands
-- behind a header without options, is the one that the map holds and is not 0.
pub allowed_addr_prog-exact :
    (lookup_elem : Key → Option ℕ) (p : Packet)
    → Runs
        (Decides (IsForeign p ⊎ AllowedBy p (lookup_elem any_host)))
        (allowed_addr_prog lookup_elem p)
allowed_addr_prog-exact lookup_elem p = found-exact lookup_elem p (lookup_elem any_host) refl
