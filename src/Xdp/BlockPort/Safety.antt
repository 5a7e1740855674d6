-- ===== src/Xdp/BlockPort/Safety.antt =====
-- The program of ebpf-xdp/packet/kernel/xdp_packet_block.c never touches memory outside the packet.
use hack.Base.{ℕ, ◌+◌, ◌%◌, ◌^◌, ◌≤◌, ◌≡◌, ◌≢◌, refl, Option, none, some, arith, length}
use hack.Base.Fault.{Runs, Runs-bind, Runs-mono}
use hack.Xdp.Action.{drop}
use hack.Xdp.Memory.{Packet, swap16, word16}
use hack.Xdp.Memory.Laws.{length-put16}
use hack.Xdp.Parsing.Safety.{
  IsSound, parse_ethhdr-IsSound, parse_iphdr-IsSound, parse_ip6hdr-IsSound, parse_udphdr-IsSound,
  parse_tcphdr-IsSound,
}
use hack.Xdp.BlockPort.Closed.{
  tcp_counted, filter_tcp-closed, length-tcp_counted, rewrite_udp-closed, length-udp_lowered,
}
use hack.Xdp.BlockPort.{
  Outcome, filter_tcp, handle_udp, handle_tcp, transport, network, ethernet, parse_network,
  xdp_block_port_func, count_drop,
}

-- The packet keeps its length, and the counter is counted exactly on a drop.
record Tidies (p : Packet) (rxcnt : Option ℕ) (o : Outcome) : Type 0 where
  pub same_length : length o.packet ≡ length p
  pub counted : o.action ≡ drop → o.rxcnt ≡ count_drop rxcnt
  pub uncounted : o.action ≢ drop → o.rxcnt ≡ rxcnt

filter_tcp-Tidies :
    (p : Packet) (rxcnt : Option ℕ) (pos : ℕ)
    → pos + 20 ≤ length p
    → Runs (Tidies p rxcnt) (filter_tcp p rxcnt pos)
filter_tcp-Tidies p rxcnt pos h = ground (
  arith,
  filter_tcp-closed p rxcnt pos h,
  length-tcp_counted p pos,
  length-put16 (tcp_counted p pos) (pos + 2) (swap16 (word16 (tcp_counted p pos) (pos + 2))),
)

handle_udp-Tidies :
    (p : Packet) (rxcnt : Option ℕ) (pos : ℕ) → Runs (Tidies p rxcnt) (handle_udp p rxcnt pos)
unfolding handle_udp
handle_udp-Tidies p rxcnt pos =
    ground (arith, parse_udphdr-IsSound p pos, rewrite_udp-closed p pos, length-udp_lowered p pos)

handle_tcp-Tidies :
    (p : Packet) (rxcnt : Option ℕ) (pos : ℕ) → Runs (Tidies p rxcnt) (handle_tcp p rxcnt pos)
unfolding handle_tcp
handle_tcp-Tidies p rxcnt pos =
    ground (arith, parse_tcphdr-IsSound p pos, filter_tcp-Tidies p rxcnt pos)

transport-Tidies :
    (p : Packet) (rxcnt : Option ℕ) (pos : ℕ) (ip_type : Option ℕ)
    → Runs (Tidies p rxcnt) (transport p rxcnt pos ip_type)
unfolding transport
transport-Tidies p rxcnt pos none = ground arith
transport-Tidies p rxcnt pos (some t) =
    ground (arith, handle_udp-Tidies p rxcnt pos, handle_tcp-Tidies p rxcnt pos)

parse_network-Runs :
    (p : Packet) (pos eth_type : ℕ) → Runs (λ _. Unit) (parse_network p pos eth_type)
unfolding parse_network
parse_network-Runs p pos t = ground (arith, parse_iphdr-IsSound p pos, parse_ip6hdr-IsSound p pos)

network-Tidies :
    (p : Packet) (rxcnt : Option ℕ) (pos t : ℕ) → Runs (Tidies p rxcnt) (network p rxcnt pos t)
unfolding network
network-Tidies p rxcnt pos t =
    Runs-bind (λ _. Unit) (Tidies p rxcnt) _ _ (parse_network-Runs p pos t)
      elim [
        | none ↦ λ _. record { same_length = refl; counted = λ e. cc; uncounted = λ _. refl }
        | some r ↦ λ _. transport-Tidies p rxcnt r.pos r.ret
      ]

ethernet-Tidies :
    (p : Packet) (rxcnt : Option ℕ) (pos : ℕ) (eth_type : Option ℕ)
    → Runs (Tidies p rxcnt) (ethernet p rxcnt pos eth_type)
unfolding ethernet
ethernet-Tidies p rxcnt pos none = ground arith
ethernet-Tidies p rxcnt pos (some t) = network-Tidies p rxcnt pos t

func-Tidies : (p : Packet) (rxcnt : Option ℕ) → Runs (Tidies p rxcnt) (xdp_block_port_func p rxcnt)
unfolding xdp_block_port_func
func-Tidies p rxcnt =
    Runs-bind (IsSound p 14 0) _ _ _ (parse_ethhdr-IsSound p 0)
      λ r _. ethernet-Tidies p rxcnt r.pos r.ret

-- A counter of 64 bits has become one more; where there is none, there is none.
abbrev pub OneMore : Option ℕ → Option ℕ → Type 0
OneMore none after = after ≡ none
OneMore (some value) after = after ≡ some ((value + 1) % 2 ^ 64)

-- The packet keeps its length, and the counter moves exactly on a drop.
pub record IsTidy (p : Packet) (rxcnt : Option ℕ) (o : Outcome) : Type 0 where
  pub same_length : length o.packet ≡ length p
  pub counted : o.action ≡ drop → OneMore rxcnt o.rxcnt
  pub uncounted : o.action ≢ drop → o.rxcnt ≡ rxcnt

count_drop-OneMore : (rxcnt after : Option ℕ) → after ≡ count_drop rxcnt → OneMore rxcnt after
count_drop-OneMore none after e = e
count_drop-OneMore (some value) after e = e

-- On every packet the program ends without an access outside it; it keeps the packet's length, and
-- adds one to the counter of 64 bits, if there is one, exactly when it drops the packet.
pub xdp_block_port_func-safe :
    (p : Packet) (rxcnt : Option ℕ) → Runs (IsTidy p rxcnt) (xdp_block_port_func p rxcnt)
xdp_block_port_func-safe p rxcnt =
    Runs-mono (Tidies p rxcnt) (IsTidy p rxcnt) (xdp_block_port_func p rxcnt) (func-Tidies p rxcnt)
      λ o t. record {
        same_length = t.same_length;
        counted = λ e. count_drop-OneMore rxcnt o.rxcnt (t.counted e);
        uncounted = t.uncounted;
      }
