-- ===== src/Xsk/Args/Limits.antt =====
-- What the command line of ebpf-xdp/xsk can ask for.
use hack.Base.{
  length, ◌<◌, List, ◌≡◌, ◌≤◌, some, arith, ◌∷◌, length-append, ◌%◌, [], ◌-◌, length-set, get_or,
}
use hack.Base.Fault.{bind-eq_some}
use hack.Xsk.Args.{
  Args, Opt, parse_args, parse_opts, parse_opt, check_args, max_ports, opt_c, max_threads, opt_i,
  opt_q, opt_b, opt_other,
}

-- What `main` relies on behind the parsing.
pub record Usable (a : Args) : Type 0 where
  pub some_ports : 0 < length a.ports
  pub few_ports : length a.ports ≤ max_ports
  pub some_threads : 0 < length a.threads
  pub few_threads : length a.threads ≤ max_threads
  pub even : length a.ports % length a.threads ≡ 0

abbrev pub WithinArrays : Args → Type 0
WithinArrays a = (length a.ports ≤ max_ports) × (length a.threads ≤ max_threads)

parse_opt-WithinArrays :
    (a a' : Args) (opt : Opt) → WithinArrays a → parse_opt a opt ≡ some a' → WithinArrays a'
unfolding parse_opt
parse_opt-WithinArrays a a' (opt_c core) h e =
    ground (arith, length-append {0} a.threads (core ∷ []))
parse_opt-WithinArrays a a' (opt_i iface) h e =
    ground (arith, length-append {0} a.ports (record { iface = iface; iface_queue = 0 } ∷ []))
parse_opt-WithinArrays a a' (opt_q queue) h e =
    let i = length a.ports - 1 in
    ground (
      arith,
      length-set a.ports i (record (get_or a.ports i (record { iface = 0; iface_queue = 0 })) {
        iface_queue = queue;
      }),
    )
parse_opt-WithinArrays a a' (opt_b n) h e = ground arith
parse_opt-WithinArrays a a' opt_other h e = ground arith

parse_opts-WithinArrays :
    (a a' : Args) (opts : List Opt) → WithinArrays a → parse_opts a opts ≡ some a' → WithinArrays a'
unfolding parse_opts
parse_opts-WithinArrays a a' [] h e = ground arith
parse_opts-WithinArrays a a' (opt ∷ later) h e =
    let (a1, e1, e2) = bind-eq_some (parse_opt a opt) (λ x. parse_opts x later) e in
    parse_opts-WithinArrays a1 a' later (parse_opt-WithinArrays a a1 opt h e1) e2

check_args-Usable : (a a' : Args) → WithinArrays a → check_args a ≡ some a' → Usable a'
unfolding check_args
check_args-Usable a a' h e = ground arith

-- A command line that is accepted names at least one port and one thread, no more of either than the
-- arrays hold, and the ports can be shared out evenly.
pub parse_args-Usable :
    (a a' : Args) (opts : List Opt) → WithinArrays a → parse_args a opts ≡ some a' → Usable a'
unfolding parse_args
parse_args-Usable a a' opts h e =
    let (a1, e1, e2) = bind-eq_some (parse_opts a opts) check_args e in
    let w = parse_opts-WithinArrays a a1 opts h e1 in check_args-Usable a1 a' w e2
