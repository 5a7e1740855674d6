-- ===== src/Xsk/Args.antt =====
-- The command line of ebpf-xdp/xsk: `parse_args` of af_rxtx.c over what `getopt_long` returns, call by
-- call, with the number that `atoi` makes of the argument.
pub mod Limits
mod Tests
use hack.Base.{
  ℕ, Option, List, ◌>>=◌, if◌then◌else◌, some, length, ◌∷◌, ◌==◌, ◌-◌, [], none, set, not, ◌++◌,
  get_or, ◌%◌,
}

-- what a call of `getopt_long` returns
pub data Opt : Type 0 where
  opt_b : ℕ → Opt
  opt_c : ℕ → Opt
  opt_i : ℕ → Opt
  opt_q : ℕ → Opt
  opt_other : Opt

abbrev pub max_threads : ℕ
max_threads = 64

abbrev pub max_ports : ℕ
max_ports = 64

-- `port_params[i]`: the address of the name of the interface, and the queue
pub record PortParams : Type 0 where
  pub iface : ℕ
  pub iface_queue : ℕ

-- The variables that the options fill. `threads` holds the core of each thread, `ports` the parameters of
-- each port; `n_threads` and `n_ports` are their lengths.
pub record Args : Type 0 where
  pub n_buffers : ℕ
  pub threads : List ℕ
  pub ports : List PortParams

-- the ports with the queue of the last one changed
abbrev pub set_queue : List PortParams → ℕ → List PortParams
set_queue ports q =
    let i = length ports - 1 in
    set ports i
      (record (get_or ports i (record { iface = 0; iface_queue = 0 })) { iface_queue = q })

-- an option; `none` where the code returns -1
unfoldable pub parse_opt : Args → Opt → Option Args
parse_opt a (opt_b n) = some (record a { n_buffers = n })
parse_opt a (opt_c core) =
    if length a.threads == max_threads
    then none
    else some (record a { threads = a.threads ++ core ∷ [] })
parse_opt a (opt_i iface) =
    if length a.ports == max_ports
    then none
    else some (record a { ports = a.ports ++ record { iface = iface; iface_queue = 0 } ∷ [] })
parse_opt a (opt_q queue) =
    if length a.ports == 0 then none else some (record a { ports = set_queue a.ports queue })
parse_opt a opt_other = none

-- the loop over the options
unfoldable pub parse_opts : Args → List Opt → Option Args
unfolding parse_opt
parse_opts a [] = some a
parse_opts a (opt ∷ later) = do a1 ← parse_opt a opt; parse_opts a1 later

-- the checks behind the loop
unfoldable pub check_args : Args → Option Args
check_args a =
    if length a.ports == 0
    then none
    else if length a.threads == 0
    then none
    else if not (length a.ports % length a.threads == 0)
    then none
    else some a

unfoldable pub parse_args : Args → List Opt → Option Args
unfolding parse_opts check_args
parse_args a opts = do a1 ← parse_opts a opts; check_args a1
