-- ===== src/Xsk/Args/Tests.antt =====
-- A command line of ebpf-xdp/xsk.
use hack.Base.{◌∷◌, [], ◌≡◌, some, refl}
use hack.Xsk.Args.{parse_args, Args, opt_c, opt_i, opt_q}

abbrev no_args : Args
no_args = record { n_buffers = 4096; threads = []; ports = [] }

parse_args_run :
    parse_args no_args (opt_c 2 ∷ opt_i 100 ∷ opt_q 3 ∷ opt_i 200 ∷ [])
    ≡ some (record no_args {
      threads = 2 ∷ [];
      ports =
          record { iface = 100; iface_queue = 3 } ∷ record { iface = 200; iface_queue = 0 } ∷ [];
    })
unfolding parse_args
parse_args_run = refl
