-- ===== src/Xsk/Thread/Tests.antt =====
-- Runs of the loops of the threads of ebpf-xdp/xsk, which here write down the ports that they serve.
use hack.Base.{List, ℕ, some, true, ◌∷◌, false, [], ◌≡◌, ◌++◌, arith, refl}
use hack.Xsk.Thread.Loops.{thread_func, thread_func_poll, Revents}
use hack.Xsk.Thread.Turns.{thread_func-serves}
use hack.Xsk.Thread.Schedule.{serve, thread_func_poll-serve}

abbrev packets : Revents
packets = record { pollin = true; pollerr = false; pollhup = false }

-- Three sockets, of which the first has an error and the other two have packets.
thread_func_poll-serve_example :
    thread_func_poll
      (λ j s. some (j ∷ s))
      (7 ∷ 9 ∷ 8 ∷ [])
      ((record packets { pollerr = true } ∷ packets ∷ packets ∷ []) ∷ [])
      []
    ≡ some (2 ∷ 1 ∷ [])
thread_func_poll-serve_example =
    thread_func_poll-serve (λ (j : ℕ) (s : List ℕ). some (j ∷ s)) (7 ∷ 9 ∷ 8 ∷ [])
      ((record packets { pollerr = true } ∷ packets ∷ packets ∷ []) ∷ []) [] (omega arith)
      (omega arith) (refl, tt)

thread_func-serves_example :
    (before : List ℕ) × (after : List ℕ) × (thread_func
        (λ (j : ℕ) (s : List ℕ). some (j ∷ s))
        4
        4
        3
        []
      ≡ serve (λ j s. some (j ∷ s)) (before ++ 2 ∷ after) [])
thread_func-serves_example =
    thread_func-serves (λ (j : ℕ) (s : List ℕ). some (j ∷ s)) 2 3 2 [] (omega arith) (omega arith)
      (omega arith)
