-- ===== src/Epoll/Tests.antt =====
-- Runs of sock-epoll-tcp and of a worker of sock-thread-ctx-tcp.
use hack.Base.{ℕ, List, ◌∷◌, false, [], arith, ◌++◌, true, refl, replicate, ◌≡◌, suc, some, zero}
use hack.Epoll.Idle.{CallIn, worker_round-idle}
use hack.Epoll.{
  worker_round, server_round, closes, Call, sends, handle_events, Kernel, Event, handle_event,
  epoll_wait, handle_client, calloc, bytes, again,
}
use hack.Epoll.Closings.{closed_fds, ended, server_round-closes}
use hack.Select.{server_resp, reply}

abbrev hi : List ℕ
hi = b'h' ∷ b'i' ∷ []

abbrev input_event : ℕ → Event
input_event fd = record { fd = fd; err = false; hup = false; input = true }

-- a kernel where each client has sent a text
abbrev texts : ℕ → Kernel
texts i = record { arrivals = []; reads = bytes hi }

-- a kernel where the first event has a text, and the others nothing
abbrev one_text : ℕ → Kernel
one_text zero = record { arrivals = []; reads = bytes hi }
one_text (suc i) = record { arrivals = []; reads = again }

abbrev after_two : List Event
after_two = epoll_wait (input_event 5 ∷ input_event 6 ∷ []) calloc

run_server :
    server_round 3 texts (input_event 6 ∷ []) after_two
    ≡ some (true, sends 6 (server_resp ++ hi) ∷ [], epoll_wait (input_event 6 ∷ []) after_two)
unfolding server_round handle_events handle_event handle_client reply
run_server = refl

run_first :
    server_round 3 texts (input_event 6 ∷ []) calloc
    ≡ some (true, sends 6 (server_resp ++ hi) ∷ [], epoll_wait (input_event 6 ∷ []) calloc)
unfolding server_round handle_events handle_event handle_client reply
run_first = refl

server_round-closes_example :
    closed_fds (sends 6 (server_resp ++ hi) ∷ []) ≡ ended 3 texts 0 (input_event 6 ∷ [])
server_round-closes_example =
    server_round-closes 3 texts (input_event 6 ∷ []) after_two
      (epoll_wait (input_event 6 ∷ []) after_two) (sends 6 (server_resp ++ hi) ∷ []) run_server

abbrev woken : List Call
woken = sends 5 (server_resp ++ hi) ∷ sends 6 server_resp ∷ closes 6 ∷ replicate 78 (closes 0)

woken_run :
    worker_round 3 one_text (input_event 5 ∷ []) after_two
    ≡ some (true, woken, epoll_wait (input_event 5 ∷ []) after_two)
unfolding worker_round handle_events handle_event handle_client reply
woken_run = refl

worker_round-idle_example : CallIn (closes 6) woken
worker_round-idle_example =
    worker_round-idle 3 one_text (input_event 5 ∷ []) after_two
      (epoll_wait (input_event 5 ∷ []) after_two) 1 woken refl (omega arith) (omega arith)
      (record { fine = refl; client = refl; nothing = refl }) woken_run
