-- ===== src/Select/Tests.antt =====
-- Runs of sock-select-tcp/server_s.c.
use hack.Base.{ℕ, List, arith, ◌≢◌, ◌<◌, ◌∷◌, replicate, refl, true, [], ◌≡◌, some, false}
use hack.Base.Fault.{Runs}
use hack.Select.Rounds.{Reach, next, Served, Reach-serves, here, Lawful}
use hack.Select.{
  round, Server, accept, Kernel, finish, comm, arrives, visit, add, bytes, proceeds, started,
  fd_setsize, fd_set, fd_isset, watched,
}
use hack.Select.Table.{IsSound, count}

abbrev hi : List ℕ
hi = b'h' ∷ b'i' ∷ []

-- a kernel where a socket arrives, and all others have sent a text
abbrev busy : ℕ → Kernel
busy fd = record { selects = λ sd. true; arrival = arrives fd true false; reads = λ sd. bytes hi }

busy-Lawful :
    (s : Server) (fd : ℕ) → fd ≢ 0 → fd < fd_setsize → count fd s.held ≡ 0 → Lawful s (busy fd)
busy-Lawful s fd ne lt new = record {
  short = λ sd. omega arith;
  fresh = λ sd non_blocking close_fails e. ground (arith, e);
}

-- the server after its first round
abbrev with_one : Server
with_one = record { sockfd = 3; client_socket = 4 ∷ replicate 79 0; held = 4 ∷ [] }

first_round : round (started 3) (busy 4) ≡ some (proceeds with_one, [])
unfolding round accept finish comm visit add watched fd_set fd_isset
first_round = refl

with_one-Reach : Reach (started 3) with_one
with_one-Reach =
    next (busy 4) [] here (busy-Lawful (started 3) 4 (omega arith) (omega arith) refl) first_round

Reach-serves_example : IsSound with_one × Runs (Served with_one (busy 5)) (round with_one (busy 5))
Reach-serves_example =
    Reach-serves 3 with_one (busy 5) (omega arith) (omega arith) with_one-Reach
      (busy-Lawful with_one 5 (omega arith) (omega arith) refl)
