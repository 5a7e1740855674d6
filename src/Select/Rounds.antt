-- ===== src/Select/Rounds.antt =====
-- The rounds of sock-select-tcp/server_s.c.
use hack.Base.{
  List, ℕ, Bool, ◌≡◌, some, Option, false, true, inl, ◌⊎◌, ◌≢◌, [], inr, refl, ◌∷◌, none, arith,
  ◌∙◌, ◌<◌, ◌≤◌, ◌>>=◌, lt→ltb, le→ltb,
}
use hack.Base.Fault.{Runs-eq, Runs, Runs-bind}
use hack.Select.{
  round, accept, finish, Server, Kernel, Next, fd_isset, fd_set, fd_setsize, watched, Arrival,
  refused, arrives, proceeds, exits, add, continues, admit, comm, started,
}
use hack.Select.Table.{
  IsSound, count, IsShort, watched-Runs, Tests, fd_isset-Tests, Added, add-Added, Swept, full-add,
  comm-Runs, started-IsSound,
}

-- The kernel keeps to its rules, and the new socket is made non-blocking.
pub record Lawful (s : Server) (k : Kernel) : Type 0 where
  pub short : (fd : ℕ) → IsShort (k.reads fd)
  pub fresh :
      (fd : ℕ) (non_blocking close_fails : Bool)
      → k.arrival ≡ arrives fd non_blocking close_fails
      → (fd ≢ 0)
        × (fd < fd_setsize)
        × (count fd s.held ≡ 0)
        × (non_blocking ≡ true)
        × (close_fails ≡ false)

-- What a lawful round comes to: the server ends only where it has no room, or nothing arrives.
abbrev pub Served : Server → Kernel → Next × List (ℕ × List ℕ) → Type 0
Served s k (exits, sent) = (k.arrival ≡ refused) ⊎ (count 0 s.client_socket ≡ 0)
Served s k (continues s', sent) = ⊥
Served s k (proceeds s', sent) = IsSound s'

finish-Served :
    (s s' : Server) (k : Kernel) (isset : ℕ → Option Bool)
    → IsSound s'
    → Tests isset
    → ((fd : ℕ) → IsShort (k.reads fd))
    → Runs (Served s k) (finish isset k.reads (proceeds s'))
unfolding finish
finish-Served s s' k isset h tests short =
    Runs-bind (Swept s'.client_socket s'.held) (Served s k)
      (comm isset k.reads s'.client_socket s'.held) _
      (comm-Runs isset k.reads s'.client_socket s'.held tests h.small short
        (λ fd ne. omega (arith, h.same fd ne)))
      λ (slots, held, sent) w. record {
        listens = h.listens;
        listens_small = h.listens_small;
        small = w.1;
        slots = w.0 ∙ h.slots;
        same = λ fd ne. omega (arith, w.2 fd ne, h.same fd ne);
        single = λ fd ne. omega (arith, w.3 fd ne, h.single fd ne);
      }

admit-Served :
    (s : Server) (k : Kernel) (fd : ℕ) (isset : ℕ → Option Bool) (answer : Option (List ℕ))
    → IsSound s
    → Lawful s k
    → fd ≢ 0
    → fd < fd_setsize
    → count fd s.held ≡ 0
    → Tests isset
    → Added fd s.client_socket answer
    → Runs (Served s k) (finish isset k.reads (admit s fd false answer))
unfolding finish
admit-Served s k fd isset none h law ne lt new tests a = inr a
admit-Served s k fd isset (some slots) h law ne lt new tests a =
    finish-Served s (record s { client_socket = slots; held = fd ∷ s.held }) k isset
      (record {
        listens = h.listens;
        listens_small = h.listens_small;
        small = a.1 lt h.small;
        slots = a.0 ∙ h.slots;
        same = λ x ne'. ground (arith, a.2 x ne', h.same x ne');
        single = λ x ne'. ground (arith, a.2 x ne', h.single x ne', h.same x ne', new);
      })
      tests law.short

accept-Served :
    (s : Server) (k : Kernel) (isset : ℕ → Option Bool) (arrival : Arrival)
    → k.arrival ≡ arrival
    → IsSound s
    → Lawful s k
    → Tests isset
    → Runs (Served s k) (finish isset k.reads (accept s arrival))
unfolding accept finish
accept-Served s k isset refused e h law tests = inl e
accept-Served s k isset (arrives fd non_blocking close_fails) e h law tests =
    let (ne, lt, new, ready, closes) = law.fresh fd non_blocking close_fails e in
    rw ready (
      rw closes (
        admit-Served s k fd isset (add fd s.client_socket) h law ne lt new tests
          (add-Added fd s.client_socket)))

round-Served : (s : Server) (k : Kernel) → IsSound s → Lawful s k → Runs (Served s k) (round s k)
unfolding round
round-Served s k h law =
    Runs-bind _ (Served s k) (watched s.sockfd s.client_socket) _
      (watched-Runs s.sockfd s.client_socket h.listens h.listens_small h.small)
      λ readfds off.
        let isset = fd_isset k.selects readfds in
        let tests = fd_isset-Tests k.selects readfds (off k.selects) in
        Runs-bind _ (Served s k) (isset s.sockfd) _ (tests s.sockfd h.listens_small) elim [
          | true ↦ λ _. accept-Served s k isset k.arrival refl h law tests
          | false ↦ λ _. finish-Served s s k isset h tests law.short
        ]

-- the rounds of a server, whatever the kernel answers within its rules
pub data Reach (s : Server) : Server → Type 0 where
  here : Reach s s
  next :
      {s1 s2 : Server} (k : Kernel) (sent : List (ℕ × List ℕ))
      → Reach s s1
      → Lawful s1 k
      → round s1 k ≡ some (proceeds s2, sent)
      → Reach s s2

Reach-IsSound : (s s' : Server) → IsSound s → Reach s s' → IsSound s'
Reach-IsSound s s' h here = h
Reach-IsSound s s' h (next k sent r law e) =
    Runs-eq _ _ _ (round-Served _ k (Reach-IsSound s _ h r) law) e

-- From the start on, with a listening socket below `FD_SETSIZE` and not 0, after any rounds in which each message has
-- less than 1011 bytes, each new socket is made non-blocking, `close` of it would not fail, and its
-- descriptor is not open, not 0 and below `FD_SETSIZE`: each open connection stands in exactly one slot
-- of the table, and the next such round stays inside its arrays and sets, and ends the server only where
-- `accept` fails or the table is full.
pub Reach-serves :
    (sockfd : ℕ) (s : Server) (k : Kernel)
    → sockfd ≢ 0
    → sockfd < fd_setsize
    → Reach (started sockfd) s
    → Lawful s k
    → IsSound s × Runs (Served s k) (round s k)
Reach-serves sockfd s k ne lt r law =
    let sound = Reach-IsSound (started sockfd) s (started-IsSound sockfd ne lt) r in
    (sound, round-Served s k sound law)

-- A connection that arrives when all slots are taken ends the server, if its socket is made non-blocking and can
-- be closed: the result of `close` is read the wrong way round.
pub round-full :
    (s : Server) (k : Kernel) (fd : ℕ) (readfds : List ℕ)
    → count 0 s.client_socket ≡ 0
    → watched s.sockfd s.client_socket ≡ some readfds
    → fd_isset k.selects readfds s.sockfd ≡ some true
    → k.arrival ≡ arrives fd true false
    → round s k ≡ some (exits, [])
unfolding round accept finish
round-full s k fd readfds full built ready e =
    rw built (rw ready (rw e (rw (full-add fd s.client_socket full) refl)))

no_result :
    (m : Option (List ℕ)) (f : List ℕ → Option (List ℕ))
    → ((x : List ℕ) → f x ≡ none)
    → (m >>= f) ≡ none
no_result none f h = refl
no_result (some x) f h = h x

-- A connection beyond the descriptors of an `fd_set` takes the next round outside it.
pub watched-outside :
    (sockfd sd : ℕ) (slots : List ℕ) → fd_setsize ≤ sd → watched sockfd (sd ∷ slots) ≡ none
unfolding watched fd_set
watched-outside sockfd sd slots le =
    no_result (watched sockfd slots) _
      λ rest. rw (lt→ltb 0 sd (omega arith), le→ltb sd fd_setsize le) refl
