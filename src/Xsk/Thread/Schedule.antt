-- ===== src/Xsk/Thread/Schedule.antt =====
-- In which order the threads of ebpf-xdp/xsk/af_rxtx.c serve their ports, and that they serve them all.
use hack.Base.{
  ℕ, List, Option, ◌∷◌, ◌++◌, some, [], sym, if◌then◌else◌, ◌≡◌, ◌+◌, arith, not, refl, ◌||◌, ◌&&◌,
  ◌>>=◌, ◌≤◌, le→leb, length, eq→==, ◌∙◌, suc, Bool-cases, append_assoc, inl, length-append, inr,
  ap, Distinct, Fresh, Distinct-middle,
}
use hack.Base.Fault.{bind_cong, bind_assoc, bind_some}
use hack.Xsk.Thread.{max_ports_per_thread}
use hack.Xsk.Thread.Loops.{
  Revents, PollFd, polled, poll_ports, poll_round, poll_loop, thread_func_poll,
}

module _ {S : Type 0} (act : ℕ → S → Option S) where
  -- ports served one after the other
  abbrev pub serve : List ℕ → S → Option S
  serve [] s = some s
  serve (j ∷ later) s = act j s >>= serve later

  pub serve-append : (xs ys : List ℕ) (s : S) → serve (xs ++ ys) s ≡ (serve xs s >>= serve ys)
  serve-append [] ys s = refl
  serve-append (x ∷ xs) ys s =
      bind_cong (act x s) (serve (xs ++ ys)) (λ t. serve xs t >>= serve ys) (serve-append xs ys)
      ∙ sym (bind_assoc (act x s) (serve xs) (serve ys))

-- the ports whose sockets have packets and no error, of the sockets from port `j` on
abbrev pub ready : List Revents → ℕ → List ℕ
ready [] j = []
ready (r ∷ answers) j =
    if not (r.pollerr || r.pollhup) && r.pollin
    then j ∷ ready answers (j + 1)
    else ready answers (j + 1)

abbrev pub all_ready : List (List Revents) → List ℕ
all_ready [] = []
all_ready (answers ∷ later) = ready answers 0 ++ all_ready later

module _ {S : Type 0} (act : ℕ → S → Option S) where
  poll_ports-Fresh :
      (p : PollFd) (sockets : List ℕ) (j : ℕ) (s : S)
      → Fresh p.fd sockets
      → poll_ports act p sockets j s ≡ some s
  unfolding poll_ports
  poll_ports-Fresh p [] j s h = refl
  poll_ports-Fresh p (x ∷ xs) j s h = ground (arith, poll_ports-Fresh p xs (j + 1) s h.1)

  -- The inner loop finds the one port of the socket.
  poll_ports-found :
      (p : PollFd) (xs ys : List ℕ) (j : ℕ) (s : S)
      → Fresh p.fd xs
      → Fresh p.fd ys
      → poll_ports act p (xs ++ p.fd ∷ ys) j s
        ≡ (if p.revents.pollin then act (j + length xs) s else some s)
  unfolding poll_ports
  poll_ports-found p [] ys j s hx hy =
      let z : j + 0 ≡ j = omega arith in
      let same =
        bind_cong (act j s) (poll_ports act p ys (j + 1)) some
          (λ t. poll_ports-Fresh p ys (j + 1) t hy) in
      rw (z, eq→== p.fd p.fd refl)
        (elim (Bool-cases p.revents.pollin) [
          | inl in_yes ↦ rw in_yes (same ∙ bind_some (act j s))
          | inr in_no ↦ rw in_no (poll_ports-Fresh p ys (j + 1) s hy)
        ])
  poll_ports-found p (x ∷ xs) ys j s hx hy =
      let n : j + 1 + length xs ≡ j + suc (length xs) = omega arith in
      ground (arith, poll_ports-found p xs ys (j + 1) s hx.1 hy, n, hx.0)

  -- One call of `poll`: the sockets before `fds` are done.
  poll_round-serve :
      (sockets before fds : List ℕ) (answers : List Revents) (s : S)
      → Distinct sockets
      → sockets ≡ before ++ fds
      → length answers ≡ length fds
      → poll_round act sockets (polled fds answers) s ≡ serve act (ready answers (length before)) s
  unfolding poll_round
  poll_round-serve sockets before [] [] s d e n = refl
  poll_round-serve sockets before [] (r ∷ answers) s d e n = absurd (omega arith)
  poll_round-serve sockets before (fd ∷ fds) [] s d e n = absurd (omega arith)
  poll_round-serve sockets before (fd ∷ fds) (r ∷ answers) s d e n =
      let apart = Distinct-middle fd before fds (rw (← e) d) in
      let p : PollFd = record { fd = fd; revents = r } in
      let rest = λ (t : S).
        poll_round-serve sockets (before ++ fd ∷ []) fds answers t d
          (e ∙ sym (append_assoc before (fd ∷ []) fds)) (omega arith) in
      let more : length (before ++ fd ∷ []) ≡ length before + 1 =
        omega (arith, length-append {0} before (fd ∷ [])) in
      let later = λ (t : S). rest t ∙ ap (λ k. serve act (ready answers k) t) more in
      let z : 0 + length before ≡ length before = omega arith in
      let found : poll_ports act p sockets 0 s
          ≡ (if r.pollin then act (length before) s else some s) =
        rw (e, ← z) (poll_ports-found p before fds 0 s apart.0 apart.1) in
      elim (Bool-cases (r.pollerr || r.pollhup)) [
        | inl failed ↦ rw failed (later s)
        | inr fine ↦ rw fine (elim (Bool-cases r.pollin) [
          | inl in_yes ↦ rw in_yes (
              ap (λ m. m >>= poll_round act sockets (polled fds answers)) (rw in_yes at found)
              ∙ bind_cong (act (length before) s) _ _ later)
          | inr in_no ↦ rw in_no (
              ap (λ m. m >>= poll_round act sockets (polled fds answers)) (rw in_no at found)
              ∙ later s)
        ])
      ]

abbrev pub AllLengths : ℕ → List (List Revents) → Type 0
AllLengths n [] = Unit
AllLengths n (answers ∷ later) = (length answers ≡ n) × AllLengths n later

poll_loop-serve :
    {S : Type 0} (act : ℕ → S → Option S) (sockets : List ℕ) (calls : List (List Revents)) (s : S)
    → Distinct sockets
    → AllLengths (length sockets) calls
    → poll_loop act sockets calls s ≡ serve act (all_ready calls) s
unfolding poll_loop
poll_loop-serve act sockets [] s d n = refl
poll_loop-serve act sockets (answers ∷ later) s d n =
    ap (λ m. m >>= poll_loop act sockets later)
      (poll_round-serve act sockets [] sockets answers s d refl n.0)
    ∙ bind_cong (serve act (ready answers 0) s) _ _ (λ t. poll_loop-serve act sockets later t d n.1)
    ∙ sym (serve-append act (ready answers 0) (all_ready later) s)

-- `thread_func_poll` with at most 16 ports, a socket of its own for each port, and an answer for each socket from
-- every call of `poll`, serves after each call exactly the ports whose sockets have packets and no
-- error, each once and in the order of the ports.
pub thread_func_poll-serve :
    {S : Type 0} (act : ℕ → S → Option S) (sockets : List ℕ) (calls : List (List Revents)) (s : S)
    → length sockets ≤ max_ports_per_thread
    → Distinct sockets
    → AllLengths (length sockets) calls
    → thread_func_poll act sockets calls s ≡ serve act (all_ready calls) s
unfolding thread_func_poll
thread_func_poll-serve act sockets calls s few d n =
    rw (le→leb (length sockets) max_ports_per_thread few) (poll_loop-serve act sockets calls s d n)
