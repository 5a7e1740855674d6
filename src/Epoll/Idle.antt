-- ===== src/Epoll/Idle.antt =====
-- What a worker of sock-thread-ctx-tcp does to a client whose event lies in its array from an earlier round.
use hack.Base.{
  ℕ, List, ◌≡◌, some, true, ◌+◌, suc, ◌∷◌, length, zero, [], ◌++◌, refl, if◌then◌else◌, false, ◌<◌,
  ◌||◌, inl, inr, ◌⊎◌, ◌≤◌, get_or, not, take, drop, ◌==◌, arith, ◌-◌, ap, sym, subst, ◌∙◌,
  length-append, get_or-append_right, get_or-drop, get_or-take, length-take, length-drop,
}
use hack.Base.Fault.{Whenever, Whenever-bind, Whenever-any, Whenever-eq}
use hack.Epoll.{
  handle_event, handle_events, Kernel, no_event, Event, Call, closes, handle_client, worker_round,
  max_conn, again, epoll_wait,
}
use hack.Select.{reply}
use hack.Epoll.Closings.{stopped}

-- the call is one of them
abbrev pub CallIn : Call → List Call → Type 0
CallIn c [] = ⊥
CallIn c (x ∷ calls) = (c ≡ x) ⊎ CallIn c calls

CallIn-right : (c : Call) (xs ys : List Call) → CallIn c ys → CallIn c (xs ++ ys)
CallIn-right c [] ys h = h
CallIn-right c (x ∷ xs) ys h = inr (CallIn-right c xs ys h)

CallIn-left : (c : Call) (xs ys : List Call) → CallIn c xs → CallIn c (xs ++ ys)
CallIn-left c [] ys h = elim h [ ]
CallIn-left c (x ∷ xs) ys (inl e) = inl e
CallIn-left c (x ∷ xs) ys (inr h) = inr (CallIn-left c xs ys h)

-- a client that sends nothing more at the moment
pub record IsIdle (sockfd : ℕ) (e : Event) (k : Kernel) : Type 0 where
  pub fine : (e.err || e.hup || not e.input) ≡ false
  pub client : (sockfd == e.fd) ≡ false
  pub nothing : k.reads ≡ again

handle_client-idle :
    (fd : ℕ) → Whenever (λ calls. CallIn (closes fd) calls) (handle_client fd again)
unfolding handle_client
handle_client-idle fd =
    Whenever-bind (λ _. Unit {0}) _ (reply []) _ (Whenever-any (reply [])) λ wbuff _. inr (inl refl)

handle_event-idle :
    (sockfd : ℕ) (e : Event) (k : Kernel)
    → IsIdle sockfd e k
    → Whenever (λ r. CallIn (closes e.fd) r.1) (handle_event sockfd e k)
unfolding handle_event
handle_event-idle sockfd e k h = rw h.fine (
    rw h.client (
      rw h.nothing (
        Whenever-bind (λ calls. CallIn (closes e.fd) calls) _ (handle_client e.fd again) _
          (handle_client-idle e.fd) λ calls c. c)))

handle_events-idle :
    (sockfd : ℕ) (kernel : ℕ → Kernel) (i j : ℕ) (events : List Event)
    → j < length events
    → IsIdle sockfd (get_or events j no_event) (kernel (i + j))
    → Whenever
        (λ r. r.0 ≡ true → CallIn (closes (get_or events j no_event).fd) r.1)
        (handle_events sockfd kernel i events)
unfolding handle_events
handle_events-idle sockfd kernel i j [] lt h = absurd (omega arith)
handle_events-idle sockfd kernel i zero (e ∷ later) lt h =
    let at : i + 0 ≡ i = omega arith in
    let h' = subst (λ n. IsIdle sockfd e (kernel n)) at h in
    Whenever-bind (λ r. CallIn (closes e.fd) r.1) _ (handle_event sockfd e (kernel i)) _
      (handle_event-idle sockfd e (kernel i) h')
      λ (goes_on, calls) c.
        Whenever-bind (λ _. Unit {0}) _
          (if goes_on then handle_events sockfd kernel (i + 1) later else some (false, [])) _
          (Whenever-any
            (if goes_on then handle_events sockfd kernel (i + 1) later else some (false, [])))
          λ r _ on. CallIn-left (closes e.fd) calls r.1 c
handle_events-idle sockfd kernel i (suc j) (e ∷ later) lt h =
    let at : i + suc j ≡ i + 1 + j = omega arith in
    let idle = get_or later j no_event in
    let h' = subst (λ n. IsIdle sockfd idle (kernel n)) at h in
    Whenever-bind (λ _. Unit {0}) _ (handle_event sockfd e (kernel i)) _
      (Whenever-any (handle_event sockfd e (kernel i)))
      λ (goes_on, calls) _.
        Whenever-bind (λ r. r.0 ≡ true → (goes_on ≡ true) × CallIn (closes idle.fd) r.1) _
          (if goes_on then handle_events sockfd kernel (i + 1) later else some (false, [])) _
          (stopped goes_on (λ rest. CallIn (closes idle.fd) rest)
            (handle_events sockfd kernel (i + 1) later)
            (handle_events-idle sockfd kernel (i + 1) j later (omega arith) h'))
          λ r w on. CallIn-right (closes idle.fd) calls r.1 (w on).1

-- behind what `epoll_wait` writes, the array keeps its events
get_or-epoll_wait :
    (waited array : List Event) (j : ℕ)
    → length waited ≤ j
    → get_or (epoll_wait waited array) j no_event ≡ get_or array j no_event
get_or-epoll_wait waited array j le =
    let n = length waited in
    let at : n + (j - n) ≡ j = omega arith in
    ap (λ k. get_or (waited ++ drop n array) k no_event) (sym at)
    ∙ get_or-append_right waited (drop n array) (j - n) no_event
    ∙ get_or-drop n (j - n) array no_event
    ∙ ap (λ k. get_or array k no_event) at

-- A worker closes the connection of a client that it has served before, that is still connected, and that sends
-- nothing at the moment, when it is woken up for others: an event of an earlier round lies in its array
-- behind the events that are counted now, and it reads from that connection again.
pub worker_round-idle :
    (sockfd : ℕ) (kernel : ℕ → Kernel) (waited array array' : List Event) (j : ℕ)
    (calls : List Call)
    → length array ≡ max_conn
    → length waited ≤ j
    → j < max_conn
    → IsIdle sockfd (get_or array j no_event) (kernel j)
    → worker_round sockfd kernel waited array ≡ some (true, calls, array')
    → CallIn (closes (get_or array j no_event).fd) calls
unfolding worker_round
worker_round-idle sockfd kernel waited array array' j calls full behind lt h e =
    let from_zero : j ≡ 0 + j = omega arith in
    let events = take max_conn (epoll_wait waited array) in
    let c = closes (get_or array j no_event).fd in
    let same : get_or events j no_event ≡ get_or array j no_event =
      get_or-take max_conn j (epoll_wait waited array) no_event lt
      ∙ get_or-epoll_wait waited array j behind in
    let size : length events ≡ max_conn = length-take max_conn (epoll_wait waited array) (
      omega (
        arith,
        full,
        behind,
        lt,
        length-append waited (drop (length waited) array),
        length-drop (length waited) array,
      )) in
    let found = rw same at (
      handle_events-idle sockfd kernel 0 j events (omega (arith, size, lt)) (
        subst (λ n. IsIdle sockfd (get_or events j no_event) (kernel n)) from_zero
          (subst (λ x. IsIdle sockfd x (kernel j)) (sym same) h))) in
    Whenever-eq (λ q. q.0 ≡ true → CallIn c q.1) (worker_round sockfd kernel waited array)
      (true, calls, array')
      (Whenever-bind (λ r. r.0 ≡ true → CallIn c r.1) _ (handle_events sockfd kernel 0 events) _
        found λ r h. h)
      e refl
