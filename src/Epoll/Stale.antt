-- ===== src/Epoll/Stale.antt =====
-- What the workers of sock-thread-ctx-tcp do with the events that `epoll_wait` has not counted.
use hack.Base.{
  ℕ, replicate, List, ◌≡◌, some, true, Bool, ◌+◌, suc, ◌∷◌, length, zero, [], ◌++◌, refl,
  if◌then◌else◌, false, ◌≤◌, take, drop, arith, ◌-◌, ap, sym, append_assoc, ◌∙◌, length-append,
  length-replicate,
}
use hack.Base.Fault.{Whenever, Whenever-bind, Whenever-self, Whenever-eq}
use hack.Epoll.{
  handle_event, handle_events, Kernel, no_event, Event, Call, closes, server_round, worker_round,
  max_conn, calloc, epoll_wait,
}
use hack.Epoll.Closings.{stopped, take-length}

handle_event-empty :
    (sockfd : ℕ) (k : Kernel) → handle_event sockfd no_event k ≡ some (true, closes 0 ∷ [])
unfolding handle_event
handle_event-empty sockfd k = refl

handle_events-empty :
    (sockfd : ℕ) (kernel : ℕ → Kernel) (i m : ℕ)
    → handle_events sockfd kernel i (replicate m no_event) ≡ some (true, replicate m (closes 0))
unfolding handle_events
handle_events-empty sockfd kernel i zero = refl
handle_events-empty sockfd kernel i (suc m) =
    rw (handle_event-empty sockfd (kernel i))
      (rw (handle_events-empty sockfd kernel (i + 1) m) refl)

-- empty events behind others
handle_events-behind :
    (sockfd : ℕ) (kernel : ℕ → Kernel) (i m : ℕ) (events : List Event)
    → Whenever
        (λ r.
          r.0 ≡ true
          → handle_events sockfd kernel i (events ++ replicate m no_event)
            ≡ some (true, r.1 ++ replicate m (closes 0)))
        (handle_events sockfd kernel i events)
unfolding handle_events
handle_events-behind sockfd kernel i m [] = λ on. handle_events-empty sockfd kernel i m
handle_events-behind sockfd kernel i m (e ∷ later) =
    Whenever-bind (λ r. handle_event sockfd e (kernel i) ≡ some r) _
      (handle_event sockfd e (kernel i)) _ (Whenever-self (handle_event sockfd e (kernel i)))
      λ (goes_on, calls) e1.
        Whenever-bind
          (λ r.
            r.0 ≡ true
            → (goes_on ≡ true)
              × (handle_events sockfd kernel (i + 1) (later ++ replicate m no_event)
                  ≡ some (true, r.1 ++ replicate m (closes 0))))
          _ (if goes_on then handle_events sockfd kernel (i + 1) later else some (false, [])) _
          (stopped goes_on
            (λ rest.
              handle_events sockfd kernel (i + 1) (later ++ replicate m no_event)
              ≡ some (true, rest ++ replicate m (closes 0)))
            (handle_events sockfd kernel (i + 1) later)
            (handle_events-behind sockfd kernel (i + 1) m later))
          λ (rest_on, rest) w on. rw e1 (
            rw (w on).0 (
              rw (w on).1 (
                ap (λ calls'. some (true, calls'))
                  (sym (append_assoc calls rest (replicate m (closes 0)))))))

drop-replicate :
    {A : Type 0} (n m : ℕ) (a : A) → n ≤ m → drop n (replicate m a) ≡ replicate (m - n) a
drop-replicate zero m a h = ap (λ k. replicate k a) (let e : m ≡ m - 0 = omega arith in e)
drop-replicate (suc n) zero a h = absurd (omega arith)
drop-replicate (suc n) (suc m) a h =
    let e : suc m - suc n ≡ m - n = omega arith in rw e (drop-replicate n m a (omega arith))

take-all : {A : Type 0} (n : ℕ) (xs : List A) → length xs ≤ n → take n xs ≡ xs
take-all zero [] h = refl
take-all zero (x ∷ xs) h = absurd (omega arith)
take-all (suc n) [] h = refl
take-all (suc n) (x ∷ xs) h = ap (◌∷◌ x) (take-all n xs (omega arith))

first_events :
    (sockfd : ℕ) (kernel : ℕ → Kernel) (n : ℕ) (waited : List Event) (calls : List Call)
    → length waited ≤ n
    → handle_events sockfd kernel 0 waited ≡ some (true, calls)
    → handle_events sockfd kernel 0 (take n (epoll_wait waited (replicate n no_event)))
      ≡ some (true, calls ++ replicate (n - length waited) (closes 0))
first_events sockfd kernel n waited calls few e =
    let rest = n - length waited in
    let all = waited ++ replicate rest no_event in
    rw (drop-replicate (length waited) n no_event few) (
      rw
        (take-all n all (
          omega (
            arith,
            few,
            length-append waited (replicate rest no_event),
            length-replicate rest no_event,
          )))
        (Whenever-eq _ _ (true, calls) (handle_events-behind sockfd kernel 0 rest waited) e refl))

server_round-some :
    (sockfd : ℕ) (kernel : ℕ → Kernel) (waited array : List Event)
    → Whenever
        (λ q.
          q.0 ≡ true
          → (handle_events sockfd kernel 0 waited ≡ some (true, q.1))
            × (q.2 ≡ epoll_wait waited array))
        (server_round sockfd kernel waited array)
unfolding server_round
server_round-some sockfd kernel waited array =
    rw (take-length waited (drop (length waited) array)) (
      Whenever-bind (λ r. handle_events sockfd kernel 0 waited ≡ some r) _
        (handle_events sockfd kernel 0 waited) _
        (Whenever-self (handle_events sockfd kernel 0 waited))
        λ r e on. (e ∙ ap (λ b. some (b, r.1)) on, refl))

worker_round-some :
    (sockfd : ℕ) (kernel : ℕ → Kernel) (waited array : List Event) (on : Bool) (calls : List Call)
    → handle_events sockfd kernel 0 (take max_conn (epoll_wait waited array)) ≡ some (on, calls)
    → worker_round sockfd kernel waited array ≡ some (on, calls, epoll_wait waited array)
unfolding worker_round
worker_round-some sockfd kernel waited array on calls e = rw e refl

-- In the first round of a worker, with at most 80 events: where sock-epoll-tcp would handle them and go on, the
-- worker does the same, and then closes the descriptor 0, which is none of its own, once for each
-- of the 80 events that are not there.
pub worker_round-first :
    (sockfd : ℕ) (kernel : ℕ → Kernel) (waited array : List Event) (calls : List Call)
    → length waited ≤ max_conn
    → server_round sockfd kernel waited calloc ≡ some (true, calls, array)
    → worker_round sockfd kernel waited calloc
      ≡ some (true, calls ++ replicate (max_conn - length waited) (closes 0), array)
worker_round-first sockfd kernel waited array calls few e =
    let (handled, same) =
      Whenever-eq _ (server_round sockfd kernel waited calloc) (true, calls, array)
        (server_round-some sockfd kernel waited calloc) e refl in
    let all = calls ++ replicate (max_conn - length waited) (closes 0) in
    worker_round-some sockfd kernel waited calloc true all
      (first_events sockfd kernel max_conn waited calls few handled)
    ∙ ap (λ a. some (true, all, a)) (sym same)
