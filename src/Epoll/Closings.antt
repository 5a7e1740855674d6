-- ===== src/Epoll/Closings.antt =====
-- Which connections the servers of sock-epoll-tcp and sock-thread-ctx-tcp close.
use hack.Base.{
  Option, ℕ, List, Bool, ◌≡◌, if◌then◌else◌, true, ◌++◌, ◌∷◌, some, [], ◌+◌, ◌||◌, arith, not,
  false, ap, refl, ◌==◌, Bool-cases, inl, inr, take, ◌∙◌, length, ap₂, drop, none,
}
use hack.Base.Fault.{Whenever, Whenever-bind, Whenever-any, Whenever-eq}
use hack.Epoll.{
  handle_event, handle_client, handle_conn, Answer, Arrival, Kernel, Event, Call, bytes, closes,
  again, adds, failed, sends, handle_events, server_round,
}
use hack.Select.{reply}

-- the descriptors that are closed, in their order
abbrev pub closed_fds : List Call → List ℕ
closed_fds [] = []
closed_fds (closes fd ∷ later) = fd ∷ closed_fds later
closed_fds (adds fd ∷ later) = closed_fds later
closed_fds (sends fd text ∷ later) = closed_fds later

closed_fds-append : (xs ys : List Call) → closed_fds (xs ++ ys) ≡ closed_fds xs ++ closed_fds ys
closed_fds-append [] ys = refl
closed_fds-append (closes fd ∷ xs) ys = ap (◌∷◌ fd) (closed_fds-append xs ys)
closed_fds-append (adds fd ∷ xs) ys = closed_fds-append xs ys
closed_fds-append (sends fd text ∷ xs) ys = closed_fds-append xs ys

abbrev pub gives_nothing : Answer → Bool
gives_nothing again = true
gives_nothing failed = true
gives_nothing (bytes []) = true
gives_nothing (bytes (c ∷ input)) = false

-- An event is the end of its connection: one of an error, or of a client that gives nothing to read.
abbrev pub ends : ℕ → Event → Answer → Bool
ends sockfd e reads =
    if e.err || e.hup || not e.input
    then true
    else if sockfd == e.fd
    then false
    else gives_nothing reads

abbrev pub ended : ℕ → (ℕ → Kernel) → ℕ → List Event → List ℕ
ended sockfd kernel i [] = []
ended sockfd kernel i (e ∷ later) =
    let rest = ended sockfd kernel (i + 1) later in
    if ends sockfd e (kernel i).reads then e.fd ∷ rest else rest

closed_fds-handle_conn : (arrivals : List Arrival) → closed_fds (handle_conn arrivals).1 ≡ []
unfolding handle_conn
closed_fds-handle_conn [] = refl
closed_fds-handle_conn (a ∷ later) = ground (arith, closed_fds-handle_conn later)

-- The calls close the descriptor if `end` says so, and no other.
abbrev ClosesIf : Bool → ℕ → List Call → Type 0
ClosesIf end fd calls = closed_fds calls ≡ (if end then fd ∷ [] else [])

handle_client-closes :
    (fd : ℕ) (reads : Answer)
    → Whenever (ClosesIf (gives_nothing reads) fd) (handle_client fd reads)
unfolding handle_client
handle_client-closes fd again =
    Whenever-bind (λ _. Unit {0}) _ (reply []) _ (Whenever-any (reply [])) λ wbuff _. refl
handle_client-closes fd failed =
    Whenever-bind (λ _. Unit {0}) _ (reply []) _ (Whenever-any (reply [])) λ wbuff _. refl
handle_client-closes fd (bytes []) =
    Whenever-bind (λ _. Unit {0}) _ (reply []) _ (Whenever-any (reply [])) λ wbuff _. refl
handle_client-closes fd (bytes (c ∷ input)) =
    Whenever-bind (λ _. Unit {0}) _ (reply (c ∷ input)) _ (Whenever-any (reply (c ∷ input)))
      λ wbuff _. refl

handle_event-closes :
    (sockfd : ℕ) (e : Event) (k : Kernel)
    → Whenever (λ r. ClosesIf (ends sockfd e k.reads) e.fd r.1) (handle_event sockfd e k)
unfolding handle_event
handle_event-closes sockfd e k = elim (Bool-cases (e.err || e.hup || not e.input)) [
  | inl flagged ↦ rw flagged refl
  | inr fine ↦ rw fine (elim (Bool-cases (sockfd == e.fd)) [
    | inl listens ↦ rw listens (closed_fds-handle_conn k.arrivals)
    | inr client ↦ rw client (
        Whenever-bind (ClosesIf (gives_nothing k.reads) e.fd) _ (handle_client e.fd k.reads) _
          (handle_client-closes e.fd k.reads) λ calls h. h)
  ])
]

-- once the process has been ended, nothing is claimed
pub stopped :
    (goes_on : Bool) (P : List Call → Type 0) (m : Option (Bool × List Call))
    → Whenever (λ r. r.0 ≡ true → P r.1) m
    → Whenever
        (λ r. r.0 ≡ true → (goes_on ≡ true) × P r.1)
        (if goes_on then m else some (false, []))
stopped true P none h = tt
stopped true P (some r) h = λ on. (refl, h on)
stopped false P m h = λ on. cc

closed_before :
    (end : Bool) (fd : ℕ) (fds : List ℕ)
    → (if end then fd ∷ [] else []) ++ fds ≡ (if end then fd ∷ fds else fds)
closed_before true fd fds = refl
closed_before false fd fds = refl

handle_events-closes :
    (sockfd : ℕ) (kernel : ℕ → Kernel) (i : ℕ) (events : List Event)
    → Whenever
        (λ r. r.0 ≡ true → closed_fds r.1 ≡ ended sockfd kernel i events)
        (handle_events sockfd kernel i events)
unfolding handle_events
handle_events-closes sockfd kernel i [] = λ on. refl
handle_events-closes sockfd kernel i (e ∷ later) =
    Whenever-bind (λ r. ClosesIf (ends sockfd e (kernel i).reads) e.fd r.1) _
      (handle_event sockfd e (kernel i)) _ (handle_event-closes sockfd e (kernel i))
      λ (goes_on, calls) h.
        Whenever-bind
          (λ r.
            r.0 ≡ true → (goes_on ≡ true) × (closed_fds r.1 ≡ ended sockfd kernel (i + 1) later))
          _ (if goes_on then handle_events sockfd kernel (i + 1) later else some (false, [])) _
          (stopped goes_on (λ rest. closed_fds rest ≡ ended sockfd kernel (i + 1) later)
            (handle_events sockfd kernel (i + 1) later)
            (handle_events-closes sockfd kernel (i + 1) later))
          λ (rest_on, rest) w on.
            closed_fds-append calls rest
            ∙ ap₂ ◌++◌ h (w on).1
            ∙ closed_before (ends sockfd e (kernel i).reads) e.fd
                (ended sockfd kernel (i + 1) later)

pub take-length : {A : Type 0} (xs ys : List A) → take (length xs) (xs ++ ys) ≡ xs
take-length [] ys = refl
take-length (x ∷ xs) ys = ap (◌∷◌ x) (take-length xs ys)

-- A round of sock-epoll-tcp that does not end the process closes the connections of just those events that
-- `epoll_wait` has counted and that are an error, or a client that gives nothing to read, each once and
-- in their order, whatever the array held before.
pub server_round-closes :
    (sockfd : ℕ) (kernel : ℕ → Kernel) (waited array array' : List Event) (calls : List Call)
    → server_round sockfd kernel waited array ≡ some (true, calls, array')
    → closed_fds calls ≡ ended sockfd kernel 0 waited
unfolding server_round
server_round-closes sockfd kernel waited array array' calls e =
    Whenever-eq (λ r. r.0 ≡ true → closed_fds r.1 ≡ ended sockfd kernel 0 waited)
      (server_round sockfd kernel waited array) (true, calls, array')
      (rw (take-length waited (drop (length waited) array)) (
        Whenever-bind (λ r. r.0 ≡ true → closed_fds r.1 ≡ ended sockfd kernel 0 waited) _
          (handle_events sockfd kernel 0 waited) _ (handle_events-closes sockfd kernel 0 waited)
          λ r h. h))
      e refl
