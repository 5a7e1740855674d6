-- ===== src/Select/Table.antt =====
-- The table of connections of sock-select-tcp/server_s.c.
use hack.Base.{
  List, ℕ, length, Bool, ◌≡◌, ◌≢◌, ◌∷◌, false, true, ◌+◌, ◌<◌, ◌-◌, if◌then◌else◌, ◌≤◌, ◌==◌, [],
  ◌⊎◌, arith, inl, refl, inr, none, some, Bool-cases, Option, ne→==, ◌>>=◌, ◌++◌, replicate, suc,
  zero, sym, ltb, lt→ltb,
}
use hack.Base.Fault.{Runs, Runs-bind}
use hack.Select.{
  comm, visit, Answer, close, Server, bytes, fd_isset, fd_set, fd_setsize, is_left, max_conn,
  failed, watched, reply, add, max_buff, server_resp, started,
}
use hack.Select.Reply.{reply-Runs}

abbrev pub count : ℕ → List ℕ → ℕ
count fd [] = 0
count fd (x ∷ xs) = (if fd == x then 1 else 0) + count fd xs

-- the descriptors that fit into an `fd_set`
abbrev pub AllSmall : List ℕ → Type 0
AllSmall [] = Unit
AllSmall (sd ∷ slots) = (sd < fd_setsize) × AllSmall slots

-- Each connection that the process has open stands in one slot of the table, and no other descriptor does;
-- all descriptors fit into an `fd_set`.
pub record IsSound (s : Server) : Type 0 where
  pub listens : s.sockfd ≢ 0
  pub listens_small : s.sockfd < fd_setsize
  pub small : AllSmall s.client_socket
  pub slots : length s.client_socket ≡ max_conn
  pub same : (fd : ℕ) → fd ≢ 0 → count fd s.held ≡ count fd s.client_socket
  pub single : (fd : ℕ) → fd ≢ 0 → count fd s.client_socket ≤ 1

count-close :
    (fd sd : ℕ) (held : List ℕ)
    → count fd (close sd held) ≡ count fd held - (if fd == sd then 1 else 0)
unfolding close
count-close fd sd [] = ground arith
count-close fd sd (x ∷ held) = ground (arith, count-close fd sd held, count-close sd sd held)

-- A set without the descriptor 0 is built, where all descriptors fit.
pub watched-Runs :
    (sockfd : ℕ) (slots : List ℕ)
    → sockfd ≢ 0
    → sockfd < fd_setsize
    → AllSmall slots
    → Runs
        (λ readfds. (selects : ℕ → Bool) → is_left selects readfds 0 ≡ false)
        (watched sockfd slots)
unfolding watched fd_set
watched-Runs sockfd [] ne lt small = rw (lt→ltb sockfd fd_setsize lt) λ selects. ground arith
watched-Runs sockfd (sd ∷ slots) ne lt small =
    Runs-bind _ _ (watched sockfd slots) _ (watched-Runs sockfd slots ne lt small.1) λ readfds off.
      elim (Bool-cases (ltb 0 sd)) [
        | inl b ↦ rw (b, lt→ltb sd fd_setsize small.0) λ selects. ground (arith, off selects)
        | inr b ↦ rw b off
      ]

-- a test of the set that is never true of 0, and stays inside the set for the descriptors that fit
abbrev pub Tests : (ℕ → Option Bool) → Type 0
Tests isset = (fd : ℕ) → fd < fd_setsize → Runs (λ ready. ready ≡ true → fd ≢ 0) (isset fd)

pub fd_isset-Tests :
    (selects : ℕ → Bool) (readfds : List ℕ)
    → is_left selects readfds 0 ≡ false
    → Tests (fd_isset selects readfds)
unfolding fd_isset
fd_isset-Tests selects readfds off fd lt = rw (lt→ltb fd fd_setsize lt) λ e z. cc

abbrev pub IsShort : Answer → Type 0
IsShort failed = Unit
IsShort (bytes input) = length input < 1011

-- What a slot, and a table, has become.
abbrev Visited : ℕ → List ℕ → ℕ × List ℕ × List (ℕ × List ℕ) → Type 0
Visited sd held r =
    ((fd : ℕ)
      → fd ≢ 0
      → count fd r.1 + (if fd == sd then 1 else 0) ≡ count fd held + (if fd == r.0 then 1 else 0))
    × ((r.0 ≡ sd) ⊎ (r.0 ≡ 0))

unchanged : (sd : ℕ) (held : List ℕ) (sent : List (ℕ × List ℕ)) → Visited sd held (sd, held, sent)
unchanged sd held sent = ((λ fd ne. refl), inl refl)

visit-Runs :
    (ready : Bool) (answer : Answer) (sd : ℕ) (held : List ℕ)
    → IsShort answer
    → (ready ≡ true → sd ≢ 0)
    → (sd ≢ 0 → 1 ≤ count sd held)
    → Runs (Visited sd held) (visit ready answer sd held)
unfolding visit
visit-Runs false answer sd held short ne open_ = ((λ fd ne. refl), inl refl)
visit-Runs true failed sd held short ne open_ = unchanged sd held ((sd, server_resp ++ []) ∷ [])
visit-Runs true (bytes []) sd held short ne open_ =
    ((λ fd ne'. ground (arith, count-close fd sd held, open_ (ne refl))), inr refl)
visit-Runs true (bytes (c ∷ input)) sd held short ne open_ =
    Runs-bind (λ wbuff. length wbuff < max_buff) (Visited sd held) (reply (c ∷ input)) _
      (reply-Runs (c ∷ input) short) λ wbuff h. unchanged sd held ((sd, wbuff) ∷ [])

abbrev pub Swept : List ℕ → List ℕ → List ℕ × List ℕ × List (ℕ × List ℕ) → Type 0
Swept slots held r =
    (length r.0 ≡ length slots)
    × AllSmall r.0
    × ((fd : ℕ) → fd ≢ 0 → count fd r.1 + count fd slots ≡ count fd held + count fd r.0)
    × ((fd : ℕ) → fd ≢ 0 → count fd r.0 ≤ count fd slots)

slot-small : (sd slot : ℕ) → (slot ≡ sd) ⊎ (slot ≡ 0) → sd < fd_setsize → slot < fd_setsize
slot-small sd slot (inl e) lt = rw e lt
slot-small sd slot (inr e) lt = rw e (omega arith)

pub comm-Runs :
    (isset : ℕ → Option Bool) (reads : ℕ → Answer) (slots held : List ℕ)
    → Tests isset
    → AllSmall slots
    → ((fd : ℕ) → IsShort (reads fd))
    → ((fd : ℕ) → fd ≢ 0 → count fd slots ≤ count fd held)
    → Runs (Swept slots held) (comm isset reads slots held)
unfolding comm
comm-Runs isset reads [] held tests small short open_ =
    (refl, tt, (λ fd ne. omega arith), λ fd ne. omega arith)
comm-Runs isset reads (sd ∷ slots) held tests small short open_ =
    Runs-bind _ (Swept (sd ∷ slots) held) (isset sd) _ (tests sd small.0) λ ready on.
      Runs-bind (Visited sd held) (Swept (sd ∷ slots) held) (visit ready (reads sd) sd held) _
        (visit-Runs ready (reads sd) sd held (short sd) on λ ne. ground (arith, open_ sd ne))
        λ (slot, held1, out) v.
          Runs-bind (Swept slots held1) (Swept (sd ∷ slots) held) (comm isset reads slots held1) _
            (comm-Runs isset reads slots held1 tests small.1 short
              (λ fd ne. ground (arith, v.0 fd ne, open_ fd ne)))
            λ (slots1, held2, outs) w. (
              omega (arith, w.0),
              (slot-small sd slot v.1 small.0, w.1),
              (λ fd ne. ground (arith, v.0 fd ne, w.2 fd ne)),
              λ fd ne. ground (arith, w.3 fd ne, v.1),
            )

-- What `add` answers: a full table, or a table with one more.
abbrev pub Added : ℕ → List ℕ → Option (List ℕ) → Type 0
Added fd slots none = count 0 slots ≡ 0
Added fd slots (some added) =
    (length added ≡ length slots)
    × (fd < fd_setsize → AllSmall slots → AllSmall added)
    × ((x : ℕ) → x ≢ 0 → count x added ≡ count x slots + (if x == fd then 1 else 0))

add_later :
    (fd sd : ℕ) (slots : List ℕ) (answer : Option (List ℕ))
    → sd ≢ 0
    → Added fd slots answer
    → Added fd (sd ∷ slots) (answer >>= λ later. some (sd ∷ later))
add_later fd sd slots none ne h = ground arith
add_later fd sd slots (some added) ne h = (
  omega (arith, h.0),
  (λ lt small. (small.0, h.1 lt small.1)),
  λ x some_fd. ground (arith, h.2 x some_fd),
)

pub add-Added : (fd : ℕ) (slots : List ℕ) → Added fd slots (add fd slots)
unfolding add
add-Added fd [] = refl
add-Added fd (sd ∷ slots) = elim (Bool-cases (sd == 0)) [
  | inl free ↦ rw free (refl, (λ lt small. (lt, small.1)), λ x some_fd. ground arith)
  | inr taken ↦
      rw taken (add_later fd sd slots (add fd slots) (ne→== sd 0 taken) (add-Added fd slots))
]

pub full-add : (fd : ℕ) (slots : List ℕ) → count 0 slots ≡ 0 → add fd slots ≡ none
unfolding add
full-add fd [] e = refl
full-add fd (sd ∷ slots) e = ground (arith, full-add fd slots)

count-zeros : (fd n : ℕ) → fd ≢ 0 → count fd (replicate n 0) ≡ 0
count-zeros fd zero ne = refl
count-zeros fd (suc n) ne = ground (arith, count-zeros fd n ne)

zeros-small : (n : ℕ) → AllSmall (replicate n 0)
zeros-small zero = tt
zeros-small (suc n) = (omega arith, zeros-small n)

pub started-IsSound : (sockfd : ℕ) → sockfd ≢ 0 → sockfd < fd_setsize → IsSound (started sockfd)
started-IsSound sockfd ne lt = record {
  listens = ne;
  listens_small = lt;
  small = zeros-small max_conn;
  slots = refl;
  same = λ fd some_fd. sym (count-zeros fd max_conn some_fd);
  single = λ fd some_fd. omega (arith, count-zeros fd max_conn some_fd);
}
