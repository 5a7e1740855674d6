-- ===== src/Xsk/Thread/Loops.antt =====
-- The loops of the threads of ebpf-xdp/xsk/af_rxtx.c, and which ports `main` of main.c gives to which
-- thread. `act j` is what a thread does for its port `j`: `forward` for `ports_rx[j]` and `ports_tx[j]`.
use hack.Base.{
  ℕ, Option, List, Bool, ◌+◌, ◌*◌, ◌∷◌, ◌-◌, ◌%◌, [], ◌>>=◌, if◌then◌else◌, suc, zero, ◌||◌, ◌==◌,
  ◌&&◌, some, none, ltb, leb, length,
}
use hack.Xsk.Thread.{max_ports_per_thread}
use Prim.Native.Nat.{bit_and}

-- the port of all that is `ports_rx[j]` of thread `i`, and the one that is `ports_tx[j]`
unfoldable pub ports_rx : ℕ → ℕ → ℕ → ℕ
ports_rx n_ports_per_thread i j = i * n_ports_per_thread + j

unfoldable pub ports_tx : ℕ → ℕ → ℕ → ℕ
ports_tx n_ports_per_thread i j = i * n_ports_per_thread + (j + 1) % n_ports_per_thread

-- the index after a round
unfoldable pub next_index : ℕ → ℕ → ℕ
next_index n_ports_rx i = bit_and (i + 1) (n_ports_rx - 1)

-- an answer of `poll` for a socket
pub record Revents : Type 0 where
  pub pollin : Bool
  pub pollerr : Bool
  pub pollhup : Bool

-- `struct pollfd` after a call of `poll`
pub record PollFd : Type 0 where
  pub fd : ℕ
  pub revents : Revents

-- `poll` leaves the numbers of the sockets and writes the answers.
abbrev pub polled : List ℕ → List Revents → List PollFd
polled [] answers = []
polled (fd ∷ fds) [] = []
polled (fd ∷ fds) (r ∷ answers) = record { fd = fd; revents = r } ∷ polled fds answers

module _ {S : Type 0} (act : ℕ → S → Option S) where
  -- what is done for the port at an index of the arrays `ports_rx`, `ports_tx` and `burst_tx` of a thread
  unfoldable pub at_port : ℕ → S → Option S
  at_port j s = let done = act j s in if ltb j max_ports_per_thread then done else none

  -- `thread_func` until it is told to quit, after so many rounds
  unfoldable pub thread_func : ℕ → ℕ → ℕ → S → Option S
  unfolding at_port
  thread_func n_ports_rx zero i s = some s
  thread_func n_ports_rx (suc rounds) i s = do
    s1 ← at_port i s
    thread_func n_ports_rx rounds (next_index n_ports_rx i) s1

  -- the inner loop of `thread_func_poll`, over the sockets of its ports from port `j` on
  unfoldable pub poll_ports : PollFd → List ℕ → ℕ → S → Option S
  poll_ports pollfd [] j s = some s
  poll_ports pollfd (sockfd ∷ later) j s =
      let rest = poll_ports pollfd later (j + 1) in
      if pollfd.fd == sockfd && pollfd.revents.pollin then act j s >>= rest else rest s

  -- the loop over the answers of one call of `poll`
  unfoldable pub poll_round : List ℕ → List PollFd → S → Option S
  poll_round sockets [] s = some s
  poll_round sockets (pollfd ∷ later) s =
      let rest = poll_round sockets later in
      if pollfd.revents.pollerr || pollfd.revents.pollhup
      then rest s
      else poll_ports pollfd sockets 0 s >>= rest

  -- the rounds until it is told to quit, with the answers of each call of `poll`
  unfoldable pub poll_loop : List ℕ → List (List Revents) → S → Option S
  poll_loop sockets [] s = some s
  poll_loop sockets (answers ∷ later) s = do
    s1 ← poll_round sockets (polled sockets answers) s
    poll_loop sockets later s1

  -- `thread_func_poll` for ports with these sockets: the first loop reads all of them from `ports_rx`,
  -- and no index behind it is larger.
  unfoldable pub thread_func_poll : List ℕ → List (List Revents) → S → Option S
  thread_func_poll sockets calls s =
      let done = poll_loop sockets calls s in
      if leb (length sockets) max_ports_per_thread then done else none
