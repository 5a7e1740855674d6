-- ===== src/Epoll.antt =====
-- The echo servers that wait with edge-triggered epoll: sock-epoll-tcp, in server_ep.c and server_handle.c, and
-- the workers of sock-thread-ctx-tcp, in worker.c and server_thandle.c. What the kernel answers is an
-- argument, and the calls that change something outside are a list. `none` is an access outside an array.
pub mod Closings
pub mod Stale
pub mod Idle
mod Tests
use hack.Base.{
  false, List, ℕ, replicate, ◌++◌, Option, Bool, drop, some, if◌then◌else◌, ◌>>=◌, true, take,
  length, ◌||◌, ◌∷◌, ◌+◌, [], not, ◌==◌,
}
use hack.Select.{reply}

abbrev pub max_conn : ℕ
max_conn = 80

pub data Call : Type 0 where
  -- `epoll_ctl` with EPOLL_CTL_ADD, `send` and `close`
  adds : (fd : ℕ) → Call
  sends : (fd : ℕ) (text : List ℕ) → Call
  closes : (fd : ℕ) → Call

-- what is left of an event of `struct epoll_event`: its descriptor and three of its flags
pub record Event : Type 0 where
  pub fd : ℕ
  pub err : Bool
  pub hup : Bool
  pub input : Bool

-- what `read` answers; no bytes are the end of the connection
pub data Answer : Type 0 where
  again : Answer
  failed : Answer
  bytes : List ℕ → Answer

-- One answer of `accept`: the descriptor, and whether it is made non-blocking and added to the epoll.
pub record Arrival : Type 0 where
  pub infd : ℕ
  pub non_blocking : Bool
  pub added : Bool

-- the answers for one event
pub record Kernel : Type 0 where
  pub arrivals : List Arrival
  pub reads : Answer

-- The connections that are accepted until `accept` fails, and whether the process goes on.
unfoldable pub handle_conn : List Arrival → Bool × List Call
handle_conn [] = (true, [])
handle_conn (a ∷ later) =
    let rest = handle_conn later in
    if not a.non_blocking
    then (false, [])
    else if not a.added
    then (false, [])
    else (rest.0, adds a.infd ∷ rest.1)

-- Both `strcat` and the `send` come after every read, also after one that failed.
unfoldable pub handle_client : ℕ → Answer → Option (List Call)
handle_client fd again = do wbuff ← reply []; some (sends fd wbuff ∷ closes fd ∷ [])
handle_client fd failed = do wbuff ← reply []; some (sends fd wbuff ∷ closes fd ∷ [])
handle_client fd (bytes []) = do wbuff ← reply []; some (sends fd wbuff ∷ closes fd ∷ [])
handle_client fd (bytes (c ∷ input)) = do wbuff ← reply (c ∷ input); some (sends fd wbuff ∷ [])

-- The body of the loop over the events: whether the process goes on, and the calls.
unfoldable pub handle_event : ℕ → Event → Kernel → Option (Bool × List Call)
handle_event sockfd e k =
    if e.err || e.hup || not e.input
    then some (true, closes e.fd ∷ [])
    else if sockfd == e.fd
    then some (handle_conn k.arrivals)
    else do calls ← handle_client e.fd k.reads; some (true, calls)

-- the loop over as many events as there are, with the answers for the event of an index
unfoldable pub handle_events : ℕ → (ℕ → Kernel) → ℕ → List Event → Option (Bool × List Call)
handle_events sockfd kernel i [] = some (true, [])
handle_events sockfd kernel i (e ∷ later) = do
  (goes_on, calls) ← handle_event sockfd e (kernel i)
  (rest_on, rest) ← if goes_on then handle_events sockfd kernel (i + 1) later else some (false, [])
  some (rest_on, calls ++ rest)

-- what `epoll_wait` writes into the array `CLIENT_SOCKET`
abbrev pub epoll_wait : List Event → List Event → List Event
epoll_wait waited array = waited ++ drop (length waited) array

-- The round of the server looks at the events that `epoll_wait` counts.
unfoldable pub server_round :
    ℕ → (ℕ → Kernel) → List Event → List Event → Option (Bool × List Call × List Event)
server_round sockfd kernel waited array = do
  let client_socket = epoll_wait waited array
  (goes_on, calls) ← handle_events sockfd kernel 0 (take (length waited) client_socket)
  some (goes_on, calls, client_socket)

-- The round of a worker looks at the whole array.
unfoldable pub worker_round :
    ℕ → (ℕ → Kernel) → List Event → List Event → Option (Bool × List Call × List Event)
worker_round sockfd kernel waited array = do
  let client_socket = epoll_wait waited array
  (goes_on, calls) ← handle_events sockfd kernel 0 (take max_conn client_socket)
  some (goes_on, calls, client_socket)

-- an event as `calloc` leaves it
abbrev pub no_event : Event
no_event = record { fd = 0; err = false; hup = false; input = false }

abbrev pub calloc : List Event
calloc = replicate max_conn no_event
