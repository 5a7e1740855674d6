-- ===== src/Select.antt =====
-- The echo server of sock-select-tcp/server_s.c, which waits for its connections with `select`. What the
-- kernel answers is an argument of a round. `none` is an access outside an array.
pub mod Table
pub mod Reply
pub mod Rounds
mod Tests
use hack.Base.Text.{text_of}
use hack.Base.{
  Option, if◌then◌else◌, Bool, List, ℕ, not, some, ◌>>=◌, none, false, ◌∷◌, ◌++◌, take, [], ◌==◌,
  ltb, true, replicate, ◌&&◌, length, ◌||◌, ◌+◌,
}

abbrev pub max_conn : ℕ
max_conn = 80

abbrev pub max_buff : ℕ
max_buff = 1024

-- `client_socket`, and which descriptors of connections the process has open
pub record Server : Type 0 where
  pub sockfd : ℕ
  pub client_socket : List ℕ
  pub held : List ℕ

-- the server as its loop begins
abbrev pub started : ℕ → Server
started sockfd = record { sockfd = sockfd; client_socket = replicate max_conn 0; held = [] }

-- what `read` answers
pub data Answer : Type 0 where
  failed : Answer
  bytes : List ℕ → Answer

-- What `accept` answers, whether the new socket is made non-blocking, and whether `close` of it fails.
pub data Arrival : Type 0 where
  refused : Arrival
  arrives : (new_socket : ℕ) (non_blocking close_fails : Bool) → Arrival

-- which of the descriptors `select` leaves in the set, and the answers of the round
pub record Kernel : Type 0 where
  pub selects : ℕ → Bool
  pub arrival : Arrival
  pub reads : ℕ → Answer

-- `FD_SETSIZE` of the library: descriptors from it on lie outside an `fd_set`.
abbrev pub fd_setsize : ℕ
fd_setsize = 1024

-- `FD_SET`, with the descriptors that are in the set
unfoldable pub fd_set : ℕ → List ℕ → Option (List ℕ)
fd_set fd set = if ltb fd fd_setsize then some (fd ∷ set) else none

-- the set as it is built before `select`
unfoldable pub watched : ℕ → List ℕ → Option (List ℕ)
unfolding fd_set
watched sockfd [] = fd_set sockfd []
watched sockfd (sd ∷ later) = do
  rest ← watched sockfd later
  if ltb 0 sd then fd_set sd rest else some rest

-- whether a descriptor is in the set that `select` leaves
abbrev pub is_left : (ℕ → Bool) → List ℕ → ℕ → Bool
is_left selects [] fd = false
is_left selects (sd ∷ set) fd = (sd == fd && selects fd) || is_left selects set fd

-- `FD_ISSET`
unfoldable pub fd_isset : (ℕ → Bool) → List ℕ → ℕ → Option Bool
fd_isset selects set fd = if ltb fd fd_setsize then some (is_left selects set fd) else none

-- `close`
unfoldable pub close : ℕ → List ℕ → List ℕ
close fd [] = []
close fd (sd ∷ held) = if fd == sd then held else sd ∷ close fd held

abbrev pub server_resp : List ℕ
server_resp =
    b'S' ∷ b'E' ∷ b'R' ∷ b'V' ∷ b'E' ∷ b'R' ∷ b' ' ∷ b'R' ∷ b'E' ∷ b'S' ∷ b'P' ∷ b':' ∷ b' ' ∷ []

-- The two `strcat` to `wbuff`; `buff` is zero behind what has been read.
unfoldable pub reply : List ℕ → Option (List ℕ)
unfolding text_of
reply input = do
  text ← text_of (take max_buff (input ++ replicate max_buff 0))
  if ltb (length server_resp + length text) max_buff then some (server_resp ++ text) else none

-- one slot of `comm`: what is left in it, what is open, and what is sent
unfoldable pub visit : Bool → Answer → ℕ → List ℕ → Option (ℕ × List ℕ × List (ℕ × List ℕ))
unfolding reply
visit false answer sd held = some (sd, held, [])
visit true failed sd held = do wbuff ← reply []; some (sd, held, (sd, wbuff) ∷ [])
visit true (bytes []) sd held = some (0, close sd held, [])
visit true (bytes (c ∷ input)) sd held = do
  wbuff ← reply (c ∷ input)
  some (sd, held, (sd, wbuff) ∷ [])

unfoldable pub comm :
    (ℕ → Option Bool)
    → (ℕ → Answer)
    → List ℕ
    → List ℕ
    → Option (List ℕ × List ℕ × List (ℕ × List ℕ))
comm isset reads [] held = some ([], held, [])
comm isset reads (sd ∷ later) held = do
  ready ← isset sd
  (slot, held1, out) ← visit ready (reads sd) sd held
  (slots, held2, outs) ← comm isset reads later held1
  some (slot ∷ slots, held2, out ++ outs)

-- the first free slot takes the socket; `none` if there is none
unfoldable pub add : ℕ → List ℕ → Option (List ℕ)
add new_socket [] = none
add new_socket (sd ∷ later) =
    let rest = add new_socket later in
    if sd == 0 then some (new_socket ∷ later) else do slots ← rest; some (sd ∷ slots)

pub data Next : Type 0 where
  -- `exit`
  exits : Next
  -- the rest of the round is left out
  continues : Server → Next
  -- the round goes on
  proceeds : Server → Next

abbrev pub admit : Server → ℕ → Bool → Option (List ℕ) → Next
admit s new_socket close_fails (some slots) =
    proceeds (record s { client_socket = slots; held = new_socket ∷ s.held })
admit s new_socket close_fails none =
    if close_fails then proceeds (record s { held = new_socket ∷ s.held }) else exits

unfoldable pub accept : Server → Arrival → Next
accept s refused = exits
accept s (arrives new_socket non_blocking close_fails) =
    if not non_blocking
    then continues (record s { held = new_socket ∷ s.held })
    else admit s new_socket close_fails (add new_socket s.client_socket)

-- what `comm` does after the new connection, unless the round has ended
unfoldable pub finish : (ℕ → Option Bool) → (ℕ → Answer) → Next → Option (Next × List (ℕ × List ℕ))
finish isset reads exits = some (exits, [])
finish isset reads (continues s) = some (continues s, [])
finish isset reads (proceeds s) = do
  (slots, held, sent) ← comm isset reads s.client_socket s.held
  some (proceeds (record s { client_socket = slots; held = held }), sent)

-- a round of the loop in `main`
unfoldable pub round : Server → Kernel → Option (Next × List (ℕ × List ℕ))
unfolding watched fd_isset
round s k = do
  readfds ← watched s.sockfd s.client_socket
  let isset = fd_isset k.selects readfds
  ready ← isset s.sockfd
  finish isset k.reads (if ready then accept s k.arrival else proceeds s)
