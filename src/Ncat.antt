-- ===== src/Ncat.antt =====
-- The program of ncat/ncat.c: its arguments, what the client sends for a line, how the server puts messages together,
-- and the text that a server loads to serve. The sizes of the buffers are arguments of the loops.
-- `none` is an access outside a buffer.
pub mod Arguments
pub mod Lines
pub mod Messages
pub mod Client
mod Tests
use hack.Base.Text.{text_of}
use hack.Base.{
  Option, List, Bool, ℕ, [], some, ◌>>=◌, none, ◌-◌, length, suc, ◌||◌, ◌∷◌, ◌*◌, zero, ◌++◌,
  if◌then◌else◌, false, true, replicate, get_or, ltb, ◌==◌, ◌+◌, set, not, ◌&&◌,
}

abbrev pub max_load_buff : ℕ
max_load_buff = 1024 * 1024 * 10

abbrev pub max_read_buff : ℕ
max_read_buff = 1024 * 1024

-- the options that are set
pub record Options : Type 0 where
  pub mode_client : Bool
  pub mode_listen : Bool
  pub host : List ℕ
  pub port : List ℕ

-- equality of two strings, as `strcmp` finds it
unfoldable pub strcmp : List ℕ → List ℕ → Bool
strcmp [] [] = true
strcmp [] (d ∷ y) = false
strcmp (c ∷ x) [] = false
strcmp (c ∷ x) (d ∷ y) = c == d && strcmp x y

abbrev pub listen_long : List ℕ
listen_long = b'-' ∷ b'-' ∷ b'l' ∷ b'i' ∷ b's' ∷ b't' ∷ b'e' ∷ b'n' ∷ []

abbrev pub listen_short : List ℕ
listen_short = b'-' ∷ b'l' ∷ []

abbrev pub is_listen : List ℕ → Bool
is_listen arg = strcmp arg listen_long || strcmp arg listen_short

-- the loop over the arguments before the last two
unfoldable pub listen_loop : ℕ → List (List ℕ) → Bool → Bool
listen_loop zero argv mode_listen = mode_listen
listen_loop (suc argc_nohp) [] mode_listen = mode_listen
listen_loop (suc argc_nohp) (arg ∷ argv) mode_listen =
    listen_loop argc_nohp argv (is_listen arg || mode_listen)

-- `none` is the answer -1
unfoldable pub parse_args : List (List ℕ) → Option Options
parse_args argv =
    let argc = length argv in
    let argc_nohp = argc - 2 in
    let mode_listen = listen_loop argc_nohp argv false in
    if ltb argc 2
    then none
    else some (record {
      mode_client = not mode_listen;
      mode_listen = mode_listen;
      host = get_or argv argc_nohp [];
      port = get_or argv (argc_nohp + 1) [];
    })

-- The loop that takes the last newline off, down to index 1.
unfoldable pub strip : ℕ → List ℕ → List ℕ
strip zero wbuff = wbuff
strip (suc i) wbuff =
    let rest = strip i wbuff in if get_or wbuff (suc i) 0 == 10 then set wbuff (suc i) 0 else rest

-- what the client writes for a line that `fgets` gives
unfoldable pub client_message : ℕ → List ℕ → List ℕ
client_message max line = strip (max - 1) (line ++ replicate (max - length line) 0)

-- what `read` answers; the end of the list is where the server waits
pub data Answer : Type 0 where
  eof : Answer
  failed : Answer
  got : List ℕ → Answer

abbrev pub printed : Option (List ℕ) → Option (List (List ℕ)) → Option (List (List ℕ))
printed text texts = do t ← text; ts ← texts; some (t ∷ ts)

-- The two loops of a connection, with the bytes in `rbuff` so far: the texts that are printed.
unfoldable pub read_loop : ℕ → List Answer → List ℕ → Option (List (List ℕ))
read_loop max [] rbuff = some []
read_loop max (eof ∷ later) rbuff = some []
read_loop max (failed ∷ later) rbuff = some []
read_loop max (got tmp ∷ later) rbuff =
    let full = printed (text_of (rbuff ++ tmp)) (read_loop max later []) in
    let more = read_loop max later (rbuff ++ tmp) in
    if ltb max (length rbuff + length tmp)
    then none
    else if ltb (length rbuff + length tmp) max
    then more
    else full

-- The loop over the lines that `fgets` gives, at most `rounds` of them; a missing line is empty.
unfoldable pub load_loop : ℕ → ℕ → List (List ℕ) → List ℕ → List ℕ
load_loop max zero lines serve_content = serve_content
load_loop max (suc rounds) [] serve_content = load_loop max rounds [] serve_content
load_loop max (suc rounds) (tmp ∷ lines) serve_content =
    let rest = load_loop max rounds lines (serve_content ++ tmp) in
    if ltb max (length serve_content + length tmp) then serve_content else rest

unfoldable pub load : List (List ℕ) → List ℕ
load lines = load_loop max_load_buff 10 lines []

-- a connection of the server, from its beginning
unfoldable pub serve : List Answer → Option (List (List ℕ))
serve answers = read_loop max_read_buff answers []
