-- ===== src/Ncat/Tests.antt =====
-- Runs of ncat/ncat.c.
use hack.Base.{ℕ, List, ◌∷◌, [], ◌≡◌, ◌++◌, arith, refl, some, false, true}
use hack.Ncat.{
  strcmp, read_loop, client_message, load, parse_args, strip, listen_short, eof, load_loop,
  listen_loop,
}
use hack.Ncat.Messages.{Sent, comes, IsSent, serve-comes}

abbrev hi : List ℕ
hi = b'h' ∷ b'i' ∷ []

-- a line of two characters for buffers of six bytes, in two chunks
abbrev sent_hi : Sent
sent_hi = record { text = hi; chunk = b'h' ∷ []; chunks = (b'i' ∷ 0 ∷ 0 ∷ 0 ∷ 0 ∷ []) ∷ [] }

sent_hi-IsSent : IsSent 6 sent_hi
unfolding client_message strip
sent_hi-IsSent = record {
  some_text = omega arith;
  fits = omega arith;
  plain = omega arith;
  all_some = omega arith;
  same = refl;
}

serve-comes_example :
    read_loop 6 (comes (sent_hi ∷ sent_hi ∷ []) ++ eof ∷ []) [] ≡ some (hi ∷ hi ∷ [])
serve-comes_example = serve-comes 6 (sent_hi ∷ sent_hi ∷ []) (sent_hi-IsSent, (sent_hi-IsSent, tt))

abbrev local : List ℕ
local = b'1' ∷ b'2' ∷ b'7' ∷ []

parse_args-listen :
    parse_args (listen_short ∷ local ∷ hi ∷ [])
    ≡ some (record { mode_client = false; mode_listen = true; host = local; port = hi })
unfolding parse_args listen_loop strcmp
parse_args-listen = refl

load-two : load (hi ∷ local ∷ []) ≡ hi ++ local
unfolding load load_loop
load-two = refl
