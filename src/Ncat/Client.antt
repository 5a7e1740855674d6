-- ===== src/Ncat/Client.antt =====
-- The two threads of a client of ncat/ncat.c, NCAT_client and NCAT_get_thread, as steps. What the code does between
-- a lock and its unlock is one step, but for the reader, which keeps the lock while it reads.
pub mod Waits
pub mod Lost
mod Tests
use hack.Base.Text.{text_of}
use hack.Base.{ℕ, List, Bool, ◌∷◌, [], ◌≡◌, true, false, some, ◌+◌, ◌++◌, length, ◌<◌}
use hack.Ncat.{client_message}

-- where NCAT_client is
pub data Place : Type 0 where
  connecting : Place
  connected : Place
  typing : Place
  checking : (wbuff : List ℕ) → Place
  writing : (wbuff : List ℕ) → Place
  leaving : Place
  closing : Place
  ended : Place

-- where NCAT_get_thread is; with the lock, it has the bytes in `rbuff`
pub data Reader : Type 0 where
  idle : Reader
  holding : (rbuff : List ℕ) → Reader

pub record Client : Type 0 where
  pub client_sock_ready : Bool
  pub place : Place
  pub reader : Reader
  -- whether the socket is closed, and whether a byte has been written behind a buffer
  pub closed : Bool
  pub faulted : Bool
  pub sent : List (List ℕ)
  pub printed : List (List ℕ)

abbrev pub started : Client
started = record {
  client_sock_ready = false;
  place = connecting;
  reader = idle;
  closed = false;
  faulted = false;
  sent = [];
  printed = [];
}

-- The steps, for buffers of `max` bytes. `connect` of a descriptor that is closed fails.
pub data Step (max : ℕ) : Client → Client → Type 0 where
  connects :
      (s : Client)
      → s.place ≡ connecting
      → s.closed ≡ false
      → Step max s (record s { place = connected })
  gives_up : (s : Client) → s.place ≡ connecting → Step max s (record s { place = ended })
  marks :
      (s : Client)
      → s.place ≡ connected
      → s.reader ≡ idle
      → Step max s (record s { client_sock_ready = true; place = typing })
  types :
      (s : Client) (line : List ℕ)
      → s.place ≡ typing
      → Step max s (record s { place = checking (client_message max line) })
  passes :
      (s : Client) (wbuff : List ℕ)
      → s.place ≡ checking wbuff
      → s.reader ≡ idle
      → s.client_sock_ready ≡ true
      → Step max s (record s { place = writing wbuff })
  breaks :
      (s : Client) (wbuff : List ℕ)
      → s.place ≡ checking wbuff
      → s.reader ≡ idle
      → s.client_sock_ready ≡ false
      → Step max s (record s { place = leaving })
  writes :
      (s : Client) (wbuff : List ℕ)
      → s.place ≡ writing wbuff
      → Step max s (record s { place = typing; sent = s.sent ++ wbuff ∷ [] })
  leaves :
      (s : Client)
      → s.place ≡ leaving
      → s.reader ≡ idle
      → Step max s (record s { client_sock_ready = false; place = closing })
  closes :
      (s : Client) → s.place ≡ closing → Step max s (record s { place = connecting; closed = true })
  -- the reader, from here on
  looks :
      (s : Client)
      → s.reader ≡ idle
      → s.client_sock_ready ≡ true
      → Step max s (record s { reader = holding [] })
  reads :
      (s : Client) (rbuff tmp : List ℕ)
      → s.reader ≡ holding rbuff
      → length rbuff + length tmp < max
      → Step max s (record s { reader = holding (rbuff ++ tmp) })
  prints :
      (s : Client) (rbuff tmp text : List ℕ)
      → s.reader ≡ holding rbuff
      → length rbuff + length tmp ≡ max
      → text_of (rbuff ++ tmp) ≡ some text
      → Step max s (record s { reader = idle; printed = s.printed ++ text ∷ [] })
  overflows :
      (s : Client) (rbuff tmp : List ℕ)
      → s.reader ≡ holding rbuff
      → max < length rbuff + length tmp
      → Step max s (record s { reader = idle; faulted = true })
  stops :
      (s : Client) (rbuff : List ℕ)
      → s.reader ≡ holding rbuff
      → Step max s (record s { client_sock_ready = false; reader = idle })

pub data Reach (max : ℕ) (s : Client) : Client → Type 0 where
  here : Reach max s s
  next : (s1 s2 : Client) → Reach max s s1 → Step max s1 s2 → Reach max s s2
