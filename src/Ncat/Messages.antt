-- ===== src/Ncat/Messages.antt =====
-- How the server of ncat/ncat.c puts messages together.
use hack.Base.Text.{text_of}
use hack.Base.{
  List, ℕ, NonZero, ◌∷◌, length, ◌<◌, ◌++◌, [], ◌+◌, replicate, ◌≡◌, suc, ap, some, sym, arith,
  ne→==-false, refl, append-nil, ◌-◌, length-append, none, le→ltb, append_assoc, ◌∙◌, lt→ltb,
  length-replicate,
}
use hack.Ncat.{read_loop, Answer, got, printed, client_message, eof}
use hack.Ncat.Lines.{client_message-line}

abbrev pub concat : List (List ℕ) → List ℕ
concat [] = []
concat (chunk ∷ later) = chunk ++ concat later

-- the answers of `read` that carry some bytes
abbrev pub gots : List (List ℕ) → List Answer
gots [] = []
gots (chunk ∷ later) = got chunk ∷ gots later

abbrev pub AllSome : List (List ℕ) → Type 0
AllSome [] = Unit
AllSome (chunk ∷ later) = (0 < length chunk) × AllSome later

text_of-text :
    (text : List ℕ) (n : ℕ) → NonZero text → text_of (text ++ replicate (suc n) 0) ≡ some text
unfolding text_of
text_of-text [] n h = refl
text_of-text (c ∷ text) n h = rw (ne→==-false c 0 h.0) (rw (text_of-text text n h.1) refl)

read_loop-more :
    (max : ℕ) (chunk : List ℕ) (later : List Answer) (rbuff : List ℕ)
    → length rbuff + length chunk < max
    → read_loop max (got chunk ∷ later) rbuff ≡ read_loop max later (rbuff ++ chunk)
unfolding read_loop
read_loop-more max chunk later rbuff lt =
    rw (le→ltb max (length rbuff + length chunk) (omega arith))
      (rw (lt→ltb (length rbuff + length chunk) max lt) refl)

read_loop-full :
    (max : ℕ) (chunk : List ℕ) (later : List Answer) (rbuff : List ℕ)
    → length rbuff + length chunk ≡ max
    → read_loop max (got chunk ∷ later) rbuff
      ≡ printed (text_of (rbuff ++ chunk)) (read_loop max later [])
unfolding read_loop
read_loop-full max chunk later rbuff e =
    rw (le→ltb max (length rbuff + length chunk) (omega arith))
      (rw (le→ltb (length rbuff + length chunk) max (omega arith)) refl)

read_loop-over :
    (max : ℕ) (chunk : List ℕ) (later : List Answer) (rbuff : List ℕ)
    → max < length rbuff + length chunk
    → read_loop max (got chunk ∷ later) rbuff ≡ none
unfolding read_loop
read_loop-over max chunk later rbuff lt = rw (lt→ltb max (length rbuff + length chunk) lt) refl

read_loop-eof :
    (max : ℕ) (later : List Answer) (rbuff : List ℕ) → read_loop max (eof ∷ later) rbuff ≡ some []
unfolding read_loop
read_loop-eof max later rbuff = refl

-- Chunks that do not fill the buffer print nothing.
read_loop-short :
    (max : ℕ) (chunks : List (List ℕ)) (later : List Answer) (rbuff : List ℕ)
    → length rbuff + length (concat chunks) < max
    → read_loop max (gots chunks ++ later) rbuff ≡ read_loop max later (rbuff ++ concat chunks)
read_loop-short max [] later rbuff lt = ap (read_loop max later) (sym (append-nil rbuff))
read_loop-short max (chunk ∷ chunks) later rbuff lt =
    let size = length-append {0} chunk (concat chunks) in
    read_loop-more max chunk (gots chunks ++ later) rbuff (omega (arith, lt, size))
    ∙ read_loop-short max chunks later (rbuff ++ chunk)
        (omega (arith, lt, size, length-append {0} rbuff chunk))
    ∙ ap (read_loop max later) (append_assoc rbuff chunk (concat chunks))

-- Chunks of which the last fills the buffer are one text.
read_loop-filled :
    (max : ℕ) (chunk : List ℕ) (chunks : List (List ℕ)) (later : List Answer) (rbuff : List ℕ)
    → AllSome chunks
    → length rbuff + length (concat (chunk ∷ chunks)) ≡ max
    → read_loop max (gots (chunk ∷ chunks) ++ later) rbuff
      ≡ printed (text_of (rbuff ++ concat (chunk ∷ chunks))) (read_loop max later [])
read_loop-filled max chunk [] later rbuff h e =
    read_loop-full max chunk later rbuff (omega (arith, e, length-append {0} chunk []))
    ∙ ap (λ text. printed (text_of (rbuff ++ text)) (read_loop max later []))
        (sym (append-nil chunk))
read_loop-filled max chunk (next ∷ chunks) later rbuff h e =
    let size = length-append {0} chunk (next ++ concat chunks) in
    let size1 = length-append {0} next (concat chunks) in
    read_loop-more max chunk (gots (next ∷ chunks) ++ later) rbuff
      (omega (arith, e, size, size1, h.0))
    ∙ read_loop-filled max next chunks later (rbuff ++ chunk) h.1
        (omega (arith, e, size, length-append {0} rbuff chunk))
    ∙ ap (λ text. printed (text_of text) (read_loop max later []))
        (append_assoc rbuff chunk (next ++ concat chunks))

-- a line that the client sends, and the chunks in which it comes
pub record Sent : Type 0 where
  pub text : List ℕ
  pub chunk : List ℕ
  pub chunks : List (List ℕ)

pub record IsSent (max : ℕ) (m : Sent) : Type 0 where
  pub some_text : 0 < length m.text
  pub fits : length m.text + 1 < max
  pub plain : NonZero m.text
  pub all_some : AllSome m.chunks
  pub same : concat (m.chunk ∷ m.chunks) ≡ client_message max (m.text ++ 10 ∷ [])

abbrev pub AllSent : ℕ → List Sent → Type 0
AllSent max [] = Unit
AllSent max (m ∷ later) = IsSent max m × AllSent max later

abbrev pub comes : List Sent → List Answer
comes [] = []
comes (m ∷ later) = gots (m.chunk ∷ m.chunks) ++ comes later

abbrev pub texts : List Sent → List (List ℕ)
texts [] = []
texts (m ∷ later) = m.text ∷ texts later

read_loop-sent :
    (max : ℕ) (m : Sent) (later : List Answer)
    → IsSent max m
    → read_loop max (gots (m.chunk ∷ m.chunks) ++ later) []
      ≡ printed (some m.text) (read_loop max later [])
read_loop-sent max m later h =
    let n = max - length m.text - 1 in
    let zeros : max - length m.text ≡ suc n = omega (arith, h.fits) in
    let all : concat (m.chunk ∷ m.chunks) ≡ m.text ++ replicate (suc n) 0 =
      h.same
      ∙ (client_message-line max m.text h.fits).0 h.some_text
      ∙ ap (λ k. m.text ++ replicate k 0) zeros in
    let size : length (concat (m.chunk ∷ m.chunks)) ≡ max =
      ap length all
      ∙ omega (
        arith,
        h.fits,
        length-append {0} m.text (replicate (suc n) 0),
        length-replicate {0} {A = ℕ} (suc n) 0,
      ) in
    read_loop-filled max m.chunk m.chunks later [] h.all_some (omega (arith, size))
    ∙ ap (λ text. printed text (read_loop max later []))
        (ap text_of all ∙ text_of-text m.text n h.plain)

-- Lines of the client, each of one character or more and none of them zero, that fit into its buffer: however the
-- bytes of each are cut into chunks on their way, the server prints the lines, in their order, and leaves
-- no buffer, if no chunk holds bytes of two of them.
pub serve-comes :
    (max : ℕ) (ms : List Sent)
    → AllSent max ms
    → read_loop max (comes ms ++ eof ∷ []) [] ≡ some (texts ms)
serve-comes max [] h = read_loop-eof max [] []
serve-comes max (m ∷ ms) h = rw (append_assoc (gots (m.chunk ∷ m.chunks)) (comes ms) (eof ∷ [])) (
    read_loop-sent max m (comes ms ++ eof ∷ []) h.0
    ∙ ap (printed (some m.text)) (serve-comes max ms h.1))

-- Bytes of less than a whole buffer are lost when the connection ends; and a chunk that comes behind them and goes
-- past the end of the buffer is written past it.
pub read_loop-cut :
    (max : ℕ) (chunks : List (List ℕ)) (chunk : List ℕ) (later : List Answer)
    → length (concat chunks) < max
    → max < length (concat chunks) + length chunk
    → (read_loop max (gots chunks ++ eof ∷ later) [] ≡ some [])
      × (read_loop max (gots chunks ++ got chunk ∷ later) [] ≡ none)
read_loop-cut max chunks chunk later short over = (
  read_loop-short max chunks (eof ∷ later) [] (omega (arith, short))
      ∙ read_loop-eof max later (concat chunks),
  read_loop-short max chunks (got chunk ∷ later) [] (omega (arith, short))
      ∙ read_loop-over max chunk later (concat chunks) over,
)
