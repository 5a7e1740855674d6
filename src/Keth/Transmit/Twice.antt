-- ===== src/Keth/Transmit/Twice.antt =====
-- The network numbers that keth-if/kernel/core.c changes in a frame, there and back.
use hack.Base.{
  ℕ, List, ◌<◌, ◌≡◌, ◌∷◌, arith, ◌∙◌, suc, ap, [], refl, zero, length, ◌≢◌, get_or, length-set,
  get_or-set_ne, set, sym, ◌%◌, ◌/◌,
}
use hack.Keth.Transmit.{flip_bit, flip_nets, flip_at, rewrite_frame, store_check}
use hack.Keth.Model.{Kernel}
use hack.Keth.Transmit.Conserve.{length-flip_nets, length-rewrite_frame}

flip_bit-flip_bit : (x : ℕ) → flip_bit (flip_bit x) ≡ x
flip_bit-flip_bit x = ground arith

flip_at-flip_at : (buf : List ℕ) (i : ℕ) → flip_at (flip_at buf i) i ≡ buf
flip_at-flip_at [] i = refl
flip_at-flip_at (x ∷ buf) zero = ap (λ y. y ∷ buf) (flip_bit-flip_bit x)
flip_at-flip_at (x ∷ buf) (suc i) = ap (◌∷◌ x) (flip_at-flip_at buf i)

flip_at_comm :
    (buf : List ℕ) (i j : ℕ) → i < j → flip_at (flip_at buf i) j ≡ flip_at (flip_at buf j) i
flip_at_comm [] i j lt = refl
flip_at_comm (x ∷ buf) i zero lt = absurd (omega arith)
flip_at_comm (x ∷ buf) zero (suc j) lt = refl
flip_at_comm (x ∷ buf) (suc i) (suc j) lt = ap (◌∷◌ x) (flip_at_comm buf i j (omega arith))

flip_nets-flip_nets : (buf : List ℕ) → flip_nets (flip_nets buf) ≡ buf
flip_nets-flip_nets buf =
    flip_at_comm (flip_at (flip_at buf 28) 32) 28 32 (omega arith)
    ∙ ap (λ b. flip_at b 28) (flip_at-flip_at (flip_at buf 28) 32)
    ∙ flip_at-flip_at buf 28

-- the byte of a frame at an index in it depends on the byte there before
get_or-flip_at :
    (b c : List ℕ) (j i : ℕ)
    → length b ≡ length c
    → get_or b i 0 ≡ get_or c i 0
    → get_or (flip_at b j) i 0 ≡ get_or (flip_at c j) i 0
get_or-flip_at [] [] j i len e = refl
get_or-flip_at [] (y ∷ c) j i len e = absurd (omega arith)
get_or-flip_at (x ∷ b) [] j i len e = absurd (omega arith)
get_or-flip_at (x ∷ b) (y ∷ c) zero zero len e = ap flip_bit e
get_or-flip_at (x ∷ b) (y ∷ c) zero (suc i) len e = e
get_or-flip_at (x ∷ b) (y ∷ c) (suc j) zero len e = e
get_or-flip_at (x ∷ b) (y ∷ c) (suc j) (suc i) len e = get_or-flip_at b c j i (omega arith) e

get_or-store_check :
    (b : List ℕ) (c i : ℕ) → i ≢ 24 → i ≢ 25 → get_or (store_check b c) i 0 ≡ get_or b i 0
get_or-store_check b c i n4 n5 =
    get_or-set_ne (set b 24 (c % 256)) 25 i (c / 256 % 256) 0 (λ e. n5 (sym e))
    ∙ get_or-set_ne b 24 i (c % 256) 0 (λ e. n4 (sym e))

get_or-rewrite_frame :
    (k : Kernel) (b : List ℕ) (i : ℕ)
    → i ≢ 24
    → i ≢ 25
    → get_or (rewrite_frame k b) i 0 ≡ get_or (flip_nets b) i 0
unfolding rewrite_frame
get_or-rewrite_frame k b i n4 n5 =
    get_or-store_check _ _ i n4 n5 ∙ get_or-store_check (flip_nets b) 0 i n4 n5

-- A frame that crosses the link and is sent back has the bytes it had at first, apart from the two of
-- the header checksum, and as many of them.
pub rewrite_frame-twice :
    (k : Kernel) (buf : List ℕ)
    → let twice = rewrite_frame k (rewrite_frame k buf) in
      (length twice ≡ length buf) × ((i : ℕ) → i ≢ 24 → i ≢ 25 → get_or twice i 0 ≡ get_or buf i 0)
rewrite_frame-twice k buf =
    let once = rewrite_frame k buf in
    (
      length-rewrite_frame k once ∙ length-rewrite_frame k buf,
      λ i n4 n5.
          get_or-rewrite_frame k once i n4 n5
          ∙ get_or-flip_at (flip_at once 28) (flip_at (flip_nets buf) 28) 32 i
              (length-set once 28 _ ∙ length-rewrite_frame k buf ∙ sym (length-flip2 buf))
              (get_or-flip_at once (flip_nets buf) 28 i
                (length-rewrite_frame k buf ∙ sym (length-flip_nets buf))
                (get_or-rewrite_frame k buf i n4 n5))
          ∙ ap (λ b. get_or b i 0) (flip_nets-flip_nets buf),
    )
  where
    length-flip2 : (b : List ℕ) → length (flip_at (flip_nets b) 28) ≡ length b
    length-flip2 b = length-set (flip_nets b) 28 _ ∙ length-flip_nets b
