-- ===== src/Raw/Checksum.antt =====
-- The Internet checksum of sock-raw-mmap-packet-ip, as `ipcsum` computes it.
use hack.Base.{
  ℕ, ◌<◌, ◌≤◌, ◌+◌, suc, ◌^◌, ◌≡◌, ◌*◌, zero, ◌↔◌, ◌%◌, arith, length, refl, some, ap, ◌∙◌, inr,
}
use hack.Xdp.Memory.{Packet, word16, byte, put16}
use hack.Raw.{fold, ipcsum, sum_loop}
use hack.Xdp.Memory.Laws.{
  IsBytes, word16-lt, length-put16, word16-put16_self, byte-put16_ne, load16-some, word16-put16_ne,
}

-- the sum of words, without a bound
abbrev pub sum_of : ℕ → Packet → ℕ → ℕ
sum_of zero p i = 0
sum_of (suc n) p i = word16 p i + sum_of n p (i + 2)

pub sum_loop-some :
    (n : ℕ) (p : Packet) (i s : ℕ)
    → i + 2 * n ≤ length p
    → sum_loop n p i s ≡ some (s + sum_of n p i)
sum_loop-some zero p i s h = ap some (omega arith)
sum_loop-some (suc n) p i s h =
    rw (load16-some p i (omega arith))
      (sum_loop-some n p (i + 2) (s + word16 p i) (omega arith) ∙ ap some (omega arith))

pub ipcsum-some :
    (n : ℕ) (p : Packet) (i : ℕ) → i + 2 * n ≤ length p → ipcsum p i n ≡ some (fold (sum_of n p i))
unfolding ipcsum
ipcsum-some n p i h =
    let e : 0 + sum_of n p i ≡ sum_of n p i = omega arith in
    rw (sum_loop-some n p i 0 h) (rw e refl)

pub sum_of-eq :
    (n : ℕ) (p q : Packet) (i : ℕ)
    → ((j : ℕ) → i ≤ j → j < i + 2 * n → byte q j ≡ byte p j)
    → sum_of n q i ≡ sum_of n p i
sum_of-eq zero p q i h = refl
sum_of-eq (suc n) p q i h = omega (
  arith,
  h i (omega arith) (omega arith),
  h (i + 1) (omega arith) (omega arith),
  sum_of-eq n p q (i + 2) (λ j le lt. h j (omega arith) (omega arith)),
)

pub sum_of-add :
    (n m : ℕ) (p : Packet) (i : ℕ) → sum_of (n + m) p i ≡ sum_of n p i + sum_of m p (i + 2 * n)
sum_of-add zero m p i =
    let e : 0 + m ≡ m = omega arith in
    let f : i + 2 * 0 ≡ i = omega arith in rw e (rw f (omega arith))
sum_of-add (suc n) m p i =
    let e : suc n + m ≡ suc (n + m) = omega arith in
    let f : i + 2 * suc n ≡ i + 2 + 2 * n = omega arith in
    rw e (rw f (omega (arith, sum_of-add n m p (i + 2))))

pub sum_of-lt : (n : ℕ) (p : Packet) (i : ℕ) → IsBytes p → sum_of n p i ≤ 65535 * n
sum_of-lt zero p i b = omega arith
sum_of-lt (suc n) p i b = omega (arith, word16-lt p i b, sum_of-lt n p (i + 2) b)

-- A word that was zero is set.
pub sum_of-put16 :
    (n k : ℕ) (p : Packet) (i c : ℕ)
    → k < n
    → i + 2 * n ≤ length p
    → word16 p (i + 2 * k) ≡ 0
    → c < 65536
    → sum_of n (put16 p (i + 2 * k) c) i ≡ sum_of n p i + c
sum_of-put16 zero k p i c lt fits empty small = absurd (omega arith)
sum_of-put16 (suc n) zero p i c lt fits empty small =
    let e : i + 2 * 0 ≡ i = omega arith in
    let empty' = rw e at empty in
    rw e (
      omega (
        arith,
        empty',
        word16-put16_self p i c (omega arith) small,
        sum_of-eq n p (put16 p i c) (i + 2)
            (λ j le lt'. byte-put16_ne p i c j (omega arith) (omega arith)),
      ))
sum_of-put16 (suc n) (suc k) p i c lt fits empty small =
    let e : i + 2 * suc k ≡ i + 2 + 2 * k = omega arith in
    let empty' = rw e at empty in
    rw e (
      omega (
        arith,
        word16-put16_ne p (i + 2 + 2 * k) c i (inr (omega arith)),
        sum_of-put16 n k p (i + 2) c (omega arith) (omega arith) empty' small,
      ))

pub fold_lem :
    (s : ℕ) → s < 2 ^ 32 → ((s + fold s) % 65535 ≡ 0) × (fold s < 65536) × (0 < s + fold s)
unfolding fold
fold_lem s h = omega arith

pub fold-zero : (s : ℕ) → s < 2 ^ 32 → (fold s ≡ 0) ↔ ((0 < s) × (s % 65535 ≡ 0))
unfolding fold
fold-zero s h = (λ e. omega arith, λ e. omega arith)

-- Up to 65535 words of bytes, the checksum of which is put where a zero stood among them: the checksum of the
-- result is zero, which is what the receiver of a header tests.
pub ipcsum-verifies :
    (p : Packet) (i n k : ℕ)
    → IsBytes p
    → i + 2 * n ≤ length p
    → n < 65536
    → k < n
    → word16 p (i + 2 * k) ≡ 0
    → (c : ℕ) × (ipcsum p i n ≡ some c)
      × (c < 65536)
      × (ipcsum (put16 p (i + 2 * k) c) i n ≡ some 0)
ipcsum-verifies p i n k bytes fits few lt empty =
    let s = sum_of n p i in
    let c = fold s in
    let small = sum_of-lt n p i bytes in
    let (folded, word, some_sum) = fold_lem s (omega arith) in
    let sum = sum_of-put16 n k p i c lt fits empty word in
    let q = put16 p (i + 2 * k) c in
    (
      c,
      ipcsum-some n p i fits,
      word,
      ipcsum-some n q i (omega (arith, length-put16 p (i + 2 * k) c))
          ∙ ap some (rw sum ((fold-zero (s + c) (omega arith)).1 (some_sum, folded))),
    )
