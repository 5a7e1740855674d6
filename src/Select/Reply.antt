-- ===== src/Select/Reply.antt =====
-- The replies of sock-select-tcp/server_s.c.
use hack.Base.Text.{text_of}
use hack.Base.{
  List, ℕ, NonZero, length, ◌≤◌, ◌<◌, take, ◌≡◌, ◌++◌, some, none, replicate, suc, arith, lt→ltb,
  ◌∷◌, ◌+◌, ne→==-false, Bool-cases, zero, ltb, length-append, ◌==◌, refl, [], inl, ltb→lt, inr,
  le→ltb, ltb-false→le, if◌then◌else◌, tests,
}
use hack.Base.Fault.{Runs, Runs-bind}
use hack.Select.{reply, max_buff, server_resp}

text_of-short :
    (input : List ℕ) (n m : ℕ)
    → length input < n
    → 0 < m
    → Runs (λ text. length text ≤ length input) (text_of (take n (input ++ replicate m 0)))
unfolding text_of
text_of-short input zero m h k = absurd (omega arith)
text_of-short input (suc n) zero h k = absurd (omega arith)
text_of-short [] (suc n) (suc m) h k = omega arith
text_of-short (c ∷ input) (suc n) (suc m) h k = elim (Bool-cases (c == 0)) [
  | inl end ↦ rw end (omega arith)
  | inr more ↦ rw more (
      Runs-bind _ (λ text. length text ≤ suc (length input))
        (text_of (take n (input ++ replicate (suc m) 0))) _
        (text_of-short input n (suc m) (omega arith) (omega arith)) λ text le. omega arith)
]

text_of-take :
    (text : List ℕ) (n m : ℕ)
    → NonZero text
    → length text < n
    → 0 < m
    → text_of (take n (text ++ replicate m 0)) ≡ some text
unfolding text_of
text_of-take text zero m h lt k = absurd (omega arith)
text_of-take text (suc n) zero h lt k = absurd (omega arith)
text_of-take [] (suc n) (suc m) h lt k = refl
text_of-take (c ∷ text) (suc n) (suc m) h lt k =
    rw (ne→==-false c 0 h.0) (rw (text_of-take text n (suc m) h.1 (omega arith) (omega arith)) refl)

text_of-full :
    (text rest : List ℕ) (n : ℕ)
    → NonZero text
    → n ≤ length text
    → text_of (take n (text ++ rest)) ≡ none
unfolding text_of
text_of-full text rest zero h le = refl
text_of-full [] rest (suc n) h le = absurd (omega arith)
text_of-full (c ∷ text) rest (suc n) h le =
    rw (ne→==-false c 0 h.0) (rw (text_of-full text rest n h.1 (omega arith)) refl)

-- What is read in less than 1011 bytes is answered, in less bytes than the array has.
pub reply-Runs :
    (input : List ℕ) → length input < 1011 → Runs (λ wbuff. length wbuff < max_buff) (reply input)
unfolding reply
reply-Runs input h =
    Runs-bind _ _ (text_of (take max_buff (input ++ replicate max_buff 0))) _
      (text_of-short input max_buff max_buff (omega arith) (omega arith))
      λ text le.
        rw (lt→ltb (13 + length text) max_buff (omega arith))
          (omega (arith, length-append server_resp text))

-- A text without a zero that is read at once, of 1024 bytes at most: with less than 1011 bytes it is sent back
-- behind the words `SERVER RESP: `, and with more bytes the two `strcat` leave their arrays.
pub reply-text :
    (text : List ℕ)
    → NonZero text
    → length text ≤ max_buff
    → reply text ≡ (if ltb (length text) 1011 then some (server_resp ++ text) else none)
unfolding reply
reply-text text h le = elim (Bool-cases (ltb (length text) 1011)) [
  | inl short ↦ rw short (
      rw (text_of-take text max_buff max_buff h (omega (tests, short)) (omega arith))
        (rw (lt→ltb (13 + length text) max_buff (omega (tests, short))) refl))
  | inr long ↦ rw long (elim (Bool-cases (ltb (length text) max_buff)) [
    | inl ended ↦
        rw (text_of-take text max_buff max_buff h (ltb→lt _ _ ended) (omega arith))
          (rw (le→ltb (13 + length text) max_buff (omega (tests, long))) refl)
    | inr full ↦
        rw (text_of-full text (replicate max_buff 0) max_buff h (ltb-false→le _ _ full)) refl
  ])
]
