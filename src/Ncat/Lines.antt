-- ===== src/Ncat/Lines.antt =====
-- What the client of ncat/ncat.c sends, and what a server loads.
use hack.Base.{
  ℕ, List, ◌<◌, set, length, ◌++◌, get_or, ◌∷◌, ◌+◌, ◌≤◌, ◌≡◌, replicate, [], arith, suc, refl,
  zero, ◌-◌, Bool-cases, ap, ◌==◌, inl, inr, length-append, ==→eq, append_assoc, sym, ◌∙◌, eq→==,
  tests,
}
use hack.Ncat.{client_message, strip}

get_or-zeros : (n j : ℕ) → ◌≡◌ {A = ℕ} (get_or (replicate n 0) j 0) 0
get_or-zeros zero j = refl
get_or-zeros (suc n) zero = refl
get_or-zeros (suc n) (suc j) = get_or-zeros n j

-- the line that is typed, in its buffer
abbrev pub typed : List ℕ → ℕ → List ℕ
typed text n = text ++ 10 ∷ replicate n 0

get_or-typed_at : (text : List ℕ) (n : ℕ) → get_or (typed text n) (length text) 0 ≡ 10
get_or-typed_at [] n = refl
get_or-typed_at (c ∷ text) n = get_or-typed_at text n

get_or-typed_behind : (text : List ℕ) (n j : ℕ) → length text < j → get_or (typed text n) j 0 ≡ 0
get_or-typed_behind [] n zero lt = absurd (omega arith)
get_or-typed_behind [] n (suc j) lt = get_or-zeros n j
get_or-typed_behind (c ∷ text) n zero lt = absurd (omega arith)
get_or-typed_behind (c ∷ text) n (suc j) lt = get_or-typed_behind text n j (omega arith)

set-typed :
    (text : List ℕ) (n : ℕ) → set (typed text n) (length text) 0 ≡ text ++ replicate (suc n) 0
set-typed [] n = refl
set-typed (c ∷ text) n = ap (◌∷◌ c) (set-typed text n)

strip-typed :
    (text : List ℕ) (n i : ℕ)
    → 0 < length text
    → length text ≤ i
    → strip i (typed text n) ≡ text ++ replicate (suc n) 0
unfolding strip
strip-typed text n zero some_text le = absurd (omega arith)
strip-typed text n (suc i) some_text le = elim (Bool-cases (length text == suc i)) [
  | inl at ↦
      (let q = ==→eq (length text) (suc i) at in
        let newline : get_or (typed text n) (suc i) 0 ≡ 10 =
          ap (λ k. get_or (typed text n) k 0) (sym q) ∙ get_or-typed_at text n in
        rw (eq→== _ _ newline) (ap (λ k. set (typed text n) k 0) (sym q) ∙ set-typed text n))
  | inr before ↦
      (let lt : length text < suc i = omega (tests, before, le) in
        rw (get_or-typed_behind text n (suc i) lt) (strip-typed text n i some_text (omega arith)))
]

strip-empty : (i m : ℕ) → strip i (10 ∷ replicate m 0) ≡ 10 ∷ replicate m 0
unfolding strip
strip-empty zero m = refl
strip-empty (suc i) m = rw (get_or-zeros m i) (strip-empty i m)

-- A line of one character or more that fits into the buffer with its newline is sent without the newline, with
-- zeros behind it; an empty line keeps its newline.
pub client_message-line :
    (max : ℕ) (text : List ℕ)
    → length text + 1 < max
    → (0 < length text
        → client_message max (text ++ 10 ∷ []) ≡ text ++ replicate (max - length text) 0)
      × (length text ≡ 0 → client_message max (10 ∷ []) ≡ 10 ∷ replicate (max - 1) 0)
unfolding client_message
client_message-line max text fits = (
  λ some_text.
      let n = max - (length text + 1) in
      let size : max - length (text ++ 10 ∷ []) ≡ n =
        omega (arith, length-append {0} text (10 ∷ [])) in
      let zeros : suc n ≡ max - length text = omega (arith, fits) in
      rw (size, append_assoc text (10 ∷ []) (replicate n 0))
        (strip-typed text n (max - 1) some_text (omega (arith, fits))
          ∙ ap (λ k. text ++ replicate k 0) zeros),
  λ empty. strip-empty (max - 1) (max - 1),
)
