-- ===== src/Xsk/Thread/Turns.antt =====
-- The order in which `thread_func` of ebpf-xdp/xsk/af_rxtx.c serves its ports. Its mask makes a round
-- of the ports only where their number is a power of two.
use hack.Base.{
  ℕ, Option, ◌+◌, ◌%◌, List, ◌<◌, Bool, suc, [], ◌*◌, ◌^◌, ◌≡◌, true, replicate, ◌++◌, ap₂, ◌∷◌,
  ◌≤◌, ==→eq, ◌==◌, arith, ◌&&◌, refl, zero, ap, sym, ◌∙◌, ◌-◌, Bool-cases, leb, inl, leb→le, inr,
  leb-false→lt, lt→ltb, ◌>>=◌,
}
use hack.Base.Fault.{bind_cong}
use native.Mathlib.Nat.{mod-eq_of_lt, mod-mod, add-mod_right, mod-add-mod, mod-lt}
use hack.Xsk.Thread.Schedule.{serve}
use hack.Xsk.Thread.Loops.{next_index, at_port, thread_func}

-- whether a test succeeds for the numbers below a limit
below : (ℕ → Bool) → ℕ → Bool
below test zero = true
below test (suc limit) = below test limit && test limit

below-holds : (test : ℕ → Bool) (limit i : ℕ) → i < limit → below test limit ≡ true → test i ≡ true
unfolding below
below-holds test zero i lt all = absurd (omega arith)
below-holds test (suc limit) i lt all = ground (arith, below-holds test limit i)

-- whether a step of the index is one of counting, with 2 ^ k ports
abbrev counts : ℕ → ℕ → Bool
counts k i = next_index (2 ^ k) i == (i + 1) % 2 ^ k

powers_count : below (λ k. below (counts k) 16) 5 ≡ true
unfolding below next_index
powers_count = refl

odds_stay : below (λ k. next_index (2 * k + 1) 0 == 0) 8 ≡ true
unfolding below next_index
odds_stay = refl

-- up to `MAX_PORTS_PER_THREAD` ports
next_index-power : (k i : ℕ) → k < 5 → i < 16 → next_index (2 ^ k) i ≡ (i + 1) % 2 ^ k
next_index-power k i lk li =
    let row = below-holds (λ k. below (counts k) 16) 5 k lk powers_count in
    ==→eq _ _ (below-holds (counts k) 16 i li row)

power_bounds : (k : ℕ) → k < 5 → (0 < 2 ^ k) × (2 ^ k ≤ 16)
power_bounds zero h = omega arith
power_bounds (suc zero) h = omega arith
power_bounds (suc (suc zero)) h = omega arith
power_bounds (suc (suc (suc zero))) h = omega arith
power_bounds (suc (suc (suc (suc zero)))) h = omega arith
power_bounds (suc (suc (suc (suc (suc k))))) h = absurd (omega arith)

-- the ports of so many rounds, in turn
abbrev pub in_turn : ℕ → ℕ → ℕ → List ℕ
in_turn n zero i = []
in_turn n (suc rounds) i = i % n ∷ in_turn n rounds (i + 1)

in_turn-mod : (n rounds i : ℕ) → in_turn n rounds (i % n) ≡ in_turn n rounds i
in_turn-mod n zero i = refl
in_turn-mod n (suc rounds) i = ap₂ ◌∷◌ (mod-mod i n) (
    sym (in_turn-mod n rounds (i % n + 1))
    ∙ ap (in_turn n rounds) (mod-add-mod i n 1)
    ∙ in_turn-mod n rounds (i + 1))

-- The port that is served after `a` rounds.
in_turn-split :
    (n a b i : ℕ) → in_turn n (a + suc b) i ≡ in_turn n a i ++ (i + a) % n ∷ in_turn n b (i + a + 1)
in_turn-split n zero b i =
    let e : zero + suc b ≡ suc b = omega arith in
    let f : i + zero ≡ i = omega arith in rw (e, f) refl
in_turn-split n (suc a) b i =
    let e : suc a + suc b ≡ suc (a + suc b) = omega arith in
    let f : i + suc a ≡ i + 1 + a = omega arith in
    rw (e, f) (ap (◌∷◌ (i % n)) (in_turn-split n a b (i + 1)))

-- How long port `j` waits when it is the turn of port `i`.
turn_of : (n i j : ℕ) → i < n → j < n → (t : ℕ) × (t < n) × ((i + t) % n ≡ j)
turn_of n i j li lj = elim (Bool-cases (leb i j)) [
  | inl le ↦
      let e : i + (j - i) ≡ j = ground (arith, leb→le i j le) in
      (j - i, omega arith, ap (λ x. x % n) e ∙ mod-eq_of_lt lj)
  | inr gt ↦
      let less = leb-false→lt i j gt in
      let e : i + (j + n - i) ≡ j + n = omega (arith, less) in
      (j + n - i, omega (arith, less), ap (λ x. x % n) e ∙ add-mod_right j n ∙ mod-eq_of_lt lj)
]

module _ {S : Type 0} (act : ℕ → S → Option S) where
  at_port-inside : (j : ℕ) (s : S) → j < 16 → at_port act j s ≡ act j s
  unfolding at_port
  at_port-inside j s lt = rw (lt→ltb j 16 lt) refl

  -- With a power of two as the number of its ports, at most 16, `thread_func` serves them in turn.
  pub thread_func-in_turn :
      (k rounds i : ℕ) (s : S)
      → k < 5
      → i < 2 ^ k
      → thread_func act (2 ^ k) rounds i s ≡ serve act (in_turn (2 ^ k) rounds i) s
  unfolding thread_func
  thread_func-in_turn k zero i s lk li = refl
  thread_func-in_turn k (suc rounds) i s lk li =
      let n = 2 ^ k in
      let bounds = power_bounds k lk in
      let step : next_index n i ≡ (i + 1) % n = next_index-power k i lk (omega (arith, bounds)) in
      let here : i % n ≡ i = mod-eq_of_lt li in
      rw (step, here)
        (ap (λ m. m >>= thread_func act n rounds ((i + 1) % n))
            (at_port-inside i s (omega (arith, bounds)))
          ∙ bind_cong (act i s) _ _ λ t.
            thread_func-in_turn k rounds ((i + 1) % n) t lk (mod-lt (i + 1) bounds.0)
            ∙ ap (λ js. serve act js t) (in_turn-mod n rounds (i + 1)))

  -- With 1, 2, 4, 8 or 16 ports, from the index of any of them and any state, `thread_func` serves each of its
  -- ports within as many rounds as there are ports.
  pub thread_func-serves :
      (k i j : ℕ) (s : S)
      → k < 5
      → i < 2 ^ k
      → j < 2 ^ k
      → (before : List ℕ) × (after : List ℕ) × (thread_func act (2 ^ k) (2 ^ k) i s
          ≡ serve act (before ++ j ∷ after) s)
  thread_func-serves k i j s lk li lj =
      let n = 2 ^ k in
      let (t, lt, e) = turn_of n i j li lj in
      let split : t + suc (n - t - 1) ≡ n = omega (arith, lt) in
      (
        in_turn n t i,
        in_turn n (n - t - 1) (i + t + 1),
        thread_func-in_turn k n i s lk li
            ∙ ap (λ js. serve act js s)
                (ap (λ r. in_turn n r i) (sym split)
                  ∙ in_turn-split n t (n - t - 1) i
                  ∙ ap (λ p. in_turn n t i ++ p ∷ in_turn n (n - t - 1) (i + t + 1)) e),
      )

  -- With an odd number of ports, at most 15, it serves the first port and no other.
  pub thread_func-starves :
      (k rounds : ℕ) (s : S)
      → k < 8
      → thread_func act (2 * k + 1) rounds 0 s ≡ serve act (replicate rounds 0) s
  unfolding thread_func
  thread_func-starves k zero s lk = refl
  thread_func-starves k (suc rounds) s lk =
      let stay = ==→eq _ _ (below-holds (λ k. next_index (2 * k + 1) 0 == 0) 8 k lk odds_stay) in
      rw stay (
        ap (λ m. m >>= thread_func act (2 * k + 1) rounds 0) (at_port-inside 0 s (omega arith))
        ∙ bind_cong (act 0 s) _ _ (λ t. thread_func-starves k rounds t lk))
