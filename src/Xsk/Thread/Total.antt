-- ===== src/Xsk/Thread/Total.antt =====
-- A thread of ebpf-xdp/xsk over the ports that `main` of main.c gives it comes to its end whenever it is
-- told to quit.
use hack.Base.{
  ℕ, ◌<◌, List, Option, ◌++◌, ◌∷◌, [], ◌≡◌, ◌+◌, ◌*◌, length, ◌≤◌, arith, some, Bool-cases, not,
  subst, ◌||◌, sym, ◌&&◌, ◌∙◌, inl, refl, inr, ◌/◌, ◌%◌, ◌-◌, ap, ltb, ltb→lt, ltb-false→le,
  Distinct,
}
use hack.Base.Fault.{Runs-some}
use native.Mathlib.Nat.{
  mod-lt, mul-add-div_right, mul-add-mod_self_right, mod-eq_of_lt, add-mod_right, div-eq_of_lt,
  mod-mod,
}
use hack.Xsk.Args.{max_threads}
use hack.Xsk.Thread.{World, forward, burst_of, n_bursts, max_ports_per_thread}
use hack.Xsk.Thread.Reach.{Reach, next, here, forwards}
use hack.Xsk.Port.{Rings}
use hack.Xsk.Thread.Loops.{ports_rx, Revents, ports_tx, thread_func_poll}
use hack.Xsk.Port.Balance.{RingLaws}
use hack.Xsk.Thread.Conserve.{WorldOk, forward-Moves}
use hack.Xsk.Thread.Schedule.{AllLengths, all_ready, ready, serve, thread_func_poll-serve}
use hack.Xsk.Pool.Sums.{one}

Reach-Reach : (s s1 s2 : World) → Reach s s1 → Reach s1 s2 → Reach s s2
Reach-Reach s s1 s2 r here = r
Reach-Reach s s1 s2 r (next t st) = next (Reach-Reach s s1 _ r t) st

abbrev AllBelow : ℕ → List ℕ → Type 0
AllBelow n [] = Unit
AllBelow n (x ∷ xs) = (x < n) × AllBelow n xs

AllBelow-append : (n : ℕ) (xs ys : List ℕ) → AllBelow n xs → AllBelow n ys → AllBelow n (xs ++ ys)
AllBelow-append n [] ys h k = k
AllBelow-append n (x ∷ xs) ys h k = (h.0, AllBelow-append n xs ys h.1 k)

ready-AllBelow :
    (n j : ℕ) (answers : List Revents) → j + length answers ≡ n → AllBelow n (ready answers j)
ready-AllBelow n j [] e = tt
ready-AllBelow n j (r ∷ answers) e =
    let rest = ready-AllBelow n (j + 1) answers (omega arith) in
    elim (Bool-cases (not (r.pollerr || r.pollhup) && r.pollin)) [
      | inl b ↦ rw b (omega arith, rest)
      | inr b ↦ rw b rest
    ]

all_ready-AllBelow :
    (n : ℕ) (calls : List (List Revents)) → AllLengths n calls → AllBelow n (all_ready calls)
all_ready-AllBelow n [] h = tt
all_ready-AllBelow n (answers ∷ later) h =
    AllBelow-append n (ready answers 0) (all_ready later)
      (ready-AllBelow n 0 answers (omega (arith, h.0))) (all_ready-AllBelow n later h.1)

-- what thread `i` does for its port `j`
abbrev pub round : Rings → ℕ → ℕ → ℕ → ℕ → World → Option World
round k comp_size per i j = forward k comp_size (burst_of i j) (ports_rx per i j) (ports_tx per i j)

module _ (k : Rings) (law : RingLaws k) (comp_size per i : ℕ) where
  ports-in_range :
      (j n : ℕ) → j < per → (i + 1) * per ≤ n → (ports_rx per i j < n) × (ports_tx per i j < n)
  unfolding ports_rx ports_tx
  ports-in_range j n lj le =
      let m = mod-lt (j + 1) {m = per} (omega (arith, lj)) in
      let e : (i + 1) * per ≡ i * per + per = grind arith in
      (omega (arith, e, le, lj), omega (arith, e, le, m))

  serve-Reach :
      (js : List ℕ) (s : World)
      → WorldOk s
      → i < max_threads
      → per ≤ max_ports_per_thread
      → (i + 1) * per ≤ length s.ports
      → AllBelow per js
      → (s' : World) × (serve (round k comp_size per i) js s ≡ some s') × Reach s s'
  serve-Reach [] s ok lt few le b = (s, refl, here)
  serve-Reach (j ∷ js) s ok lt few le b =
      let (li, lj) = ports-in_range j (length s.ports) b.0 le in
      let rx = ports_rx per i j in
      let tx = ports_tx per i j in
      let bt = burst_of i j in
      let lb : bt < n_bursts = omega (arith, b.0) in
      let (s1, e, kept) =
        Runs-some _ _ (forward-Moves k law one comp_size bt tx rx s ok lb li lj) in
      let (s2, e2, r) =
        serve-Reach js s1 kept.0 lt few (omega (arith, le, kept.1.same_ports)) b.1 in
      (
        s2,
        rw e e2,
        Reach-Reach s s1 s2 (next here (forwards k comp_size bt rx tx law lb li lj e)) r,
      )

  -- In a well-formed world, with rings that keep to their rules, `thread_func_poll` of one of the 64 threads, with at
  -- most 16 ports that are all open, a socket of its own for each of them, and an answer for each socket
  -- from every call of `poll`: it makes all its rounds, in no endless wait and with no access outside an
  -- array, and what it does is a sequence of steps of the program.
  pub thread_func_poll-Reach :
      (sockets : List ℕ) (calls : List (List Revents)) (s : World)
      → WorldOk s
      → i < max_threads
      → per ≤ max_ports_per_thread
      → (i + 1) * per ≤ length s.ports
      → Distinct sockets
      → length sockets ≡ per
      → AllLengths per calls
      → (s' : World) × (thread_func_poll (round k comp_size per i) sockets calls s ≡ some s')
        × Reach s s'
  thread_func_poll-Reach sockets calls s ok lt few le d n lengths =
      let (s', e, r) =
        serve-Reach (all_ready calls) s ok lt few le (all_ready-AllBelow per calls lengths) in
      (
        s',
        thread_func_poll-serve (round k comp_size per i) sockets calls s (omega (arith, few, n)) d
              (subst (λ m. AllLengths m calls) (sym n) lengths)
            ∙ e,
        r,
      )

-- the place that sends to the port behind place `m`
before_place : (per j : ℕ) → j < per → ((j + 1) % per + (per - 1)) % per ≡ j
before_place per j lj = elim (Bool-cases (ltb (j + 1) per)) [
  | inl inner ↦
      let e : (j + 1) % per ≡ j + 1 = mod-eq_of_lt (ltb→lt (j + 1) per inner) in
      let f : j + 1 + (per - 1) ≡ j + per = omega (arith, lj) in
      rw (e, f) (add-mod_right j per ∙ mod-eq_of_lt lj)
  | inr last ↦
      let e : j + 1 ≡ 0 + per = omega (arith, lj, ltb-false→le (j + 1) per last) in
      let z : (j + 1) % per ≡ 0 % per = ap (λ n. n % per) e ∙ add-mod_right 0 per in
      let p : 0 % per ≡ 0 = mod-eq_of_lt (omega (arith, lj)) in
      let f : 0 + (per - 1) ≡ j = omega (arith, e) in rw (z ∙ p, f) (mod-eq_of_lt lj)
]

plus_zero : (i : ℕ) → i + 0 ≡ i
plus_zero i = omega arith

-- The number of a port says which thread `main` gives it to and at which place, and also which thread
-- sends to it and from which place: no port is given or sent to twice, and both are in one thread.
pub ports-one_thread :
    (per i j : ℕ)
    → j < per
    → (ports_rx per i j / per ≡ i)
      × (ports_rx per i j % per ≡ j)
      × (ports_tx per i j / per ≡ i)
      × ((ports_tx per i j % per + (per - 1)) % per ≡ j)
unfolding ports_rx ports_tx
ports-one_thread per i j lj =
    let room : 0 < per = omega (arith, lj) in
    let m = mod-lt (j + 1) {m = per} room in
    let whole = λ (x : ℕ) (lt : x < per).
      mul-add-div_right room i x ∙ ap (λ q. i + q) (div-eq_of_lt lt) ∙ plus_zero i in
    (
      whole j lj,
      mul-add-mod_self_right i per j ∙ mod-eq_of_lt lj,
      whole ((j + 1) % per) m,
      ap (λ x. (x + (per - 1)) % per)
            (mul-add-mod_self_right i per ((j + 1) % per) ∙ mod-mod (j + 1) per)
          ∙ before_place per j lj,
    )
