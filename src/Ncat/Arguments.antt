-- ===== src/Ncat/Arguments.antt =====
-- The arguments of ncat/ncat.c, and the text that it loads.
use hack.Base.{
  Bool, List, ◌||◌, ℕ, ◌++◌, length, ◌≡◌, false, true, ◌≤◌, arith, ◌∷◌, refl, take, [], sym, some,
  ◌∙◌, append-nil, not, suc, none, Bool-cases, ◌+◌, ltb, length-append, inl, ◌-◌, inr, get_or,
  tests, ap, append_assoc, get_or-append_right, zero, le→ltb, ltb→lt, ◌⊎◌, ◌<◌,
}
use hack.Ncat.{load, load_loop, parse_args, listen_loop, is_listen, max_load_buff}
use hack.Ncat.Messages.{concat}

abbrev pub any_listen : List (List ℕ) → Bool
any_listen [] = false
any_listen (arg ∷ opts) = is_listen arg || any_listen opts

or_swap : (a b c : Bool) → (b || (a || c)) ≡ ((a || b) || c)
or_swap a b c = ground arith

listen_loop-any :
    (opts rest : List (List ℕ)) (b : Bool)
    → listen_loop (length opts) (opts ++ rest) b ≡ (any_listen opts || b)
unfolding listen_loop
listen_loop-any [] rest b = refl
listen_loop-any (arg ∷ opts) rest b =
    listen_loop-any opts rest (is_listen arg || b) ∙ or_swap (is_listen arg) (any_listen opts) b

or_false : (b : Bool) → (b || false) ≡ b
or_false true = refl
or_false false = refl

-- The last two arguments are host and port, and the server mode is chosen just where one before them is `-l` or
-- `--listen`; otherwise it is the client mode. Fewer than two arguments are refused.
pub parse_args-opts :
    (opts : List (List ℕ)) (host port : List ℕ)
    → (parse_args (opts ++ host ∷ port ∷ [])
        ≡ some (record {
          mode_client = not (any_listen opts);
          mode_listen = any_listen opts;
          host = host;
          port = port;
        }))
      × (parse_args (host ∷ []) ≡ none)
      × (parse_args [] ≡ none)
unfolding parse_args
parse_args-opts opts host port =
    let argv = opts ++ host ∷ port ∷ [] in
    let count : length argv ≡ length opts + 2 = length-append opts (host ∷ port ∷ []) in
    let before : length argv - 2 ≡ length opts = omega (arith, count) in
    let mode = listen_loop-any opts (host ∷ port ∷ []) false ∙ or_false (any_listen opts) in
    let at0 : length opts ≡ length opts + 0 = omega arith in
    let host_at : get_or argv (length opts) [] ≡ host =
      ap (λ k. get_or argv k []) at0 ∙ get_or-append_right opts (host ∷ port ∷ []) 0 [] in
    let port_at = get_or-append_right opts (host ∷ port ∷ []) 1 [] in
    (
      rw (le→ltb (length argv) 2 (omega (arith, count)))
          (rw before (rw mode (rw host_at (rw port_at refl)))),
      refl,
      refl,
    )

-- Why no further line is loaded: as many as there are rounds, no line left, or no room for the next.
abbrev pub Stops : ℕ → ℕ → List (List ℕ) → ℕ → ℕ → Type 0
Stops max rounds lines loaded k =
    (k ≡ rounds) ⊎ ((length lines ≤ k) ⊎ (max < loaded + length (get_or lines k [])))

load_loop-prefix :
    (max rounds : ℕ) (lines : List (List ℕ)) (serve_content : List ℕ)
    → length serve_content ≤ max
    → (k : ℕ) × (load_loop max rounds lines serve_content ≡ serve_content ++ concat (take k lines))
      × (length (load_loop max rounds lines serve_content) ≤ max)
      × Stops max rounds lines (length (load_loop max rounds lines serve_content)) k
unfolding load_loop
load_loop-prefix max zero lines serve_content fits =
    (0, sym (append-nil serve_content), fits, inl refl)
load_loop-prefix max (suc rounds) [] serve_content fits =
    let (k, e, small, stops) = load_loop-prefix max rounds [] serve_content fits in
    (k, e, small, inr (inl (omega arith)))
load_loop-prefix max (suc rounds) (tmp ∷ lines) serve_content fits =
    elim (Bool-cases (ltb max (length serve_content + length tmp))) [
      | inl over ↦ rw over (0, sym (append-nil serve_content), fits, inr (inr (ltb→lt _ _ over)))
      | inr room ↦ rw room (
          let (k, e, small, stops) =
            load_loop-prefix max rounds lines (serve_content ++ tmp)
              (omega (tests, room, length-append serve_content tmp)) in
          (
            suc k,
            e ∙ append_assoc serve_content tmp (concat (take k lines)),
            small,
            elim stops [
              | inl all ↦ inl (omega (arith, all))
              | inr (inl none_left) ↦ inr (inl (omega (arith, none_left)))
              | inr (inr over) ↦ inr (inr over)
            ],
          ))
    ]

-- What is loaded are the first lines, as many as there are, ten at most, and as fit into the buffer.
pub load-prefix :
    (lines : List (List ℕ))
    → (k : ℕ) × (load lines ≡ concat (take k lines))
      × (length (load lines) ≤ max_load_buff)
      × Stops max_load_buff 10 lines (length (load lines)) k
unfolding load
load-prefix lines = load_loop-prefix max_load_buff 10 lines [] (omega arith)
