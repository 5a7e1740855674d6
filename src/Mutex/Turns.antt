-- ===== src/Mutex/Turns.antt =====
-- The state of ksync-mutex/mutexlock_misc.c after the turns of its callers.
use hack.Base.{
  true, false, List, length, ℕ, ◌≤◌, ◌≡◌, ◌∷◌, some, take, arith, ◌<◌, [], ◌++◌, suc, ◌+◌, zero,
  ◌%◌, refl, ◌^◌, get_or, set, Bool-cases, if◌then◌else◌, ◌==◌, ltb, Bool, inl, drop, length-take,
  inr, none, ◌-◌, lt→ltb, tests, length-append, length-drop,
}
use hack.Base.Fault.{Runs, Runs-bind}
use hack.Mutex.{
  strscpy, World, Turn, turn, read_secret, write_miscdrv_rdwr, turns, writes, Driver, reads, opens,
  closes, measures,
}
use hack.Misc.{strlen, strnlen, max_bytes}

-- Every text is shorter than the secret's array.
abbrev pub AllShort : List (List ℕ) → Type 0
AllShort [] = Unit
AllShort (text ∷ given) = (length text < max_bytes) × AllShort given

abbrev pub AllBelow : List ℕ → Type 0
AllBelow [] = Unit
AllBelow (n ∷ readers) = (n < max_bytes) × AllBelow readers

-- The text fills its array, and has an end in it.
abbrev pub HasEnd : List ℕ → Type 0
HasEnd secret = (length secret ≡ max_bytes) × (n : ℕ) × (n < max_bytes) × (strlen secret ≡ some n)

-- The secret has an end in its array, the counters of openings belong together, and readers have
-- less than the array.
pub record IsSound (w : World) : Type 0 where
  pub ended : HasEnd w.driver.oursecret
  pub paired : (w.driver.ga + w.driver.gb) % 2 ^ 32 ≡ 1
  pub below : AllBelow w.readers
  pub short : AllShort w.given

strnlen-length : (text : List ℕ) (n : ℕ) → (strnlen text n ≤ length text) × (strnlen text n ≤ n)
unfolding strnlen
strnlen-length text zero = (omega arith, omega arith)
strnlen-length [] (suc n) = (omega arith, omega arith)
strnlen-length (c ∷ text) (suc n) = ground (arith, strnlen-length text n)

strlen-take :
    (text rest : List ℕ) (n len : ℕ)
    → len ≤ strnlen text n
    → strlen (take len text ++ 0 ∷ rest) ≡ some len
unfolding strlen strnlen
strlen-take text rest n zero h = refl
strlen-take text rest zero (suc len) h = absurd (omega arith)
strlen-take [] rest (suc n) (suc len) h = absurd (omega arith)
strlen-take (c ∷ text) rest (suc n) (suc len) h = ground (arith, strlen-take text rest n len)

cut-HasEnd :
    (dst src : List ℕ) (size len : ℕ)
    → length dst ≡ max_bytes
    → len ≤ strnlen src size
    → len < max_bytes
    → Runs HasEnd
        (if ltb len (length dst) then some (take len src ++ 0 ∷ drop (len + 1) dst) else none)
cut-HasEnd dst src size len full within fits =
    rw (lt→ltb len (length dst) (omega (arith, full, fits))) (
      omega (
        arith,
        full,
        fits,
        length-append {0} (take len src) (0 ∷ drop (len + 1) dst),
        length-take len src (omega (arith, within, (strnlen-length src size).0)),
        length-drop (len + 1) dst,
      ),
      len,
      fits,
      strlen-take src (drop (len + 1) dst) size len within,
    )

strscpy-HasEnd :
    (dst src : List ℕ) (size : ℕ)
    → HasEnd dst
    → size ≤ max_bytes
    → Runs HasEnd (strscpy dst src size)
unfolding strscpy
strscpy-HasEnd dst src size h fits = elim (Bool-cases (size == 0)) [
  | inl none_asked ↦ rw none_asked h
  | inr some_asked ↦ rw some_asked (
      let n = strnlen src size in
      elim (Bool-cases (n == size)) [
        | inl long ↦ rw long (
            cut-HasEnd dst src size (size - 1) h.0 (omega (tests, long, some_asked))
              (omega (tests, some_asked, fits)))
        | inr whole ↦ rw whole (
            cut-HasEnd dst src size n h.0 (omega arith)
              (omega (tests, whole, fits, (strnlen-length src size).1)))
      ])
]

write-HasEnd :
    (d : Driver) (ubuf : List ℕ) (kvmalloc copy_from_user : Bool)
    → HasEnd d.oursecret
    → Runs
        (λ a. HasEnd a.1.oursecret × (a.1.ga ≡ d.ga) × (a.1.gb ≡ d.gb))
        (write_miscdrv_rdwr d ubuf kvmalloc copy_from_user)
unfolding write_miscdrv_rdwr
write-HasEnd d ubuf false copy_from_user h = (h, refl, refl)
write-HasEnd d ubuf true false h = (h, refl, refl)
write-HasEnd d ubuf true true h =
    Runs-bind HasEnd _ (strscpy d.oursecret ubuf _) _
      (strscpy-HasEnd d.oursecret ubuf _ h (ground arith)) λ secret g. (g, refl, refl)

read-short :
    (d : Driver) (secret_len count : ℕ) (copy_to_user : Bool)
    → HasEnd d.oursecret
    → secret_len < max_bytes
    → Runs
        (λ a.
          (length a.1 < max_bytes)
          × (a.2.oursecret ≡ d.oursecret)
          × (a.2.ga ≡ d.ga)
          × (a.2.gb ≡ d.gb))
        (read_secret d secret_len count copy_to_user)
unfolding read_secret
read-short d secret_len count copy_to_user h lt =
    ground (arith, h.0, length-take secret_len d.oursecret (omega (arith, h.0, lt)))

AllBelow-append :
    (readers : List ℕ) (n : ℕ) → AllBelow readers → n < max_bytes → AllBelow (readers ++ n ∷ [])
AllBelow-append [] n h lt = (lt, tt)
AllBelow-append (r ∷ readers) n h lt = (h.0, AllBelow-append readers n h.1 lt)

AllBelow-set : (readers : List ℕ) (i : ℕ) → AllBelow readers → AllBelow (set readers i 0)
AllBelow-set [] i h = tt
AllBelow-set (r ∷ readers) zero h = (omega arith, h.1)
AllBelow-set (r ∷ readers) (suc i) h = (h.0, AllBelow-set readers i h.1)

get_or-below : (readers : List ℕ) (i : ℕ) → AllBelow readers → get_or readers i 0 < max_bytes
get_or-below [] i h = omega arith
get_or-below (r ∷ readers) zero h = h.0
get_or-below (r ∷ readers) (suc i) h = get_or-below readers i h.1

turn-IsSound : (w : World) (t : Turn) → IsSound w → Runs IsSound (turn w t)
unfolding turn
turn-IsSound w opens h = record {
  ended = h.ended;
  paired = omega (arith, h.paired);
  below = h.below;
  short = h.short;
}
turn-IsSound w closes h = record {
  ended = h.ended;
  paired = omega (arith, h.paired);
  below = h.below;
  short = h.short;
}
turn-IsSound w (writes ubuf kvmalloc copy_from_user) h =
    Runs-bind _ IsSound (write_miscdrv_rdwr w.driver ubuf kvmalloc copy_from_user) _
      (write-HasEnd w.driver ubuf kvmalloc copy_from_user h.ended)
      λ a (ended, ga, gb). record {
        ended = ended;
        paired = rw (ga, gb) h.paired;
        below = h.below;
        short = h.short;
      }
turn-IsSound w measures h =
    let (size, n, lt, e) = h.ended in
    rw e (record {
      ended = h.ended;
      paired = h.paired;
      below = AllBelow-append w.readers n h.below lt;
      short = h.short;
    })
turn-IsSound w (reads i count copy_to_user) h =
    Runs-bind _ IsSound (read_secret w.driver (get_or w.readers i 0) count copy_to_user) _
      (read-short w.driver (get_or w.readers i 0) count copy_to_user h.ended
        (get_or-below w.readers i h.below))
      λ a (short, same, ga, gb). record {
        ended = rw same h.ended;
        paired = rw (ga, gb) h.paired;
        below = AllBelow-set w.readers i h.below;
        short = (short, h.short);
      }

-- Whatever turns callers have, in whatever order, with other callers between the two halves of a read: none
-- faults, the secret keeps an end in its array of 128 bytes, readers get fewer bytes than that, and
-- each opening is paid for in the other counter.
pub turns-IsSound : (w : World) (calls : List Turn) → IsSound w → Runs IsSound (turns w calls)
turns-IsSound w [] h = h
turns-IsSound w (t ∷ later) h =
    Runs-bind IsSound IsSound (turn w t) _ (turn-IsSound w t h) λ w1 h1. turns-IsSound w1 later h1
