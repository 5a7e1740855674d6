-- ===== src/Kchar/Messages.antt =====
-- What the readers of kchar-dev/char_dev_driver.c get.
use hack.Base.{
  ℕ, take, List, length, ◌+◌, [], drop, NonZero, ◌∷◌, Option, ◌≤◌, ◌<◌, ◌^◌, suc, ◌≡◌, ◌++◌, some,
  zero, Bool-cases, ap, arith, ◌>>=◌, refl, sym, ◌/◌, ltb, length-append, inl, ◌%◌, inr, ◌∙◌,
  ne→==-false, lt→ltb, eq→==, ◌==◌, false, true,
}
use hack.Base.Int.{ℤ, pos, negsuc, to_int}
use hack.Kchar.Decimal.{IsNumeral, decimal-IsNumeral}
use hack.Kchar.{
  Device, device_read, decimal, read_loop, device_open, message, buf_len, told, printed, ebusy,
  hello, device_release,
}

-- one read after the other
abbrev pub read_all : Device → List ℕ → Option (List ℕ)
read_all d [] = some []
read_all d (n ∷ later) = do
  (answer, out, d1) ← device_read d n
  rest ← read_all d1 later
  some (out ++ rest)

abbrev pub sum : List ℕ → ℕ
sum [] = 0
sum (n ∷ later) = n + sum later

read_loop-text :
    (n : ℕ) (text later : List ℕ)
    → NonZero text
    → read_loop n (text ++ 0 ∷ later) ≡ some (take n text)
unfolding read_loop
read_loop-text zero text later h = refl
read_loop-text (suc n) [] later h = refl
read_loop-text (suc n) (c ∷ text) later h = ground (arith, read_loop-text n text later h.1, h.0)

drop-drop : {A : Type 0} (i j : ℕ) (xs : List A) → drop (i + j) xs ≡ drop j (drop i xs)
drop-drop zero j xs = ap (λ k. drop k xs) (let e : zero + j ≡ j = omega arith in e)
drop-drop (suc i) zero [] = let e : suc i + 0 ≡ suc i = omega arith in rw e refl
drop-drop (suc i) (suc j) [] = let e : suc i + suc j ≡ suc (i + suc j) = omega arith in rw e refl
drop-drop (suc i) j (x ∷ xs) =
    let e : suc i + j ≡ suc (i + j) = omega arith in rw e (drop-drop i j xs)

drop-taken :
    (n : ℕ) (text ys : List ℕ) → drop (length (take n text)) (text ++ ys) ≡ drop n text ++ ys
drop-taken zero text ys = refl
drop-taken (suc n) [] ys = refl
drop-taken (suc n) (c ∷ text) ys = drop-taken n text ys

take-nil : (n : ℕ) → take {A = ℕ} n [] ≡ []
take-nil zero = refl
take-nil (suc n) = refl

drop-nil : (n : ℕ) → drop {A = ℕ} n [] ≡ []
drop-nil zero = refl
drop-nil (suc n) = refl

take-add : (n m : ℕ) (text : List ℕ) → take (n + m) text ≡ take n text ++ take m (drop n text)
take-add zero m text = ap (λ k. take k text) (let e : zero + m ≡ m = omega arith in e)
take-add (suc n) m [] = take-nil (suc n + m) ∙ sym (take-nil m)
take-add (suc n) m (c ∷ text) =
    let e : suc n + m ≡ suc (n + m) = omega arith in rw e (ap (◌∷◌ c) (take-add n m text))

NonZero-drop : (n : ℕ) (text : List ℕ) → NonZero text → NonZero (drop n text)
NonZero-drop zero text h = h
NonZero-drop (suc n) [] h = h
NonZero-drop (suc n) (c ∷ text) h = NonZero-drop n text h.1

NonZero-append : (xs ys : List ℕ) → NonZero xs → NonZero ys → NonZero (xs ++ ys)
NonZero-append [] ys h k = k
NonZero-append (x ∷ xs) ys h k = (h.0, NonZero-append xs ys h.1 k)

decimal-NonZero : (fuel n : ℕ) → NonZero (decimal fuel n)
unfolding decimal
decimal-NonZero zero n = tt
decimal-NonZero (suc fuel) n = elim (Bool-cases (ltb n 10)) [
  | inl small ↦ rw small (omega arith, tt)
  | inr big ↦ rw big (
      NonZero-append (decimal fuel (n / 10)) ((48 + n % 10) ∷ []) (decimal-NonZero fuel (n / 10))
        (omega arith, tt))
]

decimal-length : (fuel n : ℕ) → length (decimal fuel n) ≤ fuel
unfolding decimal
decimal-length zero n = omega arith
decimal-length (suc fuel) n = ground (
  arith,
  decimal-length fuel (n / 10),
  length-append {0} (decimal fuel (n / 10)) ((48 + n % 10) ∷ []),
)

-- one read, of a device whose pointer is at a text
device_read-text :
    (d : Device) (text later : List ℕ) (n : ℕ)
    → drop d.ptr d.msg ≡ text ++ 0 ∷ later
    → NonZero text
    → (answer : ℤ) × (d1 : Device) × (device_read d n ≡ some (answer, take n text, d1))
      × (drop d1.ptr d1.msg ≡ drop n text ++ 0 ∷ later)
unfolding device_read
device_read-text d [] later n e h =
    (pos 0, d, rw e (rw (take-nil n) refl), e ∙ ap (λ xs. xs ++ 0 ∷ later) (sym (drop-nil n)))
device_read-text d (c ∷ text) later n e h =
    let out = take n (c ∷ text) in
    (
      pos (length out),
      record d { ptr = d.ptr + length out },
      rw e (rw (ne→==-false c 0 h.0) (rw (read_loop-text n (c ∷ text) later h) refl)),
      drop-drop d.ptr (length out) d.msg
          ∙ ap (drop (length out)) e
          ∙ drop-taken n (c ∷ text) (0 ∷ later),
    )

read_all-text :
    (d : Device) (text later : List ℕ) (lengths : List ℕ)
    → drop d.ptr d.msg ≡ text ++ 0 ∷ later
    → NonZero text
    → read_all d lengths ≡ some (take (sum lengths) text)
read_all-text d text later [] e h = refl
read_all-text d text later (n ∷ lengths) e h =
    let (answer, d1, read, at) = device_read-text d text later n e h in
    let rest = read_all-text d1 (drop n text) later lengths at (NonZero-drop n text h) in
    rw read (rw rest (ap some (sym (take-add n (sum lengths) text))))

printed-NonZero : (z : ℤ) → NonZero (printed z)
printed-NonZero (pos n) = decimal-NonZero 10 n
printed-NonZero (negsuc n) = (omega arith, decimal-NonZero 10 (n + 1))

printed-length : (z : ℤ) → length (printed z) ≤ 11
printed-length (pos n) = omega (arith, decimal-length 10 n)
printed-length (negsuc n) = omega (arith, decimal-length 10 (n + 1))

message-NonZero : (n : ℕ) → NonZero (message n)
unfolding message
message-NonZero n =
    NonZero-append told (printed (to_int n) ++ hello) (omega arith)
      (NonZero-append (printed (to_int n)) hello (printed-NonZero (to_int n)) (omega arith))

message-length : (n : ℕ) → length (message n) ≤ 50
unfolding message
message-length n = omega (
  arith,
  printed-length (to_int n),
  length-append {0} told (printed (to_int n) ++ hello),
  length-append {0} (printed (to_int n)) hello,
)

-- the message with these digits
abbrev pub announces : List ℕ → List ℕ
announces digits =
    b'I'
    ∷ b' '
    ∷ b'a'
    ∷ b'l'
    ∷ b'r'
    ∷ b'e'
    ∷ b'a'
    ∷ b'd'
    ∷ b'y'
    ∷ b' '
    ∷ b't'
    ∷ b'o'
    ∷ b'l'
    ∷ b'd'
    ∷ b' '
    ∷ b'y'
    ∷ b'o'
    ∷ b'u'
    ∷ b' '
    ∷ (digits
        ++ b' ' ∷ b't' ∷ b'i' ∷ b'm' ∷ b'e' ∷ b's' ∷ b' ' ∷ b'H' ∷ b'e' ∷ b'l' ∷ b'l' ∷ b'o' ∷ b' '
          ∷ b'w' ∷ b'o' ∷ b'r' ∷ b'l' ∷ b'd' ∷ b'!' ∷ 10 ∷ [])

message-announces : (n : ℕ) → n < 2 ^ 31 → message n ≡ announces (decimal 10 n)
unfolding message
message-announces n lt = let e : n % 2 ^ 32 ≡ n = omega arith in rw (e, lt→ltb n (2 ^ 31) lt) refl

-- the device after an opening
abbrev opened : Device → Device
opened d = record {
  device_open_counter = d.device_open_counter + 1;
  counter = (d.counter + 1) % 2 ^ 32;
  msg = message d.counter ++ 0 ∷ drop (length (message d.counter) + 1) d.msg;
  ptr = 0;
}

device_open-closed :
    (d : Device)
    → (d.device_open_counter == 0) ≡ true
    → ltb (length (message d.counter)) (length d.msg) ≡ true
    → device_open d ≡ some (pos 0, opened d)
unfolding device_open
device_open-closed d closed fits = rw closed (rw fits refl)

device_open-busy :
    (d : Device) → (d.device_open_counter == 0) ≡ false → device_open d ≡ some (ebusy, d)
unfolding device_open
device_open-busy d busy = rw busy refl

device_release-opened :
    (d : Device) → d.device_open_counter ≡ 0 → (device_release (opened d)).1.device_open_counter ≡ 0
unfolding device_release
device_release-opened d closed = omega (arith, closed)

-- Opening a device that nobody has open, fewer than 2^31 openings in, succeeds, with the message inside its array, and
-- counts itself. Then reads of whatever lengths give, put together, the text `I already told you N
-- times Hello world!` and a newline, with the number of openings before as N in decimal digits, cut at
-- the sum of the lengths, and further ones nothing; a second opening is refused and changes nothing;
-- and after a release the device is open to nobody.
pub device_open-read_all :
    (d : Device) (lengths : List ℕ)
    → d.device_open_counter ≡ 0
    → d.counter < 2 ^ 31
    → length d.msg ≡ buf_len
    → (d1 : Device) × (digits : List ℕ) × (device_open d ≡ some (pos 0, d1))
      × (d1.counter ≡ d.counter + 1)
      × IsNumeral d.counter digits
      × (read_all d1 lengths ≡ some (take (sum lengths) (announces digits)))
      × (device_open d1 ≡ some (ebusy, d1))
      × ((device_release d1).1.device_open_counter ≡ 0)
device_open-read_all d lengths closed lt size =
    let text = message d.counter in
    let fits =
      lt→ltb (length text) (length d.msg) (omega (arith, size, message-length d.counter)) in
    (
      opened d,
      decimal 10 d.counter,
      device_open-closed d (eq→== d.device_open_counter 0 closed) fits,
      omega arith,
      decimal-IsNumeral d.counter (omega arith),
      read_all-text (opened d) text (drop (length text + 1) d.msg) lengths refl
            (message-NonZero d.counter)
          ∙ ap (λ xs. some (take (sum lengths) xs)) (message-announces d.counter lt),
      device_open-busy (opened d)
          (ne→==-false (d.device_open_counter + 1) 0 (λ q. absurd (omega (arith, q)))),
      device_release-opened d closed,
    )
