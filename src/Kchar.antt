-- ===== src/Kchar.antt =====
-- The driver kchar-dev/char_dev_driver.c of a character device that one process at a time reads a
-- message from. `none` is an access outside the array `msg`.
pub mod Decimal
pub mod Messages
mod Tests
use hack.Base.{
  ℕ, Option, List, drop, none, some, if◌then◌else◌, ◌++◌, ◌∷◌, [], ◌>>=◌, ◌-◌, not, ltb, suc, ◌==◌,
  length, ◌/◌, zero, ◌+◌, ◌%◌, ◌^◌,
}
use hack.Base.Int.{einval, to_int, ℤ, pos, negsuc}

abbrev pub buf_len : ℕ
buf_len = 80

abbrev pub ebusy : ℤ
ebusy = negsuc 15

-- the variables of the driver; `counter` is the 32-bit pattern of the `int`, and `ptr` the offset of
-- `msg_buff_ptr` in `msg`
pub record Device : Type 0 where
  pub device_open_counter : ℕ
  pub counter : ℕ
  pub msg : List ℕ
  pub ptr : ℕ

-- a number of up to as many digits as there is fuel
unfoldable pub decimal : ℕ → ℕ → List ℕ
decimal zero n = []
decimal (suc fuel) n =
    let more = decimal fuel (n / 10) in
    if ltb n 10 then (48 + n) ∷ [] else more ++ (48 + n % 10) ∷ []

abbrev pub told : List ℕ
told =
    b'I' ∷ b' ' ∷ b'a' ∷ b'l' ∷ b'r' ∷ b'e' ∷ b'a' ∷ b'd' ∷ b'y' ∷ b' ' ∷ b't' ∷ b'o' ∷ b'l' ∷ b'd'
    ∷ b' ' ∷ b'y' ∷ b'o' ∷ b'u' ∷ b' ' ∷ []

abbrev pub hello : List ℕ
hello =
    b' ' ∷ b't' ∷ b'i' ∷ b'm' ∷ b'e' ∷ b's' ∷ b' ' ∷ b'H' ∷ b'e' ∷ b'l' ∷ b'l' ∷ b'o' ∷ b' ' ∷ b'w'
    ∷ b'o' ∷ b'r' ∷ b'l' ∷ b'd' ∷ b'!' ∷ 10 ∷ []

-- `%d`; an `int` has at most 10 digits.
abbrev pub printed : ℤ → List ℕ
printed (pos n) = decimal 10 n
printed (negsuc n) = b'-' ∷ decimal 10 (n + 1)

-- what `sprintf` writes
unfoldable pub message : ℕ → List ℕ
unfolding decimal
message counter = told ++ printed (to_int counter) ++ hello

-- a text and its end at the beginning of an array
abbrev pub written : List ℕ → List ℕ → Option (List ℕ)
written text array =
    if ltb (length text) (length array)
    then some (text ++ 0 ∷ drop (length text + 1) array)
    else none

unfoldable pub device_open : Device → Option (ℤ × Device)
device_open d = if not (d.device_open_counter == 0) then some (ebusy, d) else do
  msg ← written (message d.counter) d.msg
  some (
    pos 0,
    record d {
      device_open_counter = d.device_open_counter + 1;
      counter = (d.counter + 1) % 2 ^ 32;
      msg = msg;
      ptr = 0;
    },
  )

unfoldable pub device_release : Device → ℤ × Device
device_release d = (pos 0, record d { device_open_counter = d.device_open_counter - 1 })

-- the loop of the reading, over the bytes from the pointer on
unfoldable pub read_loop : ℕ → List ℕ → Option (List ℕ)
read_loop zero bytes = some []
read_loop (suc n) [] = none
read_loop (suc n) (c ∷ bytes) =
    if c == 0 then some [] else (read_loop n bytes >>= λ out. some (c ∷ out))

abbrev pub first : List ℕ → Option ℕ
first [] = none
first (c ∷ bytes) = some c

-- the answer, the bytes that reach the user, and the state
unfoldable pub device_read : Device → ℕ → Option (ℤ × List ℕ × Device)
unfolding read_loop
device_read d length_asked = do
  let bytes = drop d.ptr d.msg
  c ← first bytes
  if c == 0 then some (pos 0, [], d) else do
    out ← read_loop length_asked bytes
    some (pos (length out), out, record d { ptr = d.ptr + length out })

unfoldable pub device_write : Device → List ℕ → ℤ × Device
device_write d bytes = (einval, d)
