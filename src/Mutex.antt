-- ===== src/Mutex.antt =====
-- The driver ksync-mutex/mutexlock_misc.c of a character device with a secret, called by many at a time. What runs
-- under one of its mutexes is one step; a read has two, so other callers come between. `none` is an
-- access outside a buffer. The C strings and counters are those of kmisc.
pub mod Turns
mod Tests
use hack.Base.{
  Option, List, ℕ, some, if◌then◌else◌, Bool, ◌^◌, ◌∷◌, ◌>>=◌, leb, ◌-◌, ◌==◌, [], length, ltb,
  ◌++◌, not, take, get_or, none, drop, set, ◌+◌,
}
use hack.Base.Int.{einval, enomem, efault, to_int, ℤ, pos}
use hack.Misc.{add32, strnlen, strlen, max_bytes}

pub record Driver : Type 0 where
  pub tx : ℕ
  pub rx : ℕ
  pub oursecret : List ℕ
  pub ga : ℕ
  pub gb : ℕ

-- `strscpy`: a text that is too long is cut
unfoldable pub strscpy : List ℕ → List ℕ → ℕ → Option (List ℕ)
strscpy dst src size =
    let n = strnlen src size in
    let len = if n == size then size - 1 else n in
    if size == 0
    then some dst
    else if ltb len (length dst)
    then some (take len src ++ 0 ∷ drop (len + 1) dst)
    else none

abbrev pub open_miscdrv_rdwr : Driver → Driver
open_miscdrv_rdwr d = record d { ga = add32 d.ga 1; gb = add32 d.gb (2 ^ 32 - 1) }

abbrev pub close_miscdrv_rdwr : Driver → Driver
close_miscdrv_rdwr d = record d { ga = add32 d.ga (2 ^ 32 - 1); gb = add32 d.gb 1 }

-- `ubuf` are the `count` bytes of the user.
unfoldable pub write_miscdrv_rdwr : Driver → List ℕ → Bool → Bool → Option (ℤ × Driver)
write_miscdrv_rdwr d ubuf kvmalloc copy_from_user =
    let count = length ubuf in
    if not kvmalloc then some (enomem, d) else if not copy_from_user then some (efault, d) else do
      oursecret ← strscpy d.oursecret ubuf (if ltb max_bytes count then max_bytes else count)
      some (to_int count, record d { oursecret = oursecret; rx = add32 d.rx count })

-- the bytes that the kernel copies out of an array
abbrev pub copied : ℕ → List ℕ → Option (List ℕ)
copied n array = if leb n (length array) then some (take n array) else none

-- the second half of a read: the answer, the bytes that reach the user, and the state
unfoldable pub read_secret : Driver → ℕ → ℕ → Bool → Option (ℤ × List ℕ × Driver)
read_secret d secret_len count copy_to_user =
    if ltb count max_bytes
    then some (einval, [], d)
    else if secret_len == 0
    then some (einval, [], d)
    else if not copy_to_user
    then some (efault, [], d)
    else do
      out ← copied secret_len d.oursecret
      some (pos secret_len, out, record d { tx = add32 d.tx secret_len })

-- the driver, the readers that have measured the secret, and what readers have been given
pub record World : Type 0 where
  pub driver : Driver
  pub readers : List ℕ
  pub given : List (List ℕ)

pub data Turn : Type 0 where
  opens : Turn
  closes : Turn
  writes : (ubuf : List ℕ) (kvmalloc copy_from_user : Bool) → Turn
  measures : Turn
  reads : (i count : ℕ) (copy_to_user : Bool) → Turn

-- the turn of one caller, with the half of a read that measures the secret; the reader `i` is done
-- after the other half
unfoldable pub turn : World → Turn → Option World
turn w opens = some (record w { driver = open_miscdrv_rdwr w.driver })
turn w closes = some (record w { driver = close_miscdrv_rdwr w.driver })
turn w (writes ubuf kvmalloc copy_from_user) = do
  (answer, d) ← write_miscdrv_rdwr w.driver ubuf kvmalloc copy_from_user
  some (record w { driver = d })
turn w measures = do
  secret_len ← strlen w.driver.oursecret
  some (record w { readers = w.readers ++ secret_len ∷ [] })
turn w (reads i count copy_to_user) = do
  (answer, out, d) ← read_secret w.driver (get_or w.readers i 0) count copy_to_user
  some (record { driver = d; readers = set w.readers i 0; given = out ∷ w.given })

abbrev pub turns : World → List Turn → Option World
turns w [] = some w
turns w (t ∷ later) = do w1 ← turn w t; turns w1 later
