-- ===== src/Misc.antt =====
-- The driver kmisc/miscdrv_rdwr.c of a character device with a secret. An `int` that is counted up and
-- down is its 32-bit pattern. What the kernel answers, whether there is memory and whether user memory
-- can be reached, is an argument. `none` is an access outside a buffer.
pub mod Secret
mod Tests
use hack.Base.{
  ℕ, Bool, ◌+◌, List, Option, suc, if◌then◌else◌, ◌%◌, length, ◌>>=◌, none, ltb, ◌∷◌, not, ◌^◌,
  some, leb, [], ◌==◌, zero, take, ◌-◌, ◌++◌, drop,
}
use hack.Base.Int.{ℤ, pos, negsuc, enomem, efault, einval, to_int}
use mathlib.Core.Option.{map}

abbrev pub max_bytes : ℕ
max_bytes = 128

-- the parts of `struct drv_ctx` that are used, and the counters `ga` and `gb`
pub record Ctx : Type 0 where
  pub tx : ℕ
  pub rx : ℕ
  pub oursecret : List ℕ
  pub ga : ℕ
  pub gb : ℕ

abbrev pub add32 : ℕ → ℕ → ℕ
add32 a b = (a + b) % 2 ^ 32

-- `nonseekable_open` returns 0.
unfoldable pub open_miscdrv_rdwr : Ctx → Bool → ℤ × Ctx
open_miscdrv_rdwr ctx kzalloc =
    if not kzalloc
    then (enomem, ctx)
    else (pos 0, record ctx { ga = add32 ctx.ga 1; gb = add32 ctx.gb (2 ^ 32 - 1) })

unfoldable pub close_miscdrv_rdwr : Ctx → Bool → ℤ × Ctx
close_miscdrv_rdwr ctx kzalloc =
    if not kzalloc
    then (enomem, ctx)
    else (pos 0, record ctx { ga = add32 ctx.ga (2 ^ 32 - 1); gb = add32 ctx.gb 1 })

unfoldable pub strnlen : List ℕ → ℕ → ℕ
strnlen text zero = 0
strnlen [] (suc n) = 0
strnlen (c ∷ text) (suc n) = if c == 0 then 0 else suc (strnlen text n)

-- the answer, the bytes that reach the user, and the state
unfoldable pub read_miscdrv_rdwr : Ctx → ℕ → Bool → ℤ × List ℕ × Ctx
unfolding strnlen
read_miscdrv_rdwr ctx count copy_to_user =
    let secret_len = strnlen ctx.oursecret max_bytes in
    if ltb count max_bytes
    then (einval, [], ctx)
    else if secret_len == 0
    then (einval, [], ctx)
    else if not copy_to_user
    then (efault, [], ctx)
    else (
      pos secret_len,
      take secret_len ctx.oursecret,
      record ctx { tx = add32 ctx.tx secret_len },
    )

-- `strlen`, in a buffer that may have no zero
unfoldable pub strlen : List ℕ → Option ℕ
strlen [] = none
strlen (c ∷ text) = if c == 0 then some 0 else (strlen text >>= λ n. some (suc n))

-- `strlcpy` measures its source first.
unfoldable pub strlcpy : List ℕ → List ℕ → ℕ → Option (List ℕ)
unfolding strlen
strlcpy dst src size = do
  ret ← strlen src
  let len = if leb size ret then size - 1 else ret
  some (if size == 0 then dst else take len src ++ 0 ∷ drop (len + 1) dst)

-- `ubuf` are the `count` bytes of the user.
unfoldable pub write_miscdrv_rdwr : Ctx → List ℕ → Bool → Bool → Option (ℤ × Ctx)
unfolding strlcpy
write_miscdrv_rdwr ctx ubuf kvmalloc copy_from_user =
    let count = length ubuf in
    if ltb max_bytes count
    then some (to_int count, ctx)
    else if not kvmalloc
    then some (enomem, ctx)
    else if not copy_from_user
    then some (efault, ctx)
    else do
      oursecret ← strlcpy ctx.oursecret ubuf (if ltb max_bytes count then max_bytes else count)
      some (to_int count, record ctx { oursecret = oursecret; rx = add32 ctx.rx count })
