-- ===== src/Procfs.antt =====
-- The driver kfsproc/procfs_if.c, whose files under /proc show and set its debug level. What runs under its
-- mutex is one step. What the kernel answers is an argument, and `kstrtoint` and `kstrtoul`, which
-- parse the text of a buffer, are parameters. `none` is an access through a pointer that does not point.
pub mod Levels
pub mod Life
pub mod Accepts
mod Tests
use hack.Base.{
  ℕ, Bool, List, Option, ◌∷◌, [], some, none, if◌then◌else◌, leb, ltb, ◌||◌, ◌==◌, ◌-◌, ◌%◌, ◌^◌,
  take, set, not, false, ◌>>=◌, ◌++◌,
}
use hack.Base.Int.{to_int, ℤ, pos, negsuc, enomem, efault, einval, erestartsys}

-- the fields of `struct drv_ctx` that are set
pub record Ctx : Type 0 where
  pub power : ℕ
  pub config1 : ℕ
  pub config2 : ℕ
  pub config3 : ℕ
  pub oursecret : List ℕ

pub data Pointer : Type 0 where
  null : Pointer
  -- what `ERR_PTR` makes
  error : Pointer
  points : Ctx → Pointer
  freed : Pointer

-- the directory of the driver, and its files
pub data Entry : Type 0 where
  dir : Entry
  debug_level_file : Entry
  pgoff_file : Entry
  drvctx_file : Entry
  config1_file : Entry

pub record Driver : Type 0 where
  pub debug_level : ℤ
  pub gdrvctx : Pointer
  pub entries : List Entry

-- what the kernel's functions that parse numbers answer: an error number, or 0 and a value
pub data Parsed (A : Type 0) : Type 0 where
  fails : (errno : ℕ) → Parsed A
  parses : (value : A) → Parsed A

abbrev pub in_range : ℤ → Bool
in_range (pos n) = leb n 2
in_range (negsuc n) = false

-- an `int` as an `unsigned int`
abbrev pub to_u32 : ℤ → ℕ
to_u32 (pos n) = n % 2 ^ 32
to_u32 (negsuc n) = 2 ^ 32 - 1 - n % 2 ^ 32

-- What a caller of a write brings: its bytes, their number, whether a signal comes before the mutex is
-- taken, and whether the bytes can be copied.
pub record Write : Type 0 where
  pub ubuf : List ℕ
  pub count : ℕ
  pub interrupted : Bool
  pub copied : Bool

-- the buffer with the bytes, and an end over the last of them
abbrev pub buffer : Write → List ℕ
buffer w = set (take w.count w.ubuf) (w.count - 1) 0

abbrev pub set_config1 : Pointer → ℕ → Option Pointer
set_config1 (points ctx) v = some (points (record ctx { config1 = v }))
set_config1 p v = none

unfoldable pub store_debug_level : Write → Parsed ℤ → Driver → Option (ℤ × Driver)
store_debug_level w (fails errno) s = some (negsuc errno, s)
store_debug_level w (parses level) s =
    if not (in_range level) then some (efault, record s { debug_level = pos 0 }) else do
      p ← set_config1 s.gdrvctx (to_u32 level)
      some (pos w.count, record s { debug_level = level; gdrvctx = p })

unfoldable pub write_debug_level : (List ℕ → Parsed ℤ) → Write → Driver → Option (ℤ × Driver)
write_debug_level kstrtoint w s =
    if w.interrupted
    then some (erestartsys, s)
    else if w.count == 0 || ltb 12 w.count
    then some (einval, s)
    else if not w.copied
    then some (efault, s)
    else store_debug_level w (kstrtoint (buffer w)) s

unfoldable pub store_config1 : Write → Parsed ℕ → Driver → Option (ℤ × Driver)
store_config1 w (fails errno) s = some (negsuc errno, s)
store_config1 w (parses configval) s = do
  p ← set_config1 s.gdrvctx (configval % 2 ^ 32)
  some (pos w.count, record s { debug_level = to_int configval; gdrvctx = p })

unfoldable pub write_config1 : (List ℕ → Parsed ℕ) → Write → Driver → Option (ℤ × Driver)
write_config1 kstrtoul w s =
    if w.interrupted
    then some (erestartsys, s)
    else if w.count == 0 || ltb 8 w.count
    then some (einval, s)
    else if not w.copied
    then some (efault, s)
    else store_config1 w (kstrtoul (buffer w)) s

-- what the files print of the state
abbrev pub show_debug_level : Driver → ℤ
show_debug_level s = s.debug_level

abbrev pub context : Pointer → Option Ctx
context (points ctx) = some ctx
context p = none

abbrev pub show_config1 : Driver → Option ℕ
show_config1 s = do ctx ← context s.gdrvctx; some ctx.config1

abbrev pub show_drvctx : Driver → Option Ctx
show_drvctx s = context s.gdrvctx

-- what the kernel answers while the module starts
pub record Answers : Type 0 where
  pub enabled : Bool
  pub mkdir : Bool
  pub create1 : Bool
  pub create2 : Bool
  pub kzalloc : Bool
  pub create3 : Bool
  pub create4 : Bool

abbrev pub alloc_init_drvctx : Bool → Pointer
alloc_init_drvctx kzalloc =
    if kzalloc
    then points (record {
      power = 1;
      config1 = 0;
      config2 = 0x48524A5F;
      config3 = 0x424C0A52;
      oursecret = b'A' ∷ b'h' ∷ b'A' ∷ b' ' ∷ b'x' ∷ b'x' ∷ b'x' ∷ [];
    })
    else error

-- the labels of the error paths
abbrev pub out_fail_2 : ℤ → Driver → ℤ × Driver
out_fail_2 stat s = (stat, record s { entries = [] })

abbrev pub out_fail_3 : ℤ → Driver → ℤ × Driver
out_fail_3 stat s = out_fail_2 stat (record s { gdrvctx = freed })

abbrev pub create : Entry → Driver → Driver
create e s = record s { entries = s.entries ++ e ∷ [] }

-- from the second file on
unfoldable pub init_rest : Answers → Driver → ℤ × Driver
init_rest a s1 =
    let s2 = create pgoff_file s1 in
    let s3 = record s2 { gdrvctx = alloc_init_drvctx a.kzalloc } in
    let s4 = create drvctx_file s3 in
    if not a.create2
    then out_fail_2 enomem s1
    else if not a.kzalloc
    then out_fail_2 enomem s3
    else if not a.create3
    then out_fail_3 enomem s3
    else if not a.create4
    then out_fail_3 enomem s4
    else (pos 0, create config1_file s4)

unfoldable pub procfs_if_init : Answers → Driver → ℤ × Driver
procfs_if_init a s =
    if not a.enabled
    then (einval, s)
    else if not a.mkdir
    then (enomem, s)
    else if not a.create1
    then (enomem, create dir s)
    else init_rest a (create debug_level_file (create dir s))

unfoldable pub procfs_if_cleanup : Driver → Option Driver
procfs_if_cleanup s = do ctx ← context s.gdrvctx; some (record s { gdrvctx = freed; entries = [] })
