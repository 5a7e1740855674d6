-- ===== src/Sysfs.antt =====
-- The driver kfssys/sysfs_if.c, whose files under /sys show and set its debug level. What runs under its mutex is
-- one step; what the kernel answers is an argument, and what `kstrtoint` makes of a text is a parameter.
pub mod Levels
mod Tests
use hack.Base.{ℕ, Bool, List, ◌∷◌, [], if◌then◌else◌, ltb, ◌||◌, ◌==◌, not, ◌++◌, true, false}
use hack.Base.Int.{ℤ, pos, negsuc, efault, einval, erestartsys}
use hack.Procfs.{Parsed, fails, parses, in_range}

-- the platform device, and its files
pub data Entry : Type 0 where
  platdev : Entry
  debug_level_file : Entry
  pgoff_file : Entry
  pressure_file : Entry

pub record Driver : Type 0 where
  pub debug_level : ℤ
  pub gpressure : ℕ
  pub entries : List Entry

pub record Store : Type 0 where
  pub buf : List ℕ
  pub count : ℕ
  pub interrupted : Bool

unfoldable pub store_level : Store → Parsed ℤ → Driver → ℤ × Driver
store_level w (fails errno) s = (negsuc errno, s)
store_level w (parses level) s =
    let prev_dbglevel = s.debug_level in
    let stored = record s { debug_level = level } in
    if not (in_range level)
    then (efault, record stored { debug_level = prev_dbglevel })
    else (pos w.count, stored)

unfoldable pub debug_level_store : (List ℕ → Parsed ℤ) → Store → Driver → ℤ × Driver
debug_level_store kstrtoint w s =
    if w.interrupted
    then (erestartsys, s)
    else if w.count == 0 || ltb 12 w.count
    then (einval, s)
    else store_level w (kstrtoint w.buf) s

-- what the kernel answers while the module starts: 0, or an error number
pub record Answers : Type 0 where
  pub enabled : Bool
  pub register : Parsed Unit
  pub create1 : Parsed Unit
  pub create2 : Parsed Unit
  pub create3 : Parsed Unit

-- `device_remove_file` and `platform_device_unregister`
abbrev pub same_entry : Entry → Entry → Bool
same_entry platdev platdev = true
same_entry debug_level_file debug_level_file = true
same_entry pgoff_file pgoff_file = true
same_entry pressure_file pressure_file = true
same_entry a b = false

abbrev pub remove_entry : Entry → List Entry → List Entry
remove_entry e [] = []
remove_entry e (x ∷ entries) =
    let rest = remove_entry e entries in if same_entry e x then rest else x ∷ rest

abbrev pub remove : Entry → Driver → Driver
remove e s = record s { entries = remove_entry e s.entries }

abbrev pub create : Entry → Driver → Driver
create e s = record s { entries = s.entries ++ e ∷ [] }

-- the labels of the error paths
abbrev pub out2 : ℕ → Driver → ℤ × Driver
out2 errno s = (negsuc errno, remove platdev s)

abbrev pub out3 : ℕ → Driver → ℤ × Driver
out3 errno s = out2 errno (remove debug_level_file s)

abbrev pub out4 : ℕ → Driver → ℤ × Driver
out4 errno s = out3 errno (remove pgoff_file s)

unfoldable pub init_file3 : Parsed Unit → Driver → ℤ × Driver
init_file3 (fails errno) s = out4 errno s
init_file3 (parses _) s = (pos 0, create pressure_file s)

unfoldable pub init_file2 : Parsed Unit → Parsed Unit → Driver → ℤ × Driver
init_file2 (fails errno) c3 s = out3 errno s
init_file2 (parses _) c3 s = init_file3 c3 (record (create pgoff_file s) { gpressure = 25 })

unfoldable pub init_file1 : Parsed Unit → Parsed Unit → Parsed Unit → Driver → ℤ × Driver
init_file1 (fails errno) c2 c3 s = out2 errno s
init_file1 (parses _) c2 c3 s = init_file2 c2 c3 (create debug_level_file s)

unfoldable pub init_device :
    Parsed Unit → Parsed Unit → Parsed Unit → Parsed Unit → Driver → ℤ × Driver
init_device (fails errno) c1 c2 c3 s = (negsuc errno, s)
init_device (parses _) c1 c2 c3 s = init_file1 c1 c2 c3 (create platdev s)

unfoldable pub sysfs_if_init : Answers → Driver → ℤ × Driver
sysfs_if_init a s =
    if not a.enabled then (einval, s) else init_device a.register a.create1 a.create2 a.create3 s

unfoldable pub sysfs_if_cleanup : Driver → Driver
sysfs_if_cleanup s =
    remove platdev (remove debug_level_file (remove pgoff_file (remove pressure_file s)))
