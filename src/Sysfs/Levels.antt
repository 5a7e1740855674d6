-- ===== src/Sysfs/Levels.antt =====
-- The level of the driver kfssys/sysfs_if.c, and its files.
use hack.Base.{
  ℕ, List, ◌∷◌, [], ◌≡◌, refl, true, false, ◌∙◌, Bool-cases, subst, inl, inr, ◌==◌, ◌||◌, ltb, Bool,
  ◌≤◌, leb→le, if◌then◌else◌,
}
use hack.Base.Int.{ℤ, pos, negsuc, erestartsys, einval}
use hack.Sysfs.{
  Driver, sysfs_if_cleanup, sysfs_if_init, init_device, platdev, debug_level_store, store_level,
  Store, Answers, init_file1, debug_level_file, init_file2, pgoff_file, init_file3, pressure_file,
}
use hack.Procfs.{in_range, Parsed, fails, parses}

-- the module as it is loaded
abbrev pub loaded : Driver
loaded = record { debug_level = pos 0; gpressure = 0; entries = [] }

abbrev pub IsNeg : ℤ → Type 0
IsNeg (pos n) = ⊥
IsNeg (negsuc n) = Unit

-- A store has set the level to a number in its range, or has changed nothing.
pub data Stored (w : Store) (s : Driver) : ℤ × Driver → Type 0 where
  stored :
      (level : ℤ)
      → in_range level ≡ true
      → Stored w s (pos w.count, record s { debug_level = level })
  unchanged : (errno : ℕ) → Stored w s (negsuc errno, s)

store_level-Stored : (w : Store) (a : Parsed ℤ) (s : Driver) → Stored w s (store_level w a s)
unfolding store_level
store_level-Stored w (fails errno) s = unchanged errno
store_level-Stored w (parses level) s = elim (Bool-cases (in_range level)) [
  | inl fine ↦ rw fine (stored level fine)
  | inr out ↦ rw out (unchanged 13)
]

guards-Stored :
    (w : Store) (s : Driver) (b1 b2 : Bool) (r : ℤ × Driver)
    → Stored w s r
    → Stored w s (if b1 then (erestartsys, s) else if b2 then (einval, s) else r)
guards-Stored w s true b2 r h = unchanged 511
guards-Stored w s false true r h = unchanged 21
guards-Stored w s false false r h = h

pub debug_level_store-Stored :
    (kstrtoint : List ℕ → Parsed ℤ) (w : Store) (s : Driver)
    → Stored w s (debug_level_store kstrtoint w s)
unfolding debug_level_store
debug_level_store-Stored kstrtoint w s =
    guards-Stored w s w.interrupted (w.count == 0 || ltb 12 w.count) _
      (store_level-Stored w (kstrtoint w.buf) s)

unfoldable pub stores : (List ℕ → Parsed ℤ) → List Store → Driver → Driver
stores kstrtoint [] s = s
stores kstrtoint (w ∷ later) s = stores kstrtoint later (debug_level_store kstrtoint w s).1

-- what a store keeps
record IsKept (s s' : Driver) : Type 0 where
  pub level : in_range s'.debug_level ≡ true
  pub files : s'.entries ≡ s.entries
  pub pressure : s'.gpressure ≡ s.gpressure

Stored-Kept :
    (w : Store) (s : Driver) (r : ℤ × Driver)
    → in_range s.debug_level ≡ true
    → Stored w s r
    → IsKept s r.1
Stored-Kept w s r h (stored level fine) = record { level = fine; files = refl; pressure = refl }
Stored-Kept w s r h (unchanged errno) = record { level = h; files = refl; pressure = refl }

stores-Kept :
    (kstrtoint : List ℕ → Parsed ℤ) (ws : List Store) (s : Driver)
    → in_range s.debug_level ≡ true
    → IsKept s (stores kstrtoint ws s)
unfolding stores
stores-Kept kstrtoint [] s h = record { level = h; files = refl; pressure = refl }
stores-Kept kstrtoint (w ∷ ws) s h =
    let s1 = (debug_level_store kstrtoint w s).1 in
    let first = Stored-Kept w s _ h (debug_level_store-Stored kstrtoint w s) in
    let rest = stores-Kept kstrtoint ws s1 first.level in
    record {
      level = rest.level;
      files = rest.files ∙ first.files;
      pressure = rest.pressure ∙ first.pressure;
    }

pub record IsLive (s : Driver) : Type 0 where
  pub files : s.entries ≡ platdev ∷ debug_level_file ∷ pgoff_file ∷ pressure_file ∷ []
  pub level : in_range s.debug_level ≡ true
  pub pressure : s.gpressure ≡ 25

-- How a start can end: with the device and its three files, or with an error and nothing.
abbrev pub Started : ℤ × Driver → Type 0
Started (pos n, s) = (n ≡ 0) × IsLive s
Started (negsuc errno, s) = s.entries ≡ []

live :
    (s : Driver)
    → IsLive (record loaded {
      gpressure = 25;
      entries = platdev ∷ debug_level_file ∷ pgoff_file ∷ pressure_file ∷ [];
    })
live s = record { files = refl; level = refl; pressure = refl }

device_Started : (r c1 c2 c3 : Parsed Unit) → Started (init_device r c1 c2 c3 loaded)
unfolding init_device init_file1 init_file2 init_file3
device_Started (fails errno) c1 c2 c3 = refl
device_Started (parses _) (fails errno) c2 c3 = refl
device_Started (parses _) (parses _) (fails errno) c3 = refl
device_Started (parses _) (parses _) (parses _) (fails errno) = refl
device_Started (parses _) (parses _) (parses _) (parses _) = (refl, live loaded)

-- Whatever the kernel answers, the start makes the device and its three files, or fails and leaves none of them.
pub sysfs_if_init-Started : (a : Answers) → Started (sysfs_if_init a loaded)
unfolding sysfs_if_init
sysfs_if_init-Started a = elim (Bool-cases a.enabled) [
  | inl e ↦ rw e (device_Started a.register a.create1 a.create2 a.create3)
  | inr e ↦ rw e refl
]

sysfs_if_cleanup-entries :
    (s : Driver)
    → s.entries ≡ platdev ∷ debug_level_file ∷ pgoff_file ∷ pressure_file ∷ []
    → (sysfs_if_cleanup s).entries ≡ []
unfolding sysfs_if_cleanup
sysfs_if_cleanup-entries s e = rw e refl

-- a level from 0 to 2
abbrev pub IsLevel : ℤ → Type 0
IsLevel level = (n : ℕ) × (level ≡ pos n) × (n ≤ 2)

in_range-IsLevel : (level : ℤ) → in_range level ≡ true → IsLevel level
in_range-IsLevel (pos n) e = (n, refl, leb→le n 2 e)
in_range-IsLevel (negsuc n) e = cc

-- From a start that succeeds to the end: whatever texts are stored, in any order, the level stays from 0 to 2, and the
-- removal of the module leaves no device and no file.
pub sysfs_lifetime :
    (kstrtoint : List ℕ → Parsed ℤ) (a : Answers) (s : Driver) (ws : List Store)
    → sysfs_if_init a loaded ≡ (pos 0, s)
    → IsLevel (stores kstrtoint ws s).debug_level
      × ((sysfs_if_cleanup (stores kstrtoint ws s)).entries ≡ [])
sysfs_lifetime kstrtoint a s ws e =
    let live = (subst Started e (sysfs_if_init-Started a)).1 in
    let kept = stores-Kept kstrtoint ws s live.level in
    (
      in_range-IsLevel (stores kstrtoint ws s).debug_level kept.level,
      sysfs_if_cleanup-entries (stores kstrtoint ws s) (kept.files ∙ live.files),
    )
