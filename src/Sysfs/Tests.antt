-- ===== src/Sysfs/Tests.antt =====
-- Runs of the model of kfssys/sysfs_if.c.
use hack.Base.{ℕ, List, ◌∷◌, [], ◌≡◌, refl, true, false, ◌+◌, if◌then◌else◌, leb, ◌&&◌, ◌==◌, ◌-◌}
use hack.Base.Int.{ℤ, pos}
use hack.Sysfs.{
  Driver, sysfs_if_init, Store, sysfs_if_cleanup, debug_level_store, init_device, platdev, Answers,
  store_level, init_file1, debug_level_file, init_file2, pgoff_file, init_file3, pressure_file,
}
use hack.Sysfs.Levels.{stores, loaded, IsLevel, sysfs_lifetime}
use hack.Procfs.{Parsed, fails, parses}

-- a parser of one decimal digit, which stands for the kernel's
abbrev kstrtoint : List ℕ → Parsed ℤ
kstrtoint (c ∷ newline ∷ end ∷ rest) =
    if leb 48 c && leb c 57 && newline == 10 && end == 0 then parses (pos (c - 48)) else fails 21
kstrtoint text = fails 21

abbrev digit_store : ℕ → Store
digit_store n = record { buf = (48 + n) ∷ 10 ∷ 0 ∷ []; count = 2; interrupted = false }

abbrev answers_but : Parsed Unit → Answers
answers_but create3 = record {
  enabled = true;
  register = parses tt;
  create1 = parses tt;
  create2 = parses tt;
  create3 = create3;
}

abbrev started : Driver
started = record loaded {
  gpressure = 25;
  entries = platdev ∷ debug_level_file ∷ pgoff_file ∷ pressure_file ∷ [];
}

started_run : sysfs_if_init (answers_but (parses tt)) loaded ≡ (pos 0, started)
unfolding sysfs_if_init init_device init_file1 init_file2 init_file3
started_run = refl

-- the level 7 is refused, and the level stays 2
stores_run : (stores kstrtoint (digit_store 2 ∷ digit_store 7 ∷ []) started).debug_level ≡ pos 2
unfolding stores debug_level_store store_level
stores_run = refl

sysfs_lifetime_example :
    IsLevel (stores kstrtoint (digit_store 2 ∷ digit_store 7 ∷ []) started).debug_level
    × ((sysfs_if_cleanup (stores kstrtoint (digit_store 2 ∷ digit_store 7 ∷ []) started)).entries
        ≡ [])
sysfs_lifetime_example =
    sysfs_lifetime kstrtoint (answers_but (parses tt)) started (digit_store 2 ∷ digit_store 7 ∷ [])
      started_run
