-- ===== src/Procfs/Tests.antt =====
-- Runs of the model of kfsproc/procfs_if.c.
use hack.Base.{
  ℕ, List, ◌∷◌, [], ◌≡◌, refl, true, false, Option, some, inr, ◌+◌, none, if◌then◌else◌, leb, ◌&&◌,
  ◌==◌, ◌-◌,
}
use hack.Base.Fault.{Runs}
use hack.Base.Int.{ℤ, pos}
use hack.Procfs.{
  Driver, write_debug_level, procfs_if_init, Answers, Write, Parsed, init_rest, alloc_init_drvctx,
  fails, debug_level_file, procfs_if_cleanup, write_config1, dir, parses, store_debug_level,
  pgoff_file, store_config1, drvctx_file, points, config1_file,
}
use hack.Procfs.Levels.{IsLive, calls, Call, loaded, call, debug_level_write, config1_write}
use hack.Procfs.Life.{Outcome, IsClean, procfs_if_init-Outcome, lifetime}

-- a parser of one decimal digit, which stands for the kernel's two
abbrev digit : List ℕ → Option ℕ
digit (c ∷ d ∷ rest) = if leb 48 c && leb c 57 && d == 0 then some (c - 48) else none
digit text = none

abbrev kstrtoul_of : Option ℕ → Parsed ℕ
kstrtoul_of none = fails 21
kstrtoul_of (some v) = parses v

abbrev kstrtoint_of : Option ℕ → Parsed ℤ
kstrtoint_of none = fails 21
kstrtoint_of (some v) = parses (pos v)

abbrev kstrtoul : List ℕ → Parsed ℕ
kstrtoul text = kstrtoul_of (digit text)

abbrev kstrtoint : List ℕ → Parsed ℤ
kstrtoint text = kstrtoint_of (digit text)

-- a write of a digit and a newline
abbrev digit_write : ℕ → Write
digit_write n = record { ubuf = (48 + n) ∷ 10 ∷ []; count = 2; interrupted = false; copied = true }

abbrev all_well : Answers
all_well = record {
  enabled = true;
  mkdir = true;
  create1 = true;
  create2 = true;
  kzalloc = true;
  create3 = true;
  create4 = true;
}

abbrev started : Driver
started = record loaded {
  gdrvctx = alloc_init_drvctx true;
  entries = dir ∷ debug_level_file ∷ pgoff_file ∷ drvctx_file ∷ config1_file ∷ [];
}

abbrev history : List Call
history =
    debug_level_write (digit_write 2)
    ∷ config1_write (digit_write 7)
    ∷ debug_level_write (digit_write 9)
    ∷ []

started_run : procfs_if_init all_well loaded ≡ (pos 0, started)
unfolding procfs_if_init init_rest
started_run = refl

-- after these, the level is 0 and the first configuration is 7
history_run :
    calls kstrtoint kstrtoul history started
    ≡ some (record started {
      gdrvctx = points (record {
        power = 1;
        config1 = 7;
        config2 = 0x48524A5F;
        config3 = 0x424C0A52;
        oursecret = b'A' ∷ b'h' ∷ b'A' ∷ b' ' ∷ b'x' ∷ b'x' ∷ b'x' ∷ [];
      });
    })
unfolding calls call write_debug_level write_config1 store_debug_level store_config1
history_run = refl

procfs_if_init-Outcome_example :
    Outcome all_well (procfs_if_init all_well loaded).0 (procfs_if_init all_well loaded).1
procfs_if_init-Outcome_example = procfs_if_init-Outcome all_well

lifetime_example :
    Runs
      (λ s'. IsLive s' × Runs IsClean (procfs_if_cleanup s'))
      (calls kstrtoint kstrtoul history started)
lifetime_example = lifetime kstrtoint kstrtoul all_well started history started_run

started_Live : IsLive started
started_Live = record {
  ctx = record {
    power = 1;
    config1 = 0;
    config2 = 0x48524A5F;
    config3 = 0x424C0A52;
    oursecret = b'A' ∷ b'h' ∷ b'A' ∷ b' ' ∷ b'x' ∷ b'x' ∷ b'x' ∷ [];
  };
  there = refl;
  powered = refl;
  agrees = inr refl;
  files = refl;
}
