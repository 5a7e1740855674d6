-- ===== src/Procfs/Levels.antt =====
-- What calls on the files of kfsproc/procfs_if.c do to the level and to the context of the driver.
use hack.Base.{
  true, false, ℕ, List, ◌∷◌, [], ◌≡◌, refl, Bool, Option, ◌⊎◌, some, if◌then◌else◌, ◌%◌, ◌==◌,
  ◌>>=◌, not, Bool-cases, ◌^◌, ◌||◌, inl, ltb, inr, arith, tests,
}
use hack.Base.Fault.{Runs, Runs-bind}
use hack.Base.Int.{to_int, ℤ, pos, erestartsys, einval, efault}
use hack.Procfs.{
  Driver, Ctx, Parsed, store_config1, store_debug_level, to_u32, points, Write, write_debug_level,
  fails, dir, null, write_config1, parses, debug_level_file, pgoff_file, in_range, drvctx_file,
  config1_file, buffer,
}

-- the module as it is loaded
abbrev pub loaded : Driver
loaded = record { debug_level = pos 0; gdrvctx = null; entries = [] }

pub data Call : Type 0 where
  debug_level_write : Write → Call
  config1_write : Write → Call

-- what the level and the first configuration have to do with each other
abbrev pub Agrees : ℤ → ℕ → Type 0
Agrees level config1 = (to_u32 level ≡ config1) ⊎ (level ≡ pos 0)

-- the driver is there with its files, powered on
pub record IsLive (s : Driver) : Type 0 where
  pub ctx : Ctx
  pub there : s.gdrvctx ≡ points ctx
  pub powered : ctx.power ≡ 1
  pub agrees : Agrees s.debug_level ctx.config1
  pub files : s.entries ≡ dir ∷ debug_level_file ∷ pgoff_file ∷ drvctx_file ∷ config1_file ∷ []

to_u32-to_int : (n : ℕ) → to_u32 (to_int n) ≡ n % 2 ^ 32
to_u32-to_int n = elim (Bool-cases (ltb (n % 2 ^ 32) (2 ^ 31))) [
  | inl low ↦ rw low (omega arith)
  | inr high ↦ rw high (omega (tests, high))
]

store_debug_level-Live :
    (w : Write) (a : Parsed ℤ) (s : Driver)
    → IsLive s
    → Runs (λ r. IsLive r.1) (store_debug_level w a s)
unfolding store_debug_level
store_debug_level-Live w (fails errno) s h = h
store_debug_level-Live w (parses level) s h = elim (Bool-cases (in_range level)) [
  | inl fine ↦ rw fine (
      rw h.there (record {
        ctx = record h.ctx { config1 = to_u32 level };
        there = refl;
        powered = h.powered;
        agrees = inl refl;
        files = h.files;
      }))
  | inr out ↦ rw out (record {
    ctx = h.ctx;
    there = h.there;
    powered = h.powered;
    agrees = inr refl;
    files = h.files;
  })
]

store_config1-Live :
    (w : Write) (a : Parsed ℕ) (s : Driver)
    → IsLive s
    → Runs (λ r. IsLive r.1) (store_config1 w a s)
unfolding store_config1
store_config1-Live w (fails errno) s h = h
store_config1-Live w (parses v) s h = rw h.there (record {
  ctx = record h.ctx { config1 = v % 2 ^ 32 };
  there = refl;
  powered = h.powered;
  agrees = inl (to_u32-to_int v);
  files = h.files;
})

-- the refusals of a write before it does anything
guards-Runs :
    {A : Type 0} (P : A → Type 0) (b1 b2 b3 : Bool) (r1 r2 r3 m : Option A)
    → Runs P r1
    → Runs P r2
    → Runs P r3
    → Runs P m
    → Runs P (if b1 then r1 else if b2 then r2 else if not b3 then r3 else m)
guards-Runs P true b2 b3 r1 r2 r3 m h1 h2 h3 h = h1
guards-Runs P false true b3 r1 r2 r3 m h1 h2 h3 h = h2
guards-Runs P false false false r1 r2 r3 m h1 h2 h3 h = h3
guards-Runs P false false true r1 r2 r3 m h1 h2 h3 h = h

module _ (kstrtoint : List ℕ → Parsed ℤ) (kstrtoul : List ℕ → Parsed ℕ) where
  unfoldable pub call : Call → Driver → Option (ℤ × Driver)
  call (debug_level_write w) s = write_debug_level kstrtoint w s
  call (config1_write w) s = write_config1 kstrtoul w s

  unfoldable pub calls : List Call → Driver → Option Driver
  calls [] s = some s
  calls (c ∷ later) s = do (ret, s1) ← call c s; calls later s1

  call-Live : (c : Call) (s : Driver) → IsLive s → Runs (λ r. IsLive r.1) (call c s)
  unfolding call write_debug_level write_config1
  call-Live (debug_level_write w) s h =
      guards-Runs (λ r. IsLive r.1) w.interrupted (w.count == 0 || ltb 12 w.count) w.copied
        (some (erestartsys, s)) (some (einval, s)) (some (efault, s)) _ h h h
        (store_debug_level-Live w (kstrtoint (buffer w)) s h)
  call-Live (config1_write w) s h =
      guards-Runs (λ r. IsLive r.1) w.interrupted (w.count == 0 || ltb 8 w.count) w.copied
        (some (erestartsys, s)) (some (einval, s)) (some (efault, s)) _ h h h
        (store_config1-Live w (kstrtoul (buffer w)) s h)

  pub calls-Live : (cs : List Call) (s : Driver) → IsLive s → Runs IsLive (calls cs s)
  unfolding calls
  calls-Live [] s h = h
  calls-Live (c ∷ cs) s h =
      Runs-bind (λ r. IsLive r.1) IsLive (call c s) _ (call-Live c s h)
        λ r live. calls-Live cs r.1 live
