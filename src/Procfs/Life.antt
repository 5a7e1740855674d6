-- ===== src/Procfs/Life.antt =====
-- The module of kfsproc/procfs_if.c from its start to its end.
use hack.Base.{true, ℕ, List, ◌∷◌, [], ◌≡◌, refl, ◌≢◌, false, subst, Bool, sym, ◌∙◌, inr}
use hack.Base.Fault.{Runs, Runs-mono}
use hack.Base.Int.{ℤ, pos, enomem, negsuc}
use hack.Procfs.{
  Driver, Parsed, procfs_if_init, Answers, Pointer, init_rest, points, procfs_if_cleanup, dir,
}
use hack.Procfs.Levels.{Call, loaded, IsLive, calls, calls-Live}

abbrev pub IsAllocated : Pointer → Type 0
IsAllocated (points ctx) = Unit
IsAllocated p = ⊥

-- nothing is left behind
pub record IsClean (s : Driver) : Type 0 where
  pub no_entry : s.entries ≡ []
  pub no_memory : IsAllocated s.gdrvctx → ⊥

abbrev IsNeg : ℤ → Type 0
IsNeg (pos n) = ⊥
IsNeg (negsuc n) = Unit

-- How a start can end: with the driver there; with an error, and nothing left; or with an error, and the directory
-- left.
pub data Outcome (a : Answers) (stat : ℤ) (s : Driver) : Type 0 where
  starts : stat ≡ pos 0 → IsLive s → Outcome a stat s
  fails_clean : stat ≢ pos 0 → IsClean s → Outcome a stat s
  leaves_dir : a.create1 ≡ false → stat ≡ enomem → s.entries ≡ dir ∷ [] → Outcome a stat s

abbrev answers : Bool → Bool → Bool → Bool → Bool → Bool → Bool → Answers
answers enabled mkdir create1 create2 kzalloc create3 create4 = record {
  enabled = enabled;
  mkdir = mkdir;
  create1 = create1;
  create2 = create2;
  kzalloc = kzalloc;
  create3 = create3;
  create4 = create4;
}

abbrev HasOutcome : Answers → Type 0
HasOutcome a = Outcome a (procfs_if_init a loaded).0 (procfs_if_init a loaded).1

clean_outcome : (a : Answers) (n : ℕ) (s : Driver) → IsClean s → Outcome a (negsuc n) s
clean_outcome a n s h = fails_clean (λ e. subst (λ i. IsNeg i) e tt) h

empty : (s : Driver) → s.entries ≡ [] → (IsAllocated s.gdrvctx → ⊥) → IsClean s
empty s e h = record { no_entry = e; no_memory = h }

each_outcome : (b1 b2 b3 b4 b5 b6 b7 : Bool) → HasOutcome (answers b1 b2 b3 b4 b5 b6 b7)
unfolding procfs_if_init init_rest
each_outcome false b2 b3 b4 b5 b6 b7 = clean_outcome _ 21 _ (empty _ refl λ h. h)
each_outcome true false b3 b4 b5 b6 b7 = clean_outcome _ 11 _ (empty _ refl λ h. h)
each_outcome true true false b4 b5 b6 b7 = leaves_dir refl refl refl
each_outcome true true true false b5 b6 b7 = clean_outcome _ 11 _ (empty _ refl λ h. h)
each_outcome true true true true false b6 b7 = clean_outcome _ 11 _ (empty _ refl λ h. h)
each_outcome true true true true true false b7 = clean_outcome _ 11 _ (empty _ refl λ h. h)
each_outcome true true true true true true false = clean_outcome _ 11 _ (empty _ refl λ h. h)
each_outcome true true true true true true true = starts refl (record {
  ctx = record {
    power = 1;
    config1 = 0;
    config2 = 0x48524A5F;
    config3 = 0x424C0A52;
    oursecret = b'A' ∷ b'h' ∷ b'A' ∷ b' ' ∷ b'x' ∷ b'x' ∷ b'x' ∷ [];
  };
  there = refl;
  powered = refl;
  agrees = inr refl;
  files = refl;
})

-- Whatever the kernel answers, the start succeeds with the driver live and its four files there, or fails and leaves
-- nothing behind, except that it leaves the directory when the first file cannot be made.
pub procfs_if_init-Outcome :
    (a : Answers) → Outcome a (procfs_if_init a loaded).0 (procfs_if_init a loaded).1
procfs_if_init-Outcome a =
    each_outcome a.enabled a.mkdir a.create1 a.create2 a.kzalloc a.create3 a.create4

started_Live : (a : Answers) (stat : ℤ) (s : Driver) → Outcome a stat s → stat ≡ pos 0 → IsLive s
started_Live a stat s (starts e h) z = h
started_Live a stat s (fails_clean ne h) z = absurd (ne z)
started_Live a stat s (leaves_dir e1 e2 e3) z = absurd (subst IsNeg (sym e2 ∙ z) tt)

procfs_if_cleanup-Clean : (s : Driver) → IsLive s → Runs IsClean (procfs_if_cleanup s)
unfolding procfs_if_cleanup
procfs_if_cleanup-Clean s h = rw h.there (record { no_entry = refl; no_memory = λ x. x })

module _ (kstrtoint : List ℕ → Parsed ℤ) (kstrtoul : List ℕ → Parsed ℕ) where
  -- After a start that succeeds, any number of writes to the files, in any order and whatever they bring, run to their
  -- end, and leave the driver on, with its files and with a level that is the first configuration or 0;
  -- and the module can then be removed, which leaves no file and no memory.
  pub lifetime :
      (a : Answers) (s : Driver) (cs : List Call)
      → procfs_if_init a loaded ≡ (pos 0, s)
      → Runs (λ s'. IsLive s' × Runs IsClean (procfs_if_cleanup s')) (calls kstrtoint kstrtoul cs s)
  lifetime a s cs e =
      let live : IsLive s =
        started_Live a (pos 0) s
          (subst (λ (r : ℤ × Driver). Outcome a r.0 r.1) e (procfs_if_init-Outcome a)) refl in
      Runs-mono IsLive _ _ (calls-Live kstrtoint kstrtoul cs s live)
        λ s' h. (h, procfs_if_cleanup-Clean s' h)
