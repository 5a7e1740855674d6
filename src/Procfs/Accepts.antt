-- ===== src/Procfs/Accepts.antt =====
-- Which numbers the files of kfsproc/procfs_if.c accept, and when.
use hack.Base.{
  ℕ, List, ◌≡◌, refl, true, false, ◌<◌, ◌==◌, ◌^◌, leb, ◌||◌, none, ◌%◌, arith, ltb, ◌≤◌, some,
  lt→ltb, ◌∙◌, le→leb, subst,
}
use hack.Base.Int.{ℤ, pos, efault}
use hack.Base.Fault.{Runs}
use hack.Procfs.{
  Driver, store_debug_level, Pointer, write_config1, write_debug_level, Write, store_config1,
  context, Parsed, buffer, parses, set_config1, points, show_debug_level, to_u32, show_config1,
  null, error, freed,
}
use hack.Procfs.Levels.{IsLive}

-- a write that gets as far as its text, in a file that takes so many bytes
pub record IsAccepted (w : Write) (size : ℕ) : Type 0 where
  pub undisturbed : w.interrupted ≡ false
  pub sized : (w.count == 0 || ltb size w.count) ≡ false
  pub reached : w.copied ≡ true

write_debug_level-accepted :
    (kstrtoint : List ℕ → Parsed ℤ) (w : Write) (s : Driver)
    → IsAccepted w 12
    → write_debug_level kstrtoint w s ≡ store_debug_level w (kstrtoint (buffer w)) s
unfolding write_debug_level
write_debug_level-accepted kstrtoint w s h = rw h.undisturbed (rw h.sized (rw h.reached refl))

write_config1-accepted :
    (kstrtoul : List ℕ → Parsed ℕ) (w : Write) (s : Driver)
    → IsAccepted w 8
    → write_config1 kstrtoul w s ≡ store_config1 w (kstrtoul (buffer w)) s
unfolding write_config1
write_config1-accepted kstrtoul w s h = rw h.undisturbed (rw h.sized (rw h.reached refl))

wider : (n : ℕ) → (n == 0 || ltb 8 n) ≡ false → (n == 0 || ltb 12 n) ≡ false
wider n h = ground arith

not_leb : (v : ℕ) → 2 < v → leb v 2 ≡ false
not_leb v h = ground arith

unwrapped : (v : ℕ) → v < 2 ^ 31 → v % 2 ^ 32 ≡ v
unwrapped v h = omega arith

no_context : (p : Pointer) (v : ℕ) → context p ≡ none → set_config1 p v ≡ none
no_context null v e = refl
no_context error v e = refl
no_context (points ctx) v e = absurd (subst (Runs (λ _. Unit {0})) e tt)
no_context freed v e = refl

-- Text that reads as a number from 3 to 2^31 - 1 is refused by the file of the level, which sets the level to 0 and leaves
-- the first configuration alone; the file of the first configuration takes it, and shows it as the level too.
pub writes-differ :
    (kstrtoint : List ℕ → Parsed ℤ) (kstrtoul : List ℕ → Parsed ℕ) (w : Write) (s : Driver) (v : ℕ)
    → IsLive s
    → IsAccepted w 8
    → kstrtoint (buffer w) ≡ parses (pos v)
    → kstrtoul (buffer w) ≡ parses v
    → 2 < v
    → v < 2 ^ 31
    → (write_debug_level kstrtoint w s ≡ some (efault, record s { debug_level = pos 0 }))
      × (s' : Driver) × (write_config1 kstrtoul w s ≡ some (pos w.count, s'))
      × (show_debug_level s' ≡ pos v)
      × (show_config1 s' ≡ some v)
unfolding store_debug_level store_config1
writes-differ kstrtoint kstrtoul w s v live h e1 e2 big small =
    let wide : IsAccepted w 12 = record {
      undisturbed = h.undisturbed;
      sized = wider w.count h.sized;
      reached = h.reached;
    } in
    let s' = record s { debug_level = pos v; gdrvctx = points (record live.ctx { config1 = v }) } in
    (
      write_debug_level-accepted kstrtoint w s wide ∙ rw e1 (rw (not_leb v big) refl),
      s',
      write_config1-accepted kstrtoul w s h
          ∙ rw e2 (rw live.there (rw (unwrapped v small) (rw (lt→ltb v (2 ^ 31) small) refl))),
      refl,
      refl,
    )

-- Before the context is there, after the file of the level has been made, and when there is no memory for the context: a
-- write of 0, 1 or 2 to that file follows a pointer that does not point.
pub write_debug_level-early :
    (kstrtoint : List ℕ → Parsed ℤ) (w : Write) (s : Driver) (v : ℕ)
    → context s.gdrvctx ≡ none
    → IsAccepted w 12
    → kstrtoint (buffer w) ≡ parses (pos v)
    → v ≤ 2
    → write_debug_level kstrtoint w s ≡ none
unfolding store_debug_level
write_debug_level-early kstrtoint w s v gone h e le =
    write_debug_level-accepted kstrtoint w s h
    ∙ rw e (rw (le→leb v 2 le) (rw (no_context s.gdrvctx (to_u32 (pos v)) gone) refl))
