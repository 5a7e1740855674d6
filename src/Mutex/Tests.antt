-- ===== src/Mutex/Tests.antt =====
-- Runs of ksync-mutex/mutexlock_misc.c.
use hack.Base.{List, ◌∷◌, arith, replicate, refl, [], ◌>>=◌, true, some, ◌≡◌}
use hack.Base.Fault.{Runs}
use hack.Mutex.{
  turn, World, write_miscdrv_rdwr, Turn, strscpy, turns, opens, measures, read_secret, writes,
  reads,
}
use hack.Misc.{strlen, strnlen}
use hack.Mutex.Turns.{IsSound, turns-IsSound}

-- the driver with the secret "secret"
abbrev with_secret : World
with_secret = record {
  driver = record {
    tx = 0;
    rx = 0;
    oursecret = b's' ∷ b'e' ∷ b'c' ∷ b'r' ∷ b'e' ∷ b't' ∷ replicate 122 0;
    ga = 0;
    gb = 1;
  };
  readers = [];
  given = [];
}

with_secret-IsSound : IsSound with_secret
unfolding strlen
with_secret-IsSound = record {
  ended = (refl, 6, omega arith, refl);
  paired = omega arith;
  below = tt;
  short = tt;
}

-- a writer comes between the two halves of a read
abbrev interrupted : List Turn
interrupted = opens ∷ measures ∷ writes (b'a' ∷ b'b' ∷ 0 ∷ []) true true ∷ reads 0 128 true ∷ []

turns-IsSound_example : Runs IsSound (turns with_secret interrupted)
turns-IsSound_example = turns-IsSound with_secret interrupted with_secret-IsSound

-- The reader gets the new secret with the rest of the old one behind its end.
turns-torn :
    (turns with_secret interrupted >>= λ w. some w.given)
    ≡ some ((b'a' ∷ b'b' ∷ 0 ∷ b'r' ∷ b'e' ∷ b't' ∷ []) ∷ [])
unfolding turn write_miscdrv_rdwr strscpy strnlen strlen read_secret
turns-torn = refl
