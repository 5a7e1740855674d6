-- ===== src/Base/Text.antt =====
-- The text of a C string.
use Prim.Native.Nat.{ℕ}
use mathlib.Core.Option.{Option, none, some}
use mathlib.Core.List.{List, [], ◌∷◌}
use hack.Base.Fault.{◌>>=◌}
use hack.Base.Tests.{if◌then◌else◌, ◌==◌}

-- the characters of an array up to its end, which may not be there
unfoldable pub text_of : List ℕ → Option (List ℕ)
text_of [] = none
text_of (c ∷ buff) =
    let rest = text_of buff in if c == 0 then some [] else do text ← rest; some (c ∷ text)
