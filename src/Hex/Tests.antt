-- ===== src/Hex/Tests.antt =====
-- Runs of hex/hex.c.
use hack.Base.{List, ◌∷◌, ℕ, ◌≡◌, [], none, some, refl, length, arith}
use hack.Hex.{hex2bin, bin2hex, sscanf_2x, hex_char, hex_value, is_space}
use hack.Hex.RoundTrip.{hex2bin-bin2hex}

-- "blah", as in the program's own run
abbrev blah : List ℕ
blah = b'b' ∷ b'l' ∷ b'a' ∷ b'h' ∷ []

hex2bin-bin2hex_example :
    (text : List ℕ) × (bin2hex 4 blah ≡ some text) × (length text ≡ 9) × (hex2bin text ≡ some blah)
hex2bin-bin2hex_example = hex2bin-bin2hex blah (omega arith)

bin2hex-blah :
    bin2hex 4 blah ≡ some (b'6' ∷ b'2' ∷ b'6' ∷ b'C' ∷ b'6' ∷ b'1' ∷ b'6' ∷ b'8' ∷ 0 ∷ [])
unfolding bin2hex hex_char
bin2hex-blah = refl

-- a lower-case digit, then what is no number, which gives the number before
hex2bin-repeats : hex2bin (b'6' ∷ b'c' ∷ b'z' ∷ b'z' ∷ 0 ∷ []) ≡ some (108 ∷ 108 ∷ [])
unfolding hex2bin sscanf_2x hex_value is_space
hex2bin-repeats = refl

hex2bin-endless : hex2bin (b'6' ∷ b'c' ∷ []) ≡ none
unfolding hex2bin
hex2bin-endless = refl
