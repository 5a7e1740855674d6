-- ===== src/Hex.antt =====
-- The conversions of hex/hex.c between bytes and text, with `%02X` of sprintf and `%2x` of sscanf of the C library.
-- `none` is an access outside an array, or a string without an end.
pub mod RoundTrip
mod Tests
use hack.Base.{
  List, Option, ℕ, ◌>>=◌, replicate, ◌/◌, ◌∷◌, none, suc, some, Bool, if◌then◌else◌, zero, [], drop,
  ◌%◌, false, ◌*◌, ◌==◌, ltb, ◌^◌, ◌||◌, ◌&&◌, ◌+◌, ◌-◌,
}

-- `%X` of one digit
unfoldable pub hex_char : ℕ → ℕ
hex_char d = if ltb d 10 then 48 + d else 55 + d

unfoldable pub hex_value : ℕ → Option ℕ
hex_value c =
    if ltb 47 c && ltb c 58
    then some (c - 48)
    else if ltb 64 c && ltb c 71
    then some (c - 55)
    else if ltb 96 c && ltb c 103
    then some (c - 87)
    else none

unfoldable pub is_space : ℕ → Bool
is_space c = c == 32 || (ltb 8 c && ltb c 14)

abbrev pub at_digit : Option ℕ → ℕ → (ℕ → ℕ) → ℕ
at_digit none value next_digit = value
at_digit (some d) value next_digit = next_digit d

-- the digits of a number up to a width
abbrev pub scan_digits : ℕ → ℕ → List ℕ → ℕ
scan_digits zero value text = value
scan_digits (suc width) value [] = value
scan_digits (suc width) value (c ∷ text) =
    at_digit (hex_value c) value λ d. scan_digits width (16 * value + d) text

-- a number has at least one digit
abbrev pub scan_number : ℕ → List ℕ → Option ℕ
scan_number width [] = none
scan_number width (c ∷ text) = do d ← hex_value c; some (scan_digits width 0 (c ∷ text))

abbrev pub starts_x : List ℕ → Bool
starts_x [] = false
starts_x (c ∷ text) = c == b'x' || c == b'X'

-- a sign counts in the width, and the prefix `0x` fills it
abbrev pub scan_signed : List ℕ → Option ℕ
scan_signed [] = none
scan_signed (c ∷ text) =
    let minus = scan_number 1 text in
    if c == b'-'
    then (do v ← minus; some ((2 ^ 32 - v) % 2 ^ 32))
    else if c == b'+'
    then minus
    else if c == b'0' && starts_x text
    then none
    else scan_number 2 (c ∷ text)

abbrev pub skip_spaces : List ℕ → List ℕ
skip_spaces [] = []
skip_spaces (c ∷ text) = let rest = skip_spaces text in if is_space c then rest else c ∷ text

abbrev pub or_kept : Option ℕ → ℕ → ℕ
or_kept none n = n
or_kept (some v) n = v

-- `sscanf` with `%2x`: `n` keeps its value where no number stands
unfoldable pub sscanf_2x : List ℕ → ℕ → ℕ
unfolding hex_value is_space
sscanf_2x text n = or_kept (scan_signed (skip_spaces text)) n

abbrev pub first : List ℕ → Option ℕ
first [] = none
first (c ∷ bytes) = some c

-- a write of some bytes at the beginning of an array, and at an offset
abbrev pub overlay : List ℕ → List ℕ → Option (List ℕ)
overlay [] array = some array
overlay (c ∷ bytes) [] = none
overlay (c ∷ bytes) (x ∷ array) = do rest ← overlay bytes array; some (c ∷ rest)

abbrev pub store : ℕ → List ℕ → List ℕ → Option (List ℕ)
store zero bytes array = overlay bytes array
store (suc i) bytes [] = none
store (suc i) bytes (x ∷ array) = do rest ← store i bytes array; some (x ∷ rest)

-- `sprintf` with `%02X`, of a byte
abbrev pub sprintf_02X : ℕ → List ℕ
sprintf_02X byte = hex_char (byte / 16) ∷ hex_char (byte % 16) ∷ 0 ∷ []

-- the rounds that are left, and the round
abbrev pub bin2hex_loop : ℕ → ℕ → List ℕ → List ℕ → Option (List ℕ)
bin2hex_loop zero i bytearray hexarray = some hexarray
bin2hex_loop (suc rounds) i bytearray hexarray = do
  byte ← first (drop i bytearray)
  written ← store (2 * i) (sprintf_02X byte) hexarray
  bin2hex_loop rounds (i + 1) bytearray written

unfoldable pub bin2hex : ℕ → List ℕ → Option (List ℕ)
bin2hex arrlen bytearray = bin2hex_loop arrlen 0 bytearray (replicate (2 * arrlen + 1) 0)

abbrev pub strlen : List ℕ → Option ℕ
strlen [] = none
strlen (c ∷ text) = let rest = strlen text in if c == 0 then some 0 else do n ← rest; some (suc n)

abbrev pub hex2bin_loop : ℕ → ℕ → ℕ → List ℕ → List ℕ → Option (List ℕ)
hex2bin_loop zero i n hexarray chararray = some chararray
hex2bin_loop (suc rounds) i n hexarray chararray =
    let scanned = sscanf_2x (drop (2 * i) hexarray) n in
    do
      written ← store i (scanned % 256 ∷ []) chararray
      hex2bin_loop rounds (i + 1) scanned hexarray written

unfoldable pub hex2bin : List ℕ → Option (List ℕ)
hex2bin hexarray = do
  hexlen ← strlen hexarray
  let outstrlen = hexlen / 2
  hex2bin_loop outstrlen 0 0 hexarray (replicate outstrlen 0)
