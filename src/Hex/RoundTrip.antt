-- ===== src/Hex/RoundTrip.antt =====
-- What the two conversions of hex/hex.c give, one after the other.
use hack.Base.{
  ℕ, List, length, ◌<◌, ◌∷◌, [], ◌++◌, ◌≡◌, ◌/◌, ◌*◌, drop, false, some, ◌%◌, ◌+◌, ◌==◌, arith,
  refl, replicate, ◌>>=◌, suc, ◌||◌, zero, ap, length-append, sym, append_assoc, ◌∙◌, AllBytes,
}
use hack.Base.Fault.{bind_some, bind_assoc}
use hack.Hex.{
  bin2hex, sscanf_2x, is_space, hex_value, hex2bin, strlen, hex_char, store, hex2bin_loop,
  bin2hex_loop, overlay, scan_signed, scan_number, starts_x, skip_spaces, sprintf_02X,
}

-- two digits for each byte
abbrev pub digits : List ℕ → List ℕ
digits [] = []
digits (b ∷ bytes) = hex_char (b / 16) ∷ hex_char (b % 16) ∷ digits bytes

hex_value-hex_char : (d : ℕ) → d < 16 → hex_value (hex_char d) ≡ some d
unfolding hex_value hex_char
hex_value-hex_char d h = ground arith

-- no digit is a space, a sign or the letter of a prefix
hex_char-plain :
    (d : ℕ)
    → d < 16
    → (is_space (hex_char d) ≡ false)
      × ((hex_char d == b'-') ≡ false)
      × ((hex_char d == b'+') ≡ false)
      × ((hex_char d == b'x' || hex_char d == b'X') ≡ false)
      × ((hex_char d == 0) ≡ false)
unfolding is_space hex_char
hex_char-plain d h = ground arith

skip_spaces-plain : (c : ℕ) (text : List ℕ) → is_space c ≡ false → skip_spaces (c ∷ text) ≡ c ∷ text
skip_spaces-plain c text h = rw h refl

scan_signed-plain :
    (c : ℕ) (text : List ℕ)
    → (c == b'-') ≡ false
    → (c == b'+') ≡ false
    → starts_x text ≡ false
    → scan_signed (c ∷ text) ≡ scan_number 2 (c ∷ text)
scan_signed-plain c text minus plus prefix = ground arith

scan_number-digits :
    (c d v w : ℕ) (text : List ℕ)
    → hex_value c ≡ some v
    → hex_value d ≡ some w
    → scan_number 2 (c ∷ d ∷ text) ≡ some (16 * v + w)
scan_number-digits c d v w text e f = ground arith

sscanf_2x-number :
    (text : List ℕ) (n v : ℕ) → scan_signed (skip_spaces text) ≡ some v → sscanf_2x text n ≡ v
unfolding sscanf_2x
sscanf_2x-number text n v e = rw e refl

sscanf_2x-digits :
    (b n : ℕ) (text : List ℕ)
    → b < 256
    → sscanf_2x (hex_char (b / 16) ∷ hex_char (b % 16) ∷ text) n ≡ b
sscanf_2x-digits b n text h =
    let hi = hex_char (b / 16) in
    let lo = hex_char (b % 16) in
    let (space, minus, plus, _, _) = hex_char-plain (b / 16) (omega arith) in
    let (_, _, _, prefix, _) = hex_char-plain (b % 16) (omega arith) in
    let e : 16 * (b / 16) + b % 16 ≡ b = omega arith in
    sscanf_2x-number (hi ∷ lo ∷ text) n b (
      ap scan_signed (skip_spaces-plain hi (lo ∷ text) space)
      ∙ scan_signed-plain hi (lo ∷ text) minus plus prefix
      ∙ scan_number-digits hi lo (b / 16) (b % 16) text (hex_value-hex_char (b / 16) (omega arith))
          (hex_value-hex_char (b % 16) (omega arith))
      ∙ ap some e)

drop-behind : (k : ℕ) (done rest : List ℕ) → length done ≡ k → drop k (done ++ rest) ≡ rest
drop-behind zero [] rest e = refl
drop-behind zero (x ∷ done) rest e = absurd (omega (arith, e))
drop-behind (suc k) [] rest e = absurd (omega (arith, e))
drop-behind (suc k) (x ∷ done) rest e = drop-behind k done rest (omega (arith, e))

store-behind :
    (k : ℕ) (bytes done rest : List ℕ)
    → length done ≡ k
    → store k bytes (done ++ rest) ≡ (overlay bytes rest >>= λ r. some (done ++ r))
store-behind zero bytes [] rest e = sym (bind_some (overlay bytes rest))
store-behind zero bytes (x ∷ done) rest e = absurd (omega (arith, e))
store-behind (suc k) bytes [] rest e = absurd (omega (arith, e))
store-behind (suc k) bytes (x ∷ done) rest e =
    rw (store-behind k bytes done rest (omega (arith, e))) (bind_assoc (overlay bytes rest) _ _)

bin2hex_loop-digits :
    (bytes pre out : List ℕ) (i : ℕ)
    → length pre ≡ i
    → length out ≡ 2 * i
    → bin2hex_loop (length bytes) i (pre ++ bytes) (out ++ replicate (2 * length bytes + 1) 0)
      ≡ some (out ++ (digits bytes ++ 0 ∷ []))
bin2hex_loop-digits [] pre out i e f = refl
bin2hex_loop-digits (b ∷ bytes) pre out i e f =
    let n = length bytes in
    let hi = hex_char (b / 16) in
    let lo = hex_char (b % 16) in
    let ih =
      bin2hex_loop-digits bytes (pre ++ b ∷ []) (out ++ hi ∷ lo ∷ []) (i + 1)
        (omega (arith, e, length-append pre (b ∷ [])))
        (omega (arith, f, length-append out (hi ∷ lo ∷ []))) in
    let room : 2 * suc n + 1 ≡ suc (suc (suc (2 * n))) = omega arith in
    let next : 2 * n + 1 ≡ suc (2 * n) = omega arith in
    let ih1 = rw (append_assoc pre (b ∷ []) bytes) at (
      rw (append_assoc out (hi ∷ lo ∷ []) (replicate (2 * n + 1) 0)) at
        (rw (append_assoc out (hi ∷ lo ∷ []) (digits bytes ++ 0 ∷ [])) at ih)) in
    rw room (
      rw (drop-behind i pre (b ∷ bytes) e) (
        rw (store-behind (2 * i) (sprintf_02X b) out (0 ∷ 0 ∷ 0 ∷ replicate (2 * n) 0) f)
          (rw next at ih1)))

hex2bin_loop-digits :
    (bytes pre out : List ℕ) (i n : ℕ)
    → AllBytes bytes
    → length pre ≡ 2 * i
    → length out ≡ i
    → hex2bin_loop
        (length bytes)
        i
        n
        (pre ++ (digits bytes ++ 0 ∷ []))
        (out ++ replicate (length bytes) 0)
      ≡ some (out ++ bytes)
hex2bin_loop-digits [] pre out i n all e f = refl
hex2bin_loop-digits (b ∷ bytes) pre out i n all e f =
    let hi = hex_char (b / 16) in
    let lo = hex_char (b % 16) in
    let ih =
      hex2bin_loop-digits bytes (pre ++ hi ∷ lo ∷ []) (out ++ b ∷ []) (i + 1) b all.1
        (omega (arith, e, length-append pre (hi ∷ lo ∷ [])))
        (omega (arith, f, length-append out (b ∷ []))) in
    let ih1 = rw (append_assoc pre (hi ∷ lo ∷ []) (digits bytes ++ 0 ∷ [])) at (
      rw (append_assoc out (b ∷ []) (replicate (length bytes) 0)) at
        (rw (append_assoc out (b ∷ []) bytes) at ih)) in
    let same : b % 256 ≡ b = omega (arith, all.0) in
    rw (drop-behind (2 * i) pre (hi ∷ lo ∷ (digits bytes ++ 0 ∷ [])) e) (
      rw (sscanf_2x-digits b n (digits bytes ++ 0 ∷ []) all.0)
        (rw same (rw (store-behind i (b ∷ []) out (0 ∷ replicate (length bytes) 0) f) ih1)))

strlen-digits :
    (bytes : List ℕ) → AllBytes bytes → strlen (digits bytes ++ 0 ∷ []) ≡ some (2 * length bytes)
strlen-digits [] all = refl
strlen-digits (b ∷ bytes) all =
    let (_, _, _, _, hi) = hex_char-plain (b / 16) (omega (arith, all.0)) in
    let (_, _, _, _, lo) = hex_char-plain (b % 16) (omega arith) in
    let e : suc (suc (2 * length bytes)) ≡ 2 * suc (length bytes) = omega arith in
    rw hi (rw lo (rw (strlen-digits bytes all.1) (ap some e)))

length-digits : (bytes : List ℕ) → length (digits bytes ++ 0 ∷ []) ≡ 2 * length bytes + 1
length-digits [] = refl
length-digits (b ∷ bytes) = omega (arith, length-digits bytes)

-- Bytes that are written as text and read back are the same bytes. Both conversions stay inside their
-- arrays, and the text has two characters for each byte, and its end.
pub hex2bin-bin2hex :
    (bytes : List ℕ)
    → AllBytes bytes
    → (text : List ℕ) × (bin2hex (length bytes) bytes ≡ some text)
      × (length text ≡ 2 * length bytes + 1)
      × (hex2bin text ≡ some bytes)
unfolding bin2hex hex2bin
hex2bin-bin2hex bytes all =
    let half : 2 * length bytes / 2 ≡ length bytes = omega arith in
    (
      digits bytes ++ 0 ∷ [],
      bin2hex_loop-digits bytes [] [] 0 refl refl,
      length-digits bytes,
      rw (strlen-digits bytes all) (rw half (hex2bin_loop-digits bytes [] [] 0 0 all refl refl)),
    )
