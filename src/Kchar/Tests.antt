-- ===== src/Kchar/Tests.antt =====
-- Runs of kchar-dev/char_dev_driver.c.
use hack.Base.{ℕ, List, arith, ◌≡◌, length, replicate, refl, ◌∷◌, some, [], take, ◌^◌}
use hack.Base.Int.{pos}
use hack.Kchar.{decimal, message, Device, device_open, buf_len, ebusy, device_release}
use hack.Kchar.Decimal.{IsNumeral}
use hack.Kchar.Messages.{announces, read_all, device_open-read_all}

-- the driver after it is loaded
abbrev loaded : Device
loaded = record { device_open_counter = 0; counter = 0; msg = replicate buf_len 0; ptr = 0 }

device_open-read_all_example :
    (d1 : Device) × (digits : List ℕ) × (device_open loaded ≡ some (pos 0, d1))
    × (d1.counter ≡ 1)
    × IsNumeral 0 digits
    × (read_all d1 (17 ∷ 5 ∷ []) ≡ some (take 22 (announces digits)))
    × (device_open d1 ≡ some (ebusy, d1))
    × ((device_release d1).1.device_open_counter ≡ 0)
device_open-read_all_example = device_open-read_all loaded (17 ∷ 5 ∷ []) refl (omega arith) refl

message_12 : length (message 12) ≡ 41
unfolding message decimal
message_12 = refl

decimal_120 : decimal 10 120 ≡ b'1' ∷ b'2' ∷ b'0' ∷ []
unfolding decimal
decimal_120 = refl

-- past the largest `int` the number is printed as it has wrapped around
message_wrapped : length (message (2 ^ 31)) ≡ 50
unfolding message decimal
message_wrapped = refl
