-- ===== src/Kchar/Decimal.antt =====
-- The numbers in the messages of kchar-dev/char_dev_driver.c, as they are printed.
use hack.Base.{
  ℕ, List, ◌∷◌, [], ◌≡◌, ◌≢◌, ◌<◌, ◌≤◌, ◌+◌, ◌-◌, ◌*◌, ◌/◌, ◌%◌, ◌++◌, suc, zero, refl, arith,
  Bool-cases, inl, inr, ltb, tests,
}
use hack.Kchar.{decimal}

-- what digits stand for, behind those of `acc`
abbrev pub value_from : (acc : ℕ) → List ℕ → ℕ
value_from acc [] = acc
value_from acc (c ∷ cs) = value_from (acc * 10 + (c - b'0')) cs

abbrev pub AreDigits : List ℕ → Type 0
AreDigits [] = Unit
AreDigits (c ∷ cs) = (b'0' ≤ c) × (c ≤ b'9') × AreDigits cs

abbrev pub Leads : List ℕ → Type 0
Leads [] = ⊥
Leads (c ∷ cs) = c ≢ b'0'

-- The decimal numeral of a number: digits with its value, and no zero in front of others.
pub record IsNumeral (n : ℕ) (digits : List ℕ) : Type 0 where
  pub are_digits : AreDigits digits
  pub has_value : value_from 0 digits ≡ n
  pub leads : n ≢ 0 → Leads digits
  pub zero_digit : n ≡ 0 → digits ≡ b'0' ∷ []

-- the numbers of so many digits
abbrev limit : ℕ → ℕ
limit zero = 1
limit (suc fuel) = 10 * limit fuel

value_from-append :
    (acc : ℕ) (xs : List ℕ) (c : ℕ)
    → value_from acc (xs ++ c ∷ []) ≡ value_from acc xs * 10 + (c - b'0')
value_from-append acc [] c = refl
value_from-append acc (x ∷ xs) c = value_from-append (acc * 10 + (x - b'0')) xs c

AreDigits-append :
    (xs : List ℕ) (c : ℕ) → AreDigits xs → b'0' ≤ c → c ≤ b'9' → AreDigits (xs ++ c ∷ [])
AreDigits-append [] c h le ge = (le, ge, tt)
AreDigits-append (x ∷ xs) c h le ge = (h.0, h.1, AreDigits-append xs c h.2 le ge)

Leads-append : (xs ys : List ℕ) → Leads xs → Leads (xs ++ ys)
Leads-append [] ys h = absurd h
Leads-append (x ∷ xs) ys h = h

decimal-AreDigits : (fuel n : ℕ) → AreDigits (decimal fuel n)
unfolding decimal
decimal-AreDigits zero n = tt
decimal-AreDigits (suc fuel) n = elim (Bool-cases (ltb n 10)) [
  | inl small ↦ rw small (omega arith, omega (tests, small), tt)
  | inr big ↦ rw big (
      AreDigits-append (decimal fuel (n / 10)) (48 + n % 10) (decimal-AreDigits fuel (n / 10))
        (omega arith) (omega arith))
]

decimal-value : (fuel n : ℕ) → n < limit fuel → value_from 0 (decimal fuel n) ≡ n
unfolding decimal
decimal-value zero n lt = omega arith
decimal-value (suc fuel) n lt = elim (Bool-cases (ltb n 10)) [
  | inl small ↦ rw small (omega arith)
  | inr big ↦ rw big (
      omega (
        arith,
        value_from-append 0 (decimal fuel (n / 10)) (48 + n % 10),
        decimal-value fuel (n / 10) (omega arith),
      ))
]

decimal-Leads : (fuel n : ℕ) → n < limit fuel → n ≢ 0 → Leads (decimal fuel n)
unfolding decimal
decimal-Leads zero n lt ne = absurd (omega arith)
decimal-Leads (suc fuel) n lt ne = elim (Bool-cases (ltb n 10)) [
  | inl small ↦ rw small (omega arith)
  | inr big ↦ rw big (
      Leads-append (decimal fuel (n / 10)) _
        (decimal-Leads fuel (n / 10) (omega arith) (omega (tests, big))))
]

pub decimal-IsNumeral : (n : ℕ) → n < 10000000000 → IsNumeral n (decimal 10 n)
unfolding decimal
decimal-IsNumeral n lt = record {
  are_digits = decimal-AreDigits 10 n;
  has_value = decimal-value 10 n lt;
  leads = decimal-Leads 10 n lt;
  zero_digit = λ e. rw e refl;
}
