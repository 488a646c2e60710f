-- ===== src/Text/Digits.antt =====
-- Numbers in decimal and in hexadecimal.
use hprof_slurp.Prelude.{
  ℕ, zero, suc, ◌+◌, ◌-◌, ◌*◌, ◌/◌, ◌%◌, [], ◌∷◌, ltb, if◌then◌else◌, ℤ, pos, negsuc, ◌≡◌, ◌<◌, ◌≤◌,
  arith,
}
use hprof_slurp.Nom.{Bytes}

abbrev pub digit : ℕ → ℕ
digit d = if ltb d 10 then 48 + d else 87 + d

-- The digits of `n` in front of `later`; more fuel than `n` is enough.
digits : (base fuel n : ℕ) → Bytes → Bytes
digits base zero n later = later
digits base (suc fuel) n later =
    let more = digits base fuel (n / base) (digit (n % base) ∷ later) in
    if ltb n base then digit n ∷ later else more

unfoldable pub decimal : ℕ → Bytes
unfolding digits
decimal n = digits 10 (suc n) n []

pub decimal-one_digit : (n : ℕ) → n < 10 → decimal n ≡ (48 + n) ∷ []
unfolding decimal digits
decimal-one_digit n h = ground arith

pub decimal-two_digits : (n : ℕ) → 10 ≤ n → n < 100 → decimal n ≡ (48 + n / 10) ∷ (48 + n % 10) ∷ []
unfolding decimal digits
decimal-two_digits zero l h = absurd (omega arith)
decimal-two_digits (suc n) l h = ground arith

abbrev pub signed_decimal : ℤ → Bytes
signed_decimal (pos n) = decimal n
signed_decimal (negsuc n) = 45 ∷ decimal (suc n)

unfoldable pub hex : ℕ → Bytes
unfolding digits
hex n = digits 16 (suc n) n []

-- The number that decimal digits stand for, behind a number that was read before.
abbrev pub read_from : ℕ → Bytes → ℕ
read_from acc [] = acc
read_from acc (d ∷ ds) = read_from (acc * 10 + (d - 48)) ds
