-- ===== src/Std/Decimal.antt =====
-- What "%06d" prints: six digits whose value is the number.
use loginhelper.Prelude.{
  ℕ, zero, suc, ◌+◌, ◌-◌, ◌*◌, ◌/◌, ◌%◌, ◌≤◌, ◌<◌, ◌≡◌, refl, List, [], ◌∷◌, ◌++◌, length, All,
  arith, length-append,
}
use loginhelper.Std.{decimal}

-- The number that a text of decimal digits denotes.
abbrev pub digits_value : ℕ → List ℕ → ℕ
digits_value n [] = n
digits_value n (c ∷ cs) = digits_value (n * 10 + (c - b'0')) cs

abbrev pub IsDigit : ℕ → Type 0
IsDigit c = (b'0' ≤ c) × (c ≤ b'9')

-- All are digits, in two parts.
digits-append : (high low : List ℕ) → All IsDigit high → All IsDigit low → All IsDigit (high ++ low)
digits-append [] low h l = l
digits-append (c ∷ high) low h l = (h.0, digits-append high low h.1 l)

pub length-decimal : (n p : ℕ) → length (decimal n p) ≡ n
unfolding decimal
length-decimal zero p = refl
length-decimal (suc n) p =
    omega
      (arith, length-append (decimal n (p / 10)) ((p % 10 + 48) ∷ []), length-decimal n (p / 10))

pub decimal-IsDigit : (n p : ℕ) → All IsDigit (decimal n p)
unfolding decimal
decimal-IsDigit zero p = tt
decimal-IsDigit (suc n) p =
    digits-append (decimal n (p / 10)) _ (decimal-IsDigit n (p / 10)) (omega arith)

pub decimal_value : (p : ℕ) → p < 1000000 → digits_value 0 (decimal 6 p) ≡ p
unfolding decimal
decimal_value p h = omega arith
