-- ===== src/Pin/Digits.antt =====
-- The loop of `GetPin` that turns six characters into the digits of the PIN.
use loginhelper.Prelude.{
  ℕ, ◌+◌, ◌-◌, ◌*◌, ◌≤◌, ◌<◌, ◌≡◌, refl, List, [], ◌∷◌, length, take, All, arith, ℤ, pos, negsuc,
  sub_ℕ, ok, undefined,
}
use loginhelper.Pin.{char_at, store_pin}
use loginhelper.Std.Decimal.{IsDigit, digits_value}

-- What is stored for a character.
abbrev pub digit_of : ℕ → ℤ
digit_of c = sub_ℕ c b'0'

-- Entries of `pincode` that are decimal digits.
abbrev pub IsCode : ℤ → Type 0
IsCode (pos n) = n < 10
IsCode _ = ⊥

-- Six entries, whatever they are.
abbrev pub IsSix : List ℤ → Type 0
IsSix pincode = length pincode ≡ 6

-- The digits of the first six characters.
abbrev pub digits_of : List ℕ → List ℤ
digits_of [] = []
digits_of (c ∷ cs) = digit_of c ∷ digits_of cs

-- A text of six or more characters replaces the whole PIN by the values of its first six.
pub store_pin_six :
    (text : List ℕ) (pincode : List ℤ)
    → IsSix pincode
    → 6 ≤ length text
    → store_pin 6 0 text pincode ≡ ok (digits_of (take 6 text))
unfolding store_pin char_at
store_pin_six (a ∷ b ∷ c ∷ d ∷ e ∷ f ∷ text) (p0 ∷ p1 ∷ p2 ∷ p3 ∷ p4 ∷ p5 ∷ []) h k = refl
store_pin_six text pincode h k = absurd (omega arith)

-- A text of fewer than five characters is read behind its terminator.
pub store_pin_short :
    (text : List ℕ) (pincode : List ℤ) → length text < 5 → store_pin 6 0 text pincode ≡ undefined
unfolding store_pin char_at
store_pin_short [] pincode h = refl
store_pin_short (a ∷ []) pincode h = refl
store_pin_short (a ∷ b ∷ []) pincode h = refl
store_pin_short (a ∷ b ∷ c ∷ []) pincode h = refl
store_pin_short (a ∷ b ∷ c ∷ d ∷ []) pincode h = refl
store_pin_short (a ∷ b ∷ c ∷ d ∷ e ∷ text) pincode h = absurd (omega arith)

-- A text of five characters or more is read no further than its terminator.
pub store_pin_long :
    (text : List ℕ) (pincode : List ℤ)
    → 5 ≤ length text
    → (codes : List ℤ) × (store_pin 6 0 text pincode ≡ ok codes)
unfolding store_pin char_at
store_pin_long (a ∷ b ∷ c ∷ d ∷ e ∷ []) pincode h = (_, refl)
store_pin_long (a ∷ b ∷ c ∷ d ∷ e ∷ f ∷ text) pincode h = (_, refl)
store_pin_long [] pincode h = absurd (omega arith)
store_pin_long (a ∷ []) pincode h = absurd (omega arith)
store_pin_long (a ∷ b ∷ []) pincode h = absurd (omega arith)
store_pin_long (a ∷ b ∷ c ∷ []) pincode h = absurd (omega arith)
store_pin_long (a ∷ b ∷ c ∷ d ∷ []) pincode h = absurd (omega arith)

digit_of-IsDigit : (c : ℕ) → IsDigit c → digit_of c ≡ pos (c - b'0')
digit_of-IsDigit c h = ground arith

pub digits_of-IsCode : (text : List ℕ) → All IsDigit text → All IsCode (digits_of text)
digits_of-IsCode [] h = tt
digits_of-IsCode (c ∷ cs) h = (rw (digit_of-IsDigit c h.0) (omega arith), digits_of-IsCode cs h.1)

-- The number that the digits of a PIN denote.
abbrev pub code_value : ℕ → List ℤ → ℕ
code_value n [] = n
code_value n (pos d ∷ codes) = code_value (n * 10 + d) codes
code_value n (negsuc d ∷ codes) = code_value (n * 10) codes

pub code_value-digits_of :
    (n : ℕ) (text : List ℕ) → All IsDigit text → code_value n (digits_of text) ≡ digits_value n text
code_value-digits_of n [] h = refl
code_value-digits_of n (c ∷ cs) h =
    rw (digit_of-IsDigit c h.0) (code_value-digits_of (n * 10 + (c - b'0')) cs h.1)

pub take_all : (text : List ℕ) → length text ≡ 6 → take 6 text ≡ text
take_all (a ∷ b ∷ c ∷ d ∷ e ∷ f ∷ []) h = refl
take_all text h = absurd (omega arith)
