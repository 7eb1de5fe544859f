-- ===== src/Std.antt =====
-- The parts of the C++ standard library that src/loginhelper calls on numbers and texts:
-- `std::stoi`, `wcstol`, and `sprintf_s` with "%06d".
pub mod Decimal
use loginhelper.Prelude.{
  ℕ, zero, suc, ◌+◌, ◌-◌, ◌*◌, ◌/◌, ◌%◌, ◌^◌, Bool, true, false, ◌&&◌, ◌||◌, List, [], ◌∷◌, ◌++◌,
  Option, none, some, ltb, leb, ◌==◌, if◌then◌else◌, ℤ, pos, negsuc,
}

unfoldable pub is_space : ℕ → Bool
is_space c = c == b' ' || (leb 9 c && leb c 13)

unfoldable pub is_decimal : ℕ → Bool
is_decimal c = leb b'0' c && leb c b'9'

unfoldable pub skip_spaces : List ℕ → List ℕ
unfolding is_space
skip_spaces [] = []
skip_spaces (c ∷ cs) = let rest = skip_spaces cs in if is_space c then rest else c ∷ cs

-- The value of the digits at the front, added to what is read so far.
unfoldable pub read_digits : ℕ → List ℕ → ℕ
unfolding is_decimal
read_digits n [] = n
read_digits n (c ∷ cs) =
    let rest = read_digits (n * 10 + (c - b'0')) cs in if is_decimal c then rest else n

-- The unsigned number at the front; `none` if there is no digit.
unfoldable pub read_number : List ℕ → Option ℕ
unfolding read_digits is_decimal
read_number [] = none
read_number (c ∷ cs) = if is_decimal c then some (read_digits 0 (c ∷ cs)) else none

-- The number with its sign, if it is an `int`.
unfoldable pub as_int : Bool → ℕ → Option ℤ
as_int negative n =
    if negative
    then (if n == 0 then some (pos 0) else if leb n (2 ^ 31) then some (negsuc (n - 1)) else none)
    else (if ltb n (2 ^ 31) then some (pos n) else none)

unfoldable pub signed : List ℕ → Option ℤ
unfolding read_number as_int
signed [] = none
signed (c ∷ cs) =
    if c == b'-'
    then elim (read_number cs) [ none ↦ none | some n ↦ as_int (c == b'-') n ]
    else if c == b'+'
    then elim (read_number cs) [ none ↦ none | some n ↦ as_int (c == b'-') n ]
    else elim (read_number (c ∷ cs)) [ none ↦ none | some n ↦ as_int (c == b'-') n ]

-- `std::stoi`; `none` is an exception, `invalid_argument` or `out_of_range`.
unfoldable pub stoi : List ℕ → Option ℤ
unfolding skip_spaces signed
stoi s = signed (skip_spaces s)

-- The last `n` decimal digits, most significant first.
unfoldable pub decimal : ℕ → ℕ → List ℕ
decimal zero p = []
decimal (suc n) p = decimal n (p / 10) ++ ((p % 10 + b'0') ∷ [])

-- `sprintf_s(buffer, "%06d", p)` into seven characters, of a `uint32_t` that is printed as an `int`;
-- `none` is a text that does not fit.
unfoldable pub sprintf_06d : ℕ → Option (List ℕ)
sprintf_06d p =
    if ltb p 1000000
    then some (decimal 6 p)
    else if leb (2 ^ 32 - 99999) p
    then some (b'-' ∷ decimal 5 (2 ^ 32 - p))
    else none

-- The text behind the digits at the front.
unfoldable pub skip_digits : List ℕ → List ℕ
unfolding is_decimal
skip_digits [] = []
skip_digits (c ∷ cs) = let rest = skip_digits cs in if is_decimal c then rest else c ∷ cs

-- A number of 32 bits with its sign, or the nearest one.
unfoldable pub as_long : Bool → ℕ → ℤ
as_long negative n =
    if negative
    then (if n == 0 then pos 0 else if leb n (2 ^ 31) then negsuc (n - 1) else negsuc (2 ^ 31 - 1))
    else (if ltb n (2 ^ 31) then pos n else pos (2 ^ 31 - 1))

-- The number in `cs` and the text behind it; the whole text `s` where there is no digit.
unfoldable pub long_from : List ℕ → Bool → List ℕ → ℤ × List ℕ
unfolding read_number as_long skip_digits
long_from s negative cs = elim (read_number cs) [
  | none ↦ (pos 0, s)
  | some n ↦ (as_long negative n, skip_digits cs)
]

unfoldable pub long_signed : List ℕ → List ℕ → ℤ × List ℕ
unfolding long_from
long_signed s [] = (pos 0, s)
long_signed s (c ∷ cs) =
    if c == b'-'
    then long_from s true cs
    else if c == b'+'
    then long_from s false cs
    else long_from s false (c ∷ cs)

-- `wcstol` to the base 10, with the text at its end pointer.
unfoldable pub wcstol : List ℕ → ℤ × List ℕ
unfolding skip_spaces long_signed
wcstol s = long_signed s (skip_spaces s)
