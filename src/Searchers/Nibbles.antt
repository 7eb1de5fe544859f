-- ===== src/Searchers/Nibbles.antt =====
-- What the text of a pattern means: its hexadecimal digits and wildcards in order, two to a byte.
use loginhelper.Prelude.{
  ℕ, ◌+◌, ◌*◌, ◌<◌, ◌≡◌, ◌||◌, List, [], ◌∷◌, Option, none, some, ◌==◌, if◌then◌else◌,
}
use loginhelper.Searchers.{PatternByte, hexchtoint}

pub data Nibble : Type 0 where
  known : ℕ → Nibble
  wild : Nibble

abbrev pub IsNibble : Nibble → Type 0
IsNibble (known n) = n < 16
IsNibble wild = Unit {0}

-- What a character stands for; `none` for one that is skipped.
unfoldable pub classify : ℕ → Option Nibble
classify c =
    if c == b'?' || c == b'.'
    then some wild
    else elim (hexchtoint c) [ none ↦ none | some n ↦ some (known n) ]

unfoldable pub nibbles : List ℕ → List Nibble
nibbles [] = []
nibbles (c ∷ cs) = let rest = nibbles cs in elim (classify c) [ none ↦ rest | some n ↦ n ∷ rest ]

abbrev pub value_of : Nibble → ℕ
value_of (known n) = n
value_of wild = 0

abbrev pub mask_of : Nibble → ℕ
mask_of (known n) = 15
mask_of wild = 0

-- The byte of two nibbles, high one first.
unfoldable pub whole : Nibble → Nibble → PatternByte
whole h l = record { value = value_of h * 16 + value_of l; mask = mask_of h * 16 + mask_of l }

-- What a last nibble with no partner becomes.
unfoldable pub half : Nibble → PatternByte
half h = record { value = value_of h * 16; mask = 15 }

unfoldable pub assemble : List Nibble → List PatternByte
assemble [] = []
assemble (h ∷ []) = half h ∷ []
assemble (h ∷ l ∷ r) = whole h l ∷ assemble r

-- A nibble of a byte satisfies a nibble of a pattern.
abbrev pub Fits : Nibble → ℕ → Type 0
Fits (known n) x = x ≡ n
Fits wild x = Unit {0}
