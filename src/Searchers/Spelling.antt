-- ===== src/Searchers/Spelling.antt =====
-- Patterns of whole bytes, nibble by nibble: what a search finds, and a pattern read back from its
-- bytes.
use loginhelper.Prelude.{
  ℕ, ◌+◌, ◌*◌, ◌/◌, ◌%◌, ◌≡◌, refl, ap, ◌∙◌, List, [], ◌∷◌, length, All, ◌==◌, if◌then◌else◌, arith,
}
use loginhelper.Searchers.{PatternByte, compile_pattern}
use loginhelper.Searchers.Nibbles.{
  Nibble, known, wild, IsNibble, Fits, whole, assemble, value_of, mask_of,
}
use loginhelper.Searchers.Text.{to_text, compile_pattern-to_text}

-- The nibbles of data, the high one of each byte first.
abbrev pub halves : List ℕ → List ℕ
halves [] = []
halves (x ∷ xs) = x / 16 ∷ x % 16 ∷ halves xs

-- The front of the data's nibbles is as a sequence of digits and wildcards says, one by one.
abbrev pub Spells : List Nibble → List ℕ → Type 0
Spells [] hs = Unit {0}
Spells (n ∷ ns) [] = ⊥
Spells (n ∷ ns) (h ∷ hs) = Fits n h × Spells ns hs

-- Two nibbles to each byte.
abbrev pub IsWhole : List Nibble → Type 0
IsWhole ns = length ns % 2 ≡ 0

abbrev pub IsSpelled : List Nibble → List ℕ → Type 0
IsSpelled ns xs = Spells ns (halves xs)

-- A nibble of a pattern's byte, from its value and its mask.
abbrev pub nibble_from : ℕ → ℕ → Nibble
nibble_from value mask = if mask == 15 then known value else wild

-- The sequence that a pattern's bytes stand for.
abbrev pub disassemble : List PatternByte → List Nibble
disassemble [] = []
disassemble (b ∷ bs) =
    nibble_from (b.value / 16) (b.mask / 16)
    ∷ nibble_from (b.value % 16) (b.mask % 16)
    ∷ disassemble bs

nibbles_from :
    (h l : Nibble)
    → IsNibble h
    → IsNibble l
    → (nibble_from ((value_of h * 16 + value_of l) / 16) ((mask_of h * 16 + mask_of l) / 16) ≡ h)
      × (nibble_from ((value_of h * 16 + value_of l) % 16) ((mask_of h * 16 + mask_of l) % 16) ≡ l)
nibbles_from wild wild hh hl = (refl, refl)
nibbles_from wild (known n) hh hl = (refl, ap known (omega arith))
nibbles_from (known m) wild hh hl = (ap known (omega arith), refl)
nibbles_from (known m) (known n) hh hl = (ap known (omega arith), ap known (omega arith))

disassemble-assemble :
    (ns : List Nibble) → IsWhole ns → All IsNibble ns → disassemble (assemble ns) ≡ ns
unfolding assemble whole
disassemble-assemble [] even i = refl
disassemble-assemble (h ∷ []) even i = absurd (omega arith)
disassemble-assemble (h ∷ l ∷ ns) even (ih, (il, i)) =
    let (high, low) = nibbles_from h l ih il in
    let rest = disassemble-assemble ns (omega arith) i in rw (high, low, rest) refl

-- The text of an even number of hexadecimal digits and wildcards compiles to bytes whose values and
-- masks give just that sequence back.
pub disassemble-compile_pattern :
    (ns : List Nibble)
    → IsWhole ns
    → All IsNibble ns
    → disassemble (compile_pattern (to_text ns)) ≡ ns
disassemble-compile_pattern ns even i =
    ap disassemble (compile_pattern-to_text ns i) ∙ disassemble-assemble ns even i
