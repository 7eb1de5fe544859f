-- ===== src/Searchers/Text.antt =====
-- Writing a pattern out, and reading it back: the round trip of `compile_pattern`.
use loginhelper.Prelude.{
  ℕ, ◌+◌, ◌≡◌, refl, ap, ◌∙◌, List, [], ◌∷◌, some, ltb, if◌then◌else◌, arith, All,
}
use loginhelper.Searchers.{hexchtoint, compile_pattern}
use loginhelper.Searchers.Compile.{compile_pattern-assemble}
use loginhelper.Searchers.Nibbles.{Nibble, known, wild, IsNibble, classify, nibbles, assemble}

pub to_char : Nibble → ℕ
to_char wild = b'?'
to_char (known n) = if ltb n 10 then n + b'0' else n + 55

-- Two characters to a byte, and a space behind each byte, as the patterns of the program are written.
unfoldable pub to_text : List Nibble → List ℕ
unfolding to_char
to_text [] = []
to_text (h ∷ []) = to_char h ∷ []
to_text (h ∷ l ∷ r) = to_char h ∷ to_char l ∷ b' ' ∷ to_text r

classify-to_char : (n : Nibble) → IsNibble n → classify (to_char n) ≡ some n
unfolding classify to_char hexchtoint
classify-to_char wild h = refl
classify-to_char (known n) h = ground arith

nibbles-to_char :
    (n : Nibble) (cs : List ℕ) → IsNibble n → nibbles (to_char n ∷ cs) ≡ n ∷ nibbles cs
unfolding nibbles
nibbles-to_char n cs h = rw (classify-to_char n h, nibbles)

nibbles_space : (cs : List ℕ) → nibbles (b' ' ∷ cs) ≡ nibbles cs
unfolding nibbles classify hexchtoint
nibbles_space cs = refl

nibbles-to_text : (ns : List Nibble) → All IsNibble ns → nibbles (to_text ns) ≡ ns
unfolding to_text
nibbles-to_text [] i = unfold nibbles in refl
nibbles-to_text (h ∷ []) i = nibbles-to_char h [] i.0 ∙ ap (◌∷◌ h) (unfold nibbles in refl)
nibbles-to_text (h ∷ l ∷ r) i =
    nibbles-to_char h _ i.0
    ∙ ap (◌∷◌ h) (
        nibbles-to_char l _ i.1.0
        ∙ ap (◌∷◌ l) (nibbles_space (to_text r) ∙ nibbles-to_text r i.1.1))

-- The text of a sequence of hexadecimal digits and wildcards compiles to the sequence's bytes.
pub compile_pattern-to_text :
    (ns : List Nibble) → All IsNibble ns → compile_pattern (to_text ns) ≡ assemble ns
compile_pattern-to_text ns i =
    compile_pattern-assemble (to_text ns) ∙ ap assemble (nibbles-to_text ns i)
