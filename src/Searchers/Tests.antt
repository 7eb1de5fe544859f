-- ===== src/Searchers/Tests.antt =====
-- Runs of the pattern compiler and the searcher of src/loginhelper/searchers.h, and the theorems
-- at concrete inputs.
use loginhelper.Prelude.{◌↔◌, ◌%◌, ℕ, ◌≡◌, refl, true, List, [], ◌∷◌, none, arith, codes}
use loginhelper.Searchers.{
  PatternByte, opaque, byte_eq, hexchtoint, put_nibble, advance, compile_step, compile_end,
  compile_loop, compile_pattern, matches_front, search_range, pattern_searcher,
}
use loginhelper.Searchers.Compile.{compile_pattern-assemble}
use loginhelper.Searchers.First.{compile_pattern_single}
use loginhelper.Searchers.Nibbles.{known, wild, classify, nibbles, assemble}
use loginhelper.Searchers.Text.{to_text}
use loginhelper.Searchers.Spelling.{disassemble, disassemble-compile_pattern}

abbrev pattern_text : List ℕ
pattern_text = codes "48 8b ?? F."

abbrev code_bytes : List ℕ
code_bytes = 0x90 ∷ 0x48 ∷ 0x48 ∷ 0x8b ∷ 0x01 ∷ 0xf7 ∷ 0xc3 ∷ []

abbrev byte_at : ℕ → ℕ → PatternByte
byte_at value mask = record { value = value; mask = mask }

compiled :
    compile_pattern pattern_text
    ≡ byte_at 0x48 0xff ∷ byte_at 0x8b 0xff ∷ byte_at 0 0 ∷ byte_at 0xf0 0xf0 ∷ []
unfolding compile_pattern compile_loop compile_step compile_end put_nibble advance hexchtoint
compiled = refl

found : pattern_searcher (compile_pattern pattern_text) code_bytes ≡ (2, 6)
unfolding compile_pattern compile_loop compile_step compile_end put_nibble advance hexchtoint
    pattern_searcher search_range matches_front byte_eq
found = refl

missing : pattern_searcher (compile_pattern (codes "CC")) code_bytes ≡ (7, 7)
unfolding compile_pattern compile_loop compile_step compile_end put_nibble advance hexchtoint
    pattern_searcher search_range matches_front byte_eq
missing = refl

opaque_bytes : opaque (byte_at 0x48 0xff) ≡ true
unfolding opaque
opaque_bytes = refl

not_a_digit : hexchtoint b'g' ≡ none
unfolding hexchtoint
not_a_digit = refl

compile_pattern-assemble_example :
    compile_pattern (codes "4? C") ≡ assemble (nibbles (codes "4? C"))
compile_pattern-assemble_example = compile_pattern-assemble (codes "4? C")

disassemble-compile_pattern_example :
    disassemble (compile_pattern (to_text (known 4 ∷ known 8 ∷ wild ∷ known 11 ∷ [])))
    ≡ known 4 ∷ known 8 ∷ wild ∷ known 11 ∷ []
disassemble-compile_pattern_example =
    disassemble-compile_pattern (known 4 ∷ known 8 ∷ wild ∷ known 11 ∷ []) refl (omega arith)

compile_pattern_single_example :
    (matches_front (compile_pattern (codes "F")) (0x30 ∷ []) ≡ true) ↔ (0x30 % 16 ≡ 0)
unfolding classify hexchtoint
compile_pattern_single_example = compile_pattern_single b'F' {n = known 15} 0x30 refl (omega arith)
