-- ===== src/Searchers.antt =====
-- Byte patterns with wildcards, src/loginhelper/searchers.h: the bytes of a pattern, the compiler
-- from its text, and the search. A C string is the list of its characters before the terminator, a
-- `char` its unsigned code, and an iterator of a range its distance from `first`.
pub mod Nibbles
pub mod Compile
pub mod First
pub mod Text
pub mod Spelling
mod Tests
use loginhelper.Prelude.{
  ℕ, suc, ◌+◌, ◌-◌, Bool, true, false, ◌&&◌, ◌||◌, List, [], ◌∷◌, ◌++◌, Option, none, some, bit_and,
  bit_or, bit_xor, leb, ◌==◌, if◌then◌else◌, length, u8, not32, ◌<<<◌,
}

pub record PatternByte : Type 0 where
  pub value : ℕ
  pub mask : ℕ

-- `patternbyte::clear`, also the default constructor.
abbrev pub clear : PatternByte
clear = record { value = 0; mask = 0xff }

unfoldable pub opaque : PatternByte → Bool
opaque b = b.mask == 0xff

-- `operator==` of a pattern byte and a byte.
unfoldable pub byte_eq : PatternByte → ℕ → Bool
byte_eq b x = bit_and x b.mask == bit_and b.value b.mask

-- `none` is the -1 of the source.
unfoldable pub hexchtoint : ℕ → Option ℕ
hexchtoint ch =
    if leb b'0' ch && leb ch b'9'
    then some (ch - b'0')
    else if leb b'A' ch && leb ch b'F'
    then some (ch - b'A' + 10)
    else if leb b'a' ch && leb ch b'f'
    then some (ch - b'a' + 10)
    else none

-- The local variables of `compile_pattern`.
pub record Compiler : Type 0 where
  pub b : PatternByte
  pub shift : ℕ
  pub compiled_pattern : List PatternByte

-- The byte with the character's nibble put in; `none` is the `continue`.
unfoldable pub put_nibble : ℕ → ℕ → PatternByte → Option PatternByte
put_nibble c shift b =
    if c == b'?' || c == b'.'
    then some (record b { mask = u8 (bit_and b.mask (not32 (0xf <<< shift))) })
    else elim (hexchtoint c) [
      | none ↦ none
      | some num ↦ some (record b { value = u8 (bit_or b.value (bit_and num 0xf <<< shift)) })
    ]

-- The end of the loop's body: a whole byte is pushed, and the shift toggled.
unfoldable pub advance : Compiler → PatternByte → Compiler
advance s b =
    let shift = bit_xor s.shift 4 in
    if s.shift == 0
    then record { b = clear; shift = shift; compiled_pattern = s.compiled_pattern ++ (b ∷ []) }
    else record { b = b; shift = shift; compiled_pattern = s.compiled_pattern }

-- The body of the loop of `compile_pattern`.
unfoldable pub compile_step : Compiler → ℕ → Compiler
compile_step s c = elim (put_nibble c s.shift s.b) [ none ↦ s | some b ↦ advance s b ]

-- The code behind the loop.
unfoldable pub compile_end : Compiler → List PatternByte
compile_end s =
    if s.shift == 0
    then s.compiled_pattern ++ (record s.b { mask = bit_and s.b.mask 0xf } ∷ [])
    else s.compiled_pattern

unfoldable pub compile_loop : Compiler → List ℕ → Compiler
compile_loop s [] = s
compile_loop s (c ∷ cs) = compile_loop (compile_step s c) cs

unfoldable pub compile_pattern : List ℕ → List PatternByte
compile_pattern pattern =
    compile_end (compile_loop (record { b = clear; shift = 4; compiled_pattern = [] }) pattern)

-- Does the pattern match at the front of the range?
unfoldable pub matches_front : List PatternByte → List ℕ → Bool
matches_front [] xs = true
matches_front (p ∷ ps) [] = false
matches_front (p ∷ ps) (x ∷ xs) = byte_eq p x && matches_front ps xs

-- `std::search(first, last, begin(*_cp), end(*_cp))`: the first match, or `last`.
unfoldable pub search_range : List PatternByte → List ℕ → ℕ
search_range ps [] = 0
search_range ps (x ∷ xs) = if matches_front ps (x ∷ xs) then 0 else suc (search_range ps xs)

-- `pattern_searcher::operator()`.
unfoldable pub pattern_searcher : List PatternByte → List ℕ → ℕ × ℕ
pattern_searcher ps [] = (0, 0)
pattern_searcher [] xs = (0, 0)
pattern_searcher ps xs =
    let it = search_range ps xs in
    let last = length xs in if it == last then (last, last) else (it, it + length ps)
