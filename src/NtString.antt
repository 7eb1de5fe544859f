-- ===== src/NtString.antt =====
-- The counted strings of include/ntapi/string.h. A string is its two lengths in bytes, as 16-bit
-- words, and the characters in memory from its buffer on; `char_size` is `sizeof(char_type)`, and
-- `per_word` the characters in a `uintptr_t` of eight bytes.
pub mod Laws
pub mod Access
pub mod Words
mod Tests
use mathlib.Core.List.{reverse}
use loginhelper.Prelude.{
  ℕ, zero, suc, ◌+◌, ◌-◌, ◌*◌, ◌/◌, Bool, true, false, not, ◌&&◌, ◌||◌, List, [], ◌∷◌, Option, none,
  some, ltb, leb, ◌==◌, if◌then◌else◌, length, take, drop, get_elem?, u16, Result, ok, throws,
  undefined, some_or,
}

pub record NtString : Type 0 where
  pub length_field : ℕ
  pub maximum_length : ℕ
  pub buffer : Option (List ℕ)

-- Are two texts the same, character by character?
unfoldable pub same_text : List ℕ → List ℕ → Bool
same_text [] [] = true
same_text [] (y ∷ ys) = false
same_text (x ∷ xs) [] = false
same_text (x ∷ xs) (y ∷ ys) = x == y && same_text xs ys

-- The loop over the characters up to `end()`, where the test fails at the first pair that differs.
unfoldable pub chars_agree : (ℕ → ℕ → Bool) → List ℕ → List ℕ → Bool
chars_agree test [] ys = true
chars_agree test (x ∷ xs) [] = false
chars_agree test (x ∷ xs) (y ∷ ys) = test x y && chars_agree test xs ys

-- The loop of `starts_with`, over the characters of the second string.
unfoldable pub front_agrees : (ℕ → ℕ → Bool) → List ℕ → List ℕ → Bool
front_agrees test xs [] = true
front_agrees test [] (y ∷ ys) = false
front_agrees test (x ∷ xs) (y ∷ ys) = test x y && front_agrees test xs ys

abbrev pub memory_of : Option (List ℕ) → List ℕ
memory_of none = []
memory_of (some memory) = memory

-- The loop over the characters that are left, or the result where the words took all of them.
abbrev pub outcome : (ℕ → ℕ → Bool) → Option (List ℕ × List ℕ) → Bool
outcome test none = true
outcome test (some (xs, ys)) = chars_agree test xs ys

-- The test of `iequals`, over the locale's `tolower`.
abbrev pub same_folded : (ℕ → ℕ) → ℕ → ℕ → Bool
same_folded tolower c1 c2 = c1 == c2 || tolower c1 == tolower c2

module _ (char_size per_word : ℕ) where
  -- `basic_string(const_pointer s)`: a terminated text, or null.
  unfoldable pub from_pointer : Option (List ℕ) → NtString
  from_pointer none = record { length_field = 0; maximum_length = 0; buffer = none }
  from_pointer (some text) =
      let bytes = u16 (length text * char_size) in
      record { length_field = bytes; maximum_length = bytes; buffer = some text }

  -- `basic_string(const_pointer s, size_type count)`.
  unfoldable pub from_count : List ℕ → ℕ → NtString
  from_count memory count =
      let bytes = u16 (count * char_size) in
      record { length_field = bytes; maximum_length = bytes; buffer = some memory }

  unfoldable pub size : NtString → ℕ
  size s = s.length_field / char_size

  unfoldable pub capacity : NtString → ℕ
  capacity s = s.maximum_length / char_size

  -- The characters between `begin()` and `end()`.
  abbrev pub view : NtString → List ℕ
  view s = take (s.length_field / char_size) (memory_of s.buffer)

  -- `at`: an exception past the size, and a read of the memory within it.
  unfoldable pub at : NtString → ℕ → Result ℕ
  unfolding size
  at s p = if leb (size s) p then throws else some_or undefined (get_elem? (memory_of s.buffer) p)

  -- `empty`, as it is written: whether there is a character.
  unfoldable pub is_empty : NtString → Bool
  is_empty s = elim s.buffer [ none ↦ false | some memory ↦ not (s.length_field == 0) ]

  -- The loop over whole words, on what is left of the bytes and of the texts: `some` of the texts at
  -- the first word that differs or at the last bytes, `none` where the bytes end with a word.
  unfoldable pub skip_words : ℕ → ℕ → List ℕ → List ℕ → Option (List ℕ × List ℕ)
  skip_words zero n1 xs ys = some (xs, ys)
  skip_words (suc fuel) n1 xs ys =
      let rest = skip_words fuel (n1 - 8) (drop per_word xs) (drop per_word ys) in
      if ltb n1 8
      then some (xs, ys)
      else if not (same_text (take per_word xs) (take per_word ys))
      then some (xs, ys)
      else if n1 - 8 == 0
      then none
      else rest

  -- `equals` and `iequals`, with the test of two characters in the second loop. The fuel is the number
  -- of bytes.
  unfoldable pub equals_by : (ℕ → ℕ → Bool) → NtString → NtString → Bool
  equals_by test a b =
      if a.length_field == b.length_field
      then outcome test (skip_words a.length_field a.length_field (view a) (view b))
      else false

  unfoldable pub equals : NtString → NtString → Bool
  equals = equals_by (λ c1 c2. c1 == c2)

  unfoldable pub iequals : (ℕ → ℕ) → NtString → NtString → Bool
  iequals tolower = equals_by (same_folded tolower)

  unfoldable pub starts_with : NtString → NtString → Bool
  starts_with a b =
      if ltb a.length_field b.length_field
      then false
      else front_agrees (λ c1 c2. c1 == c2) (view a) (view b)

  unfoldable pub istarts_with : (ℕ → ℕ) → NtString → NtString → Bool
  istarts_with tolower a b =
      if ltb a.length_field b.length_field
      then false
      else front_agrees (same_folded tolower) (view a) (view b)

  unfoldable pub ends_with : NtString → NtString → Bool
  ends_with a b =
      if ltb a.length_field b.length_field
      then false
      else front_agrees (λ c1 c2. c1 == c2) (reverse (view a)) (reverse (view b))
