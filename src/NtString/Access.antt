-- ===== src/NtString/Access.antt =====
-- The element access, the capacities and the iterators of include/ntapi/string.h. A pointer into a
-- string is its distance in bytes from the buffer.
use native.Mathlib.Nat.{mul-add, mul-div_cancel_left}
use loginhelper.Prelude.{
  ℕ, zero, suc, ◌+◌, ◌-◌, ◌*◌, ◌/◌, ◌≤◌, ◌<◌, ◌≡◌, refl, ap, ◌∙◌, ◌⊎◌, inl, inr, Bool, false, List,
  [], ◌∷◌, Option, some, ltb, leb, if◌then◌else◌, Bool-cases, length, take, get_elem?,
  get_elem?-below, arith, u16, Result, ok, throws, undefined, some_or,
}
use loginhelper.NtString.{NtString, memory_of, size, at, equals}
use loginhelper.NtString.Laws.{IsString, text, char_size-pos}

module _ (char_size per_word : ℕ) where
  abbrev pub size_bytes : NtString → ℕ
  size_bytes s = s.length_field

  abbrev pub length_bytes : NtString → ℕ
  length_bytes s = s.length_field

  abbrev pub capacity_bytes : NtString → ℕ
  capacity_bytes s = s.maximum_length

  abbrev pub string_length : NtString → ℕ
  string_length s = length_bytes s / char_size

  -- `data`.
  abbrev pub string_data : NtString → Option (List ℕ)
  string_data s = s.buffer

  -- `operator[]`, which does not look at the size.
  unfoldable pub element : NtString → ℕ → Result ℕ
  element s p = some_or undefined (get_elem? (memory_of s.buffer) p)

  unfoldable pub front : NtString → Result ℕ
  front s = element s 0

  -- `size() - 1` is an `int`, which the call converts to 16 bits.
  unfoldable pub back : NtString → Result ℕ
  back s = element s (u16 (size char_size per_word s + 65535))

  -- `copy` and `substr` leave their bodies without a result.
  abbrev pub copy : NtString → ℕ → ℕ → Result (List ℕ × ℕ)
  copy s count p = undefined

  abbrev pub substr : NtString → ℕ → ℕ → Result NtString
  substr s p count = undefined

  abbrev pub begin : NtString → ℕ
  begin s = 0

  abbrev pub cbegin : NtString → ℕ
  cbegin s = 0

  unfoldable pub end : NtString → ℕ
  end s = size_bytes s

  unfoldable pub cend : NtString → ℕ
  cend s = size_bytes s

  abbrev pub rbegin : NtString → ℕ
  rbegin s = end s

  abbrev pub crbegin : NtString → ℕ
  crbegin s = cend s

  abbrev pub rend : NtString → ℕ
  rend s = begin s

  abbrev pub crend : NtString → ℕ
  crend s = cbegin s

  -- The conversion to the structure of the system, of which a string adds no field.
  abbrev pub as_base : NtString → NtString
  as_base s = s

  -- `operator==` and the conversion to a view, of its memory and size.
  abbrev pub same : NtString → NtString → Bool
  same s rhs = equals char_size per_word s rhs

  abbrev pub to_string_view : NtString → Option (List ℕ) × ℕ
  to_string_view s = (string_data s, size char_size per_word s)

  -- The character at a pointer, and the one at a reverse iterator, which stands behind it.
  unfoldable pub deref : NtString → ℕ → Result ℕ
  deref s pointer = element s (pointer / char_size)

  unfoldable pub reverse_deref : NtString → ℕ → Result ℕ
  reverse_deref s pointer =
      if ltb pointer char_size then undefined else deref s (pointer - char_size)

get_elem?-take :
    (n i : ℕ) (xs : List ℕ) → i < length (take n xs) → get_elem? xs i ≡ get_elem? (take n xs) i
get_elem?-take zero i xs h = absurd (omega arith)
get_elem?-take (suc n) i [] h = refl
get_elem?-take (suc n) zero (x ∷ xs) h = refl
get_elem?-take (suc n) (suc i) (x ∷ xs) h = get_elem?-take n i xs (omega arith)

at_least : (k n : ℕ) → 0 < k → n ≤ k * n
at_least zero n pos = absurd (omega arith)
at_least (suc k) n pos = omega arith

behind : (k i : ℕ) → (ltb (k * suc i) k ≡ false) × (k * suc i - k ≡ k * i)
behind k i = (ground arith, omega arith)

-- So many steps back from the other end.
step_back : (k n i : ℕ) → i < n → k * n - k * (n - suc i) ≡ k * suc i
step_back k n i inside =
    let whole : n ≡ suc i + (n - suc i) = omega arith in
    let split : k * n ≡ k * suc i + k * (n - suc i) =
      ap (λ (t : ℕ). k * t) whole ∙ mul-add k (suc i) (n - suc i) in
    omega (arith, split)

before : {size count : ℕ} → size ≡ count → size < 65536 → 0 < count → u16 (size + 65535) ≡ count - 1
before same bound filled = omega arith

module _ (char_size per_word : ℕ) (word : char_size * per_word ≡ 8) where
  size-text :
      (s : NtString)
      → IsString char_size per_word word s
      → size char_size per_word s ≡ length (text char_size per_word word s)
  unfolding size
  size-text s h =
      ap (λ (t : ℕ). t / char_size) h
      ∙ mul-div_cancel_left _ (char_size-pos char_size per_word word)

  -- A character of the text is where `operator[]` reads.
  element-text :
      (s : NtString) (i : ℕ)
      → i < length (text char_size per_word word s)
      → (c : ℕ) × (get_elem? (text char_size per_word word s) i ≡ some c)
        × (element char_size per_word s i ≡ ok c)
  unfolding element
  element-text s i h =
      let (c, found) = get_elem?-below (text char_size per_word word s) i h in
      (
        c,
        found,
        ap (some_or undefined)
            (get_elem?-take (s.length_field / char_size) i (memory_of s.buffer) h ∙ found),
      )

  -- `at` never reads out of bounds of a string whose length field counts the bytes of characters that
  -- are in memory, where a word of eight bytes holds whole ones: it throws at every position from the
  -- size on, and gives the character of the text at any other.
  pub at_cases :
      (s : NtString) (p : ℕ)
      → IsString char_size per_word word s
      → ((length (text char_size per_word word s) ≤ p) × (at char_size per_word s p ≡ throws))
        ⊎ ((c : ℕ) × (get_elem? (text char_size per_word word s) p ≡ some c)
            × (at char_size per_word s p ≡ ok c))
  unfolding at
  at_cases s p h = elim (Bool-cases (leb (size char_size per_word s) p)) [
    | inl past ↦ inl (ground (arith, size-text s h), rw past refl)
    | inr inside ↦
        let (c, found, read) = element-text s p (ground (arith, size-text s h)) in
        inr (c, found, rw inside (unfold element in read))
  ]

  -- On a string that has a character and whose length field is 16 bits wide and counts the bytes of
  -- characters that are in memory, where a word of eight bytes holds whole ones, `front` and `back`
  -- give the first and the last character of the text.
  pub front-back :
      (s : NtString)
      → IsString char_size per_word word s
      → s.length_field < 65536
      → 0 < length (text char_size per_word word s)
      → (first : ℕ) × (last : ℕ) × (front char_size per_word s ≡ ok first)
        × (get_elem? (text char_size per_word word s) 0 ≡ some first)
        × (back char_size per_word s ≡ ok last)
        × (get_elem? (text char_size per_word word s) (length (text char_size per_word word s) - 1)
            ≡ some last)
  unfolding front back
  front-back s h bound filled =
      let (first, head, read_head) = element-text s 0 filled in
      let (last, tail, read_tail) =
        element-text s (length (text char_size per_word word s) - 1) (omega arith) in
      let short : size char_size per_word s ≤ s.length_field =
        omega
          (arith, size-text s h, h, at_least char_size _ (char_size-pos char_size per_word word)) in
      let place : u16 (size char_size per_word s + 65535)
          ≡ length (text char_size per_word word s) - 1 =
        before (size-text s h) (omega arith) filled in
      (first, last, read_head, head, ap (element char_size per_word s) place ∙ read_tail, tail)

  -- Of every position in a text, on a string whose length field counts the bytes of characters that
  -- are in memory, where a word of eight bytes holds whole ones: the iterator that many steps from
  -- `begin` gives its character, and so does the reverse iterator that takes the remaining steps from
  -- `rbegin`; after as many steps as the text is long they are at `end` and at `rend`.
  pub iterators-text :
      (s : NtString) (i : ℕ)
      → IsString char_size per_word word s
      → i < length (text char_size per_word word s)
      → (c : ℕ) × (get_elem? (text char_size per_word word s) i ≡ some c)
        × (deref char_size per_word s (begin char_size per_word s + char_size * i) ≡ ok c)
        × (reverse_deref char_size per_word s (
              rbegin char_size per_word s
              - char_size * (length (text char_size per_word word s) - suc i))
            ≡ ok c)
        × (begin char_size per_word s + char_size * length (text char_size per_word word s)
            ≡ end char_size per_word s)
        × (rbegin char_size per_word s - char_size * length (text char_size per_word word s)
            ≡ rend char_size per_word s)
  unfolding deref end
  iterators-text s i h inside =
      let (c, found, read) = element-text s i inside in
      (
        c,
        found,
        deref-element (0 + char_size * i) (omega arith) ∙ read,
        back_from (s.length_field - char_size * (length (text char_size per_word word s) - suc i)) (
              ap (λ (t : ℕ). t - char_size * (length (text char_size per_word word s) - suc i)) h
              ∙ step_back char_size _ i inside)
            ∙ read,
        omega (arith, h),
        omega (arith, h),
      )
    where
      deref-element :
          (pointer : ℕ)
          → pointer ≡ char_size * i
          → deref char_size per_word s pointer ≡ element char_size per_word s i
      deref-element pointer e =
          unfold deref in
          ap (λ (t : ℕ). element char_size per_word s (t / char_size)) e
          ∙ ap (element char_size per_word s)
              (mul-div_cancel_left i (char_size-pos char_size per_word word))

      back_from :
          (pointer : ℕ)
          → pointer ≡ char_size * suc i
          → reverse_deref char_size per_word s pointer ≡ element char_size per_word s i
      back_from pointer e =
          unfold reverse_deref in
          rw (e, (behind char_size i).0)
            (deref-element (char_size * suc i - char_size) (behind char_size i).1)
