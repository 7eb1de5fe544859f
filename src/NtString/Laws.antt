-- ===== src/NtString/Laws.antt =====
-- What the comparisons of include/ntapi/string.h decide, and what its constructors make.
use mathlib.Core.List.{reverse, reverse-append, reverse-reverse}
use native.Mathlib.Nat.{mul_comm, mul-zero, mul-div_cancel_left, mod-eq_of_lt}
use loginhelper.Prelude.{
  ℕ, zero, suc, ◌*◌, ◌/◌, ◌≤◌, ◌<◌, ◌≡◌, refl, ap, ◌∙◌, sym, ◌⊎◌, length-append, ◌≢◌, ◌↔◌, Bool,
  true, false, not, List, [], ◌∷◌, ◌++◌, map, some, ltb, ◌==◌, ==_iff, Bool-cases, inl, inr, length,
  take, arith, u16,
}
use loginhelper.NtString.{
  NtString, chars_agree, front_agrees, from_pointer, view, is_empty, equals_by, equals, same_folded,
  iequals, starts_with, ends_with,
}
use loginhelper.NtString.Words.{skip_words-outcome}

chars_agree-eq :
    (xs ys : List ℕ)
    → length xs ≡ length ys
    → (chars_agree (λ c1 c2. c1 == c2) xs ys ≡ true) ↔ (xs ≡ ys)
unfolding chars_agree
chars_agree-eq [] [] h = ground arith
chars_agree-eq [] (y ∷ ys) h = absurd (omega arith)
chars_agree-eq (x ∷ xs) [] h = absurd (omega arith)
chars_agree-eq (x ∷ xs) (y ∷ ys) h = ground (arith, chars_agree-eq xs ys)

chars_agree-folded :
    (tolower : ℕ → ℕ) (xs ys : List ℕ)
    → length xs ≡ length ys
    → (chars_agree (same_folded tolower) xs ys ≡ true) ↔ (map tolower xs ≡ map tolower ys)
unfolding chars_agree
chars_agree-folded tolower [] [] h = ground arith
chars_agree-folded tolower [] (y ∷ ys) h = absurd (omega arith)
chars_agree-folded tolower (x ∷ xs) [] h = absurd (omega arith)
chars_agree-folded tolower (x ∷ xs) (y ∷ ys) h = ground (arith, chars_agree-folded tolower xs ys)

front_agrees-eq :
    (xs ys : List ℕ)
    → (front_agrees (λ c1 c2. c1 == c2) xs ys ≡ true) ↔ ((rest : List ℕ) × (xs ≡ ys ++ rest))
unfolding front_agrees
front_agrees-eq xs [] = (λ e. (xs, refl), λ e. refl)
front_agrees-eq [] (y ∷ ys) = (λ e. cc, λ e. cc e.1)
front_agrees-eq (x ∷ xs) (y ∷ ys) = (
  λ e. let (rest, split) = (front_agrees-eq xs ys).0 (ground arith) in (rest, ground arith),
  λ e. ground (arith, (front_agrees-eq xs ys).1 (e.0, ground (arith, e.1)), e.1),
)

back : (xs ys rest : List ℕ) → reverse xs ≡ reverse ys ++ rest → xs ≡ reverse rest ++ ys
back xs ys rest e =
    sym (reverse-reverse xs)
    ∙ ap reverse e
    ∙ reverse-append (reverse ys) rest
    ∙ ap (λ (t : List ℕ). reverse rest ++ t) (reverse-reverse ys)

pos_of : (k n : ℕ) → k * n ≡ 8 → 0 < k
pos_of zero n e = absurd (omega arith)
pos_of (suc k) n e = omega arith

cancel : (k m n : ℕ) → 0 < k → k * m ≡ k * n → m ≡ n
cancel k m n pos e =
    sym (mul-div_cancel_left m pos) ∙ ap (λ (t : ℕ). t / k) e ∙ mul-div_cancel_left n pos

map-length : (f : ℕ → ℕ) (xs ys : List ℕ) → map f xs ≡ map f ys → length xs ≡ length ys
map-length f [] [] e = refl
map-length f [] (y ∷ ys) e = cc
map-length f (x ∷ xs) [] e = cc
map-length f (x ∷ xs) (y ∷ ys) e = ap suc (map-length f xs ys (ground arith))

no_text : (k : ℕ) (xs : List ℕ) → 0 < k → k * length xs ≡ 0 → xs ≡ []
no_text k [] pos e = refl
no_text zero (x ∷ xs) pos e = absurd (omega arith)
no_text (suc k) (x ∷ xs) pos e = absurd (omega arith)

module _ (char_size per_word : ℕ) (word : char_size * per_word ≡ 8) where
  -- The length field counts the bytes of the characters that are there.
  abbrev pub IsString : NtString → Type 0
  IsString s = s.length_field ≡ char_size * length (view char_size per_word s)

  pub char_size-pos : 0 < char_size
  char_size-pos = pos_of char_size per_word word

  abbrev pub text : NtString → List ℕ
  text s = view char_size per_word s

  length-text :
      (a b : NtString)
      → IsString a
      → IsString b
      → a.length_field ≡ b.length_field
      → length (text a) ≡ length (text b)
  length-text a b ha hb e = cancel char_size _ _ char_size-pos (omega (arith, ha, hb))

  differs :
      (a b : NtString)
      → IsString a
      → IsString b
      → (a.length_field == b.length_field) ≡ false
      → length (text a) ≢ length (text b)
  differs a b ha hb differ e =
      let same : a.length_field ≡ b.length_field = ha ∙ ap (λ (t : ℕ). char_size * t) e ∙ sym hb in
      ground arith

  -- With a test that takes every character for itself, comparing by words first is comparing all the
  -- characters; strings of other lengths are not the same.
  equals_by-chars_agree :
      (test : ℕ → ℕ → Bool) (a b : NtString)
      → ((c : ℕ) → test c c ≡ true)
      → IsString a
      → IsString b
      → (equals_by char_size per_word test a b ≡ true)
        ↔ ((length (text a) ≡ length (text b)) × (chars_agree test (text a) (text b) ≡ true))
  unfolding equals_by
  equals_by-chars_agree test a b reflexive ha hb =
      elim (Bool-cases (a.length_field == b.length_field)) [
        | inl same ↦
            let sizes = length-text a b ha hb ((==_iff _ _).0 same) in
            let words =
              skip_words-outcome test reflexive char_size per_word word a.length_field
                a.length_field (text a) (text b) sizes ha in
            rw (same, words) (λ e. (sizes, e), λ e. e.1)
        | inr differ ↦ rw differ (λ e. cc, λ e. absurd (differs a b ha hb differ e.0))
      ]

  -- `equals` decides whether two strings are the same text, if their length fields count the bytes of
  -- characters that are in memory and a word of eight bytes holds whole characters.
  pub equals_iff :
      (a b : NtString)
      → IsString a
      → IsString b
      → (equals char_size per_word a b ≡ true) ↔ (text a ≡ text b)
  unfolding equals
  equals_iff a b ha hb =
      let agree = equals_by-chars_agree (λ c1 c2. c1 == c2) a b (λ c. ground arith) ha hb in
      (
        λ e. let (sizes, same) = agree.0 e in (chars_agree-eq _ _ sizes).0 same,
        λ e. agree.1 (ap length e, (chars_agree-eq _ _ (ap length e)).1 e),
      )

  -- `iequals` decides whether two strings are the same text behind `tolower`, if their length fields
  -- count the bytes of characters that are in memory and a word of eight bytes holds whole characters.
  pub iequals_iff :
      (tolower : ℕ → ℕ) (a b : NtString)
      → IsString a
      → IsString b
      → (iequals char_size per_word tolower a b ≡ true)
        ↔ (map tolower (text a) ≡ map tolower (text b))
  unfolding iequals
  iequals_iff tolower a b ha hb =
      let agree = equals_by-chars_agree (same_folded tolower) a b (λ c. ground arith) ha hb in
      (
        λ e. let (sizes, same) = agree.0 e in (chars_agree-folded tolower _ _ sizes).0 same,
        λ e.
            let sizes = map-length tolower (text a) (text b) e in
            agree.1 (sizes, (chars_agree-folded tolower _ _ sizes).1 e),
      )

  shorter :
      (a b : NtString)
      → IsString a
      → IsString b
      → length (text b) ≤ length (text a)
      → ltb a.length_field b.length_field ≡ false
  shorter a b ha hb h =
      let bytes : char_size * length (text b) ≤ char_size * length (text a) = grind arith in
      ground (arith, ha, hb, bytes)

  -- The longer of two texts does not fail the test of the lengths.
  with_rest :
      (a b : NtString) (rest : List ℕ)
      → IsString a
      → IsString b
      → (text a ≡ text b ++ rest) ⊎ (text a ≡ rest ++ text b)
      → ltb a.length_field b.length_field ≡ false
  with_rest a b rest ha hb (inl e) =
      shorter a b ha hb (omega (arith, ap length e, length-append (text b) rest))
  with_rest a b rest ha hb (inr e) =
      shorter a b ha hb (omega (arith, ap length e, length-append rest (text b)))

  -- `starts_with` decides whether the first string is the second with a rest behind it, if their length
  -- fields count the bytes of characters that are in memory and a word holds whole characters.
  pub starts_with_iff :
      (a b : NtString)
      → IsString a
      → IsString b
      → (starts_with char_size per_word a b ≡ true) ↔ ((rest : List ℕ) × (text a ≡ text b ++ rest))
  unfolding starts_with
  starts_with_iff a b ha hb = elim (Bool-cases (ltb a.length_field b.length_field)) [
    | inl short ↦ rw short (λ e. cc, λ e. cc (with_rest a b e.0 ha hb (inl e.1)))
    | inr long ↦ rw long (front_agrees-eq (text a) (text b))
  ]

  -- `ends_with` decides whether the first string is the second with a rest in front of it, if their
  -- length fields count the bytes of characters that are in memory and a word holds whole characters.
  pub ends_with_iff :
      (a b : NtString)
      → IsString a
      → IsString b
      → (ends_with char_size per_word a b ≡ true) ↔ ((rest : List ℕ) × (text a ≡ rest ++ text b))
  unfolding ends_with
  ends_with_iff a b ha hb = elim (Bool-cases (ltb a.length_field b.length_field)) [
    | inl short ↦ rw short (λ e. cc, λ e. cc (with_rest a b e.0 ha hb (inr e.1)))
    | inr long ↦ rw long (
      λ e.
          let (rest, split) = (front_agrees-eq (reverse (text a)) (reverse (text b))).0 e in
          (reverse rest, back (text a) (text b) rest split),
      λ e.
          (front_agrees-eq (reverse (text a)) (reverse (text b))).1
            (reverse e.0, ap reverse e.1 ∙ reverse-append e.0 (text b)),
    )
  ]

  take-length : (n : ℕ) (xs : List ℕ) → length xs ≤ n → take n xs ≡ xs
  take-length zero [] h = refl
  take-length zero (x ∷ xs) h = absurd (omega arith)
  take-length (suc n) [] h = refl
  take-length (suc n) (x ∷ xs) h = ap (◌∷◌ x) (take-length n xs (omega arith))

  -- A string made from a terminated text of fewer than 65536 bytes has that text, and its length field
  -- counts the text's bytes, where a word of eight bytes holds whole characters.
  pub from_pointer-IsString :
      (s : List ℕ)
      → length s * char_size < 65536
      → let a = from_pointer char_size per_word (some s) in IsString a × (text a ≡ s)
  unfolding from_pointer
  from_pointer-IsString s fits =
      let bytes : u16 (length s * char_size) ≡ char_size * length s =
        mod-eq_of_lt fits ∙ mul_comm (length s) char_size in
      let count : u16 (length s * char_size) / char_size ≡ length s =
        ap (λ (t : ℕ). t / char_size) bytes ∙ mul-div_cancel_left (length s) char_size-pos in
      let whole : take (u16 (length s * char_size) / char_size) s ≡ s =
        ap (λ (t : ℕ). take t s) count ∙ take-length (length s) s (omega arith) in
      (bytes ∙ ap (λ (t : List ℕ). char_size * length t) (sym whole), whole)

  is_empty-buffer :
      (s : NtString) (memory : List ℕ)
      → s.buffer ≡ some memory
      → is_empty char_size per_word s ≡ not (s.length_field == 0)
  unfolding is_empty
  is_empty-buffer s memory e = rw e refl

  -- `empty` holds exactly when the text has a character, on a string with a buffer whose length field
  -- counts the bytes of characters that are in memory, where a word of eight bytes holds whole ones.
  pub is_empty_iff :
      (s : NtString) (memory : List ℕ)
      → IsString s
      → s.buffer ≡ some memory
      → (is_empty char_size per_word s ≡ true) ↔ (text s ≢ [])
  is_empty_iff s memory h e = elim (Bool-cases (s.length_field == 0)) [
    | inl none_left ↦
        let nothing = no_text char_size (text s) char_size-pos (sym h ∙ (==_iff _ _).0 none_left) in
        let answer = is_empty-buffer s memory e ∙ ap not none_left in
        (λ filled. cc (answer, filled), λ some_char. absurd (some_char nothing))
    | inr bytes ↦ (
      λ filled none_left.
          let nothing : s.length_field ≡ 0 =
            h ∙ ap (λ (t : List ℕ). char_size * length t) none_left ∙ mul-zero char_size in
          ground arith,
      λ some_char. is_empty-buffer s memory e ∙ ap not bytes,
    )
  ]
