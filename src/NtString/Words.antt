-- ===== src/NtString/Words.antt =====
-- The comparison of `equals` and `iequals` by whole words, against a comparison of characters.
use native.Mathlib.Nat.{mul-sub}
use loginhelper.Prelude.{
  ℕ, zero, suc, ◌-◌, ◌*◌, ◌≡◌, refl, ◌∙◌, sym, Bool, true, List, [], ◌∷◌, ltb, ◌==◌, Bool-cases,
  inl, inr, length, take, drop, length-drop, arith,
}
use loginhelper.NtString.{same_text, chars_agree, skip_words, outcome}

pub same_text_sound : (xs ys : List ℕ) → same_text xs ys ≡ true → xs ≡ ys
unfolding same_text
same_text_sound [] [] h = refl
same_text_sound [] (y ∷ ys) h = cc
same_text_sound (x ∷ xs) [] h = cc
same_text_sound (x ∷ xs) (y ∷ ys) h = ground (arith, same_text_sound xs ys)

no_chars : (size per count : ℕ) → size * per ≡ 8 → size * count ≡ 0 → count ≡ 0
no_chars zero per count word e = absurd (omega arith)
no_chars (suc size) per zero word e = refl
no_chars (suc size) per (suc count) word e = absurd (omega arith)

module _ (test : ℕ → ℕ → Bool) (reflexive : (c : ℕ) → test c c ≡ true) where
  -- A common front does not matter.
  chars_agree-drop :
      (n : ℕ) (xs ys : List ℕ)
      → length xs ≡ length ys
      → take n xs ≡ take n ys
      → chars_agree test (drop n xs) (drop n ys) ≡ chars_agree test xs ys
  unfolding chars_agree
  chars_agree-drop zero xs ys size front = refl
  chars_agree-drop (suc n) [] [] size front = refl
  chars_agree-drop (suc n) [] (y ∷ ys) size front = absurd (omega arith)
  chars_agree-drop (suc n) (x ∷ xs) [] size front = absurd (omega arith)
  chars_agree-drop (suc n) (x ∷ xs) (y ∷ ys) size front =
      ground (arith, reflexive x, chars_agree-drop n xs ys)

  chars_agree-nil : (xs ys : List ℕ) → length xs ≡ 0 → chars_agree test xs ys ≡ true
  unfolding chars_agree
  chars_agree-nil [] ys h = refl
  chars_agree-nil (x ∷ xs) ys h = absurd (omega arith)

  module _ (char_size per_word : ℕ) (word : char_size * per_word ≡ 8) where
    -- Skipping whole words that are the same does not change the comparison.
    pub skip_words-outcome :
        (fuel n1 : ℕ) (xs ys : List ℕ)
        → length xs ≡ length ys
        → n1 ≡ char_size * length xs
        → outcome test (skip_words char_size per_word fuel n1 xs ys) ≡ chars_agree test xs ys
    unfolding skip_words
    skip_words-outcome zero n1 xs ys size bytes = refl
    skip_words-outcome (suc fuel) n1 xs ys size bytes = elim (Bool-cases (ltb n1 8)) [
      | inl short ↦ rw short refl
      | inr long ↦ elim (Bool-cases (same_text (take per_word xs) (take per_word ys))) [
        | inl same ↦
            let front = same_text_sound (take per_word xs) (take per_word ys) same in
            let skipped = chars_agree-drop per_word xs ys size front in
            let left : n1 - 8 ≡ char_size * length (drop per_word xs) =
              rw (length-drop, mul-sub, word) (omega arith) in
            elim (Bool-cases (n1 - 8 == 0)) [
              | inl end ↦
                  rw (long, same, end)
                    (sym (
                        chars_agree-nil (drop per_word xs) (drop per_word ys)
                          (no_chars char_size per_word _ word (ground (arith, left))))
                      ∙ skipped)
              | inr more ↦
                  rw (long, same, more)
                    (skip_words-outcome fuel (n1 - 8) (drop per_word xs) (drop per_word ys)
                        (omega (arith, length-drop per_word xs, length-drop per_word ys)) left
                      ∙ skipped)
            ]
        | inr differ ↦ rw (long, differ) refl
      ]
    ]
