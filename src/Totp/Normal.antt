-- ===== src/Totp/Normal.antt =====
-- What `normalizedBase32String` gives.
use loginhelper.Prelude.{
  ℕ, ◌≡◌, ◌≢◌, refl, true, false, ◌||◌, List, [], ◌∷◌, ◌++◌, ◌==◌, All, arith,
}
use loginhelper.Totp.{is_lower, to_upper, normalized_base32_string}

-- A character that the normalisation leaves: no separator, and no lower-case letter.
abbrev pub IsNormal : ℕ → Type 0
IsNormal c = (c ≢ b' ') × (c ≢ b'\n') × (c ≢ b'-') × (is_lower c ≡ false)

-- A normalised text holds no separator and no lower-case letter.
pub normalized_base32_string-IsNormal : (s : List ℕ) → All IsNormal (normalized_base32_string s)
unfolding normalized_base32_string is_lower to_upper
normalized_base32_string-IsNormal [] = tt
normalized_base32_string-IsNormal (c ∷ s) = ground (arith, normalized_base32_string-IsNormal s)

-- Normal texts are left alone.
pub normalized-fixes : (s : List ℕ) → All IsNormal s → normalized_base32_string s ≡ s
unfolding normalized_base32_string
normalized-fixes [] h = refl
normalized-fixes (c ∷ s) h = ground (arith, normalized-fixes s)

-- Normalising twice is normalising once.
pub normalized_base32_string_idem :
    (s : List ℕ)
    → normalized_base32_string (normalized_base32_string s) ≡ normalized_base32_string s
normalized_base32_string_idem s = normalized-fixes _ (normalized_base32_string-IsNormal s)

-- Text written in groups, with any of the separators between them, is read as the whole.
pub normalized_base32_string-append :
    (s t : List ℕ) (c : ℕ)
    → (c == b' ' || c == b'\n' || c == b'-') ≡ true
    → normalized_base32_string (s ++ (c ∷ t))
      ≡ normalized_base32_string s ++ normalized_base32_string t
unfolding normalized_base32_string
normalized_base32_string-append [] t c h = rw h
normalized_base32_string-append (x ∷ s) t c h =
    ground (arith, normalized_base32_string-append s t c h)
