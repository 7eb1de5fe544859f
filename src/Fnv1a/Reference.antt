-- ===== src/Fnv1a/Reference.antt =====
-- The hash of include/fnv1a.h against the definition of FNV-1a.
use native.Mathlib.Nat.{mod-eq_of_lt}
use loginhelper.Prelude.{
  ℕ, ◌+◌, ◌*◌, ◌%◌, ◌^◌, ◌≤◌, ◌<◌, ◌≡◌, refl, ap, ◌∙◌, List, [], ◌∷◌, ◌++◌, Option, some, ok,
  bit_xor, bit_and, ◌>>>◌, arith,
}
use loginhelper.Searchers.First.{AreBytes, bit_and-255}
use loginhelper.Fnv1a.{
  ascii_tolower, ascii_toupper, Kind, fnv1a32, fnv1a64, apply, hash_bytes, hash_char, make_hash,
}
use loginhelper.Fnv1a.Laws.{hash_text, IsText, make_hash-sized}

-- FNV-1a of octets, from a hash on: each octet is put in by an exclusive or, and the hash multiplied by
-- the prime.
abbrev pub fnv : ℕ → ℕ → ℕ → List ℕ → ℕ
fnv bits prime hash [] = hash
fnv bits prime hash (octet ∷ octets) = fnv bits prime (bit_xor hash octet * prime % 2 ^ bits) octets

-- The two sizes, with the prime and the offset basis that their definition gives.
abbrev pub fnv_32 : List ℕ → ℕ
fnv_32 = fnv 32 16777619 2166136261

abbrev pub fnv_64 : List ℕ → ℕ
fnv_64 = fnv 64 1099511628211 14695981039346656037

-- The text in small letters, and in capitals: the letters of ASCII are changed, and they alone.
abbrev pub IsLowered : List ℕ → List ℕ → Type 0
IsLowered [] [] = Unit {0}
IsLowered [] (d ∷ ds) = ⊥
IsLowered (c ∷ cs) [] = ⊥
IsLowered (c ∷ cs) (d ∷ ds) =
    (65 ≤ c → c ≤ 90 → d ≡ c + 32) × (c < 65 → d ≡ c) × (90 < c → d ≡ c) × IsLowered cs ds

abbrev pub IsRaised : List ℕ → List ℕ → Type 0
IsRaised [] [] = Unit {0}
IsRaised [] (d ∷ ds) = ⊥
IsRaised (c ∷ cs) [] = ⊥
IsRaised (c ∷ cs) (d ∷ ds) =
    (97 ≤ c → c ≤ 122 → d + 32 ≡ c) × (c < 97 → d ≡ c) × (122 < c → d ≡ c) × IsRaised cs ds

-- What a function makes of the characters of a text.
abbrev Folds : Option (ℕ → ℕ) → List ℕ → List ℕ → Type 0
Folds fx [] [] = Unit {0}
Folds fx [] (d ∷ ds) = ⊥
Folds fx (c ∷ cs) [] = ⊥
Folds fx (c ∷ cs) (d ∷ ds) = (apply fx c ≡ d) × Folds fx cs ds

IsLowered-Folds : (s t : List ℕ) → IsLowered s t → Folds (some ascii_tolower) s t
unfolding ascii_tolower
IsLowered-Folds [] [] h = tt
IsLowered-Folds [] (d ∷ t) h = elim h [ ]
IsLowered-Folds (c ∷ s) [] h = elim h [ ]
IsLowered-Folds (c ∷ s) (d ∷ t) (letter, below, above, h) = (ground arith, IsLowered-Folds s t h)

IsRaised-Folds : (s t : List ℕ) → IsRaised s t → Folds (some ascii_toupper) s t
unfolding ascii_toupper
IsRaised-Folds [] [] h = tt
IsRaised-Folds [] (d ∷ t) h = elim h [ ]
IsRaised-Folds (c ∷ s) [] h = elim h [ ]
IsRaised-Folds (c ∷ s) (d ∷ t) (letter, below, above, h) = (ground arith, IsRaised-Folds s t h)

module _ (bits prime basis : ℕ) (big : 256 ≤ 2 ^ bits) where
  abbrev narrow : Kind
  narrow = record { bits = bits; prime = prime; offset_basis = basis; bytes = 1 }

  hash_char-fnv :
      (fx : Option (ℕ → ℕ)) (hash c d : ℕ)
      → apply fx c ≡ d
      → d < 256
      → hash_char narrow fx hash c ≡ bit_xor hash d * prime % 2 ^ bits
  unfolding hash_char hash_bytes
  hash_char-fnv fx hash c d e h =
      let unmoved : d >>> 0 ≡ d = omega arith in
      let octet : bit_and (d >>> 0) 255 % 2 ^ bits ≡ d =
        ap (λ (t : ℕ). bit_and t 255 % 2 ^ bits) unmoved
        ∙ ap (λ (t : ℕ). t % 2 ^ bits) (bit_and-255 d h)
        ∙ mod-eq_of_lt (omega arith) in
      rw (e, octet) refl

  hash_text-fnv :
      (fx : Option (ℕ → ℕ)) (hash : ℕ) (s t : List ℕ)
      → Folds fx s t
      → AreBytes t
      → hash_text narrow fx hash s ≡ fnv bits prime hash t
  hash_text-fnv fx hash [] [] h k = refl
  hash_text-fnv fx hash [] (d ∷ t) h k = elim h [ ]
  hash_text-fnv fx hash (c ∷ s) [] h k = elim h [ ]
  hash_text-fnv fx hash (c ∷ s) (d ∷ t) (e, h) (inside, k) =
      ap (λ (n : ℕ). hash_text narrow fx n s) (hash_char-fnv fx hash c d e inside)
      ∙ hash_text-fnv fx (bit_xor hash d * prime % 2 ^ bits) s t h k

  make_hash-Folds :
      (fx : Option (ℕ → ℕ)) (s t behind : List ℕ)
      → IsText narrow s
      → Folds fx s t
      → AreBytes t
      → make_hash narrow (s ++ (0 ∷ behind)) fx ≡ ok (fnv bits prime basis t)
  make_hash-Folds fx s t behind text h k =
      (make_hash-sized narrow s behind fx text).0 ∙ ap ok (hash_text-fnv fx basis s t h k)

-- `make_hash` of a terminated text of `char` with no zero inside is FNV-1a of its bytes, in both sizes:
-- with `ascii_tolower`, of the text in small letters, and with `ascii_toupper`, of the text in capitals.
pub make_hash-fnv :
    (s lower upper behind : List ℕ)
    → IsText (fnv1a32 1) s
    → IsLowered s lower
    → IsRaised s upper
    → AreBytes lower
    → AreBytes upper
    → (make_hash (fnv1a32 1) (s ++ (0 ∷ behind)) (some ascii_tolower) ≡ ok (fnv_32 lower))
      × (make_hash (fnv1a32 1) (s ++ (0 ∷ behind)) (some ascii_toupper) ≡ ok (fnv_32 upper))
      × (make_hash (fnv1a64 1) (s ++ (0 ∷ behind)) (some ascii_tolower) ≡ ok (fnv_64 lower))
      × (make_hash (fnv1a64 1) (s ++ (0 ∷ behind)) (some ascii_toupper) ≡ ok (fnv_64 upper))
make_hash-fnv s lower upper behind text small capital bytes bytes' =
    let l = IsLowered-Folds s lower small in
    let u = IsRaised-Folds s upper capital in
    (
      make_hash-Folds 32 16777619 2166136261 (omega arith) _ s lower behind text l bytes,
      make_hash-Folds 32 16777619 2166136261 (omega arith) _ s upper behind text u bytes',
      make_hash-Folds 64 1099511628211 14695981039346656037 (omega arith) _ s lower behind text l
          bytes,
      make_hash-Folds 64 1099511628211 14695981039346656037 (omega arith) _ s upper behind text u
          bytes',
    )
