-- ===== src/Fnv1a/Laws.antt =====
-- The overloads of `make_hash` against a fold over the text.
use mathlib.Core.List.{append-nil}
use native.Mathlib.Nat.{mod-lt, one-le-pow}
use loginhelper.Prelude.{
  ℕ, zero, suc, ◌+◌, ◌^◌, ◌<◌, ◌≡◌, ◌≢◌, refl, ap, ◌∙◌, sym, List, [], ◌∷◌, ◌++◌, map, Option, none,
  some, length, All, arith, ok,
}
use loginhelper.Fnv1a.{
  ascii_tolower, ascii_toupper, Kind, apply, hash_bytes, hash_char, hash_terminated, hash_sized,
  make_hash, make_hash_sized,
}

module _ (kind : Kind) where
  -- The hash of a text, from a hash on.
  abbrev pub hash_text : Option (ℕ → ℕ) → ℕ → List ℕ → ℕ
  hash_text fx hash [] = hash
  hash_text fx hash (c ∷ text) = hash_text fx (hash_char kind fx hash c) text

  abbrev pub IsText : List ℕ → Type 0
  IsText = All (λ c. c ≢ 0)

  hash_terminated-hash_text :
      (fx : Option (ℕ → ℕ)) (hash : ℕ) (text behind : List ℕ)
      → IsText text
      → hash_terminated kind fx hash (text ++ (0 ∷ behind)) ≡ ok (hash_text fx hash text)
  unfolding hash_terminated
  hash_terminated-hash_text fx hash [] behind h = refl
  hash_terminated-hash_text fx hash (c ∷ text) behind h =
      ground (arith, hash_terminated-hash_text fx (hash_char kind fx hash c) text behind h.1)

  hash_sized-hash_text :
      (fx : Option (ℕ → ℕ)) (hash : ℕ) (text behind : List ℕ)
      → hash_sized kind fx hash (length text) (text ++ behind) ≡ ok (hash_text fx hash text)
  unfolding hash_sized
  hash_sized-hash_text fx hash [] behind = refl
  hash_sized-hash_text fx hash (c ∷ text) behind =
      hash_sized-hash_text fx (hash_char kind fx hash c) text behind

  -- The overload for terminated texts and the one with a size give the same hash, the fold over the
  -- characters, for a text with no zero inside and whatever lies behind its terminator.
  pub make_hash-sized :
      (text behind : List ℕ) (fx : Option (ℕ → ℕ))
      → IsText text
      → (make_hash kind (text ++ (0 ∷ behind)) fx ≡ ok (hash_text fx kind.offset_basis text))
        × (make_hash_sized kind (text ++ (0 ∷ behind)) (length text) fx
            ≡ ok (hash_text fx kind.offset_basis text))
  unfolding make_hash make_hash_sized
  make_hash-sized text behind fx h = (
    hash_terminated-hash_text fx kind.offset_basis text behind h,
    hash_sized-hash_text fx kind.offset_basis text (0 ∷ behind),
  )

  -- The overload with a size, on a text and no more.
  pub hashed :
      (fx : Option (ℕ → ℕ)) (text : List ℕ)
      → make_hash_sized kind text (length text) fx ≡ ok (hash_text fx kind.offset_basis text)
  unfolding make_hash_sized
  hashed fx text = rw append-nil at (hash_sized-hash_text fx kind.offset_basis text [])

  hash_text-map :
      (f : ℕ → ℕ) (hash : ℕ) (text : List ℕ)
      → hash_text (some f) hash text ≡ hash_text none hash (map f text)
  unfolding hash_char
  hash_text-map f hash [] = refl
  hash_text-map f hash (c ∷ text) = hash_text-map f (hash_char kind (some f) hash c) text

  -- Two texts that the function `fx` takes to the same text have one hash with that function.
  pub make_hash_sized-fold :
      (f : ℕ → ℕ) (s t : List ℕ)
      → map f s ≡ map f t
      → make_hash_sized kind s (length s) (some f) ≡ make_hash_sized kind t (length t) (some f)
  make_hash_sized-fold f s t e =
      hashed (some f) s
      ∙ ap ok (hash_text-map f kind.offset_basis s)
      ∙ ap (λ u. ok (hash_text none kind.offset_basis u)) e
      ∙ sym (ap ok (hash_text-map f kind.offset_basis t))
      ∙ sym (hashed (some f) t)

  -- Hashing a text in two parts is hashing the second part from the hash of the first.
  hash_text-append :
      (fx : Option (ℕ → ℕ)) (hash : ℕ) (s t : List ℕ)
      → hash_text fx hash (s ++ t) ≡ hash_text fx (hash_text fx hash s) t
  hash_text-append fx hash [] t = refl
  hash_text-append fx hash (c ∷ s) t = hash_text-append fx (hash_char kind fx hash c) s t

  hash_bytes-lt :
      (n j c hash : ℕ) → hash < 2 ^ kind.bits → hash_bytes kind n j c hash < 2 ^ kind.bits
  unfolding hash_bytes
  hash_bytes-lt zero j c hash h = h
  hash_bytes-lt (suc n) j c hash h =
      hash_bytes-lt n (j + 1) c _ (mod-lt _ (one-le-pow kind.bits 2 (omega arith)))

  hash_text-lt :
      (fx : Option (ℕ → ℕ)) (text : List ℕ) (hash : ℕ)
      → hash < 2 ^ kind.bits
      → hash_text fx hash text < 2 ^ kind.bits
  unfolding hash_char
  hash_text-lt fx [] hash h = h
  hash_text-lt fx (c ∷ text) hash h =
      hash_text-lt fx text _ (hash_bytes-lt kind.bytes 0 (apply fx c) hash h)

  -- `make_hash` of a terminated text with no zero inside returns a hash that fits its type, if the
  -- offset basis does.
  pub make_hash-lt :
      (text behind : List ℕ) (fx : Option (ℕ → ℕ))
      → IsText text
      → kind.offset_basis < 2 ^ kind.bits
      → (hash : ℕ) × (make_hash kind (text ++ (0 ∷ behind)) fx ≡ ok hash) × (hash < 2 ^ kind.bits)
  make_hash-lt text behind fx h basis = (
    hash_text fx kind.offset_basis text,
    (make_hash-sized text behind fx h).0,
    hash_text-lt fx text kind.offset_basis basis,
  )

-- Folding to lower case forgets exactly the case: a text and its upper-case form have one folded hash.
ascii_tolower-ascii_toupper : (c : ℕ) → ascii_tolower (ascii_toupper c) ≡ ascii_tolower c
unfolding ascii_tolower ascii_toupper
ascii_tolower-ascii_toupper c = ground arith

tolower-toupper : (s : List ℕ) → map ascii_tolower (map ascii_toupper s) ≡ map ascii_tolower s
tolower-toupper [] = refl
tolower-toupper (c ∷ s) = cc (ascii_tolower-ascii_toupper c, tolower-toupper s)

-- The hash with `ascii_tolower` of a text is that of its upper-case form.
pub make_hash_sized-case :
    (kind : Kind) (s : List ℕ)
    → make_hash_sized kind (map ascii_toupper s) (length (map ascii_toupper s)) (some ascii_tolower)
      ≡ make_hash_sized kind s (length s) (some ascii_tolower)
make_hash_sized-case kind s =
    make_hash_sized-fold kind ascii_tolower (map ascii_toupper s) s (tolower-toupper s)
