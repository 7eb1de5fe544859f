-- ===== src/Searchers/First.antt =====
-- What a search of a compiled pattern finds: the first position where every byte of the data has
-- the nibbles that the text asks for.
use loginhelper.Prelude.{
  some, ℕ, zero, suc, ◌*◌, ◌/◌, ◌%◌, ◌≤◌, ◌<◌, ◌≡◌, refl, sym, ap, ◌∙◌, ◌↔◌, ◌⊎◌, inl, inr, true,
  false, List, [], ◌∷◌, bit_and, ◌==◌, ==_iff, Bool-cases, Option-cases, ◌+◌, if◌then◌else◌,
  length-drop, arith, All, length, drop, all_below, all_below-entry,
}
use loginhelper.Searchers.{byte_eq, matches_front, search_range, pattern_searcher, compile_pattern}
use loginhelper.Searchers.Compile.{classify-IsNibble, compile_pattern-assemble}
use loginhelper.Searchers.Nibbles.{
  classify, Nibble, known, wild, IsNibble, nibbles, whole, half, assemble, Fits,
}

mask_255 : all_below 256 (λ x. bit_and x 255 == x) ≡ true
unfolding all_below
mask_255 = refl

mask_240 : all_below 256 (λ x. bit_and x 240 == x / 16 * 16) ≡ true
unfolding all_below
mask_240 = refl

mask_15 : all_below 256 (λ x. bit_and x 15 == x % 16) ≡ true
unfolding all_below
mask_15 = refl

mask_0 : all_below 256 (λ x. bit_and x 0 == 0) ≡ true
unfolding all_below
mask_0 = refl

pub bit_and-255 : (x : ℕ) → x < 256 → bit_and x 255 ≡ x
bit_and-255 x h = (==_iff _ _).0 (all_below-entry (λ x. bit_and x 255 == x) 256 x h mask_255)

bit_and-240 : (x : ℕ) → x < 256 → bit_and x 240 ≡ x / 16 * 16
bit_and-240 x h =
    (==_iff _ _).0 (all_below-entry (λ x. bit_and x 240 == x / 16 * 16) 256 x h mask_240)

bit_and-15 : (x : ℕ) → x < 256 → bit_and x 15 ≡ x % 16
bit_and-15 x h = (==_iff _ _).0 (all_below-entry (λ x. bit_and x 15 == x % 16) 256 x h mask_15)

bit_and-0 : (x : ℕ) → x < 256 → bit_and x 0 ≡ 0
bit_and-0 x h = (==_iff _ _).0 (all_below-entry (λ x. bit_and x 0 == 0) 256 x h mask_0)

-- A byte satisfies a whole pattern byte exactly when its two nibbles satisfy the pattern's.
pub byte_eq-whole :
    (h l : Nibble) (x : ℕ)
    → IsNibble h
    → IsNibble l
    → x < 256
    → (byte_eq (whole h l) x ≡ true) ↔ (Fits h (x / 16) × Fits l (x % 16))
unfolding byte_eq whole
byte_eq-whole wild wild x hh hl hx = ground (arith, bit_and-0 x)
byte_eq-whole (known m) wild x hh hl hx = ground (arith, bit_and-240 x, bit_and-240 (m * 16 + 0))
byte_eq-whole wild (known n) x hh hl hx = ground (arith, bit_and-15 x, bit_and-15 n)
byte_eq-whole (known m) (known n) x hh hl hx =
    ground (arith, bit_and-255 x, bit_and-255 (m * 16 + n))

-- A byte satisfies the pattern byte of a last nibble with no partner exactly when its low nibble
-- is zero, whatever that nibble was.
pub byte_eq-half :
    (h : Nibble) (x : ℕ) → IsNibble h → x < 256 → (byte_eq (half h) x ≡ true) ↔ (x % 16 ≡ 0)
unfolding byte_eq half
byte_eq-half wild x hh hx = ground (arith, bit_and-15 x)
byte_eq-half (known m) x hh hx = ground (arith, bit_and-15 x, bit_and-15 (m * 16))

-- The front of the data reads as the nibbles say, byte by byte. A last nibble with no partner asks
-- for a byte with a zero low nibble.
abbrev pub Reads : List Nibble → List ℕ → Type 0
Reads [] xs = Unit {0}
Reads (h ∷ []) [] = ⊥
Reads (h ∷ []) (x ∷ xs) = x % 16 ≡ 0
Reads (h ∷ l ∷ r) [] = ⊥
Reads (h ∷ l ∷ r) (x ∷ xs) = Fits h (x / 16) × Fits l (x % 16) × Reads r xs

abbrev pub AreBytes : List ℕ → Type 0
AreBytes = All (λ x. x < 256)

matches_front-assemble :
    (ns : List Nibble) (xs : List ℕ)
    → All IsNibble ns
    → AreBytes xs
    → (matches_front (assemble ns) xs ≡ true) ↔ Reads ns xs
unfolding matches_front assemble
matches_front-assemble [] xs hn hx = (λ e. tt, λ e. refl)
matches_front-assemble (h ∷ []) [] hn hx = ground arith
matches_front-assemble (h ∷ []) (x ∷ xs) hn hx = ground (arith, byte_eq-half h x)
matches_front-assemble (h ∷ l ∷ r) [] hn hx = ground arith
matches_front-assemble (h ∷ l ∷ r) (x ∷ xs) hn hx =
    ground (arith, byte_eq-whole h l x, matches_front-assemble r xs)

-- `it` is the first position of the data where `Good` holds of what follows, or its end if there
-- is none.
abbrev pub IsFirst : (List ℕ → Type 0) → List ℕ → ℕ → Type 0
IsFirst Good xs it =
    (it < length xs) × Good (drop it xs) × ((j : ℕ) → j < it → ¬ Good (drop j xs))
    ⊎ (it ≡ length xs) × ((j : ℕ) → j < length xs → ¬ Good (drop j xs))

module _ (Good : List ℕ → Type 0) (x : ℕ) (xs : List ℕ) where
  IsFirst-here : Good (x ∷ xs) → IsFirst Good (x ∷ xs) 0
  IsFirst-here g = inl (omega arith, g, λ j h. absurd (omega arith))

  before :
      {n : ℕ}
      → ¬ Good (x ∷ xs)
      → ((j : ℕ) → j < n → ¬ Good (drop j xs))
      → (j : ℕ) → j < suc n
      → ¬ Good (drop j (x ∷ xs))
  before no_front rest zero h = no_front
  before no_front rest (suc j) h = rest j (omega arith)

  IsFirst-later : {it : ℕ} → ¬ Good (x ∷ xs) → IsFirst Good xs it → IsFirst Good (x ∷ xs) (suc it)
  IsFirst-later no_front (inl (inside, good, none_before)) =
      inl (omega arith, good, before no_front none_before)
  IsFirst-later no_front (inr (e, nowhere)) = inr (omega arith, before no_front nowhere)

search_range-IsFirst :
    (ns : List Nibble) (xs : List ℕ)
    → All IsNibble ns
    → AreBytes xs
    → IsFirst (Reads ns) xs (search_range (assemble ns) xs)
unfolding search_range
search_range-IsFirst ns [] hn hx = inr (refl, λ j h. absurd (omega arith))
search_range-IsFirst ns (x ∷ xs) hn hx =
    let front = matches_front-assemble ns (x ∷ xs) hn hx in
    elim (Bool-cases (matches_front (assemble ns) (x ∷ xs))) [
      | inl e ↦ rw e (IsFirst-here (Reads ns) x xs (front.0 e))
      | inr e ↦
          rw e (
            IsFirst-later (Reads ns) x xs (λ r. cc (front.1 r))
              (search_range-IsFirst ns xs hn hx.1))
    ]

nibbles-IsNibble : (p : List ℕ) → All IsNibble (nibbles p)
unfolding nibbles
nibbles-IsNibble [] = tt
nibbles-IsNibble (c ∷ cs) = elim (Option-cases (classify c)) [
  | inl e ↦ rw (e, nibbles) (nibbles-IsNibble cs)
  | inr (n, e) ↦ rw (e, nibbles) (classify-IsNibble c e, nibbles-IsNibble cs)
]

length-assemble : (ns : List Nibble) → length (assemble ns) ≡ (length ns + 1) / 2
unfolding assemble
length-assemble [] = refl
length-assemble (h ∷ []) = refl
length-assemble (h ∷ l ∷ r) = omega (arith, length-assemble r)

Reads-length : (ns : List Nibble) (xs : List ℕ) → Reads ns xs → (length ns + 1) / 2 ≤ length xs
Reads-length [] xs h = omega arith
Reads-length (h ∷ []) [] r = absurd r
Reads-length (h ∷ []) (x ∷ xs) r = omega arith
Reads-length (h ∷ l ∷ ns) [] r = absurd r
Reads-length (h ∷ l ∷ ns) (x ∷ xs) r = omega (arith, Reads-length ns xs r.2)

-- The range that the searcher returns for a first position.
abbrev pub IsRange : List Nibble → List ℕ → ℕ × ℕ → Type 0
IsRange ns xs r =
    IsFirst (Reads ns) xs r.0
    × (r.1 ≤ length xs)
    × (((r.0 ≡ length xs) × (r.1 ≡ length xs))
        ⊎ ((r.0 < length xs) × (r.1 ≡ r.0 + (length ns + 1) / 2)))

IsRange-answer :
    (ns : List Nibble) (xs : List ℕ) (it : ℕ)
    → IsFirst (Reads ns) xs it
    → IsRange ns xs
        (if it == length xs then (length xs, length xs) else (it, it + length (assemble ns)))
IsRange-answer ns xs it (inl (inside, good, none_before)) =
    let fits = Reads-length ns (drop it xs) good in
    let size = length-assemble ns in
    let rest = length-drop it xs in
    let shut : (it == length xs) ≡ false = ground arith in
    rw shut (
      inl (inside, good, none_before),
      omega (arith, fits, size, rest),
      inr (inside, omega (arith, size)),
    )
IsRange-answer ns xs it (inr (e, nowhere)) =
    let open_end : (it == length xs) ≡ true = ground arith in
    rw open_end (inr (refl, nowhere), omega arith, inl (refl, refl))

searcher-IsRange :
    (ns : List Nibble) (xs : List ℕ)
    → All IsNibble ns
    → AreBytes xs
    → IsRange ns xs (pattern_searcher (assemble ns) xs)
unfolding pattern_searcher assemble
searcher-IsRange ns [] hn hx =
    (inr (refl, λ j h. absurd (omega arith)), omega arith, inl (refl, refl))
searcher-IsRange [] (x ∷ xs) hn hx =
    (IsFirst-here (Reads []) x xs tt, omega arith, inr (omega arith, omega arith))
searcher-IsRange (h ∷ []) (x ∷ xs) hn hx =
    IsRange-answer (h ∷ []) (x ∷ xs) _ (search_range-IsFirst (h ∷ []) (x ∷ xs) hn hx)
searcher-IsRange (h ∷ l ∷ r) (x ∷ xs) hn hx =
    IsRange-answer (h ∷ l ∷ r) (x ∷ xs) _ (search_range-IsFirst (h ∷ l ∷ r) (x ∷ xs) hn hx)

-- Searching data for a pattern's text returns the first position where the data `Reads` as the compiled
-- text does, whose last byte has a low half of zero where the text has an odd number of halves, with the
-- end of the match behind it and inside the data; and the end of the data, twice, exactly when there
-- is no such position.
pub pattern_searcher-IsRange :
    (p xs : List ℕ) → AreBytes xs → IsRange (nibbles p) xs (pattern_searcher (compile_pattern p) xs)
pattern_searcher-IsRange p xs hx =
    rw (compile_pattern-assemble p) (searcher-IsRange (nibbles p) xs (nibbles-IsNibble p) hx)

-- Two patterns with the same digits and wildcards in the same order are the same pattern: spaces
-- and all other characters are skipped, wherever they stand.
pub compile_pattern-skips :
    (p q : List ℕ) → nibbles p ≡ nibbles q → compile_pattern p ≡ compile_pattern q
compile_pattern-skips p q h =
    compile_pattern-assemble p ∙ ap assemble h ∙ sym (compile_pattern-assemble q)

-- A pattern of one digit or wildcard is not what it says: it matches exactly the bytes whose low
-- nibble is zero, whichever character it is.
pub compile_pattern_single :
    (c : ℕ) {n : Nibble} (x : ℕ)
    → classify c ≡ some n
    → x < 256
    → (matches_front (compile_pattern (c ∷ [])) (x ∷ []) ≡ true) ↔ (x % 16 ≡ 0)
compile_pattern_single c {n} x e hx =
    rw (compile_pattern-assemble (c ∷ []), nibbles-single)
      (matches_front-assemble (n ∷ []) (x ∷ []) (classify-IsNibble c e, tt) (hx, tt))
  where
    nibbles-single : nibbles (c ∷ []) ≡ n ∷ []
    nibbles-single = unfold nibbles in rw (e, nibbles) refl
