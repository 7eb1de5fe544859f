-- ===== src/Version/Blocks.antt =====
-- The blocks of a version resource: what is read of them stands inside of the resource.
use loginhelper.Prelude.{
  ℕ, ◌+◌, ◌-◌, ◌≤◌, ◌≡◌, refl, ◌||◌, List, Option, none, some, ltb, leb, if◌then◌else◌, Bool-cases,
  inl, inr, length, take, drop, get_elem?-below, arith,
}
use loginhelper.Version.Steps.{Gives, Gives->>=, Gives-if}
use loginhelper.Version.{
  TextCalls, Block, dwordup, word_at, dword_at, cb_length, block_of, check_sub, read_sub,
}

-- What is relied on of `StringCbLengthW`: the length that it gives leaves room for the terminator.
abbrev pub IsTextCalls : TextCalls → Type 0
IsTextCalls calls =
    (bytes : List ℕ) (max cb : ℕ) → calls.string_cb_length_w bytes max ≡ some cb → cb + 2 ≤ max

-- A block inside the first `bound` bytes, with its key and its value inside of it.
pub record IsBlock (bound : ℕ) (b : Block) : Type 0 where
  pub inside : b.at + b.total ≤ bound
  pub valued : b.off + b.value_length ≡ b.len
  pub long : b.len ≤ b.total
  pub keyed : b.cb + 8 ≤ b.total

pub IsBlock-le : {small big : ℕ} {b : Block} → IsBlock small b → small ≤ big → IsBlock big b
IsBlock-le h le = ground arith

pub dwordup-le : (x : ℕ) → x ≤ dwordup x
unfolding dwordup
dwordup-le x = omega arith

-- A length that leaves room for the terminator of a key, if there is one.
abbrev pub Fits : ℕ → Option ℕ → Type 0
Fits max none = Unit
Fits max (some cb) = cb + 2 ≤ max

-- A block behind `sub`, if there is one.
abbrev pub Found : ℕ → ℕ → Option Block → Type 0
Found sub end none = Unit
Found sub end (some b) = IsBlock end b × (b.at ≡ sub) × (8 ≤ b.total)

module _ (calls : TextCalls) (laws : IsTextCalls calls) (bytes : List ℕ) where
  pub word_at-Gives : (i : ℕ) → i + 2 ≤ length bytes → Gives (λ n. Unit {0}) (word_at calls bytes i)
  unfolding word_at
  word_at-Gives i h =
      let (lo, e) = get_elem?-below bytes i (omega arith) in
      let (hi, e') = get_elem?-below bytes (i + 1) (omega arith) in rw (e, e') tt

  pub dword_at-Gives :
      (i : ℕ) → i + 4 ≤ length bytes → Gives (λ n. Unit {0}) (dword_at calls bytes i)
  unfolding dword_at
  dword_at-Gives i h =
      Gives->>= (λ n. Unit {0}) (λ n. Unit {0}) (word_at calls bytes i) _
        (word_at-Gives i (omega arith))
        (λ lo k.
          Gives->>= (λ n. Unit {0}) (λ n. Unit {0}) (word_at calls bytes (i + 2)) _
            (word_at-Gives (i + 2) (omega arith)) (λ hi k'. tt))

  pub cb_length-Gives :
      (i max : ℕ) → i + max ≤ length bytes → Gives (Fits max) (cb_length calls bytes i max)
  unfolding cb_length
  cb_length-Gives i max h =
      Gives-if (Fits max) (leb (i + max) (length bytes)) _ _
        (λ inside. kept (calls.string_cb_length_w (take max (drop i bytes)) max) refl)
        (λ outside. absurd (ground arith))
    where
      kept :
          (o : Option ℕ) → calls.string_cb_length_w (take max (drop i bytes)) max ≡ o → Fits max o
      kept none e = tt
      kept (some cb) e = laws (take max (drop i bytes)) max cb e

  check_sub-Gives :
      (cb : Option ℕ) (sub total end : ℕ)
      → Fits (total - 6) cb
      → 8 ≤ total
      → sub + total ≤ end
      → end ≤ length bytes
      → Gives (Found sub end) (check_sub calls bytes cb sub total)
  unfolding check_sub
  check_sub-Gives none sub total end fits big inside bound = tt
  check_sub-Gives (some cb) sub total end fits big inside bound =
      Gives->>= (λ n. Unit {0}) (Found sub end) (word_at calls bytes (sub + 2)) _
        (word_at-Gives (sub + 2) (omega arith)) (λ value_length k. checked value_length)
    where
      checked :
          (value_length : ℕ)
          → let b = block_of calls bytes sub total value_length cb in
            Found sub end (if leb b.len total then some b else none)
      checked value_length =
          let b = block_of calls bytes sub total value_length cb in
          elim (Bool-cases (leb b.len total)) [
            | inl long ↦ rw long (
              record {
                inside = inside;
                valued = refl;
                long = ground (arith, long);
                keyed = omega arith;
              },
              refl,
              big,
            )
            | inr short ↦ rw short tt
          ]

  pub read_sub-Gives :
      (sub end : ℕ) → end ≤ length bytes → Gives (Found sub end) (read_sub calls bytes sub end)
  unfolding read_sub
  read_sub-Gives sub end bound =
      Gives-if (Found sub end) (ltb end sub || ltb (end - sub) 8) _ _ (λ out. tt)
        (λ inside.
          Gives->>= (λ n. Unit {0}) (Found sub end) (word_at calls bytes sub) _
            (word_at-Gives sub (ground (arith, inside)))
            (λ total k.
              Gives-if (Found sub end) (ltb total 8 || ltb (end - sub) total) _ _ (λ out. tt)
                (λ fits.
                  Gives->>= (Fits (total - 6)) (Found sub end)
                    (cb_length calls bytes (sub + 6) (total - 6)) _
                    (cb_length-Gives (sub + 6) (total - 6) (ground (arith, inside, fits)))
                    (λ cb h.
                      check_sub-Gives cb sub total end h (ground (arith, inside, fits))
                        (ground (arith, inside, fits)) bound))))
