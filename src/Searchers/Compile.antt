-- ===== src/Searchers/Compile.antt =====
-- `compile_pattern` against its meaning: the text is read as a sequence of nibbles, and these are
-- put together two by two.
use mathlib.Core.List.{append-nil, append_assoc}
use loginhelper.Prelude.{
  ℕ, ◌+◌, ◌*◌, ◌<◌, ◌≡◌, refl, sym, ap, ◌∙◌, true, List, [], ◌∷◌, ◌++◌, none, some, bit_and, bit_or,
  ◌==◌, ==_iff, inl, inr, Option-cases, arith, u8, all_below, all_below-entry, all_below-entry2,
}
use loginhelper.Searchers.{
  PatternByte, clear, hexchtoint, put_nibble, advance, Compiler, compile_step, compile_loop,
  compile_end, compile_pattern,
}
use loginhelper.Searchers.Nibbles.{
  Nibble, known, wild, IsNibble, classify, nibbles, value_of, mask_of, whole, half, assemble,
}

-- The byte under construction when its high nibble is in.
abbrev partial : Nibble → PatternByte
partial h = record { value = value_of h * 16; mask = mask_of h * 16 + 15 }

low_table : all_below 16 (λ n. bit_and n 15 == n) ≡ true
unfolding all_below
low_table = refl

join_table : all_below 16 (λ h. all_below 16 (λ l. u8 (bit_or (h * 16) l) == h * 16 + l)) ≡ true
unfolding all_below
join_table = refl

high_table : all_below 16 (λ h. u8 (bit_or 0 (h * 16)) == h * 16) ≡ true
unfolding all_below
high_table = refl

low_nibble : (n : ℕ) → n < 16 → bit_and n 15 ≡ n
low_nibble n h = (==_iff _ n).0 (all_below-entry (λ n. bit_and n 15 == n) 16 n h low_table)

join_nibbles : (h l : ℕ) → h < 16 → l < 16 → u8 (bit_or (h * 16) l) ≡ h * 16 + l
join_nibbles h l hh hl =
    (==_iff _ _).0
      (all_below-entry2 (λ h l. u8 (bit_or (h * 16) l) == h * 16 + l) 16 16 h l hh hl join_table)

high_nibble : (h : ℕ) → h < 16 → u8 (bit_or 0 (h * 16)) ≡ h * 16
high_nibble h hh =
    (==_iff _ _).0 (all_below-entry (λ h. u8 (bit_or 0 (h * 16)) == h * 16) 16 h hh high_table)

pub hexchtoint-lt : (c : ℕ) {n : ℕ} → hexchtoint c ≡ some n → n < 16
unfolding hexchtoint
hexchtoint-lt c h = ground arith

pub classify-IsNibble : (c : ℕ) {n : Nibble} → classify c ≡ some n → IsNibble n
unfolding classify
classify-IsNibble c {n = wild} h = tt
classify-IsNibble c {n = known k} h = ground (arith, hexchtoint-lt c {n = k})

put_nibble_skip : (c shift : ℕ) (b : PatternByte) → classify c ≡ none → put_nibble c shift b ≡ none
unfolding classify put_nibble
put_nibble_skip c shift b h = ground arith

put_nibble_high :
    (c : ℕ) (n : Nibble) → classify c ≡ some n → put_nibble c 4 clear ≡ some (partial n)
unfolding classify put_nibble
put_nibble_high c wild h = ground arith
put_nibble_high c (known k) h = ground (arith, hexchtoint-lt c {n = k}, low_nibble k, high_nibble k)

put_nibble_low :
    (c : ℕ) (h n : Nibble)
    → IsNibble h
    → classify c ≡ some n
    → put_nibble c 0 (partial h) ≡ some (whole h n)
unfolding classify put_nibble whole
put_nibble_low c wild wild i e = ground arith
put_nibble_low c (known m) wild i e = ground arith
put_nibble_low c wild (known k) i e =
    ground (arith, hexchtoint-lt c {n = k}, low_nibble k, join_nibbles 0 k)
put_nibble_low c (known m) (known k) i e =
    ground (arith, hexchtoint-lt c {n = k}, low_nibble k, join_nibbles m k)

-- The loop between two bytes, and inside one.
abbrev even : List PatternByte → Compiler
even out = record { b = clear; shift = 4; compiled_pattern = out }

abbrev odd : Nibble → List PatternByte → Compiler
odd h out = record { b = partial h; shift = 0; compiled_pattern = out }

compile_step-skip : (s : Compiler) (c : ℕ) → classify c ≡ none → compile_step s c ≡ s
unfolding compile_step
compile_step-skip s c h = rw (put_nibble_skip c s.shift s.b h, compile_step)

compile_step-even :
    (out : List PatternByte) (c : ℕ) (n : Nibble)
    → classify c ≡ some n
    → compile_step (even out) c ≡ odd n out
unfolding compile_step advance
compile_step-even out c n h = rw (put_nibble_high c n h, compile_step)

compile_step-odd :
    (h : Nibble) (out : List PatternByte) (c : ℕ) (n : Nibble)
    → IsNibble h
    → classify c ≡ some n
    → compile_step (odd h out) c ≡ even (out ++ (whole h n ∷ []))
unfolding compile_step advance
compile_step-odd h out c n i e = rw (put_nibble_low c h n i e, compile_step)

nibbles-skip : (c : ℕ) (cs : List ℕ) → classify c ≡ none → nibbles (c ∷ cs) ≡ nibbles cs
unfolding nibbles
nibbles-skip c cs h = rw (h, nibbles)

nibbles-some :
    (c : ℕ) (cs : List ℕ) (n : Nibble) → classify c ≡ some n → nibbles (c ∷ cs) ≡ n ∷ nibbles cs
unfolding nibbles
nibbles-some c cs n h = rw (h, nibbles)

compile_end-odd :
    (h : Nibble) (out : List PatternByte) → compile_end (odd h out) ≡ out ++ (half h ∷ [])
unfolding compile_end half
compile_end-odd wild out = refl
compile_end-odd (known n) out = refl

-- One round of the loop whose result is known.
compile_loop-cons :
    (s : Compiler) {t : Compiler} (c : ℕ) (cs : List ℕ)
    → compile_step s c ≡ t
    → compile_end (compile_loop s (c ∷ cs)) ≡ compile_end (compile_loop t cs)
unfolding compile_loop
compile_loop-cons s c cs e = ap (λ t. compile_end (compile_loop t cs)) e

-- From a state of the loop, the rest of the text adds its bytes to those already compiled.
compile_loop-assemble :
    (cs : List ℕ) (out : List PatternByte)
    → (compile_end (compile_loop (even out) cs) ≡ out ++ assemble (nibbles cs))
      × ((h : Nibble)
          → IsNibble h
          → compile_end (compile_loop (odd h out) cs) ≡ out ++ assemble (h ∷ nibbles cs))
unfolding assemble
compile_loop-assemble [] out = (
  unfold compile_loop compile_end nibbles in sym (append-nil out),
  λ h i. unfold compile_loop nibbles in compile_end-odd h out,
)
compile_loop-assemble (c ∷ cs) out = elim (Option-cases (classify c)) [
  | inl skip ↦ rw (nibbles-skip c cs skip) (
    compile_loop-cons _ c cs (compile_step-skip (even out) c skip)
        ∙ (compile_loop-assemble cs out).0,
    λ h i.
        compile_loop-cons _ c cs (compile_step-skip (odd h out) c skip)
        ∙ (compile_loop-assemble cs out).1 h i,
  )
  | inr (n, e) ↦ rw (nibbles-some c cs n e) (
    compile_loop-cons _ c cs (compile_step-even out c n e)
        ∙ (compile_loop-assemble cs out).1 n (classify-IsNibble c e),
    λ h i.
        compile_loop-cons _ c cs (compile_step-odd h out c n i e)
        ∙ (compile_loop-assemble cs (out ++ (whole h n ∷ []))).0
        ∙ append_assoc out _ _,
  )
]

-- The compiled pattern of a text is the sequence of its nibbles, put together two by two.
pub compile_pattern-assemble : (p : List ℕ) → compile_pattern p ≡ assemble (nibbles p)
unfolding compile_pattern
compile_pattern-assemble p = (compile_loop-assemble p []).0
