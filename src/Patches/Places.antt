-- ===== src/Patches/Places.antt =====
-- Where `findoffset` finds a pattern, and that it keeps what it found.
use loginhelper.Prelude.{
  ℕ, ◌+◌, ◌-◌, ◌%◌, ◌^◌, ◌<◌, ◌≡◌, ◌≢◌, refl, sym, ap, ◌∙◌, List, ◌==◌, ==_iff, Bool-cases, inl,
  inr, length, to_unsigned, arith,
}
use loginhelper.Searchers.{compile_pattern, pattern_searcher}
use loginhelper.Patches.{MemsetPattern, pattern_address, findoffset}

abbrev pub place_of : MemsetPattern → List ℕ → ℕ
place_of p bytes = (pattern_searcher (compile_pattern p.pattern) bytes).0

wrap_back : (x h : ℕ) → h < 2 ^ 64 → (h + (x + (2 ^ 64 - h)) % 2 ^ 64) % 2 ^ 64 ≡ x % 2 ^ 64
wrap_back x h fits = omega arith

module _ (p : MemsetPattern) (handle base : ℕ) (bytes : List ℕ) where
  abbrev place : ℕ
  place = (base + place_of p bytes + to_unsigned 64 p.offset + (2 ^ 64 - handle)) % 2 ^ 64

  findoffset_fresh :
      p.handle_offset ≡ 0
      → place_of p bytes ≢ length bytes
      → findoffset p handle base bytes ≡ (place, record p { handle_offset = place })
  unfolding findoffset
  findoffset_fresh fresh found = elim (Bool-cases (place_of p bytes == length bytes)) [
    | inl end ↦ absurd (found ((==_iff _ _).0 end))
    | inr inside ↦ simp (fresh, inside)
  ]

  findoffset_cached : p.handle_offset ≢ 0 → findoffset p handle base bytes ≡ (p.handle_offset, p)
  unfolding findoffset
  findoffset_cached known = elim (Bool-cases (p.handle_offset == 0)) [
    | inl none_yet ↦ absurd (known ((==_iff _ _).0 none_yet))
    | inr kept ↦ rw kept refl
  ]

  -- The answer is the field.
  findoffset-handle_offset :
      (findoffset p handle base bytes).1.handle_offset ≡ (findoffset p handle base bytes).0
  unfolding findoffset
  findoffset-handle_offset = elim (Bool-cases (p.handle_offset == 0)) [
    | inl fresh ↦ elim (Bool-cases (place_of p bytes == length bytes)) [
      | inl end ↦ rw (fresh, end) refl
      | inr inside ↦ rw (fresh, inside) refl
    ]
    | inr kept ↦ rw kept refl
  ]

  -- A pattern that was not looked for and is found has its address at the match, moved by the offset,
  -- modulo the size of the address space, in which the handle lies.
  pub pattern_address-findoffset :
      handle < 2 ^ 64
      → p.handle_offset ≡ 0
      → place_of p bytes ≢ length bytes
      → pattern_address (findoffset p handle base bytes).1 handle
        ≡ (base + place_of p bytes + to_unsigned 64 p.offset) % 2 ^ 64
  unfolding pattern_address
  pattern_address-findoffset h fresh found =
      rw (findoffset_fresh fresh found)
        (wrap_back (base + place_of p bytes + to_unsigned 64 p.offset) handle h)

-- After an answer that is not 0, a second call gives that answer and changes nothing, whatever the
-- module and the data.
pub findoffset_again :
    (p : MemsetPattern) (handle base : ℕ) (bytes : List ℕ) (handle' base' : ℕ) (bytes' : List ℕ)
    → (findoffset p handle base bytes).0 ≢ 0
    → findoffset (findoffset p handle base bytes).1 handle' base' bytes'
      ≡ findoffset p handle base bytes
findoffset_again p handle base bytes handle' base' bytes' h =
    let field = findoffset-handle_offset p handle base bytes in
    findoffset_cached _ handle' base' bytes' (λ e. h (sym field ∙ e))
    ∙ ap (λ (n : ℕ). (n, (findoffset p handle base bytes).1)) field
