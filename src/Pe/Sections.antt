-- ===== src/Pe/Sections.antt =====
-- The sections of a module and their names.
use mathlib.Core.Path.{subst}
use loginhelper.Prelude.{
  ℕ, zero, suc, ◌+◌, ◌*◌, ◌^◌, ◌<◌, ◌≡◌, ◌≢◌, refl, sym, ap, ◌∙◌, ◌⊎◌, inl, inr, ◌↔◌, Bool, true,
  List, [], ◌∷◌, ◌++◌, Option, none, some, ◌==◌, ==_iff, Bool-cases, get_elem?, All, u64, arith,
}
use loginhelper.NtString.{same_text}
use loginhelper.NtString.Words.{same_text_sound}
use loginhelper.Pe.{
  Winnt, nt_header, size, section_span, segments, up_to_zero, segment_name, find_if, segment,
  export_directory, contains_code, code_bytes, section_bytes, address_of,
}

same_text_self : (xs : List ℕ) → same_text xs xs ≡ true
unfolding same_text
same_text_self [] = refl
same_text_self (x ∷ xs) = ground (arith, same_text_self xs)

pub same_text_iff : (xs ys : List ℕ) → (same_text xs ys ≡ true) ↔ (xs ≡ ys)
same_text_iff xs ys =
    (same_text_sound xs ys, λ e. ap (λ (t : List ℕ). same_text xs t) (sym e) ∙ same_text_self xs)

-- The first element with a property, or none where none has it.
abbrev pub FindsFirst : (ℕ → Type 0) → List ℕ → Option ℕ → Type 0
FindsFirst Good xs none = All (λ x. ¬ Good x) xs
FindsFirst Good xs (some x) =
    (before : List ℕ) × (after : List ℕ) × (xs ≡ before ++ (x ∷ after))
    × Good x
    × All (λ x. ¬ Good x) before

module _ {World : Type 0} (nt : Winnt World) where
  find_if-FindsFirst :
      (Good : ℕ → Type 0) (test : ℕ → Bool) (xs : List ℕ)
      → ((x : ℕ) → (test x ≡ true) ↔ Good x)
      → FindsFirst Good xs (find_if nt test xs)
  unfolding find_if
  find_if-FindsFirst Good test [] decides = tt
  find_if-FindsFirst Good test (x ∷ xs) decides = elim (Bool-cases (test x)) [
    | inl passes ↦ rw passes ([], xs, refl, (decides x).0 passes, tt)
    | inr other ↦ rw other (
        later (find_if nt test xs) (λ good. cc (other, (decides x).1 good))
          (find_if-FindsFirst Good test xs decides))
  ]
    where
      later : (o : Option ℕ) → ¬ Good x → FindsFirst Good xs o → FindsFirst Good (x ∷ xs) o
      later none bad found = (bad, found)
      later (some y) bad (before, after, split, good, none_before) =
          (x ∷ before, after, ap (◌∷◌ x) split, good, (bad, none_before))

  -- The name of a section: the front of its field up to the first zero, if there is one.
  abbrev pub IsName : List ℕ → List ℕ → Type 0
  IsName field name =
      (rest : List ℕ) × (field ≡ name ++ rest)
      × All (λ c. c ≢ 0) name
      × ((rest ≡ []) ⊎ ((behind : List ℕ) × (rest ≡ 0 ∷ behind)))

  up_to_zero-front : (field : List ℕ) → IsName field (up_to_zero nt field)
  unfolding up_to_zero
  up_to_zero-front [] = ([], refl, tt, inl refl)
  up_to_zero-front (c ∷ cs) = elim (Bool-cases (c == 0)) [
    | inl end ↦ rw end (c ∷ cs, refl, tt, inr (cs, ap (λ (x : ℕ). x ∷ cs) ((==_iff c 0).0 end)))
    | inr more ↦
        let (rest, split, clean, tail) = up_to_zero-front cs in
        rw more (rest, ap (◌∷◌ c) split, ((λ e. ground (arith, more, e)), clean), tail)
  ]

  up_to_zero-append :
      (name rest : List ℕ)
      → All (λ c. c ≢ 0) name
      → (rest ≡ []) ⊎ ((behind : List ℕ) × (rest ≡ 0 ∷ behind))
      → up_to_zero nt (name ++ rest) ≡ name
  unfolding up_to_zero
  up_to_zero-append [] rest clean (inl e) = rw e refl
  up_to_zero-append [] rest clean (inr (behind, e)) = rw e refl
  up_to_zero-append (c ∷ cs) rest (inside, clean) end =
      ground (arith, up_to_zero-append cs rest clean end)

  segment_name_iff :
      (name : List ℕ) (x : ℕ) (w : World)
      → (same_text (segment_name nt x w) name ≡ true) ↔ IsName (nt.section_name x w) name
  unfolding segment_name
  segment_name_iff name x w = (
    λ e.
        subst (IsName (nt.section_name x w))
          ((same_text_iff (up_to_zero nt (nt.section_name x w)) name).0 e)
          (up_to_zero-front (nt.section_name x w)),
    λ h.
        (same_text_iff (up_to_zero nt (nt.section_name x w)) name).1
          (ap (up_to_zero nt) h.1 ∙ up_to_zero-append name h.0 h.2 h.3),
  )

  -- The section headers of a module stand one behind the other, from the first one on.
  section_span-get :
      (count first i : ℕ)
      → first < 2 ^ 64
      → i < count
      → get_elem? (section_span nt count first) i ≡ some (u64 (first + i * nt.sizeof_section))
  unfolding section_span
  section_span-get zero first i fits h = absurd (omega arith)
  section_span-get (suc count) first zero fits h = ap some (omega arith)
  section_span-get (suc count) first (suc i) fits h =
      section_span-get count (u64 (first + nt.sizeof_section)) i (omega arith) (omega arith)
      ∙ ap some (omega arith)

  -- `segment` finds the first of the module's sections with the name, which is the front of the
  -- section's field up to a zero or the end of the field; it gives `nullptr` if none has that name.
  pub segment-FindsFirst :
      (this : ℕ) (name : List ℕ) (w : World)
      → (found : Option ℕ) × (segment nt this name w ≡ address_of nt found)
        × FindsFirst (λ x. IsName (nt.section_name x w) name) (segments nt this w) found
  unfolding segment
  segment-FindsFirst this name w = (
    find_if nt (λ x. same_text (segment_name nt x w) name) (segments nt this w),
    refl,
    find_if-FindsFirst (λ x. IsName (nt.section_name x w) name) _ (segments nt this w)
        (λ x. segment_name_iff name x w),
  )

  -- A module whose headers lack one of their signatures has no size, no sections and no exports.
  pub nt_header-none :
      (this : ℕ) (name : List ℕ) (w : World)
      → nt_header nt this w ≡ 0
      → (size nt this w ≡ 0)
        × (segments nt this w ≡ [])
        × (segment nt this name w ≡ 0)
        × (export_directory nt this w ≡ 0)
        × (code_bytes nt this w ≡ none)
  unfolding size segments segment export_directory code_bytes find_if
  nt_header-none this name w missing = rw missing (ground arith, refl, refl, refl, refl)

  -- The code that is searched is that of the first section whose characteristics say so, and there is
  -- none if no section has that flag.
  pub code_bytes-FindsFirst :
      (this : ℕ) (w : World)
      → (found : Option ℕ) × (code_bytes nt this w ≡ section_bytes nt found w)
        × FindsFirst (λ x. contains_code nt x w ≡ true) (segments nt this w) found
  unfolding code_bytes
  code_bytes-FindsFirst this w = (
    find_if nt (λ x. contains_code nt x w) (segments nt this w),
    refl,
    find_if-FindsFirst (λ x. contains_code nt x w ≡ true) _ (segments nt this w)
        (λ x. (λ e. e, λ e. e)),
  )
