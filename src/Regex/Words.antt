-- ===== src/Regex/Words.antt =====
-- The pieces that the expressions for arguments share, and those for an argument that is one word,
-- as ` -KEEPPIN`.
use loginhelper.Prelude.{
  true, ◌==◌, ◌||◌, ◌⊎◌, ℕ, ◌≡◌, ◌≢◌, refl, sym, ap, ◌∙◌, ◌↔◌, inl, inr, List, [], ◌∷◌, ◌++◌, none,
  Option-cases, arith,
}
use mathlib.Core.Path.{subst}
use loginhelper.Regex.{lit, seq, Captures, to_lower, search_text}
use loginhelper.Regex.Matches.{Matches, search_text_sound, search_text_complete}
use loginhelper.Regex.Patterns.{text, ends, opt, separator, quote}

-- The same text, but for the case of its letters.
abbrev pub SameLetters : List ℕ → List ℕ → Type 0
SameLetters [] [] = Unit
SameLetters [] (d ∷ ds) = ⊥
SameLetters (c ∷ cs) [] = ⊥
SameLetters (c ∷ cs) (d ∷ ds) = (to_lower c ≡ to_lower d) × SameLetters cs ds

-- A word ends at the end of the command line or at a space.
abbrev pub IsBreak : List ℕ → Type 0
IsBreak [] = Unit
IsBreak (c ∷ cs) = c ≡ b' '

-- The command line has the word somewhere.
abbrev pub HasWord : List ℕ → List ℕ → Type 0
HasWord word line =
    (before : List ℕ) × (here : List ℕ) × (after : List ℕ) × (line ≡ before ++ (here ++ after))
    × SameLetters here word
    × IsBreak after

pub text-SameLetters :
    (word s : List ℕ) (caps : Captures) (s' : List ℕ) (caps' : Captures)
    → Matches (text word) s caps s' caps'
    → (here : List ℕ) × (s ≡ here ++ s') × SameLetters here word × (caps' ≡ caps)
unfolding text
text-SameLetters [] s caps s' caps' (e, f) = ([], sym e, tt, f)
text-SameLetters (d ∷ word) s caps s' caps' (t, mid, (x, e, same, f), rest) =
    let (here, g, alike, h) = text-SameLetters word t mid s' caps' rest in
    (x ∷ here, e ∙ ap (◌∷◌ x) g, (same, alike), h ∙ f)

pub SameLetters-text :
    (word here s' : List ℕ) (caps : Captures)
    → SameLetters here word
    → Matches (text word) (here ++ s') caps s' caps
unfolding text
SameLetters-text [] [] s' caps alike = (refl, refl)
SameLetters-text [] (c ∷ here) s' caps alike = elim alike [ ]
SameLetters-text (d ∷ word) [] s' caps alike = elim alike [ ]
SameLetters-text (d ∷ word) (c ∷ here) s' caps (same, alike) =
    (here ++ s', caps, (c, refl, same, refl), SameLetters-text word here s' caps alike)

is_space : (c : ℕ) → to_lower c ≡ to_lower b' ' → c ≡ b' '
unfolding to_lower
is_space c e = ground arith

pub ends-IsBreak :
    (s : List ℕ) (caps : Captures) (s' : List ℕ) (caps' : Captures)
    → Matches ends s caps s' caps'
    → IsBreak s
unfolding ends
ends-IsBreak s caps s' caps' (inl (e, f, g)) = subst IsBreak (sym e) tt
ends-IsBreak s caps s' caps' (inr (x, e, same, f)) = subst IsBreak (sym e) (is_space x same)

pub IsBreak-ends :
    (s : List ℕ) (caps : Captures) → IsBreak s → (s' : List ℕ) × Matches ends s caps s' caps
unfolding ends
IsBreak-ends [] caps h = ([], inl (refl, refl, refl))
IsBreak-ends (c ∷ cs) caps h = (cs, inr (c, refl, ap to_lower h, refl))

-- What the end of an argument captures: nothing.
pub ends_lem :
    (s : List ℕ) (caps : Captures) (s' : List ℕ) (caps' : Captures)
    → Matches ends s caps s' caps'
    → caps' ≡ caps
unfolding ends
ends_lem s caps s' caps' (inl (e, f, g)) = g
ends_lem s caps s' caps' (inr (x, e, same, f)) = f

-- A quote that may be there.
abbrev pub IsQuote : List ℕ → Type 0
IsQuote q = (q ≡ []) ⊎ (q ≡ quote ∷ [])

pub is_quote : (c : ℕ) → to_lower c ≡ to_lower quote → c ≡ quote
unfolding to_lower
is_quote c e = ground arith

pub opt-IsQuote :
    (s : List ℕ) (caps : Captures) (s' : List ℕ) (caps' : Captures)
    → Matches (opt (lit quote)) s caps s' caps'
    → (q : List ℕ) × (s ≡ q ++ s') × IsQuote q × (caps' ≡ caps)
unfolding opt
opt-IsQuote s caps s' caps' (inl (x, e, same, f)) =
    (x ∷ [], e, inr (ap (λ (c : ℕ). c ∷ []) (is_quote x same)), f)
opt-IsQuote s caps s' caps' (inr (e, f)) = ([], sym e, inl refl, f)

pub IsQuote-opt :
    (q s' : List ℕ) (caps : Captures) → IsQuote q → Matches (opt (lit quote)) (q ++ s') caps s' caps
unfolding opt
IsQuote-opt q s' caps (inl e) = rw e (inr (refl, refl))
IsQuote-opt q s' caps (inr e) = rw e (inl (quote, refl, refl, refl))

pub is_separator : (c : ℕ) → (c ≡ b':') ⊎ (c ≡ b'=') → (c == b':' || c == b'=') ≡ true
is_separator c h = ground arith

pub separator-IsSeparator :
    (s : List ℕ) (caps : Captures) (s' : List ℕ) (caps' : Captures)
    → Matches separator s caps s' caps'
    → (c : ℕ) × (s ≡ c ∷ s') × ((c ≡ b':') ⊎ (c ≡ b'=')) × (caps' ≡ caps)
unfolding separator
separator-IsSeparator s caps s' caps' (c, e, ok, f) = (c, e, ground arith, f)

-- The search for a word with an end finds it exactly where it is there.
pub search_text-HasWord :
    (word line : List ℕ) → (search_text (seq (text word) ends) line ≢ none) ↔ HasWord word line
search_text-HasWord word line = (found, present)
  where
    found : search_text (seq (text word) ends) line ≢ none → HasWord word line
    found some_caps = elim (Option-cases (search_text (seq (text word) ends) line)) [
      | inl missing ↦ absurd (some_caps missing)
      | inr (caps, e) ↦
          let (before, here, rest, split, (after, mid, m, end)) = search_text_sound _ line e in
          let (taken, f, alike, same) = text-SameLetters word here [] after mid m in
          (
            before,
            taken,
            after,
            split ∙ ap (λ (t : List ℕ). before ++ t) f,
            alike,
            ends-IsBreak after mid rest caps end,
          )
    ]

    present : HasWord word line → search_text (seq (text word) ends) line ≢ none
    present (before, here, after, split, alike, break) =
        let (rest, end) = IsBreak-ends after [] break in
        rw split (
          search_text_complete (seq (text word) ends) before (here ++ after) rest []
            (after, [], SameLetters-text word here after [] alike, end))
