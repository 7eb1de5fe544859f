-- ===== src/Regex/Matches.antt =====
-- The matcher against a declarative reading of the expressions.
use mathlib.Core.Path.{subst}
use loginhelper.Prelude.{
  ℕ, ◌-◌, ◌≡◌, refl, ap, ◌≢◌, ◌⊎◌, inl, inr, Bool, true, List, [], ◌∷◌, ◌++◌, Option, none, some,
  Bool-cases, arith, length, take, All,
}
use loginhelper.Regex.{
  Regex, empty, lit, class, star, seq, alt, group, eol, Captures, Continuation, to_lower, or_else,
  repeat, run, search_text,
}

-- `Matches r s caps s' caps'`: the expression takes the front of `s`, leaves `s'`, and turns the
-- sub-matches `caps` into `caps'`.
abbrev pub Matches : Regex → List ℕ → Captures → List ℕ → Captures → Type 0
Matches empty s caps s' caps' = (s' ≡ s) × (caps' ≡ caps)
Matches (lit c) s caps s' caps' =
    (x : ℕ) × (s ≡ x ∷ s') × (to_lower x ≡ to_lower c) × (caps' ≡ caps)
Matches (class p) s caps s' caps' = (x : ℕ) × (s ≡ x ∷ s') × (p x ≡ true) × (caps' ≡ caps)
Matches (star p) s caps s' caps' =
    (w : List ℕ) × (s ≡ w ++ s') × All (λ x. p x ≡ true) w × (caps' ≡ caps)
Matches (seq a b) s caps s' caps' =
    (t : List ℕ) × (mid : Captures) × Matches a s caps t mid × Matches b t mid s' caps'
Matches (alt a b) s caps s' caps' = Matches a s caps s' caps' ⊎ Matches b s caps s' caps'
Matches (group n r) s caps s' caps' =
    (mid : Captures) × Matches r s caps s' mid × (caps' ≡ (n, take (length s - length s') s) ∷ mid)
Matches eol s caps s' caps' = (s ≡ []) × (s' ≡ []) × (caps' ≡ caps)

-- What a successful run went through.
abbrev pub Through : Regex → List ℕ → Captures → Continuation → Captures → Type 0
Through r s caps k out =
    (s' : List ℕ) × (caps' : Captures) × Matches r s caps s' caps' × (k s' caps' ≡ some out)

or_else-some :
    (a b : Option Captures) {out : Captures}
    → or_else a b ≡ some out
    → (a ≡ some out) ⊎ (b ≡ some out)
unfolding or_else
or_else-some none b h = inr h
or_else-some (some c) b h = inl h

repeat_sound :
    (p : ℕ → Bool) (s : List ℕ) (caps : Captures) (k : Continuation) {out : Captures}
    → repeat p s caps k ≡ some out
    → Through (star p) s caps k out
unfolding repeat
repeat_sound p [] caps k h = ([], caps, ([], refl, tt, refl), h)
repeat_sound p (x ∷ xs) caps k {out} h = elim (Bool-cases (p x)) [
  | inl e ↦ elim (or_else-some _ _ (rw e at h)) [
    | inl longer ↦
        let (s', caps', (w, split, ok, same), done) = repeat_sound p xs caps k longer in
        (s', caps', (x ∷ w, ap (◌∷◌ x) split, (e, ok), same), done)
    | inr now ↦ (x ∷ xs, caps, ([], refl, tt, refl), now)
  ]
  | inr e ↦ (x ∷ xs, caps, ([], refl, tt, refl), rw e at h)
]

-- Whatever a run finds is a match of the expression, followed by what the rest accepts.
run_sound :
    (r : Regex) (s : List ℕ) (caps : Captures) (k : Continuation) {out : Captures}
    → run r s caps k ≡ some out
    → Through r s caps k out
unfolding run
run_sound empty s caps k h = (s, caps, (refl, refl), h)
run_sound (lit c) [] caps k h = cc
run_sound (lit c) (x ∷ xs) caps k h = (xs, caps, (x, refl, ground arith, refl), ground arith)
run_sound (class p) [] caps k h = cc
run_sound (class p) (x ∷ xs) caps k h = (xs, caps, (x, refl, ground arith, refl), ground arith)
run_sound (star p) s caps k h = repeat_sound p s caps k h
run_sound (seq a b) s caps k h =
    let (t, mid, first, h') = run_sound a s caps (λ s' caps'. run b s' caps' k) h in
    let (s', caps', second, done) = run_sound b t mid k h' in
    (s', caps', (t, mid, first, second), done)
run_sound (alt a b) s caps k h = elim (or_else-some _ _ h) [
  | inl l ↦ let (s', caps', m, done) = run_sound a s caps k l in (s', caps', inl m, done)
  | inr l ↦ let (s', caps', m, done) = run_sound b s caps k l in (s', caps', inr m, done)
]
run_sound (group n r) s caps k h =
    let (s', mid, m, done) =
      run_sound r s caps (λ s' caps'. k s' ((n, take (length s - length s') s) ∷ caps')) h in
    (s', (n, take (length s - length s') s) ∷ mid, (mid, m, refl), done)
run_sound eol [] caps k h = ([], caps, (refl, refl, refl), h)
run_sound eol (x ∷ xs) caps k h = cc

or_else-left : (a b : Option Captures) → a ≢ none → or_else a b ≢ none
unfolding or_else
or_else-left a b h = ground arith

or_else-right : (a b : Option Captures) → b ≢ none → or_else a b ≢ none
unfolding or_else
or_else-right a b h = ground arith

repeat-stop :
    (p : ℕ → Bool) (s : List ℕ) (caps : Captures) (k : Continuation)
    → k s caps ≢ none
    → repeat p s caps k ≢ none
unfolding repeat
repeat-stop p [] caps k h = h
repeat-stop p (x ∷ xs) caps k h = elim (Bool-cases (p x)) [
  | inl e ↦ rw e (or_else-right _ _ h)
  | inr e ↦ rw e h
]

repeat_complete :
    (p : ℕ → Bool) (w s' : List ℕ) (caps : Captures) (k : Continuation)
    → All (λ x. p x ≡ true) w
    → k s' caps ≢ none
    → repeat p (w ++ s') caps k ≢ none
unfolding repeat
repeat_complete p [] s' caps k ok h = repeat-stop p s' caps k h
repeat_complete p (x ∷ w) s' caps k ok h =
    rw ok.0 (or_else-left _ _ (repeat_complete p w s' caps k ok.1 h))

-- If some match is followed by what the rest accepts, the run finds one.
run_complete :
    (r : Regex) (s : List ℕ) (caps : Captures) (k : Continuation) (s' : List ℕ) (caps' : Captures)
    → Matches r s caps s' caps'
    → k s' caps' ≢ none
    → run r s caps k ≢ none
unfolding run
run_complete empty s caps k s' caps' (e, f) h = rw (← e, ← f) h
run_complete (lit c) s caps k s' caps' (x, e, same, f) h = rw e (ground arith)
run_complete (class p) s caps k s' caps' (x, e, ok, f) h = rw e (ground arith)
run_complete (star p) s caps k s' caps' (w, e, ok, f) h =
    rw e (repeat_complete p w s' caps k ok (rw f at h))
run_complete (seq a b) s caps k s' caps' (t, mid, first, second) h =
    run_complete a s caps _ t mid first (run_complete b t mid k s' caps' second h)
run_complete (alt a b) s caps k s' caps' (inl m) h =
    or_else-left _ _ (run_complete a s caps k s' caps' m h)
run_complete (alt a b) s caps k s' caps' (inr m) h =
    or_else-right _ _ (run_complete b s caps k s' caps' m h)
run_complete (group n r) s caps k s' caps' (mid, m, e) h =
    run_complete r s caps _ s' mid m (rw e at h)
run_complete eol s caps k s' caps' (e, f, g) h = rw e (rw (f, g) at h)

-- A text has a match of the expression somewhere, which sets the sub-matches `caps`.
abbrev pub Occurs : Regex → List ℕ → Captures → Type 0
Occurs r s caps =
    (before : List ℕ) × (here : List ℕ) × (after : List ℕ) × (s ≡ before ++ here)
    × Matches r here [] after caps

match_here :
    (r : Regex) (s : List ℕ) {caps : Captures}
    → run r s [] (λ s caps. some caps) ≡ some caps
    → Occurs r s caps
match_here r s h =
    let (after, caps', m, e) = run_sound r s [] (λ s caps. some caps) h in
    ([], s, after, refl, subst (Matches r s [] after) (caps_eq e) m)
  where
    caps_eq : {a b : Captures} → some a ≡ some b → a ≡ b
    caps_eq e = cc

-- A search that finds something has found an occurrence of the expression.
pub search_text_sound :
    (r : Regex) (s : List ℕ) {caps : Captures} → search_text r s ≡ some caps → Occurs r s caps
unfolding search_text
search_text_sound r [] h = match_here r [] h
search_text_sound r (x ∷ xs) h = elim (or_else-some _ _ h) [
  | inl now ↦ match_here r (x ∷ xs) now
  | inr later ↦
      let (before, here, after, split, m) = search_text_sound r xs later in
      (x ∷ before, here, after, ap (◌∷◌ x) split, m)
]

-- A search finds something in every text in which the expression occurs.
pub search_text_complete :
    (r : Regex) (before here after : List ℕ) (caps : Captures)
    → Matches r here [] after caps
    → search_text r (before ++ here) ≢ none
unfolding search_text
search_text_complete r [] [] after caps m = run_complete r [] [] _ after _ m (λ e. cc)
search_text_complete r [] (x ∷ xs) after caps m =
    or_else-left _ _ (run_complete r (x ∷ xs) [] _ after _ m (λ e. cc))
search_text_complete r (x ∷ before) here after caps m =
    or_else-right _ _ (search_text_complete r before here after caps m)
