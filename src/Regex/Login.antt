-- ===== src/Regex/Login.antt =====
-- What the expressions for ` -USERNAME` and ` -PASSWORD` capture.
use mathlib.Core.List.{append_assoc}
use loginhelper.Prelude.{
  Bool, ℕ, ◌≡◌, ◌≢◌, refl, sym, ap, ◌∙◌, ◌⊎◌, inl, inr, true, List, [], ◌∷◌, ◌++◌, none, some,
  take-append, All, codes,
}
use loginhelper.Regex.{Regex, seq, alt, Captures, lookup, search_text, star, group, lit}
use loginhelper.Regex.Matches.{Matches, search_text_sound, search_text_complete}
use loginhelper.Regex.Patterns.{
  separator, quote, not_quote, not_quote_or_space, username_regex, password_regex,
}
use loginhelper.Regex.Words.{
  IsQuote, opt-IsQuote, IsQuote-opt, ends_lem, is_separator, separator-IsSeparator, SameLetters,
  IsBreak, text-SameLetters, SameLetters-text, ends-IsBreak, IsBreak-ends, is_quote,
}

-- A text of characters of a class that a group takes whole.
group_star :
    (n : ℕ) (p : ℕ → Bool) (s s' : List ℕ) (caps caps' : Captures)
    → Matches (group n (star p)) s caps s' caps'
    → (w : List ℕ) × (s ≡ w ++ s') × All (λ x. p x ≡ true) w × (caps' ≡ (n, w) ∷ caps)
group_star n p s s' caps caps' (mid, (w, e, ok, f), g) = (w, e, ok, g ∙ rw (e, take-append, f) refl)

star_group :
    (n : ℕ) (p : ℕ → Bool) (w s' : List ℕ) (caps : Captures)
    → All (λ x. p x ≡ true) w
    → Matches (group n (star p)) (w ++ s') caps s' ((n, w) ∷ caps)
star_group n p w s' caps ok =
    (caps, (w, refl, ok, refl), ap (λ (t : List ℕ). (n, t) ∷ caps) (sym (take-append w s')))

-- `-USERNAME` with a text without quotes and spaces, perhaps with a quote before and behind it.
abbrev pub HasUser : List ℕ → List ℕ → Type 0
HasUser user line =
    (before : List ℕ) × (name : List ℕ) × (c : ℕ) × (o : List ℕ) × (q : List ℕ) × (after : List ℕ)
    × (line ≡ before ++ (name ++ (c ∷ (o ++ (user ++ (q ++ after))))))
    × SameLetters name (codes " -USERNAME")
    × ((c ≡ b':') ⊎ (c ≡ b'='))
    × IsQuote o
    × All (λ x. not_quote_or_space x ≡ true) user
    × IsQuote q
    × IsBreak after

-- A password between quotes, of what is no quote, or without them, of what is no quote and no space.
abbrev pub IsPassword : List ℕ → List ℕ → Type 0
IsPassword pass here =
    ((here ≡ quote ∷ (pass ++ (quote ∷ []))) × All (λ x. not_quote x ≡ true) pass)
    ⊎ ((here ≡ pass) × All (λ x. not_quote_or_space x ≡ true) pass)

abbrev pub HasPassword : List ℕ → List ℕ → Type 0
HasPassword pass line =
    (before : List ℕ) × (name : List ℕ) × (c : ℕ) × (here : List ℕ) × (after : List ℕ) × (line
      ≡ before ++ (name ++ (c ∷ (here ++ after))))
    × SameLetters name (codes " -PASSWORD")
    × ((c ≡ b':') ⊎ (c ≡ b'='))
    × IsPassword pass here
    × IsBreak after

pub username_regex-HasUser :
    (s : List ℕ) {caps : Captures}
    → search_text username_regex s ≡ some caps
    → (w : List ℕ) × (lookup 1 caps ≡ some w) × HasUser w s
unfolding username_regex lookup
username_regex-HasUser s {caps} found =
    let (before, here, rest, split, m) = search_text_sound username_regex s found in
    let (t1, c1, prefix, (t2, c2, sep, (t3, c3, open_quote, behind))) = m in
    let (t4, c4, taken, (after, c5, shut, end)) = behind in
    let (name, e1, alike, f1) = text-SameLetters (codes " -USERNAME") here [] t1 c1 prefix in
    let (c, e2, is_sep, f2) = separator-IsSeparator t1 c1 t2 c2 sep in
    let (o, e3, first, f3) = opt-IsQuote t2 c2 t3 c3 open_quote in
    let (w, e, ok, e4) = group_star 1 not_quote_or_space t3 t4 c3 c4 taken in
    let (q, e5, last, f5) = opt-IsQuote t4 c4 after c5 shut in
    let captured = ends_lem after c5 rest caps end ∙ f5 ∙ e4 in
    (
      w,
      rw (captured, lookup) refl,
      (
        before,
        name,
        c,
        o,
        q,
        after,
        rw (split, e1, e2, e3, e, e5) refl,
        alike,
        is_sep,
        first,
        ok,
        last,
        ends-IsBreak after c5 rest caps end,
      ),
    )

pub HasUser-username_regex : (w s : List ℕ) → HasUser w s → search_text username_regex s ≢ none
unfolding username_regex separator
HasUser-username_regex w s
      (before, name, c, o, q, after, split, alike, is_sep, first, ok, last, stop) =
    let caps : Captures = (1, w) ∷ [] in
    let (rest, end) = IsBreak-ends after caps stop in
    rw split (
      search_text_complete username_regex before (name ++ (c ∷ (o ++ (w ++ (q ++ after))))) rest
        caps
        (
          c ∷ (o ++ (w ++ (q ++ after))),
          [],
          SameLetters-text (codes " -USERNAME") name (c ∷ (o ++ (w ++ (q ++ after)))) [] alike,
          (
            o ++ (w ++ (q ++ after)),
            [],
            (c, refl, is_separator c is_sep, refl),
            (
              w ++ (q ++ after),
              [],
              IsQuote-opt o (w ++ (q ++ after)) [] first,
              (
                q ++ after,
                caps,
                star_group 1 not_quote_or_space w (q ++ after) [] ok,
                (after, caps, IsQuote-opt q after caps last, end),
              ),
            ),
          ),
        ))

-- The text of a password as the line has it.
password_text : Regex
password_text =
    alt (seq (lit quote) (seq (group 1 (star not_quote)) (lit quote)))
      (group 2 (star not_quote_or_space))

password_text-IsPassword :
    (s s' : List ℕ) (caps caps' : Captures)
    → Matches password_text s caps s' caps'
    → (pass : List ℕ) × (here : List ℕ) × (s ≡ here ++ s')
      × IsPassword pass here
      × ((caps' ≡ (1, pass) ∷ caps) ⊎ (caps' ≡ (2, pass) ∷ caps))
unfolding password_text
password_text-IsPassword s s' caps caps'
      (inl (t1, c1, (x, ex, sx, fx), (t2, c2, taken, (y, ey, sy, fy)))) =
    let (w, e, ok, f) = group_star 1 not_quote t1 t2 c1 c2 taken in
    (
      w,
      quote ∷ (w ++ (quote ∷ [])),
      rw (ex, e, ey, is_quote x sx, is_quote y sy)
          (ap (◌∷◌ quote) (sym (append_assoc w (quote ∷ []) s'))),
      inl (refl, ok),
      inl (fy ∙ f ∙ ap (◌∷◌ (1, w)) fx),
    )
password_text-IsPassword s s' caps caps' (inr taken) =
    let (w, e, ok, f) = group_star 2 not_quote_or_space s s' caps caps' taken in
    (w, w, e, inr (refl, ok), inr f)

IsPassword-password_text :
    (pass here s' : List ℕ) (caps : Captures)
    → IsPassword pass here
    → (caps' : Captures) × Matches password_text (here ++ s') caps s' caps'
unfolding password_text
IsPassword-password_text pass here s' caps (inl (e, ok)) = (
  (1, pass) ∷ caps,
  rw (e, append_assoc)
      (inl (
        pass ++ (quote ∷ s'),
        caps,
        (quote, refl, refl, refl),
        (
          quote ∷ s',
          (1, pass) ∷ caps,
          star_group 1 not_quote pass (quote ∷ s') caps ok,
          (quote, refl, refl, refl),
        ),
      )),
)
IsPassword-password_text pass here s' caps (inr (e, ok)) =
    ((2, pass) ∷ caps, rw e (inr (star_group 2 not_quote_or_space pass s' caps ok)))

pub password_regex-HasPassword :
    (s : List ℕ) {caps : Captures}
    → search_text password_regex s ≡ some caps
    → (w : List ℕ) × ((caps ≡ (1, w) ∷ []) ⊎ (caps ≡ (2, w) ∷ [])) × HasPassword w s
unfolding password_regex password_text
password_regex-HasPassword s {caps} found =
    let (before, here, rest, split, m) = search_text_sound password_regex s found in
    let (t1, c1, prefix, (t2, c2, sep, (after, c3, part, end))) = m in
    let (name, e1, alike, f1) = text-SameLetters (codes " -PASSWORD") here [] t1 c1 prefix in
    let (c, e2, is_sep, f2) = separator-IsSeparator t1 c1 t2 c2 sep in
    let (w, shown, e3, is_pass, taken) = password_text-IsPassword t2 after c2 c3 part in
    let last = ends_lem after c3 rest caps end in
    (
      w,
      elim taken [
        | inl f ↦ inl (last ∙ f ∙ ap (◌∷◌ (1, w)) (f2 ∙ f1))
        | inr f ↦ inr (last ∙ f ∙ ap (◌∷◌ (2, w)) (f2 ∙ f1))
      ],
      (
        before,
        name,
        c,
        shown,
        after,
        rw (split, e1, e2, e3) refl,
        alike,
        is_sep,
        is_pass,
        ends-IsBreak after c3 rest caps end,
      ),
    )

pub HasPassword-password_regex :
    (w s : List ℕ) → HasPassword w s → search_text password_regex s ≢ none
unfolding password_regex separator password_text
HasPassword-password_regex w s (before, name, c, here, after, split, alike, is_sep, is_pass, stop) =
    let (caps, part) = IsPassword-password_text w here after [] is_pass in
    let (rest, end) = IsBreak-ends after caps stop in
    rw split (
      search_text_complete password_regex before (name ++ (c ∷ (here ++ after))) rest caps (
        c ∷ (here ++ after),
        [],
        SameLetters-text (codes " -PASSWORD") name (c ∷ (here ++ after)) [] alike,
        (here ++ after, [], (c, refl, is_separator c is_sep, refl), (after, caps, part, end)),
      ))
