-- ===== src/Regex/Pin.antt =====
-- What the expression for ` -PIN` captures.
use loginhelper.Prelude.{
  ◌⊎◌, ◌≢◌, none, codes, ℕ, zero, suc, ◌≡◌, refl, sym, ap, ◌∙◌, Bool, true, List, [], ◌∷◌, ◌++◌,
  some, arith, length, take-append, All,
}
use loginhelper.Regex.Words.{
  IsQuote, opt-IsQuote, IsQuote-opt, ends_lem, is_separator, separator-IsSeparator, SameLetters,
  IsBreak, text-SameLetters, SameLetters-text, ends-IsBreak, IsBreak-ends,
}
use loginhelper.Std.Decimal.{IsDigit}
use loginhelper.Regex.{class, Captures, lookup, search_text}
use loginhelper.Regex.Matches.{Matches, search_text_sound, search_text_complete}
use loginhelper.Regex.Patterns.{separator, times, is_digit, pin_regex}

-- A class repeated a given number of times takes so many of its characters, and captures nothing.
times_class :
    (n : ℕ) (p : ℕ → Bool) (s : List ℕ) (caps : Captures) (s' : List ℕ) (caps' : Captures)
    → Matches (times n (class p)) s caps s' caps'
    → (w : List ℕ) × (s ≡ w ++ s') × (length w ≡ n) × All (λ x. p x ≡ true) w × (caps' ≡ caps)
unfolding times
times_class zero p s caps s' caps' (e, f) = ([], sym e, refl, tt, f)
times_class (suc n) p s caps s' caps' (t, mid, (x, e, ok, f), rest) =
    let (w, g, count, oks, h) = times_class n p t mid s' caps' rest in
    (x ∷ w, e ∙ ap (◌∷◌ x) g, ap suc count, (ok, oks), h ∙ f)

class_times :
    (n : ℕ) (p : ℕ → Bool) (w s' : List ℕ) (caps : Captures)
    → length w ≡ n
    → All (λ x. p x ≡ true) w
    → Matches (times n (class p)) (w ++ s') caps s' caps
unfolding times
class_times zero p [] s' caps count ok = (refl, refl)
class_times zero p (x ∷ w) s' caps count ok = absurd (omega arith)
class_times (suc n) p [] s' caps count ok = absurd (omega arith)
class_times (suc n) p (x ∷ w) s' caps count ok =
    (w ++ s', caps, (x, refl, ok.0, refl), class_times n p w s' caps (omega arith) ok.1)

-- `-PIN` with a text of six decimal digits: behind a space and the name, in letters of whichever
-- case, a colon or an equals sign, the text, perhaps with quotes, and a space or the end.
abbrev pub HasPin : List ℕ → List ℕ → Type 0
HasPin pin line =
    (before : List ℕ) × (name : List ℕ) × (c : ℕ) × (o : List ℕ) × (q : List ℕ) × (after : List ℕ)
    × (line ≡ before ++ (name ++ (c ∷ (o ++ (pin ++ (q ++ after))))))
    × SameLetters name (codes " -PIN")
    × ((c ≡ b':') ⊎ (c ≡ b'='))
    × IsQuote o
    × (length pin ≡ 6)
    × All IsDigit pin
    × IsQuote q
    × IsBreak after

All-is_digit : (w : List ℕ) → All (λ x. is_digit x ≡ true) w → All IsDigit w
unfolding is_digit
All-is_digit [] h = tt
All-is_digit (x ∷ w) h = (ground arith, All-is_digit w h.1)

All-IsDigit : (w : List ℕ) → All IsDigit w → All (λ x. is_digit x ≡ true) w
unfolding is_digit
All-IsDigit [] h = tt
All-IsDigit (x ∷ w) h = (ground arith, All-IsDigit w h.1)

-- Where the expression for the PIN is found, its first group is the text of an argument -PIN.
pub pin_regex-HasPin :
    (s : List ℕ) {caps : Captures}
    → search_text pin_regex s ≡ some caps
    → (w : List ℕ) × (lookup 1 caps ≡ some w) × HasPin w s
unfolding pin_regex lookup
pin_regex-HasPin s {caps} found =
    let (before, here, rest, split, m) = search_text_sound pin_regex s found in
    let (t1, c1, prefix, (t2, c2, sep, (t3, c3, open_quote, behind))) = m in
    let (t4, c4, (mid, six, e4), (after, c5, shut, end)) = behind in
    let (name, e1, alike, f1) = text-SameLetters (codes " -PIN") here [] t1 c1 prefix in
    let (c, e2, is_sep, f2) = separator-IsSeparator t1 c1 t2 c2 sep in
    let (o, e3, first, f3) = opt-IsQuote t2 c2 t3 c3 open_quote in
    let (w, e, count, oks, same) = times_class 6 is_digit t3 c3 t4 mid six in
    let (q, e5, last, f5) = opt-IsQuote t4 c4 after c5 shut in
    let captured = ends_lem after c5 rest caps end ∙ f5 ∙ e4 in
    (
      w,
      rw (captured, lookup, e, take-append) refl,
      (
        before,
        name,
        c,
        o,
        q,
        after,
        rw (split, e1, e2, e3, e, e5) refl,
        alike,
        is_sep,
        first,
        count,
        All-is_digit w oks,
        last,
        ends-IsBreak after c5 rest caps end,
      ),
    )

-- Of a line with an argument -PIN the search finds one.
pub HasPin-pin_regex : (w s : List ℕ) → HasPin w s → search_text pin_regex s ≢ none
unfolding pin_regex separator
HasPin-pin_regex w s
      (before, name, c, o, q, after, split, alike, is_sep, first, count, digits, last, stop) =
    let caps : Captures = (1, w) ∷ [] in
    let (rest, end) = IsBreak-ends after caps stop in
    rw split (
      search_text_complete pin_regex before (name ++ (c ∷ (o ++ (w ++ (q ++ after))))) rest caps (
        c ∷ (o ++ (w ++ (q ++ after))),
        [],
        SameLetters-text (codes " -PIN") name (c ∷ (o ++ (w ++ (q ++ after)))) [] alike,
        (
          o ++ (w ++ (q ++ after)),
          [],
          (c, refl, is_separator c is_sep, refl),
          (
            w ++ (q ++ after),
            [],
            IsQuote-opt o (w ++ (q ++ after)) [] first,
            (
              q ++ after,
              caps,
              (
                [],
                class_times 6 is_digit w (q ++ after) [] count (All-IsDigit w digits),
                ap (λ (t : List ℕ). (1, t) ∷ []) (sym (take-append w (q ++ after))),
              ),
              (after, caps, IsQuote-opt q after caps last, end),
            ),
          ),
        ),
      ))

pub HasPin-six : (w s : List ℕ) → HasPin w s → length w ≡ 6
HasPin-six w s
      (before, name, c, o, q, after, split, alike, is_sep, first, count, digits, last, stop) =
    count
