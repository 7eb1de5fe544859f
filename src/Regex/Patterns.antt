-- ===== src/Regex/Patterns.antt =====
-- The expressions of src/loginhelper: ` -PIN…` (LoginOtp.h), ` -USERNAME…` and ` -PASSWORD…`
-- (Lobby.h), ` -KEEPPIN` and ` -FIXPROGRAMID` (dllmain.cpp).
use loginhelper.Prelude.{ℕ, suc, zero, Bool, not, ◌&&◌, ◌||◌, List, [], ◌∷◌, leb, ◌==◌, codes}
use loginhelper.Regex.{Regex, empty, lit, class, star, seq, alt, group, eol}

-- A literal text.
unfoldable pub text : List ℕ → Regex
text [] = empty
text (c ∷ cs) = seq (lit c) (text cs)

unfoldable pub opt : Regex → Regex
opt r = alt r empty

unfoldable pub times : ℕ → Regex → Regex
times zero r = empty
times (suc n) r = seq r (times n r)

unfoldable pub is_digit : ℕ → Bool
is_digit c = leb b'0' c && leb c b'9'

abbrev pub quote : ℕ
quote = 34

unfoldable pub not_quote : ℕ → Bool
not_quote c = not (c == quote)

unfoldable pub not_quote_or_space : ℕ → Bool
not_quote_or_space c = not (c == quote || c == b' ')

-- `(?:$| )`.
unfoldable pub ends : Regex
ends = alt eol (lit b' ')

-- `[:=]`.
unfoldable pub separator : Regex
separator = class (λ c. c == b':' || c == b'=')

-- ` -PIN[:=]"?([0-9]{6})"?(?:$| )`
unfoldable pub pin_regex : Regex
unfolding text opt times ends separator
pin_regex = seq (text (codes " -PIN")) (
    seq separator (
      seq (opt (lit quote))
        (seq (group 1 (times 6 (class is_digit))) (seq (opt (lit quote)) ends))))

-- ` -USERNAME[:=]"?([^ "]*)"?(?:$| )`
unfoldable pub username_regex : Regex
unfolding text opt ends separator
username_regex = seq (text (codes " -USERNAME")) (
    seq separator (
      seq (opt (lit quote)) (seq (group 1 (star not_quote_or_space)) (seq (opt (lit quote)) ends))))

-- ` -PASSWORD[:=](?:"([^"]*)"|([^ "]*))(?:$| )`
unfoldable pub password_regex : Regex
unfolding text ends separator
password_regex = seq (text (codes " -PASSWORD")) (
    seq separator (
      seq
        (alt (seq (lit quote) (seq (group 1 (star not_quote)) (lit quote)))
          (group 2 (star not_quote_or_space)))
        ends))

-- ` -KEEPPIN(?:$| )`
unfoldable pub keeppin_regex : Regex
unfolding text ends
keeppin_regex = seq (text (codes " -KEEPPIN")) ends

-- ` -FIXPROGRAMID(?:$| )`
unfoldable pub fixprogramid_regex : Regex
unfolding text ends
fixprogramid_regex = seq (text (codes " -FIXPROGRAMID")) ends
