-- ===== src/Regex/Tests.antt =====
-- Searches of command lines with the expressions of src/loginhelper.
use loginhelper.Prelude.{◌≢◌, ℕ, ◌≡◌, refl, List, [], ◌∷◌, ◌++◌, none, some, codes}
use loginhelper.Regex.Matches.{Occurs, search_text_sound, search_text_complete}
use loginhelper.Regex.{Regex, class, group, to_lower, or_else, repeat, run, search_text}
use loginhelper.Regex.Patterns.{
  is_digit, not_quote, not_quote_or_space, quote, pin_regex, username_regex, password_regex,
}

abbrev quoted : List ℕ → List ℕ
quoted s = quote ∷ (s ++ (quote ∷ []))

pin_found : search_text pin_regex (codes "a.exe -pin:123456 -x") ≡ some ((1, codes "123456") ∷ [])
unfolding pin_regex is_digit search_text run or_else to_lower
pin_found = refl

pin_too_long : search_text pin_regex (codes "a.exe -PIN:1234567") ≡ none
unfolding pin_regex is_digit search_text run or_else to_lower
pin_too_long = refl

password_quoted :
    search_text password_regex (codes "a -PASSWORD=" ++ quoted (codes "x y"))
    ≡ some ((1, codes "x y") ∷ [])
unfolding password_regex not_quote not_quote_or_space search_text run repeat or_else to_lower
password_quoted = refl

username_found :
    search_text username_regex (codes "a -UserName:me@x -PASSWORD:p")
    ≡ some ((1, codes "me@x") ∷ [])
unfolding username_regex not_quote_or_space search_text run repeat or_else to_lower
username_found = refl

-- A class of digits, with a group round it.
abbrev one_digit : Regex
one_digit = group 1 (class is_digit)

search_text_sound_example :
    Occurs pin_regex (codes "a.exe -pin:123456 -x") ((1, codes "123456") ∷ [])
search_text_sound_example = search_text_sound pin_regex (codes "a.exe -pin:123456 -x") pin_found

search_text_complete_example : search_text one_digit (codes "ab" ++ codes "7c") ≢ none
unfolding is_digit
search_text_complete_example =
    search_text_complete one_digit (codes "ab") (codes "7c") (codes "c") ((1, codes "7") ∷ [])
      ([], (b'7', refl, refl, refl), refl)
