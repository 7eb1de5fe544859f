-- ===== src/Regex.antt =====
-- The part of std::wregex (ECMAScript, icase) that LoginOtp.h, Lobby.h and dllmain.cpp of
-- src/loginhelper use: literals, classes, repeated classes, sequence, alternatives, groups and `$`,
-- matched greedily with backtracking. A class holds no letters there, so case concerns literals
-- alone; `$` holds at the end of the subject, a command line having no line terminator.
pub mod Login
pub mod Matches
pub mod Patterns
pub mod Pin
pub mod Words
mod Tests
use loginhelper.Prelude.{
  ℕ, suc, ◌+◌, ◌-◌, Bool, true, false, ◌&&◌, List, [], ◌∷◌, Option, none, some, leb, ◌==◌,
  if◌then◌else◌, length, take,
}

pub data Regex : Type 0 where
  empty : Regex
  lit : ℕ → Regex
  class : (ℕ → Bool) → Regex
  star : (ℕ → Bool) → Regex
  seq : Regex → Regex → Regex
  alt : Regex → Regex → Regex
  group : ℕ → Regex → Regex
  eol : Regex

-- The sub-matches set so far, the latest first.
abbrev pub Captures : Type 0
Captures = List (ℕ × List ℕ)

unfoldable pub lookup : ℕ → Captures → Option (List ℕ)
lookup n [] = none
lookup n ((m, text) ∷ rest) = if m == n then some text else lookup n rest

-- `tolower` of the "C" locale.
unfoldable pub to_lower : ℕ → ℕ
to_lower c = if leb b'A' c && leb c b'Z' then c + 32 else c

-- What is left of the subject, and the sub-matches.
abbrev pub Continuation : Type 0
Continuation = List ℕ → Captures → Option Captures

unfoldable pub or_else : Option Captures → Option Captures → Option Captures
or_else none o = o
or_else (some caps) o = some caps

-- The longest repetition first, then each shorter one.
unfoldable pub repeat : (ℕ → Bool) → List ℕ → Captures → Continuation → Option Captures
repeat p [] caps k = k [] caps
repeat p (x ∷ xs) caps k =
    let longer = repeat p xs caps k in
    if p x then or_else longer (k (x ∷ xs) caps) else k (x ∷ xs) caps

unfoldable pub run : Regex → List ℕ → Captures → Continuation → Option Captures
run empty s caps k = k s caps
run (lit c) [] caps k = none
run (lit c) (x ∷ xs) caps k = if to_lower x == to_lower c then k xs caps else none
run (class p) [] caps k = none
run (class p) (x ∷ xs) caps k = if p x then k xs caps else none
run (star p) s caps k = repeat p s caps k
run (seq a b) s caps k = run a s caps (λ s' caps'. run b s' caps' k)
run (alt a b) s caps k = or_else (run a s caps k) (run b s caps k)
run (group n r) s caps k =
    run r s caps (λ s' caps'. k s' ((n, take (length s - length s') s) ∷ caps'))
run eol [] caps k = k [] caps
run eol (x ∷ xs) caps k = none

-- `std::regex_search`: the leftmost match.
unfoldable pub search_text : Regex → List ℕ → Option Captures
search_text r [] = run r [] [] (λ s caps. some caps)
search_text r (x ∷ xs) =
    let later = search_text r xs in or_else (run r (x ∷ xs) [] (λ s caps. some caps)) later
