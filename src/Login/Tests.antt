-- ===== src/Login/Tests.antt =====
-- Runs of `GetLogin` of Lobby.h in a sample process, and its theorems there.
use loginhelper.Prelude.{
  ℕ, List, ◌⊎◌, ◌≡◌, refl, true, false, [], ◌∷◌, arith, codes, pos, minus_one,
}
use loginhelper.Win32.Sample.{Process, get, read, sample, sample-IsEnvironment}
use loginhelper.Regex.{lookup, search_text, run, repeat, or_else, to_lower}
use loginhelper.Regex.Patterns.{username_regex, password_regex, not_quote, not_quote_or_space}
use loginhelper.Regex.Login.{HasUser, HasPassword}
use loginhelper.Login.{Credentials, initial, login_from_command_line, get_login}
use loginhelper.Login.Laws.{
  get_login_again, get_login_variables, get_login_command_line, Fails, username_reading,
  password_reading,
}

abbrev nothing : Process
nothing = record { variables = []; command_line = codes "a.exe"; clock = 0 }

abbrev arguments : Process
arguments = record nothing { command_line = codes "a.exe -USERNAME:me -PASSWORD=pw -x" }

abbrev both : Process
both = record nothing {
  variables = ("BNS_PROFILE_USERNAME", codes "me") ∷ ("BNS_PROFILE_PASSWORD", codes "pw") ∷ [];
}

abbrev failed : Credentials
failed = record initial { loggedin = minus_one }

-- The second call reports a login that was never found.
fails_then_succeeds :
    (get_login sample initial nothing ≡ (false, failed, nothing))
    × (get_login sample failed nothing ≡ (true, failed, nothing))
unfolding get_login login_from_command_line read get username_regex not_quote_or_space search_text
    run repeat or_else to_lower
fails_then_succeeds = (refl, refl)

from_arguments :
    get_login sample initial arguments
    ≡ (true, record { account = codes "me"; password = codes "pw"; loggedin = pos 2 }, arguments)
unfolding get_login login_from_command_line read get username_regex password_regex not_quote
    not_quote_or_space search_text run repeat or_else to_lower lookup
from_arguments = refl

get_login_again_example :
    let c' = (get_login sample initial nothing).1 in get_login sample c' both ≡ (true, c', both)
get_login_again_example = get_login_again sample initial nothing both refl

get_login_variables_example :
    (w' : Process) × (get_login sample initial both
      ≡ (true, record { account = codes "me"; password = codes "pw"; loggedin = pos 2 }, w'))
    × ((username_reading sample w').ret ≡ 0)
    × ((password_reading sample w').ret ≡ 0)
unfolding read get
get_login_variables_example =
    get_login_variables sample initial both sample-IsEnvironment refl (omega arith) (omega arith)
      (omega arith) (omega arith)

get_login_command_line_example :
    ((user : List ℕ) × (pass : List ℕ) × HasUser user arguments.command_line
      × HasPassword pass arguments.command_line
      × (get_login sample initial arguments
          ≡ (true, record { account = user; password = pass; loggedin = pos 2 }, arguments)))
    ⊎ (((user pass : List ℕ)
          → HasUser user arguments.command_line
          → ¬ HasPassword pass arguments.command_line)
        × Fails sample initial arguments)
unfolding read get
get_login_command_line_example = get_login_command_line sample initial arguments refl refl
