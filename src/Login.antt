-- ===== src/Login.antt =====
-- The account and the password: `GetLogin` of src/loginhelper/Lobby.h. Its globals are a record.
pub mod Laws
mod Tests
use loginhelper.Prelude.{
  ℕ, Bool, true, false, not, List, [], Option, none, some, String, ◌==◌, if◌then◌else◌, ℤ, pos,
  negsuc, minus_one, ◌==ℤ◌,
}
use loginhelper.Win32.{Win32}
use loginhelper.Regex.{Captures, lookup, search_text}
use loginhelper.Regex.Patterns.{username_regex, password_regex}

pub record Credentials : Type 0 where
  pub account : List ℕ
  pub password : List ℕ
  pub loggedin : ℤ

abbrev pub initial : Credentials
initial = record { account = []; password = []; loggedin = pos 0 }

-- `matches[n].str()`: the empty text for a group that did not take part.
abbrev pub str : Option (List ℕ) → List ℕ
str none = []
str (some text) = text

-- The password's text: the second group if it took part, else the first.
unfoldable pub password_of : Captures → List ℕ
password_of caps = elim (lookup 2 caps) [ none ↦ str (lookup 1 caps) | some text ↦ text ]

module _ {World : Type 0} (os : Win32 World) where
  -- The branch of `BNS_PROFILE_USERNAME`, with its text.
  unfoldable pub login_from_variables : List ℕ → Credentials → World → Bool × Credentials × World
  login_from_variables mail c w =
      let w' = os.set_environment_variable_w "BNS_PROFILE_USERNAME" [] w in
      let pass = os.get_environment_variable_w "BNS_PROFILE_PASSWORD" 256 w' in
      if not (pass.ret == 0)
      then (
        true,
        record c { account = mail; password = pass.buffer },
        os.set_environment_variable_w "BNS_PROFILE_PASSWORD" [] w',
      )
      else (false, record c { account = mail; loggedin = minus_one }, w')

  -- The branch of the command line.
  unfoldable pub login_from_command_line : Credentials → World → Bool × Credentials × World
  unfolding password_of
  login_from_command_line c w =
      let args = os.get_command_line_w w in
      elim (search_text username_regex args) [
        | none ↦ (false, record c { loggedin = minus_one }, w)
        | some email ↦ elim (search_text password_regex args) [
          | none ↦ (false, record c { account = str (lookup 1 email); loggedin = minus_one }, w)
          | some pass ↦
              (true, record c { account = str (lookup 1 email); password = password_of pass }, w)
        ]
      ]

  -- `GetLogin`. Any `loggedin` but zero is converted to `true`.
  unfoldable pub get_login : Credentials → World → Bool × Credentials × World
  get_login c w =
      let mail = os.get_environment_variable_w "BNS_PROFILE_USERNAME" 256 w in
      let trying = record c { loggedin = pos 2 } in
      if not (c.loggedin ==ℤ pos 0)
      then (true, c, w)
      else if not (mail.ret == 0)
      then login_from_variables mail.buffer trying w
      else login_from_command_line trying w
