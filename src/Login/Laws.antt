-- ===== src/Login/Laws.antt =====
-- What `GetLogin` finds, keeps and leaves behind.
use loginhelper.Prelude.{
  ◌<◌, ℕ, List, ◌∷◌, inl, inr, refl, ◌∙◌, Option-cases, ◌≡◌, ◌≢◌, ◌⊎◌, true, false, [], arith, pos,
  minus_one,
}
use loginhelper.Win32.{differ, Win32, Reading, IsEnvironment}
use loginhelper.Regex.{Captures, lookup, search_text}
use loginhelper.Regex.Login.{
  HasUser, HasPassword, username_regex-HasUser, HasUser-username_regex, password_regex-HasPassword,
  HasPassword-password_regex,
}
use loginhelper.Regex.Patterns.{username_regex, password_regex}
use loginhelper.Login.{
  str, Credentials, password_of, login_from_variables, login_from_command_line, get_login,
}

module _ {World : Type 0} (os : Win32 World) where
  abbrev pub username_reading : World → Reading
  username_reading w = os.get_environment_variable_w "BNS_PROFILE_USERNAME" 256 w

  abbrev pub password_reading : World → Reading
  password_reading w = os.get_environment_variable_w "BNS_PROFILE_PASSWORD" 256 w

  -- The first call reports success exactly if `loggedin` is then 2, and -1 is left by each failure.
  pub get_login-loggedin :
      (c : Credentials) (w : World)
      → c.loggedin ≡ pos 0
      → let (found, c', w') = get_login os c w in
        ((found ≡ true) × (c'.loggedin ≡ pos 2)) ⊎ ((found ≡ false) × (c'.loggedin ≡ minus_one))
  unfolding get_login login_from_variables login_from_command_line
  get_login-loggedin c w first = ground arith

  -- Whatever the first call found, each later call reports success and changes nothing: a login
  -- that failed is reported as found from the second call on.
  pub get_login_again :
      (c : Credentials) (w later : World)
      → c.loggedin ≡ pos 0
      → let c' = (get_login os c w).1 in get_login os c' later ≡ (true, c', later)
  unfolding get_login login_from_variables login_from_command_line
  get_login_again c w later first = ground arith

  -- On the first call, with both variables set, to values of fewer than 256 characters, the login is
  -- theirs, and neither can be read behind the call.
  pub get_login_variables :
      (c : Credentials) (w : World)
      → IsEnvironment os
      → c.loggedin ≡ pos 0
      → (username_reading w).ret ≢ 0
      → (password_reading w).ret ≢ 0
      → (username_reading w).ret < 256
      → (password_reading w).ret < 256
      → (w' : World) × (get_login os c w ≡ (
        true,
        record {
          account = (username_reading w).buffer;
          password = (password_reading w).buffer;
          loggedin = pos 2;
        },
        w',
      ))
        × ((username_reading w').ret ≡ 0)
        × ((password_reading w').ret ≡ 0)
  unfolding get_login login_from_variables differ
  get_login_variables c w env first user pass user_fits pass_fits =
      let w1 = os.set_environment_variable_w "BNS_PROFILE_USERNAME" [] w in
      let w2 = os.set_environment_variable_w "BNS_PROFILE_PASSWORD" [] w1 in
      let kept = env.set_other "BNS_PROFILE_USERNAME" "BNS_PROFILE_PASSWORD" [] 256 w refl in
      let kept2 = env.set_other "BNS_PROFILE_PASSWORD" "BNS_PROFILE_USERNAME" [] 256 w1 refl in
      (
        w2,
        ground (arith, kept),
        rw kept2 (env.set_empty "BNS_PROFILE_USERNAME" 256 w (omega arith)),
        env.set_empty "BNS_PROFILE_PASSWORD" 256 w1 (omega arith),
      )

  password_of-taken :
      (caps : Captures) (pass : List ℕ)
      → (caps ≡ (1, pass) ∷ []) ⊎ (caps ≡ (2, pass) ∷ [])
      → password_of caps ≡ pass
  unfolding password_of lookup
  password_of-taken caps pass (inl e) = rw e refl
  password_of-taken caps pass (inr e) = rw e refl

  get_login-arguments :
      (c : Credentials) (w : World)
      → c.loggedin ≡ pos 0
      → (username_reading w).ret ≡ 0
      → get_login os c w ≡ login_from_command_line os (record c { loggedin = pos 2 }) w
  unfolding get_login
  get_login-arguments c w first unset = ground arith

  -- The call that finds no login leaves it so, and the process as it was.
  abbrev pub Fails : Credentials → World → Type 0
  Fails c w = (c' : Credentials) × (get_login os c w ≡ (false, c', w)) × (c'.loggedin ≡ minus_one)

  -- With no user name in the environment, the login is that of the command line, if it has an argument
  -- -USERNAME and an argument -PASSWORD: a space and the name, in letters of whichever case, a colon or
  -- an equals sign, the text, and a space or the end of the line. The text is of no quotes and no
  -- spaces, where that of -USERNAME may have a quote before it and one behind it; a password may also
  -- be of no quotes alone, between two. Without such arguments, the call fails. Nothing of the process
  -- is changed.
  pub get_login_command_line :
      (c : Credentials) (w : World)
      → c.loggedin ≡ pos 0
      → (username_reading w).ret ≡ 0
      → ((user : List ℕ) × (pass : List ℕ) × HasUser user (os.get_command_line_w w)
          × HasPassword pass (os.get_command_line_w w)
          × (get_login os c w
              ≡ (true, record { account = user; password = pass; loggedin = pos 2 }, w)))
        ⊎ (((user pass : List ℕ)
              → HasUser user (os.get_command_line_w w)
              → ¬ HasPassword pass (os.get_command_line_w w))
            × Fails c w)
  unfolding login_from_command_line
  get_login_command_line c w first unset =
      let line = os.get_command_line_w w in
      let ran = get_login-arguments c w first unset in
      elim (Option-cases (search_text username_regex line)) [
        | inl e ↦ inr (
          λ user pass there. absurd (HasUser-username_regex user line there e),
          (record c { loggedin = minus_one }, ran ∙ rw (login_from_command_line, e) refl, refl),
        )
        | inr (email, e) ↦ elim (Option-cases (search_text password_regex line)) [
          | inl f ↦ inr (
            λ user pass there too. HasPassword-password_regex pass line too f,
            (
              record c { account = str (lookup 1 email); loggedin = minus_one },
              ran ∙ rw (login_from_command_line, e, f) refl,
              refl,
            ),
          )
          | inr (caps, f) ↦
              let (user, named, there) = username_regex-HasUser line e in
              let (pass, taken, too) = password_regex-HasPassword line f in
              let text = password_of-taken caps pass taken in
              inl
                (user, pass, there, too, ran ∙ rw (login_from_command_line, e, f, named, text) refl)
        ]
      ]
