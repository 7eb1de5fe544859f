-- ===== src/LoginPanel/Filled.antt =====
-- The login window with a login from the environment.
use loginhelper.Prelude.{
  ◌<◌, ℕ, ◌+◌, ◌%◌, ◌^◌, ◌≡◌, ◌≢◌, ap, ◌∙◌, Bool, true, false, not, List, ◌==◌, if◌then◌else◌,
  to_unsigned, pos, arith,
}
use loginhelper.Win32.{Win32, IsEnvironment}
use loginhelper.Login.{Credentials}
use loginhelper.Login.Laws.{username_reading, password_reading, get_login_variables}
use loginhelper.LoginPanel.{Globals, GameCalls, open_login_panel}
use loginhelper.LoginPanel.Laws.{
  IsTextBoxes, account_box, password_box, HasSetText, logged_in, open_login_panel-text_of,
}

pick_account :
    (found password account : Bool) (kept first second : List ℕ) {shown : List ℕ}
    → shown
      ≡ (if not found then kept else if password then first else if account then second else kept)
    → found ≡ true
    → password ≡ false
    → account ≡ true
    → shown ≡ second
pick_account found password account kept first second h e f k = ground arith

pick_password :
    (found password account : Bool) (kept first second : List ℕ) {shown : List ℕ}
    → shown
      ≡ (if not found then kept else if password then first else if account then second else kept)
    → found ≡ true
    → password ≡ true
    → shown ≡ first
pick_password found password account kept first second h e f = ground arith

same : (n : ℕ) → (n == n) ≡ true
same n = ground arith

differs : {a b : ℕ} → a ≢ b → (a == b) ≡ false
differs apart = ground arith

module _ {World : Type 0} (calls : GameCalls World) (boxes : IsTextBoxes calls) (os : Win32 World)
    (env : IsEnvironment os) where
  -- The state behind the game's own opening of the window.
  abbrev pub opened_by : ℕ → Globals World → Globals World
  opened_by this g = (calls.o_get_instance (calls.o_open_login_panel this g)).1

  -- The first time that the window is opened, with both variables of the login set, to
  -- values of fewer than 256 characters, the text of its account's box is that of the one and the text of its password's box that of the other, and the
  -- hook has left neither to be read. This is for a window whose function at the computed place is
  -- `SetTextValue` and whose boxes are two.
  pub open_login_panel_variables :
      (this : ℕ) (g : Globals World)
      → (opened_by this g).login.loggedin ≡ pos 0
      → (username_reading os (opened_by this g).world).ret ≢ 0
      → (password_reading os (opened_by this g).world).ret ≢ 0
      → (username_reading os (opened_by this g).world).ret < 256
      → (password_reading os (opened_by this g).world).ret < 256
      → HasSetText calls boxes (logged_in calls boxes os this g).1
      → let panel = (this + to_unsigned 64 g.ui_panel_offset) % 2 ^ 64 in
        let tried = (logged_in calls boxes os this g).1 in
        let shown = (open_login_panel calls os this g).world in
        account_box calls boxes panel tried ≢ password_box calls boxes panel tried
        → (boxes.text_of (account_box calls boxes panel tried) shown
            ≡ (username_reading os (opened_by this g).world).buffer)
          × (boxes.text_of (password_box calls boxes panel tried) shown
              ≡ (password_reading os (opened_by this g).world).buffer)
          × ((username_reading os tried.world).ret ≡ 0)
          × ((password_reading os tried.world).ret ≡ 0)
  open_login_panel_variables this g first user pass user_fits pass_fits slot apart =
      let opened = opened_by this g in
      let (w', ran, no_user, no_pass) =
        get_login_variables os opened.login opened.world env first user pass user_fits pass_fits in
      let panel = (this + to_unsigned 64 g.ui_panel_offset) % 2 ^ 64 in
      let tried = (logged_in calls boxes os this g).1 in
      let user_id = account_box calls boxes panel tried in
      let secret_id = password_box calls boxes panel tried in
      let account = open_login_panel-text_of calls boxes os this g user_id slot in
      let password = open_login_panel-text_of calls boxes os this g secret_id slot in
      let found : (logged_in calls boxes os this g).0 ≡ true =
        ap (λ (r : Bool × Credentials × World). r.0) ran in
      (
        pick_account _ (user_id == secret_id) (user_id == user_id)
              (boxes.text_of user_id tried.world) tried.login.password tried.login.account account
              found (differs apart) (same user_id)
            ∙ ap (λ (r : Bool × Credentials × World). r.1.account) ran,
        pick_password _ (secret_id == secret_id) (secret_id == user_id)
              (boxes.text_of secret_id tried.world) tried.login.password tried.login.account
              password found (same secret_id)
            ∙ ap (λ (r : Bool × Credentials × World). r.1.password) ran,
        ap (λ (r : Bool × Credentials × World). (username_reading os r.2).ret) ran ∙ no_user,
        ap (λ (r : Bool × Credentials × World). (password_reading os r.2).ret) ran ∙ no_pass,
      )
