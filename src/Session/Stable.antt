-- ===== src/Session/Stable.antt =====
-- What stays as it is, once it is set, whatever the hooks and the game do.
use loginhelper.Prelude.{◌≡◌, ◌≢◌, refl, ap, sym, ◌∙◌, Bool, false, pos, minus_one, ok, arith}
use loginhelper.Win32.{Win32}
use loginhelper.Totp.{CppTotp}
use loginhelper.Pin.{PinState, first_code, get_pin}
use loginhelper.Login.{Credentials, get_login}
use loginhelper.Server.{
  Lobby, Request, Progress, running, thrown, finish, get_server, request_login,
}
use loginhelper.LoginPanel.{Globals}
use loginhelper.LoginPanel.Laws.{request_login-firstrun}
use loginhelper.Session.{
  Outer, outer, outer_os, globals_of, Change, count_reset, counted, pin_asked, login_asked,
  engine_found, login_requested, played, Changes, here, next,
}
use loginhelper.Session.Pins.{get_pin-kept, get_pin_keeps}

-- From one state of the globals to a later one: a login that was requested stays so, credentials that
-- were looked for stay, a PIN that was found stays, and the options of the entry stay.
pub record Stable {World : Type 0} (g h : Globals World) : Type 0 where
  pub requested : g.lobby.firstrun ≡ false → h.lobby.firstrun ≡ false
  pub login : g.login.loggedin ≢ pos 0 → h.login ≡ g.login
  pub pincode : first_code g.pin.pincode ≢ minus_one → h.pin.pincode ≡ g.pin.pincode
  pub pintext : first_code g.pin.pincode ≢ minus_one → h.pin.pintext ≡ g.pin.pintext
  pub keeppin : h.pin.keeppin ≡ g.pin.keeppin
  pub swap_programid : h.lobby.swap_programid ≡ g.lobby.swap_programid
  pub offset : h.ui_panel_offset ≡ g.ui_panel_offset

get_login-kept :
    {World : Type 0} (os : Win32 World) (c : Credentials) (w : World)
    → c.loggedin ≢ pos 0
    → (get_login os c w).1 ≡ c
unfolding get_login
get_login-kept os c w known = ground arith

finish-swap_programid :
    (l : Lobby) (r : Request) (p : Progress) → (finish l r p).0.swap_programid ≡ l.swap_programid
unfolding finish
finish-swap_programid l r (running d any) = refl
finish-swap_programid l r (thrown d) = refl

request_login-swap_programid :
    {World : Type 0} (os : Win32 World) (w : World) (l : Lobby) (r : Request)
    → (request_login os w l r).0.swap_programid ≡ l.swap_programid
unfolding request_login
request_login-swap_programid os w l r = finish-swap_programid _ _ (get_server os w l.lhdata)

pub unchanged :
    {World : Type 0} (g h : Globals World)
    → h.lobby ≡ g.lobby
    → h.login ≡ g.login
    → h.pin.pincode ≡ g.pin.pincode
    → h.pin.pintext ≡ g.pin.pintext
    → h.pin.keeppin ≡ g.pin.keeppin
    → h.ui_panel_offset ≡ g.ui_panel_offset
    → Stable g h
unchanged g h lobby login pincode pintext keeppin offset = record {
  requested = λ e. ap (λ (l : Lobby). l.firstrun) lobby ∙ e;
  login = λ e. login;
  pincode = λ e. pincode;
  pintext = λ e. pintext;
  keeppin = keeppin;
  swap_programid = ap (λ (l : Lobby). l.swap_programid) lobby;
  offset = offset;
}

pub Stable-refl : {World : Type 0} (g : Globals World) → Stable g g
Stable-refl g = unchanged g g refl refl refl refl refl refl

pub Stable-trans : {World : Type 0} (g h k : Globals World) → Stable g h → Stable h k → Stable g k
Stable-trans g h k a b = record {
  requested = λ e. b.requested (a.requested e);
  login = λ e.
      let same = a.login e in
      b.login (λ z. e (sym (ap (λ (c : Credentials). c.loggedin) same) ∙ z)) ∙ same;
  pincode = λ e. let same = a.pincode e in b.pincode (λ z. e (sym (ap first_code same) ∙ z)) ∙ same;
  pintext = λ e. b.pintext (λ z. e (sym (ap first_code (a.pincode e)) ∙ z)) ∙ a.pintext e;
  keeppin = b.keeppin ∙ a.keeppin;
  swap_programid = b.swap_programid ∙ a.swap_programid;
  offset = b.offset ∙ a.offset;
}

module _ {World : Type 0} (os : Win32 World) (lib : CppTotp) where
  -- What a look for the PIN leaves of the other globals.
  abbrev Kept : Globals World → Outer World → Type 0
  Kept g o = (o.lobby ≡ g.lobby) × (o.login ≡ g.login) × (o.ui_panel_offset ≡ g.ui_panel_offset)

  pin_asked-Stable :
      (g : Globals World) (found : Bool) (pin : PinState) (o : Outer World)
      → get_pin (outer_os os) lib g.pin (outer g) ≡ ok (found, pin, o)
      → Stable g (globals_of pin o)
  pin_asked-Stable g found pin o e =
      let (flag, (lobby, login, offset)) =
        get_pin_keeps (outer_os os) lib (Kept g) (λ name text o h. h) g.pin pin (outer g) o found
          (refl, refl, refl) e in
      let same = λ (known : first_code g.pin.pincode ≢ minus_one).
        get_pin-kept (outer_os os) lib g.pin pin (outer g) o found known e in
      record {
        requested = λ e. ap (λ (l : Lobby). l.firstrun) lobby ∙ e;
        login = λ known. login;
        pincode = λ known. ap (λ (p : PinState). p.pincode) (same known);
        pintext = λ known. ap (λ (p : PinState). p.pintext) (same known);
        keeppin = flag;
        swap_programid = ap (λ (l : Lobby). l.swap_programid) lobby;
        offset = offset;
      }

  Change-Stable : {g h : Globals World} → Change os lib g h → Stable g h
  Change-Stable (count_reset g) = unchanged _ _ refl refl refl refl refl refl
  Change-Stable (counted g) = unchanged _ _ refl refl refl refl refl refl
  Change-Stable (pin_asked g e) = pin_asked-Stable g _ _ _ e
  Change-Stable (login_asked g) = record {
    requested = λ e. e;
    login = λ known. get_login-kept os g.login g.world known;
    pincode = λ known. refl;
    pintext = λ known. refl;
    keeppin = refl;
    swap_programid = refl;
    offset = refl;
  }
  Change-Stable (engine_found g engine) = unchanged _ _ refl refl refl refl refl refl
  Change-Stable (login_requested g r) = record {
    requested = λ e. request_login-firstrun os g.world g.lobby r;
    login = λ known. refl;
    pincode = λ known. refl;
    pintext = λ known. refl;
    keeppin = refl;
    swap_programid = request_login-swap_programid os g.world g.lobby r;
    offset = refl;
  }
  Change-Stable (played g world) = unchanged _ _ refl refl refl refl refl refl

  -- However the hooks and the game follow each other, a login that was requested is not forgotten, the
  -- credentials are those of the first look, a PIN that was found is kept, and so are the options.
  pub Changes-Stable : {g h : Globals World} → Changes os lib g h → Stable g h
  Changes-Stable {g = g} here = Stable-refl g
  Changes-Stable (next r c) = Stable-trans _ _ _ (Changes-Stable r) (Change-Stable c)
