-- ===== src/Session/Hooks.antt =====
-- The hooks as sequences of changes, nested as the game nests them.
use loginhelper.Prelude.{
  ℕ, ◌≡◌, Bool, true, false, List, ◌&&◌, ◌==◌, ◌==ℤ◌, pos, ok, Holds, Holds->>=, Holds-if,
  Holds-map, Bool-cases, inl, inr, if◌then◌else◌,
}
use loginhelper.Win32.{Win32}
use loginhelper.Totp.{CppTotp}
use loginhelper.Pin.{PinState, get_pin}
use loginhelper.Pin.Panel.{
  Game, set_numpad, set_inputs, prepare, cap_failures, over_four, process_confirm_click, enter_pin,
  try_pin, update_verify_mode,
}
use loginhelper.Login.{get_login}
use loginhelper.Server.{Call, Request, request_login}
use loginhelper.LoginPanel.Laws.{process_event_later, request_login-firstrun}
use loginhelper.LoginPanel.{
  Globals, GameCalls, process_event, process_login, set_text, fill_in, open_login_panel,
  user_id_edit_box_id, user_password_edit_box_id,
}
use loginhelper.Session.{
  Outer, outer_os, behind_window, count_reset, counted, login_requested, pin_asked, login_asked,
  engine_found, Changes, here, next, Changes-trans,
}
use loginhelper.Session.Stable.{Stable, Changes-Stable}

-- What is relied on of the game: its functions change the globals by its own play and by calls of the
-- hooks alone.
pub record IsGame {World : Type 0} (os : Win32 World) (lib : CppTotp) (calls : GameCalls World)
    (o_process_confirm_click o_update_verify_mode : Game (Outer World) → Bool × Game (Outer World))
    : Type 0 where
  pub login_plays : (this : ℕ) (g : Globals World) → Changes os lib g (calls.o_process_login this g)
  pub event_plays :
      (this event : ℕ) (g : Globals World) → Changes os lib g (calls.o_process_event this event g).1
  pub open_plays :
      (this : ℕ) (g : Globals World) → Changes os lib g (calls.o_open_login_panel this g)
  pub instance_plays : (g : Globals World) → Changes os lib g (calls.o_get_instance g).1
  pub text_plays :
      (function engine id : ℕ) (text : List ℕ) (g : Globals World)
      → Changes os lib g (calls.set_text_value function engine id text g)
  pub confirm_plays :
      (w : Game (Outer World))
      → Changes os lib (behind_window w) (behind_window (o_process_confirm_click w).1)
  pub update_plays :
      (w : Game (Outer World))
      → Changes os lib (behind_window w) (behind_window (o_update_verify_mode w).1)

module _ {World : Type 0} (os : Win32 World) (lib : CppTotp) (calls : GameCalls World)
    (o_process_confirm_click o_update_verify_mode : Game (Outer World) → Bool × Game (Outer World))
    (game : IsGame os lib calls o_process_confirm_click o_update_verify_mode) where
  pub process_event-Changes :
      (this event : ℕ) (g : Globals World) → Changes os lib g (process_event calls this event g).1
  unfolding process_event
  process_event-Changes this event g =
      Changes-trans (submitted g.lobby.firstrun) (game.event_plays this event _)
    where
      reset : Globals World
      reset = record g { pin = record g.pin { pincount = 0 } }

      submitted :
          (first : Bool) → Changes os lib g (if first then calls.o_process_login this reset else g)
      submitted true = Changes-trans (next here (count_reset g)) (game.login_plays this reset)
      submitted false = here

  set_text-Changes :
      (offset panel field : ℕ) (text : List ℕ) (g : Globals World)
      → Changes os lib g (set_text calls offset panel field text g)
  unfolding set_text
  set_text-Changes offset panel field text g = game.text_plays _ _ _ text g

  fill_in-Changes : (panel : ℕ) (g : Globals World) → Changes os lib g (fill_in calls panel g)
  unfolding fill_in
  fill_in-Changes panel g =
      Changes-trans (set_text-Changes _ panel user_id_edit_box_id _ g)
        (set_text-Changes _ panel user_password_edit_box_id _ _)

  open_login_panel-Changes :
      (this : ℕ) (g : Globals World) → Changes os lib g (open_login_panel calls os this g)
  unfolding open_login_panel
  open_login_panel-Changes this g =
      let shown = calls.o_open_login_panel this g in
      let (engine, opened) = calls.o_get_instance shown in
      let (found, login, world) = get_login os opened.login opened.world in
      let asked =
        next
          (next (Changes-trans (game.open_plays this g) (game.instance_plays shown))
            (engine_found opened engine))
          (login_asked (record opened { engine = engine })) in
      elim (Bool-cases found) [
        | inl e ↦ rw e (Changes-trans asked (fill_in-Changes _ _))
        | inr e ↦ rw e asked
      ]

  process_confirm_click-Changes :
      (w : Game (Outer World))
      → Changes os lib
          (behind_window w)
          (behind_window (process_confirm_click o_process_confirm_click w).1)
  unfolding process_confirm_click
  process_confirm_click-Changes w =
      Changes-trans (next here (count_reset (behind_window w))) (game.confirm_plays _)

  -- A step on the window that returns has changed the globals so.
  abbrev From : Game (Outer World) → Game (Outer World) → Type 0
  From w w' = Changes os lib (behind_window w) (behind_window w')

  enter_pin-Changes :
      (w : Game (Outer World)) → Holds (From w) (enter_pin o_process_confirm_click w)
  unfolding enter_pin
  enter_pin-Changes w =
      Holds->>= (From w) (set_inputs 6 0 w.pin.pincode w.panel.otp_input_list) _ (λ inputs e.
        process_confirm_click-Changes (record w {
          panel = record w.panel { otp_input_list = inputs; cur_input_count = pos 6 };
        }))

  try_pin-Changes :
      (w : Game (Outer World))
      → Holds (From w) (try_pin (outer_os os) lib o_process_confirm_click w)
  unfolding try_pin
  try_pin-Changes w =
      Holds-if (From w) (w.panel.verify_fail_count ==ℤ pos 0 && w.pin.pincount == 1) _ _
        (Holds->>= (From w) (get_pin (outer_os os) lib w.pin w.world) _ asked) here
    where
      asked :
          (r : Bool × PinState × Outer World)
          → get_pin (outer_os os) lib w.pin w.world ≡ ok r
          → let w' = record w { pin = r.1; world = r.2 } in
            Holds (From w) (if r.0 then enter_pin o_process_confirm_click w' else ok w')
      asked (true, pin, o) e =
          let w' = record w { pin = pin; world = o } in
          Holds-map (From w') (From w) (enter_pin o_process_confirm_click w')
            (λ v r. Changes-trans (next here (pin_asked (behind_window w) e)) r)
            (enter_pin-Changes w')
      asked (false, pin, o) e = next here (pin_asked (behind_window w) e)

  prepare-Changes : (w : Game (Outer World)) → Holds (From w) (prepare w)
  unfolding prepare
  prepare-Changes w =
      Holds->>= (From w) (set_numpad 10 0 w.panel.otp_numpad_list) _
        (λ numpad e. next here (counted (behind_window w)))

  cap_failures-Changes : (w : Game (Outer World)) → From w (cap_failures w)
  unfolding cap_failures
  cap_failures-Changes w = elim (Bool-cases (over_four w.panel.verify_fail_count)) [
    | inl e ↦ rw e here
    | inr e ↦ rw e here
  ]

  update_verify_mode-Changes :
      (w : Game (Outer World))
      → Holds
          (λ r. From w r.1)
          (update_verify_mode (outer_os os) lib o_process_confirm_click o_update_verify_mode w)
  unfolding update_verify_mode
  update_verify_mode-Changes w =
      Holds->>= (λ r. From w r.1) (prepare w) _
        (λ shown e.
          Holds->>= (λ r. From w r.1) (try_pin (outer_os os) lib o_process_confirm_click shown) _
            (λ tried e'.
              Changes-trans
                (Changes-trans (rw e at (prepare-Changes w)) (rw e' at (try_pin-Changes shown)))
                (Changes-trans (cap_failures-Changes tried)
                  (game.update_plays (cap_failures tried)))))

  -- The hook on RequestLogin, with the game's own function behind it, which the request goes to.
  abbrev pub request_login_hook :
      (Call → Globals World → Globals World) → Request → Globals World → Globals World
  request_login_hook o_request_login r g =
      let (lobby, call) = request_login os g.world g.lobby r in
      o_request_login call (record g { lobby = lobby })

  -- The hooks on the login window, on the PIN window and on RequestLogin, nested in whatever way, keep
  -- what is set: a login that was requested, credentials that were looked for, a PIN that was found, and
  -- the options. The hook on the PIN window's update does so where it returns. The game's functions
  -- behind the hooks change the globals by the game's play and by calls of the hooks alone.
  pub hooks-Stable :
      ((this event : ℕ) (g : Globals World) → Stable g (process_event calls this event g).1)
      × ((this : ℕ) (g : Globals World) → Stable g (process_login calls this g))
      × ((this : ℕ) (g : Globals World) → Stable g (open_login_panel calls os this g))
      × ((o_request_login : Call → Globals World → Globals World)
          → ((call : Call) (g : Globals World) → Changes os lib g (o_request_login call g))
          → (r : Request) (g : Globals World) → Stable g (request_login_hook o_request_login r g))
      × ((w : Game (Outer World))
          → Stable
              (behind_window w)
              (behind_window (process_confirm_click o_process_confirm_click w).1))
      × ((w v : Game (Outer World)) (shown : Bool)
          → update_verify_mode (outer_os os) lib o_process_confirm_click o_update_verify_mode w
            ≡ ok (shown, v)
          → Stable (behind_window w) (behind_window v))
  hooks-Stable = (
    (λ this event g. Changes-Stable os lib (process_event-Changes this event g)),
    (λ this g. Changes-Stable os lib (game.login_plays this g)),
    (λ this g. Changes-Stable os lib (open_login_panel-Changes this g)),
    (λ o_request_login plays r g. Changes-Stable os lib (
        Changes-trans (next here (login_requested g r)) (
          plays (request_login os g.world g.lobby r).1
            (record g { lobby = (request_login os g.world g.lobby r).0 })))),
    (λ w. Changes-Stable os lib (process_confirm_click-Changes w)),
    λ w v shown e. Changes-Stable os lib (rw e at (update_verify_mode-Changes w)),
  )

-- Once a login has been requested, however the hooks and the game have followed each other since, the
-- login window submits none by itself: its hook does what the game's own handler does.
pub process_event_requested :
    {World : Type 0} (os : Win32 World) (lib : CppTotp) (calls : GameCalls World)
    (g g' : Globals World) (r : Request) (this event : ℕ)
    → Changes os lib (record g { lobby = (request_login os g.world g.lobby r).0 }) g'
    → process_event calls this event g' ≡ calls.o_process_event this event g'
process_event_requested os lib calls g g' r this event changes =
    process_event_later calls this event g'
      ((Changes-Stable os lib changes).requested (request_login-firstrun os g.world g.lobby r))
