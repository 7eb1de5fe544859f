-- ===== src/LoginPanel/Laws.antt =====
-- When the login window submits a login by itself, and what its text boxes hold.
use loginhelper.Prelude.{
  ℕ, ◌+◌, ◌%◌, ◌^◌, ◌≡◌, refl, ap, ◌∙◌, Bool, false, not, List, [], ◌∷◌, ◌==◌, if◌then◌else◌,
  Bool-cases, inl, inr, to_unsigned,
}
use loginhelper.Win32.{Win32}
use loginhelper.Login.{get_login}
use loginhelper.Server.{
  Lobby, Request, Progress, running, thrown, finish, get_server, request_login,
}
use loginhelper.LoginPanel.{
  Globals, GameCalls, process_event, set_text, fill_in, open_login_panel, engine_offset,
  user_id_edit_box_id, user_password_edit_box_id, set_text_value_slot,
}

finish-firstrun : (l : Lobby) (r : Request) (p : Progress) → (finish l r p).0.firstrun ≡ l.firstrun
unfolding finish
finish-firstrun l r (running d any) = refl
finish-firstrun l r (thrown d) = refl

pub request_login-firstrun :
    {World : Type 0} (os : Win32 World) (w : World) (l : Lobby) (r : Request)
    → (request_login os w l r).0.firstrun ≡ false
unfolding request_login
request_login-firstrun os w l r = finish-firstrun _ _ (get_server os w l.lhdata)

module _ {World : Type 0} (calls : GameCalls World) where
  -- A sequence of events, each with its window.
  abbrev pub run_events :
      (ℕ → ℕ → Globals World → Bool × Globals World) → List (ℕ × ℕ) → Globals World → Globals World
  run_events handle [] g = g
  run_events handle ((this, event) ∷ events) g = run_events handle events (handle this event g).1

  pub process_event_later :
      (this event : ℕ) (g : Globals World)
      → g.lobby.firstrun ≡ false
      → process_event calls this event g ≡ calls.o_process_event this event g
  unfolding process_event
  process_event_later this event g later =
      ap
        (λ (first : Bool). calls.o_process_event this event (
          if first
          then calls.o_process_login this (record g { pin = record g.pin { pincount = 0 } })
          else g))
        later

  run_events_later :
      (events : List (ℕ × ℕ)) (g : Globals World)
      → ((this event : ℕ) (g : Globals World)
          → (calls.o_process_event this event g).1.lobby.firstrun ≡ g.lobby.firstrun)
      → g.lobby.firstrun ≡ false
      → run_events (process_event calls) events g ≡ run_events calls.o_process_event events g
  run_events_later [] g keeps later = refl
  run_events_later ((this, event) ∷ events) g keeps later =
      ap (λ (r : Bool × Globals World). run_events (process_event calls) events r.1)
        (process_event_later this event g later)
      ∙ run_events_later events (calls.o_process_event this event g).1 keeps
          (keeps this event g ∙ later)

  -- Once the hook on RequestLogin has run, in whatever state and with whatever arguments, the login is
  -- not submitted again: every sequence of events does what the game's own handler does with it, if
  -- that handler leaves `firstrun` alone.
  pub process_event-request_login :
      (os : Win32 World) (w : World) (l : Lobby) (r : Request) (events : List (ℕ × ℕ))
      (g : Globals World)
      → ((this event : ℕ) (g : Globals World)
          → (calls.o_process_event this event g).1.lobby.firstrun ≡ g.lobby.firstrun)
      → g.lobby ≡ (request_login os w l r).0
      → run_events (process_event calls) events g ≡ run_events calls.o_process_event events g
  process_event-request_login os w l r events g keeps after =
      run_events_later events g keeps
        (ap (λ (l : Lobby). l.firstrun) after ∙ request_login-firstrun os w l r)

-- What is relied on of the game's text boxes: a call of `SetTextValue` at its place sets the text of
-- one box, and changes neither the globals nor the memory that the hook reads.
pub record IsTextBoxes {World : Type 0} (calls : GameCalls World) : Type 0 where
  pub text_of : ℕ → World → List ℕ
  pub set_text_pointer : ℕ
  pub globals_stay :
      (engine id : ℕ) (text : List ℕ) (g : Globals World)
      → let g' = calls.set_text_value set_text_pointer engine id text g in
        g' ≡ record g { world = g'.world }
  pub text_set :
      (engine id : ℕ) (text : List ℕ) (g : Globals World) (box : ℕ)
      → text_of box (calls.set_text_value set_text_pointer engine id text g).world
        ≡ (if box == id then text else text_of box g.world)
  pub numbers_stay :
      (engine id : ℕ) (text : List ℕ) (g : Globals World) (address : ℕ)
      → calls.read_number address (calls.set_text_value set_text_pointer engine id text g).world
        ≡ calls.read_number address g.world
  pub pointers_stay :
      (engine id : ℕ) (text : List ℕ) (g : Globals World) (address : ℕ)
      → calls.read_pointer address (calls.set_text_value set_text_pointer engine id text g).world
        ≡ calls.read_pointer address g.world

module _ {World : Type 0} (calls : GameCalls World) (boxes : IsTextBoxes calls) where
  abbrev pub account_box : ℕ → Globals World → ℕ
  account_box panel g = calls.read_number ((panel + user_id_edit_box_id) % 2 ^ 64) g.world

  abbrev pub password_box : ℕ → Globals World → ℕ
  password_box panel g = calls.read_number ((panel + user_password_edit_box_id) % 2 ^ 64) g.world

  -- The function that the hook calls is `SetTextValue`.
  abbrev pub HasSetText : Globals World → Type 0
  HasSetText g =
      calls.read_pointer
        ((g.engine + engine_offset g.ui_panel_offset + set_text_value_slot) % 2 ^ 64) g.world
      ≡ boxes.set_text_pointer

  set_text-called :
      (offset panel field : ℕ) (text : List ℕ) (g : Globals World)
      → calls.read_pointer ((g.engine + offset + set_text_value_slot) % 2 ^ 64) g.world
        ≡ boxes.set_text_pointer
      → set_text calls offset panel field text g
        ≡ calls.set_text_value boxes.set_text_pointer g.engine
            (calls.read_number ((panel + field) % 2 ^ 64) g.world)
            text
            g
  unfolding set_text
  set_text-called offset panel field text g slot =
      ap
        (λ (f : ℕ).
          calls.set_text_value f g.engine (calls.read_number ((panel + field) % 2 ^ 64) g.world)
            text g)
        slot

  -- What a call of `set_text` leaves.
  set_text-text_of :
      (offset panel field : ℕ) (text : List ℕ) (g : Globals World) (box : ℕ)
      → calls.read_pointer ((g.engine + offset + set_text_value_slot) % 2 ^ 64) g.world
        ≡ boxes.set_text_pointer
      → let g' = set_text calls offset panel field text g in
        (g' ≡ record g { world = g'.world })
        × (boxes.text_of box g'.world ≡ (
            if box == calls.read_number ((panel + field) % 2 ^ 64) g.world
            then text
            else boxes.text_of box g.world))
        × ((address : ℕ) → calls.read_number address g'.world ≡ calls.read_number address g.world)
        × ((address : ℕ) → calls.read_pointer address g'.world ≡ calls.read_pointer address g.world)
  set_text-text_of offset panel field text g box slot =
      let id = calls.read_number ((panel + field) % 2 ^ 64) g.world in
      rw (set_text-called offset panel field text g slot) (
        boxes.globals_stay g.engine id text g,
        boxes.text_set g.engine id text g box,
        (λ address. boxes.numbers_stay g.engine id text g address),
        λ address. boxes.pointers_stay g.engine id text g address,
      )

  fill_in-text_of :
      (panel : ℕ) (g : Globals World) (box : ℕ)
      → HasSetText g
      → boxes.text_of box (fill_in calls panel g).world ≡ (
          if box == password_box panel g
          then g.login.password
          else if box == account_box panel g
          then g.login.account
          else boxes.text_of box g.world)
  unfolding fill_in
  fill_in-text_of panel g box slot =
      let offset = engine_offset g.ui_panel_offset in
      let named = set_text calls offset panel user_id_edit_box_id g.login.account g in
      let (globals, shown, numbers, pointers) =
        set_text-text_of offset panel user_id_edit_box_id g.login.account g box slot in
      let same_engine = ap (λ (g : Globals World). g.engine) globals in
      let same_password = ap (λ (g : Globals World). g.login.password) globals in
      let slot' =
        ap (λ (e : ℕ). calls.read_pointer ((e + offset + set_text_value_slot) % 2 ^ 64) named.world)
          same_engine
        ∙ pointers _
        ∙ slot in
      let (globals', shown', numbers', pointers') =
        set_text-text_of offset panel user_password_edit_box_id named.login.password named box
          slot' in
      shown' ∙ rw (numbers, same_password, shown) refl

  -- The state behind the calls of the game and of `GetLogin`.
  abbrev pub logged_in : Win32 World → ℕ → Globals World → Bool × Globals World
  logged_in os this g =
      let (engine, opened) = calls.o_get_instance (calls.o_open_login_panel this g) in
      let (found, login, world) = get_login os opened.login opened.world in
      (found, record opened { engine = engine; login = login; world = world })

  -- When the window is opened, the box of the account and the box of the password get the texts that
  -- `GetLogin` leaves, if it finds a login, and every other box keeps its text; if it finds none, all do.
  -- This is for a window whose function at the computed place is `SetTextValue`.
  pub open_login_panel-text_of :
      (os : Win32 World) (this : ℕ) (g : Globals World) (box : ℕ)
      → HasSetText (logged_in os this g).1
      → let panel = (this + to_unsigned 64 g.ui_panel_offset) % 2 ^ 64 in
        let (found, tried) = logged_in os this g in
        boxes.text_of box (open_login_panel calls os this g).world ≡ (
          if not found
          then boxes.text_of box tried.world
          else if box == password_box panel tried
          then tried.login.password
          else if box == account_box panel tried
          then tried.login.account
          else boxes.text_of box tried.world)
  unfolding open_login_panel
  open_login_panel-text_of os this g box slot = elim (Bool-cases (logged_in os this g).0) [
    | inl found ↦ rw found (
        fill_in-text_of ((this + to_unsigned 64 g.ui_panel_offset) % 2 ^ 64) (logged_in os this g).1
          box slot)
    | inr missing ↦ rw missing refl
  ]
