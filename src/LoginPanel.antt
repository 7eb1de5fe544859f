-- ===== src/LoginPanel.antt =====
-- The hooks of loginhelper/Lobby.h on the game's login window. They share globals with the hooks of
-- RequestLogin and of the PIN window. The game's memory is part of the process, and the game's own
-- functions are parameters, which may change the globals and the process.
pub mod Laws
pub mod Filled
mod Tests
use loginhelper.Prelude.{
  ℕ, ◌+◌, ◌*◌, ◌%◌, ◌^◌, Bool, List, ltb, if◌then◌else◌, ℤ, pos, negsuc, to_unsigned, false,
}
use loginhelper.Win32.{Win32}
use loginhelper.Pin.{PinState}
use loginhelper.Login.{Credentials, get_login}
use loginhelper.Server.{Lobby}

-- The globals of the hooks, and the process. `engine` is `UIEngineInterfaceInstance`.
pub record Globals (World : Type 0) : Type 0 where
  pub lobby : Lobby
  pub pin : PinState
  pub login : Credentials
  pub engine : ℕ
  pub ui_panel_offset : ℤ
  pub world : World

-- The functions of the game, on the window's address, and the reads of its memory: of a 32-bit number
-- and of a pointer. `set_text_value` is a call of the function at a pointer.
pub record GameCalls (World : Type 0) : Type 0 where
  pub o_process_login : ℕ → Globals World → Globals World
  pub o_process_event : ℕ → ℕ → Globals World → Bool × Globals World
  pub o_open_login_panel : ℕ → Globals World → Globals World
  pub o_get_instance : Globals World → ℕ × Globals World
  pub set_text_value : ℕ → ℕ → ℕ → List ℕ → Globals World → Globals World
  pub read_number : ℕ → World → ℕ
  pub read_pointer : ℕ → World → ℕ

-- The offsets of `_userIdEditBoxID` and `_userPasswordEditBoxID` in `TitleLoginPanel`, and of
-- `SetTextValue` in `UIEngineInterface`, as Data.h asserts them.
abbrev pub user_id_edit_box_id : ℕ
user_id_edit_box_id = 0x128

abbrev pub user_password_edit_box_id : ℕ
user_password_edit_box_id = 0x12C

abbrev pub set_text_value_slot : ℕ
set_text_value_slot = 0x150

-- `UIPanelOffset > 0`, which decides the place of the function.
unfoldable pub engine_offset : ℤ → ℕ
engine_offset (pos n) = if ltb 0 n then 8 * 3 else 0
engine_offset (negsuc n) = 0

module _ {World : Type 0} (calls : GameCalls World) where
  -- `hkTitleLoginPanel_processLogin`.
  abbrev pub process_login : ℕ → Globals World → Globals World
  process_login this g = calls.o_process_login this g

  -- `hkTitleLoginPanel_ProcessEvent`.
  unfoldable pub process_event : ℕ → ℕ → Globals World → Bool × Globals World
  process_event this event g =
      let submitted =
        calls.o_process_login this (record g { pin = record g.pin { pincount = 0 } }) in
      calls.o_process_event this event (if g.lobby.firstrun then submitted else g)

  -- A call of `SetTextValue` for the field of the window at `panel`.
  unfoldable pub set_text : ℕ → ℕ → ℕ → List ℕ → Globals World → Globals World
  set_text offset panel field text g =
      let function =
        calls.read_pointer ((g.engine + offset + set_text_value_slot) % 2 ^ 64) g.world in
      let id = calls.read_number ((panel + field) % 2 ^ 64) g.world in
      calls.set_text_value function g.engine id text g

  -- The two calls behind a login that was found.
  unfoldable pub fill_in : ℕ → Globals World → Globals World
  fill_in panel g =
      let offset = engine_offset g.ui_panel_offset in
      let named = set_text offset panel user_id_edit_box_id g.login.account g in
      set_text offset panel user_password_edit_box_id named.login.password named

  -- `hkTitleLoginPanel_OpenLoginPanel`.
  unfoldable pub open_login_panel : Win32 World → ℕ → Globals World → Globals World
  open_login_panel os this g =
      let panel = (this + to_unsigned 64 g.ui_panel_offset) % 2 ^ 64 in
      let (engine, opened) = calls.o_get_instance (calls.o_open_login_panel this g) in
      let (found, login, world) = get_login os opened.login opened.world in
      let tried = record opened { engine = engine; login = login; world = world } in
      if found then fill_in panel tried else tried
