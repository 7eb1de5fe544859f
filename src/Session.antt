-- ===== src/Session.antt =====
-- The globals that the hooks of loginhelper/LoginOtp.h and Lobby.h share, and what happens to them
-- while the game runs: the game calls the hooks in any order, and a function of the game that a hook
-- calls may call hooks again, and changes the globals in no other way.
pub mod Pins
pub mod Stable
pub mod Hooks
pub mod Entered
pub mod Notified
mod Tests
use loginhelper.Prelude.{ℕ, ◌+◌, ◌≡◌, Bool, List, [], ℤ, pos, Option, none, Result, ok}
use loginhelper.Win32.{Win32}
use loginhelper.Totp.{CppTotp}
use loginhelper.Pin.{PinState, get_pin}
use loginhelper.Pin.Panel.{Game}
use loginhelper.Login.{Credentials, get_login}
use loginhelper.Server.{Lobby, Request, request_login}
use loginhelper.LoginPanel.{Globals}
use loginhelper.Entry.{Plugin, Exit, left_by, DetourCall, Module, oep_notify}

-- The globals but those of the PIN, with the process: the process as the hooks on the PIN window see it.
pub record Outer (World : Type 0) : Type 0 where
  pub lobby : Lobby
  pub login : Credentials
  pub engine : ℕ
  pub ui_panel_offset : ℤ
  pub world : World

abbrev pub outer_os : {World : Type 0} → Win32 World → Win32 (Outer World)
outer_os os = record {
  get_environment_variable_w = λ name size o. os.get_environment_variable_w name size o.world;
  get_environment_variable_a = λ name size o. os.get_environment_variable_a name size o.world;
  set_environment_variable_w =
      λ name text o. record o { world = os.set_environment_variable_w name text o.world };
  get_command_line_w = λ o. os.get_command_line_w o.world;
  time = λ o. os.time o.world;
}

module _ {World : Type 0} where
  abbrev pub outer : Globals World → Outer World
  outer g = record {
    lobby = g.lobby;
    login = g.login;
    engine = g.engine;
    ui_panel_offset = g.ui_panel_offset;
    world = g.world;
  }

  abbrev pub globals_of : PinState → Outer World → Globals World
  globals_of pin o = record {
    lobby = o.lobby;
    pin = pin;
    login = o.login;
    engine = o.engine;
    ui_panel_offset = o.ui_panel_offset;
    world = o.world;
  }

  -- The globals behind a state of the PIN window.
  abbrev pub behind_window : Game (Outer World) → Globals World
  behind_window game = globals_of game.pin game.world

-- What a hook, or the game, does to the globals.
pub data Change {World : Type 0} (os : Win32 World) (lib : CppTotp)
    : Globals World → Globals World → Type 0 where
  count_reset :
      (g : Globals World) → Change os lib g (record g { pin = record g.pin { pincount = 0 } })
  counted :
      (g : Globals World)
      → Change os lib g (record g { pin = record g.pin { pincount = g.pin.pincount + 1 } })
  pin_asked :
      (g : Globals World) {found : Bool} {pin : PinState} {o : Outer World}
      → get_pin (outer_os os) lib g.pin (outer g) ≡ ok (found, pin, o)
      → Change os lib g (globals_of pin o)
  login_asked :
      (g : Globals World)
      → Change os lib g (record g {
        login = (get_login os g.login g.world).1;
        world = (get_login os g.login g.world).2;
      })
  engine_found : (g : Globals World) (engine : ℕ) → Change os lib g (record g { engine = engine })
  login_requested :
      (g : Globals World) (r : Request)
      → Change os lib g (record g { lobby = (request_login os g.world g.lobby r).0 })
  played : (g : Globals World) (world : World) → Change os lib g (record g { world = world })

pub data Changes {World : Type 0} (os : Win32 World) (lib : CppTotp) (g : Globals World)
    : Globals World → Type 0 where
  here : Changes os lib g g
  next : {h k : Globals World} → Changes os lib g h → Change os lib h k → Changes os lib g k

pub Changes-trans :
    {World : Type 0} {os : Win32 World} {lib : CppTotp} {g h k : Globals World}
    → Changes os lib g h
    → Changes os lib h k
    → Changes os lib g k
Changes-trans r here = r
Changes-trans r (next s c) = next (Changes-trans r s) c

-- The globals with those that the entry alone uses.
pub record Session (World : Type 0) : Type 0 where
  pub initdone : Bool
  pub detours : List DetourCall
  pub o_process_login : Option ℕ
  pub o_get_instance : Option ℕ
  pub globals : Globals World

module _ {World : Type 0} where
  -- The globals of the entry, of which it shares three with the hooks.
  unfoldable pub plugin_of : Session World → Plugin
  plugin_of s = record {
    initdone = s.initdone;
    detours = s.detours;
    o_process_login = s.o_process_login;
    o_get_instance = s.o_get_instance;
    ui_panel_offset = s.globals.ui_panel_offset;
    keeppin = s.globals.pin.keeppin;
    swap_programid = s.globals.lobby.swap_programid;
  }

  unfoldable pub with_plugin : Plugin → Session World → Session World
  with_plugin p s = record {
    initdone = p.initdone;
    detours = p.detours;
    o_process_login = p.o_process_login;
    o_get_instance = p.o_get_instance;
    globals = record s.globals {
      ui_panel_offset = p.ui_panel_offset;
      pin = record s.globals.pin { keeppin = p.keeppin };
      lobby = record s.globals.lobby { swap_programid = p.swap_programid };
    };
  }

-- A notification of the entry, or changes by hooks and the game.
pub data Step {World : Type 0} (os : Win32 World) (lib : CppTotp)
    : Session World → Session World → Type 0 where
  notified :
      (s : Session World) (m : Option Module) (x : Exit)
      → oep_notify os s.globals.world m (plugin_of s) ≡ ok x
      → Step os lib s (with_plugin (left_by x) s)
  changed :
      (s : Session World) {g : Globals World}
      → Changes os lib s.globals g
      → Step os lib s (record s { globals = g })

pub data Reach {World : Type 0} (os : Win32 World) (lib : CppTotp) (s : Session World)
    : Session World → Type 0 where
  start : Reach os lib s s
  step : {t u : Session World} → Reach os lib s t → Step os lib t u → Reach os lib s u
