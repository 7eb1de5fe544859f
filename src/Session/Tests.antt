-- ===== src/Session/Tests.antt =====
-- A sample game whose login window requests a login, and the session of a process there.
use loginhelper.Prelude.{ℕ, ◌≡◌, refl, inl, Bool, true, false, [], none, some, pos, codes, ok}
use loginhelper.Win32.Sample.{Process, sample, get, read}
use loginhelper.Totp.{CppTotp}
use loginhelper.Pin.{initial as no_pin}
use loginhelper.Pin.Panel.{Game, process_confirm_click, update_verify_mode}
use loginhelper.Login.{initial as no_login}
use loginhelper.Server.{Call, Request, LoginHelperData, request_login}
use loginhelper.LoginPanel.{Globals, GameCalls, process_event, process_login, open_login_panel}
use loginhelper.Entry.{Plugin, Module, returned, oep_notify}
use loginhelper.Entry.Laws.{oep_notify_first}
use loginhelper.Session.{
  Outer, Changes, outer_os, behind_window, here, next, login_requested, played, Session, plugin_of,
  with_plugin, notified, changed, Reach, start, step,
}
use loginhelper.Session.Stable.{Stable}
use loginhelper.Session.Hooks.{IsGame, hooks-Stable, process_event_requested}
use loginhelper.Session.Entered.{IsFinal, Reach-IsFinal}

abbrev no_codes : CppTotp
no_codes = record { from_unpadded_base32 = λ s. none; totp = λ key now start period digits. 0 }

abbrev no_server : LoginHelperData
no_server = record {
  np_address = [];
  np_port = 0;
  np_program_id = 0;
  np_game_code = [];
  lobby_address = [];
  lobby_port = 0;
}

abbrev quiet : Process
quiet = record { variables = []; command_line = codes "a.exe"; clock = 0 }

abbrev fresh : Globals Process
fresh = record {
  lobby = record { lhdata = no_server; firstrun = true; swap_programid = false };
  pin = no_pin;
  login = no_login;
  engine = 0;
  ui_panel_offset = pos 0;
  world = quiet;
}

abbrev request : Request
request = record {
  np_address = codes "np";
  np_port = 6600;
  np_program_id = 302;
  np_game_code = codes "bns";
  lobby_address = codes "lobby";
  lobby_port = 10100;
  account = codes "a";
  password = codes "b";
}

-- The login window asks for a login when its button is pressed.
abbrev requesting : Globals Process → Globals Process
requesting g = record g { lobby = (request_login sample g.world g.lobby request).0 }

abbrev window_calls : GameCalls Process
window_calls = record {
  o_process_login = λ this g. requesting g;
  o_process_event = λ this event g. (true, g);
  o_open_login_panel = λ this g. g;
  o_get_instance = λ g. (0, g);
  set_text_value = λ function engine id text g. g;
  read_number = λ address w. 0;
  read_pointer = λ address w. 0;
}

abbrev handled : Game (Outer Process) → Bool × Game (Outer Process)
handled w = (true, w)

abbrev window_calls-IsGame : IsGame sample no_codes window_calls handled handled
window_calls-IsGame = record {
  login_plays = λ this g. next here (login_requested g request);
  event_plays = λ this event g. here;
  open_plays = λ this g. here;
  instance_plays = λ g. here;
  text_plays = λ function engine id text g. here;
  confirm_plays = λ w. here;
  update_plays = λ w. here;
}

hooks-Stable_example :
    ((this event : ℕ) (g : Globals Process) → Stable g (process_event window_calls this event g).1)
    × ((this : ℕ) (g : Globals Process) → Stable g (process_login window_calls this g))
    × ((this : ℕ) (g : Globals Process) → Stable g (open_login_panel window_calls sample this g))
    × ((o_request_login : Call → Globals Process → Globals Process)
        → ((call : Call) (g : Globals Process) → Changes sample no_codes g (o_request_login call g))
        → (r : Request) (g : Globals Process)
        → Stable g (
            o_request_login
              (request_login sample g.world g.lobby r).1
              (record g { lobby = (request_login sample g.world g.lobby r).0 })))
    × ((w : Game (Outer Process))
        → Stable (behind_window w) (behind_window (process_confirm_click handled w).1))
    × ((w v : Game (Outer Process)) (shown : Bool)
        → update_verify_mode (outer_os sample) no_codes handled handled w ≡ ok (shown, v)
        → Stable (behind_window w) (behind_window v))
hooks-Stable_example = hooks-Stable sample no_codes window_calls handled handled window_calls-IsGame

process_event_requested_example :
    process_event window_calls 7 1 (record (requesting fresh) { world = quiet })
    ≡ (true, record (requesting fresh) { world = quiet })
process_event_requested_example =
    process_event_requested sample no_codes window_calls fresh
      (record (requesting fresh) { world = quiet }) request 7 1
      (next here (played (requesting fresh) quiet))

abbrev loaded : Session Process
loaded = record {
  initdone = false;
  detours = [];
  o_process_login = none;
  o_get_instance = none;
  globals = fresh;
}

abbrev client : Module
client = record { handle = 0x1000; base = 0x2000; code = [] }

first_entry :
    (p' : Plugin) × (oep_notify sample quiet (some client) (plugin_of loaded) ≡ ok (returned p'))
    × (p'.initdone ≡ true)
unfolding plugin_of read get
first_entry =
    let (p', ran, hooks, done, keep, swap, later) =
      oep_notify_first sample quiet client (plugin_of loaded) refl tt (inl refl) in
    (p', ran, done)

abbrev entered : Session Process
entered = with_plugin first_entry.0 loaded

-- A login behind the entry.
abbrev requested_session : Session Process
requested_session = record entered { globals = requesting entered.globals }

login_step : Reach sample no_codes entered requested_session
login_step = step start (changed entered (next here (login_requested entered.globals request)))

entry_and_login : Reach sample no_codes loaded requested_session
entry_and_login =
    step (step start (notified loaded (some client) (returned first_entry.0) first_entry.1))
      (changed entered (next here (login_requested entered.globals request)))

Reach-IsFinal_example : IsFinal sample no_codes entered requested_session
unfolding with_plugin
Reach-IsFinal_example = Reach-IsFinal sample no_codes first_entry.2 login_step
