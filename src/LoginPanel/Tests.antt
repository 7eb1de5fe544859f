-- ===== src/LoginPanel/Tests.antt =====
-- A sample game with text boxes, and the hooks on its login window.
use loginhelper.Prelude.{
  ℕ, ◌≡◌, refl, true, false, List, [], ◌∷◌, ◌==◌, if◌then◌else◌, pos, codes, arith,
}
use loginhelper.Win32.{Win32, IsEnvironment}
use loginhelper.Win32.Sample.{Process, sample, sample-IsEnvironment, get, read}
use loginhelper.Pin.{initial as no_pin}
use loginhelper.Login.{initial as no_login, get_login, login_from_variables}
use loginhelper.Server.{Lobby, Request, request_login}
use loginhelper.LoginPanel.{Globals, GameCalls, open_login_panel, fill_in, set_text}
use loginhelper.LoginPanel.Laws.{IsTextBoxes, logged_in, open_login_panel-text_of}
use loginhelper.LoginPanel.Filled.{open_login_panel_variables}
use loginhelper.Login.Laws.{username_reading, password_reading}

-- A process with text boxes.
pub record Desktop : Type 0 where
  pub process : Process
  pub boxes : ℕ → List ℕ

abbrev desktop : Win32 Desktop
desktop = record {
  get_environment_variable_w = λ name size d. sample.get_environment_variable_w name size d.process;
  get_environment_variable_a = λ name size d. sample.get_environment_variable_a name size d.process;
  set_environment_variable_w =
      λ name text d. record d { process = sample.set_environment_variable_w name text d.process };
  get_command_line_w = λ d. d.process.command_line;
  time = λ d. d.process.clock;
}

-- The number at an address is the address, and each call sets its box.
abbrev game : GameCalls Desktop
game = record {
  o_process_login = λ this g. record g { engine = 1 };
  o_process_event = λ this event g. (true, record g { engine = event });
  o_open_login_panel = λ this g. g;
  o_get_instance = λ g. (0x7000, g);
  set_text_value = λ function engine id text g. record g {
    world = record g.world { boxes = λ box. if box == id then text else g.world.boxes box };
  };
  read_number = λ address d. address;
  read_pointer = λ address d. 0x42;
}

abbrev game-IsTextBoxes : IsTextBoxes game
game-IsTextBoxes = record {
  text_of = λ box d. d.boxes box;
  set_text_pointer = 0x42;
  globals_stay = λ engine id text g. refl;
  text_set = λ engine id text g box. refl;
  numbers_stay = λ engine id text g address. refl;
  pointers_stay = λ engine id text g address. refl;
}

abbrev started : Desktop
started = record {
  process = record {
    variables = ("BNS_PROFILE_USERNAME", codes "me@x") ∷ ("BNS_PROFILE_PASSWORD", codes "pw") ∷ [];
    command_line = codes "a.exe";
    clock = 0;
  };
  boxes = λ box. [];
}

abbrev lobby : Lobby
lobby = record {
  lhdata = record {
    np_address = [];
    np_port = 0;
    np_program_id = 0;
    np_game_code = [];
    lobby_address = [];
    lobby_port = 0;
  };
  firstrun = true;
  swap_programid = false;
}

abbrev request : Request
request = record {
  np_address = codes "np";
  np_port = 1;
  np_program_id = 2;
  np_game_code = codes "bns";
  lobby_address = codes "lobby";
  lobby_port = 3;
  account = codes "me";
  password = codes "pw";
}

abbrev before : Globals Desktop
before = record {
  lobby = lobby;
  pin = no_pin;
  login = no_login;
  engine = 0;
  ui_panel_offset = pos 8;
  world = started;
}

abbrev after : Globals Desktop
after = record before { lobby = (request_login desktop started lobby request).0 }

account_filled : (open_login_panel game desktop 0x1000 before).world.boxes 0x1130 ≡ codes "me@x"
unfolding open_login_panel fill_in set_text get_login login_from_variables read get
account_filled = refl

open_login_panel-text_of_example :
    (open_login_panel game desktop 0x1000 before).world.boxes 0x1134 ≡ codes "pw"
unfolding get_login login_from_variables read get
open_login_panel-text_of_example =
    open_login_panel-text_of game game-IsTextBoxes desktop 0x1000 before 0x1134 refl

desktop-IsEnvironment : IsEnvironment desktop
desktop-IsEnvironment = record {
  set_empty = λ name size d h. sample-IsEnvironment.set_empty name size d.process h;
  set_empty_a = λ name size d h. sample-IsEnvironment.set_empty_a name size d.process h;
  set_other =
      λ name other text size d h. sample-IsEnvironment.set_other name other text size d.process h;
  fits = λ name size d h k. sample-IsEnvironment.fits name size d.process h k;
}

open_login_panel_variables_example :
    ((open_login_panel game desktop 0x1000 before).world.boxes 0x1130 ≡ codes "me@x")
    × ((open_login_panel game desktop 0x1000 before).world.boxes 0x1134 ≡ codes "pw")
    × ((username_reading desktop
          (logged_in game game-IsTextBoxes desktop 0x1000 before).1.world).ret
        ≡ 0)
    × ((password_reading desktop
          (logged_in game game-IsTextBoxes desktop 0x1000 before).1.world).ret
        ≡ 0)
unfolding read get
open_login_panel_variables_example =
    open_login_panel_variables game game-IsTextBoxes desktop desktop-IsEnvironment 0x1000 before
      refl (omega arith) (omega arith) (omega arith) (omega arith) refl (omega arith)
