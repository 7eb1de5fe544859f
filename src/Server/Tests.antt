-- ===== src/Server/Tests.antt =====
-- Runs of `GetServer` and of the hook on `RequestLogin` of Lobby.h, and the theorems there.
use loginhelper.Prelude.{arith, ◌≡◌, refl, true, false, [], ◌∷◌, some, pos, codes}
use loginhelper.Win32.Sample.{Process, get, read, sample}
use loginhelper.Std.{is_space, is_decimal, stoi}
use loginhelper.Server.{
  LoginHelperData, get_server, take_text, take_number, Request, swap_program, override, Lobby,
  requests, request_login, finish,
}
use loginhelper.Server.Requests.{IsRequest, request_login-IsRequest}

abbrev nothing : Process
nothing = record { variables = []; command_line = codes "a.exe"; clock = 0 }

abbrev address_only : Process
address_only = record nothing { variables = ("BNS_SERVER_NP_ADDRESS", codes "host") ∷ [] }

abbrev no_data : LoginHelperData
no_data = record {
  np_address = [];
  np_port = 0;
  np_program_id = 0;
  np_game_code = [];
  lobby_address = [];
  lobby_port = 0;
}

abbrev lobby : Lobby
lobby = record { lhdata = no_data; firstrun = true; swap_programid = true }

abbrev request : Request
request = record {
  np_address = codes "np";
  np_port = 6600;
  np_program_id = 302;
  np_game_code = codes "bns";
  lobby_address = codes "lobby";
  lobby_port = 10900;
  account = codes "me";
  password = codes "pw";
}

abbrev host_data : LoginHelperData
host_data = record no_data {
  np_address = codes "host";
  np_port = 65535;
  np_program_id = 65535;
  lobby_port = 65535;
}

abbrev lobby_after : Lobby
lobby_after = record lobby { lhdata = host_data; firstrun = false }

-- With only the address given, the request's ports and program are lost.
abbrev host_request : Request
host_request = record request {
  np_address = codes "host";
  np_port = 65535;
  np_program_id = 65535;
  lobby_port = 65535;
}

number_with_spaces : stoi (codes " 10900x") ≡ some (pos 10900)
unfolding stoi is_space is_decimal
number_with_spaces = refl

request_login-address_only :
    request_login sample address_only lobby request ≡ (lobby_after, requests host_request)
unfolding request_login finish override swap_program get_server take_text take_number read get
request_login-address_only = refl

request_login-IsRequest_example :
    (l' : Lobby) × (q : Request) × (request_login sample address_only lobby request
      ≡ (l', requests q))
    × IsRequest sample address_only lobby request q
    × (l'.firstrun ≡ false)
    × (l'.swap_programid ≡ true)
unfolding read get
request_login-IsRequest_example =
    request_login-IsRequest sample address_only lobby request refl
      (omega arith, omega arith, omega arith, omega arith, omega arith, omega arith)
