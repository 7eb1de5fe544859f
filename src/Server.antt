-- ===== src/Server.antt =====
-- The server of a login: `GetServer` and `hkLobby_RequestLogin` of src/loginhelper/Lobby.h, with
-- `LoginHelperData` of Data.h. A `std::stoi` that throws leaves the call with the fields written so far.
pub mod Laws
pub mod Requests
mod Tests
use loginhelper.Prelude.{
  ℕ, Bool, true, false, not, List, [], Option, none, some, String, ◌==◌, if◌then◌else◌, ℤ, pos,
  negsuc, minus_one, ◌==ℤ◌, to_unsigned,
}
use loginhelper.Win32.{Win32}
use loginhelper.Std.{stoi}

pub record LoginHelperData : Type 0 where
  pub np_address : List ℕ
  pub np_port : ℕ
  pub np_program_id : ℕ
  pub np_game_code : List ℕ
  pub lobby_address : List ℕ
  pub lobby_port : ℕ

-- `GetServer` on its way: the global and `has_any`, or the global that an exception leaves.
pub data Progress : Type 0 where
  running : LoginHelperData → Bool → Progress
  thrown : LoginHelperData → Progress

-- The conversion of an `int` to `unsigned __int16`.
abbrev pub to_u16 : ℤ → ℕ
to_u16 = to_unsigned 16

abbrev pub put_number :
    (ℕ → LoginHelperData → LoginHelperData) → LoginHelperData → Option ℤ → Progress
put_number put d none = thrown d
put_number put d (some n) = running (put (to_u16 n) d) true

module _ {World : Type 0} (os : Win32 World) (w : World) where
  -- `if (GetEnvironmentVariableW(name, …)) { field = EnvVarW; has_any = true; }`
  unfoldable pub take_text :
      String → (List ℕ → LoginHelperData → LoginHelperData) → Progress → Progress
  take_text name put (thrown d) = thrown d
  take_text name put (running d any) =
      let var = os.get_environment_variable_w name 256 w in
      if var.ret == 0 then running d any else running (put var.buffer d) true

  -- `if (GetEnvironmentVariableW(name, …)) { field = std::stoi(EnvVarW); has_any = true; }`
  unfoldable pub take_number :
      String → (ℕ → LoginHelperData → LoginHelperData) → Progress → Progress
  take_number name put (thrown d) = thrown d
  take_number name put (running d any) =
      let var = os.get_environment_variable_w name 256 w in
      if var.ret == 0 then running d any else put_number put d (stoi var.buffer)

  -- `GetServer`, on the global `lhdata`.
  unfoldable pub get_server : LoginHelperData → Progress
  get_server lhdata =
      let unset = record lhdata {
        np_port = to_u16 minus_one;
        np_program_id = to_u16 minus_one;
        lobby_port = to_u16 minus_one;
      } in
      take_number "BNS_SERVER_LOBBY_PORT" (λ n d. record d { lobby_port = n })
        (take_text "BNS_SERVER_LOBBY_ADDRESS" (λ s d. record d { lobby_address = s })
          (take_text "BNS_SERVER_NP_GAMECODE" (λ s d. record d { np_game_code = s })
            (take_number "BNS_SERVER_NP_PROGRAMID" (λ n d. record d { np_program_id = n })
              (take_number "BNS_SERVER_NP_PORT" (λ n d. record d { np_port = n })
                (take_text "BNS_SERVER_NP_ADDRESS" (λ s d. record d { np_address = s })
                  (running unset false))))))

-- The arguments of `RequestLogin`.
pub record Request : Type 0 where
  pub np_address : List ℕ
  pub np_port : ℕ
  pub np_program_id : ℕ
  pub np_game_code : List ℕ
  pub lobby_address : List ℕ
  pub lobby_port : ℕ
  pub account : List ℕ
  pub password : List ℕ

-- The `switch` over the program's number.
unfoldable pub swap_program : ℕ → ℕ
swap_program id =
    if id == 302
    then 301
    else if id == 306
    then 321
    else if id == 342
    then 346
    else if id == 343
    then 347
    else id

-- `if (!text.empty()) argument = text.c_str();`
abbrev pub prefer_text : List ℕ → List ℕ → List ℕ
prefer_text [] argument = argument
prefer_text text argument = text

-- `if (number != -1) argument = number;`: the field is converted to `int` for the comparison.
unfoldable pub prefer_number : ℕ → ℕ → ℕ
prefer_number number argument = if not (pos number ==ℤ minus_one) then number else argument

-- The arguments with what `GetServer` found.
unfoldable pub override : LoginHelperData → Request → Request
unfolding prefer_number
override d r = record r {
  np_address = prefer_text d.np_address r.np_address;
  np_port = prefer_number d.np_port r.np_port;
  np_program_id = prefer_number d.np_program_id r.np_program_id;
  np_game_code = prefer_text d.np_game_code r.np_game_code;
  lobby_address = prefer_text d.lobby_address r.lobby_address;
  lobby_port = prefer_number d.lobby_port r.lobby_port;
}

-- The globals of the hook.
pub record Lobby : Type 0 where
  pub lhdata : LoginHelperData
  pub firstrun : Bool
  pub swap_programid : Bool

-- What the hook does in the end: call the game's function with these arguments, or let an exception
-- go to the game.
pub data Call : Type 0 where
  requests : Request → Call
  throws : Call

unfoldable pub finish : Lobby → Request → Progress → Lobby × Call
finish l r (thrown d) = (record l { lhdata = d }, throws)
finish l r (running d any) = (record l { lhdata = d }, requests (if any then override d r else r))

-- `hkLobby_RequestLogin`.
unfoldable pub request_login :
    {World : Type 0} → Win32 World → World → Lobby → Request → Lobby × Call
request_login os w l r =
    let l' = record l { firstrun = false } in
    let r' =
      if l.swap_programid then record r { np_program_id = swap_program r.np_program_id } else r in
    finish l' r' (get_server os w l.lhdata)
