-- ===== src/Server/Laws.antt =====
-- What `GetServer` reads, and what the hook asks for.
use loginhelper.Prelude.{
  ℕ, ◌≡◌, refl, Bool, true, false, not, ◌||◌, List, Option, none, some, String, ◌==◌, if◌then◌else◌,
  arith,
}
use loginhelper.Win32.{Win32, Reading}
use loginhelper.Std.{stoi}
use loginhelper.Server.{
  LoginHelperData, Progress, running, thrown, to_u16, take_text, take_number, get_server, Request,
  swap_program, override, Lobby, requests, finish, request_login,
}

finish_requests :
    (l l' : Lobby) (r q : Request) (p : Progress)
    → finish l r p ≡ (l', requests q)
    → (d : LoginHelperData) × (any : Bool) × (p ≡ running d any)
      × (q ≡ (if any then override d r else r))
unfolding finish
finish_requests l l' r q (thrown d) e = cc
finish_requests l l' r q (running d any) e = (d, any, refl, ground arith)

abbrev pub is_thrown : Progress → Bool
is_thrown (running d any) = false
is_thrown (thrown d) = true

module _ {World : Type 0} (os : Win32 World) (w : World) where
  abbrev pub variable : String → Reading
  variable name = os.get_environment_variable_w name 256 w

  abbrev pub is_set : String → Bool
  is_set name = not ((variable name).ret == 0)

  -- A text of the server: that of the variable if it is set, else the one kept from before.
  abbrev pub text_or : String → List ℕ → List ℕ
  text_or name kept = if is_set name then (variable name).buffer else kept

  -- A number of the server: the low sixteen bits of the variable's, or 65535 if it is not set;
  -- `none` if the variable is set to a text that is no `int`.
  abbrev pub number_of : String → Option ℕ
  number_of name =
      if is_set name
      then elim (stoi (variable name).buffer) [ none ↦ none | some v ↦ some (to_u16 v) ]
      else some 65535

  -- The variables that are set.
  abbrev pub any_set : Bool
  any_set =
      is_set "BNS_SERVER_NP_ADDRESS"
      || is_set "BNS_SERVER_NP_PORT"
      || is_set "BNS_SERVER_NP_PROGRAMID"
      || is_set "BNS_SERVER_NP_GAMECODE"
      || is_set "BNS_SERVER_LOBBY_ADDRESS"
      || is_set "BNS_SERVER_LOBBY_PORT"

  -- What a call that returns leaves: texts that are not set are kept from the call before, numbers
  -- that are not set are 65535.
  pub record IsServer (d d' : LoginHelperData) (any : Bool) : Type 0 where
    pub np_address : d'.np_address ≡ text_or "BNS_SERVER_NP_ADDRESS" d.np_address
    pub np_port : number_of "BNS_SERVER_NP_PORT" ≡ some d'.np_port
    pub np_program_id : number_of "BNS_SERVER_NP_PROGRAMID" ≡ some d'.np_program_id
    pub np_game_code : d'.np_game_code ≡ text_or "BNS_SERVER_NP_GAMECODE" d.np_game_code
    pub lobby_address : d'.lobby_address ≡ text_or "BNS_SERVER_LOBBY_ADDRESS" d.lobby_address
    pub lobby_port : number_of "BNS_SERVER_LOBBY_PORT" ≡ some d'.lobby_port
    pub any_is : any ≡ any_set

  pub get_server-IsServer :
      (d d' : LoginHelperData) (any : Bool) → get_server os w d ≡ running d' any → IsServer d d' any
  unfolding get_server take_text take_number
  get_server-IsServer d d' any e = ground arith

  abbrev pub refused : String → Bool
  refused name = elim (number_of name) [ none ↦ true | some n ↦ false ]

  pub get_server_throws :
      (d : LoginHelperData)
      → is_thrown (get_server os w d) ≡ (
          refused "BNS_SERVER_NP_PORT"
          || refused "BNS_SERVER_NP_PROGRAMID"
          || refused "BNS_SERVER_LOBBY_PORT")
  unfolding get_server take_text take_number
  get_server_throws d = ground arith

  -- Whatever the variables say, the account and the password go on as they came, the hook has run
  -- once, and its switch is not touched.
  pub request_login_keeps :
      (l l' : Lobby) (r q : Request)
      → request_login os w l r ≡ (l', requests q)
      → (q.account ≡ r.account)
        × (q.password ≡ r.password)
        × (l'.firstrun ≡ false)
        × (l'.swap_programid ≡ l.swap_programid)
  unfolding request_login finish override
  request_login_keeps l l' r q e = ground arith

  -- With none of the six variables set, the request goes on with no change but the program's number,
  -- if the switch asks for it.
  pub request_login_plain :
      (l : Lobby) (r : Request)
      → any_set ≡ false
      → (request_login os w l r).1
        ≡ requests (record r {
          np_program_id =
              if l.swap_programid then swap_program r.np_program_id else r.np_program_id;
        })
  unfolding request_login finish get_server take_text take_number
  request_login_plain l r unset = ground arith

  -- With some variable set, the request's ports and program are those of the variables, and 65535
  -- where a number's variable is not set: the number that came with the request is lost.
  pub request_login_numbers :
      (l l' : Lobby) (r q : Request)
      → any_set ≡ true
      → request_login os w l r ≡ (l', requests q)
      → (number_of "BNS_SERVER_NP_PORT" ≡ some q.np_port)
        × (number_of "BNS_SERVER_NP_PROGRAMID" ≡ some q.np_program_id)
        × (number_of "BNS_SERVER_LOBBY_PORT" ≡ some q.lobby_port)
  unfolding request_login override
  request_login_numbers l l' r q set e =
      let (d, any, p, e') = finish_requests _ l' _ q (get_server os w l.lhdata) e in
      let server = get_server-IsServer l.lhdata d any p in ground (arith, server, e')
