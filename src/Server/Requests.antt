-- ===== src/Server/Requests.antt =====
-- The request that the hook of Lobby.h hands on to the game.
use loginhelper.Prelude.{
  ◌<◌, arith, ◌≢◌, [], ◌∷◌, ℕ, ◌≡◌, refl, ◌∙◌, sym, Bool, true, false, ◌||◌, List, some,
  if◌then◌else◌, String, Bool-cases, inl, inr,
}
use loginhelper.Win32.{Win32}
use loginhelper.Server.{
  LoginHelperData, Progress, running, thrown, prefer_text, prefer_number, get_server, Request,
  swap_program, override, Lobby, requests, finish, request_login,
}
use loginhelper.Server.Laws.{
  variable, text_or, number_of, any_set, refused, is_thrown, IsServer, get_server-IsServer,
  get_server_throws,
}

returned_from :
    (p : Progress)
    → is_thrown p ≡ false
    → (d : LoginHelperData) × (any : Bool) × (p ≡ running d any)
returned_from (running d any) e = (d, any, refl)
returned_from (thrown d) e = cc

-- The program's number for one that came, by the switch: 301 for 302, 321 for 306, 346 for 342, 347 for
-- 343, and every other as it is, if the switch is on, and all as they are if it is off.
abbrev pub IsProgram : Bool → ℕ → ℕ → Type 0
IsProgram false came goes = goes ≡ came
IsProgram true came goes =
    (came ≡ 302 → goes ≡ 301)
    × (came ≡ 306 → goes ≡ 321)
    × (came ≡ 342 → goes ≡ 346)
    × (came ≡ 343 → goes ≡ 347)
    × (came ≢ 302 → came ≢ 306 → came ≢ 342 → came ≢ 343 → goes ≡ came)

swap_program-IsProgram :
    (swap : Bool) (came : ℕ) → IsProgram swap came (if swap then swap_program came else came)
unfolding swap_program
swap_program-IsProgram false came = refl
swap_program-IsProgram true came = (
  (λ e. ground arith),
  (λ e. ground arith),
  (λ e. ground arith),
  (λ e. ground arith),
  λ a b c d. ground arith,
)

prefer_text-some : (t came : List ℕ) → t ≢ [] → prefer_text t came ≡ t
prefer_text-some [] came h = absurd (h refl)
prefer_text-some (c ∷ cs) came h = refl

prefer_text-none : (t came : List ℕ) → t ≡ [] → prefer_text t came ≡ came
prefer_text-none t came e = rw e refl

module _ {World : Type 0} (os : Win32 World) (w : World) where
  -- A number of the request: the variable's, where some variable is set, else the one it came with.
  abbrev pub IsNumber : String → ℕ → ℕ → Type 0
  IsNumber name came goes =
      (any_set os w ≡ true → number_of os w name ≡ some goes) × (any_set os w ≡ false → goes ≡ came)

  -- A text of the request: where some variable is set, that of the variable, or of the call before where
  -- the variable is not set, if it is not empty; else the one it came with.
  abbrev pub IsText : String → List ℕ → List ℕ → List ℕ → Type 0
  IsText name kept came goes =
      (any_set os w ≡ true → text_or os w name kept ≢ [] → goes ≡ text_or os w name kept)
      × (any_set os w ≡ true → text_or os w name kept ≡ [] → goes ≡ came)
      × (any_set os w ≡ false → goes ≡ came)

  -- The request `q` that goes on for a request `r`.
  pub record IsRequest (l : Lobby) (r q : Request) : Type 0 where
    pub np_address : IsText "BNS_SERVER_NP_ADDRESS" l.lhdata.np_address r.np_address q.np_address
    pub np_port : IsNumber "BNS_SERVER_NP_PORT" r.np_port q.np_port
    pub np_program_id :
        (id : ℕ) × IsProgram l.swap_programid r.np_program_id id
        × IsNumber "BNS_SERVER_NP_PROGRAMID" id q.np_program_id
    pub np_game_code :
        IsText "BNS_SERVER_NP_GAMECODE" l.lhdata.np_game_code r.np_game_code q.np_game_code
    pub lobby_address :
        IsText "BNS_SERVER_LOBBY_ADDRESS" l.lhdata.lobby_address r.lobby_address q.lobby_address
    pub lobby_port : IsNumber "BNS_SERVER_LOBBY_PORT" r.lobby_port q.lobby_port
    pub account : q.account ≡ r.account
    pub password : q.password ≡ r.password

  abbrev pub any_refused : Bool
  any_refused =
      refused os w "BNS_SERVER_NP_PORT"
      || refused os w "BNS_SERVER_NP_PROGRAMID"
      || refused os w "BNS_SERVER_LOBBY_PORT"

  -- Every variable that is set fits the buffer of 256 characters.
  abbrev pub AllFit : Type 0
  AllFit =
      ((variable os w "BNS_SERVER_NP_ADDRESS").ret < 256)
      × ((variable os w "BNS_SERVER_NP_PORT").ret < 256)
      × ((variable os w "BNS_SERVER_NP_PROGRAMID").ret < 256)
      × ((variable os w "BNS_SERVER_NP_GAMECODE").ret < 256)
      × ((variable os w "BNS_SERVER_LOBBY_ADDRESS").ret < 256)
      × ((variable os w "BNS_SERVER_LOBBY_PORT").ret < 256)

  -- The request behind the switch.
  abbrev swapped : Lobby → Request → Request
  swapped l r = record r {
    np_program_id = if l.swap_programid then swap_program r.np_program_id else r.np_program_id;
  }

  taken :
      (name : String) (kept : List ℕ) {came found : List ℕ}
      → any_set os w ≡ true
      → found ≡ text_or os w name kept
      → IsText name kept came (prefer_text found came)
  taken name kept set e = (
    (λ s filled. prefer_text-some _ _ (λ f. filled (sym e ∙ f)) ∙ e),
    (λ s empty. prefer_text-none _ _ (e ∙ empty)),
    λ unset. absurd (cc (set, unset)),
  )

  left :
      (name : String) (kept : List ℕ) {came : List ℕ}
      → any_set os w ≡ false
      → IsText name kept came came
  left name kept unset =
      ((λ set filled. absurd (cc (set, unset))), (λ set empty. absurd (cc (set, unset))), λ e. refl)

  overridden-IsRequest :
      (l : Lobby) (r : Request) (d : LoginHelperData)
      → IsServer os w l.lhdata d true
      → IsRequest l r (override d (swapped l r))
  unfolding override prefer_number
  overridden-IsRequest l r d server =
      let set : any_set os w ≡ true = sym server.any_is in
      record {
        np_address = taken "BNS_SERVER_NP_ADDRESS" l.lhdata.np_address set server.np_address;
        np_port = (λ e. server.np_port, λ e. absurd (cc (set, e)));
        np_program_id = (
          _,
          swap_program-IsProgram l.swap_programid r.np_program_id,
          (λ e. server.np_program_id, λ e. absurd (cc (set, e))),
        );
        np_game_code = taken "BNS_SERVER_NP_GAMECODE" l.lhdata.np_game_code set server.np_game_code;
        lobby_address =
            taken "BNS_SERVER_LOBBY_ADDRESS" l.lhdata.lobby_address set server.lobby_address;
        lobby_port = (λ e. server.lobby_port, λ e. absurd (cc (set, e)));
        account = refl;
        password = refl;
      }

  plain-IsRequest : (l : Lobby) (r : Request) → any_set os w ≡ false → IsRequest l r (swapped l r)
  plain-IsRequest l r unset = record {
    np_address = left "BNS_SERVER_NP_ADDRESS" l.lhdata.np_address unset;
    np_port = (λ e. absurd (cc (unset, e)), λ e. refl);
    np_program_id = (
      _,
      swap_program-IsProgram l.swap_programid r.np_program_id,
      (λ e. absurd (cc (unset, e)), λ e. refl),
    );
    np_game_code = left "BNS_SERVER_NP_GAMECODE" l.lhdata.np_game_code unset;
    lobby_address = left "BNS_SERVER_LOBBY_ADDRESS" l.lhdata.lobby_address unset;
    lobby_port = (λ e. absurd (cc (unset, e)), λ e. refl);
    account = refl;
    password = refl;
  }

  -- The hook in two steps, for a call of `GetServer` that returns.
  request_login-running :
      (l : Lobby) (r : Request) (d : LoginHelperData) (any : Bool)
      → get_server os w l.lhdata ≡ running d any
      → request_login os w l r ≡ (
        record l { firstrun = false; lhdata = d },
        requests (if any then override d (swapped l r) else swapped l r),
      )
  unfolding request_login finish
  request_login-running l r d any e = elim (Bool-cases l.swap_programid) [
    | inl swap ↦ rw (swap, e) refl
    | inr plain ↦ rw (plain, e) refl
  ]

  -- Where each number's variable that is set holds an `int`, and all variables have fewer than 256
  -- characters, the hook calls the game's function. With some of the six variables set, the request has
  -- the texts of the variables, or those of the call before, or, where these are empty, its own, and the
  -- low sixteen bits of the variables' numbers, which are 65535 where a variable is not set; its own
  -- numbers are lost. With none of them set, the request is as it
  -- came, but for the program's number, if the switch asks for another. The account and the password go
  -- on as they came, and the hook has run once.
  pub request_login-IsRequest :
      (l : Lobby) (r : Request)
      → any_refused ≡ false
      → AllFit
      → (l' : Lobby) × (q : Request) × (request_login os w l r ≡ (l', requests q))
        × IsRequest l r q
        × (l'.firstrun ≡ false)
        × (l'.swap_programid ≡ l.swap_programid)
  request_login-IsRequest l r held fit =
      let (d, any, e) =
        returned_from (get_server os w l.lhdata) (get_server_throws os w l.lhdata ∙ held) in
      let server = get_server-IsServer os w l.lhdata d any e in
      (
        record l { firstrun = false; lhdata = d },
        (if any then override d (swapped l r) else swapped l r),
        request_login-running l r d any e,
        by_set any server,
        refl,
        refl,
      )
    where
      by_set :
          {d : LoginHelperData} (any : Bool)
          → IsServer os w l.lhdata d any
          → IsRequest l r (if any then override d (swapped l r) else swapped l r)
      by_set {d} true server = overridden-IsRequest l r d server
      by_set {d} false server = plain-IsRequest l r (sym server.any_is)
