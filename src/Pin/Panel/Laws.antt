-- ===== src/Pin/Panel/Laws.antt =====
-- What the hooks hand on to the game.
use loginhelper.Prelude.{
  ◌∙◌, ℕ, suc, ◌+◌, ◌≤◌, ◌<◌, ◌≡◌, ◌≢◌, refl, ◌⊎◌, inl, inr, Bool, true, false, ◌&&◌, List, [], ◌∷◌,
  some, ◌==◌, length, All, arith, ℤ, pos, negsuc, minus_one, ◌==ℤ◌, ok, Bool-cases, ok->>=,
}
use loginhelper.Win32.{Win32}
use loginhelper.Totp.{CppTotp}
use loginhelper.Pin.{PinState, first_code, get_pin}
use loginhelper.Pin.Digits.{IsSix, IsCode, code_value}
use loginhelper.Pin.Panel.{
  OtpInput, OtpNumpad, LoginOtpPanel, Game, over_four, set_numpad, set_inputs,
  process_confirm_click, enter_pin, try_pin, prepare, cap_failures, update_verify_mode,
}
use loginhelper.Pin.Sources.{
  pincode_reading, profile_reading, secret_reading, decoded, get_pin_secret,
}

-- The keys with their positions as values, from a position on.
abbrev pub numbered : ℕ → List OtpNumpad → List OtpNumpad
numbered i [] = []
numbered i (key ∷ keys) = record key { numpad_value = pos i } ∷ numbered (suc i) keys

-- The first inputs take the digits of a PIN, and the others stay.
abbrev pub filled : List ℤ → List OtpInput → List OtpInput
filled [] inputs = inputs
filled (code ∷ codes) [] = []
filled (code ∷ codes) (input ∷ inputs) =
    record input { input_btn_index = code } ∷ filled codes inputs

-- A window with its eight inputs and ten keys.
abbrev pub IsWindow : LoginOtpPanel → Type 0
IsWindow panel = (length panel.otp_input_list ≡ 8) × (length panel.otp_numpad_list ≡ 10)

set_numpad-numbered :
    (keys : List OtpNumpad) → length keys ≡ 10 → set_numpad 10 0 keys ≡ ok (numbered 0 keys)
unfolding set_numpad
set_numpad-numbered (a ∷ b ∷ c ∷ d ∷ e ∷ f ∷ g ∷ h ∷ i ∷ j ∷ []) size = refl
set_numpad-numbered keys size = absurd (omega arith)

set_inputs-filled :
    (codes : List ℤ) (inputs : List OtpInput)
    → IsSix codes
    → length inputs ≡ 8
    → set_inputs 6 0 codes inputs ≡ ok (filled codes inputs)
unfolding set_inputs
set_inputs-filled (p ∷ q ∷ r ∷ s ∷ t ∷ u ∷ []) (a ∷ b ∷ c ∷ d ∷ e ∷ f ∷ g ∷ h ∷ []) six size = refl
set_inputs-filled codes inputs six size = absurd (omega arith)

module _ {World : Type 0} where
  -- The window as it is shown: keys in order, keyboard on, one more window counted.
  abbrev pub shown : Game World → Game World
  shown g = record g {
    panel = record g.panel {
      keyboard_enabled = true;
      otp_numpad_list = numbered 0 g.panel.otp_numpad_list;
    };
    pin = record g.pin { pincount = g.pin.pincount + 1 };
  }

  -- The window with a PIN typed in, and no window counted.
  abbrev pub typed : PinState → World → Game World → Game World
  typed pin world g = record {
    pin = record pin { pincount = 0 };
    panel = record g.panel {
      otp_input_list = filled pin.pincode g.panel.otp_input_list;
      cur_input_count = pos 6;
    };
    world = world;
  }

abbrev pub AtMostFour : ℤ → Type 0
AtMostFour (pos n) = n ≤ 4
AtMostFour (negsuc n) = Unit {0}

capped : (n : ℤ) → over_four n ≡ false → AtMostFour n
unfolding over_four
capped (pos n) h = ground arith
capped (negsuc n) h = tt

over-AtMostFour : (n : ℤ) → over_four n ≡ true → ¬ AtMostFour n
unfolding over_four
over-AtMostFour (pos n) h few = ground arith
over-AtMostFour (negsuc n) h few = cc

cap_failures-AtMostFour :
    {World : Type 0} (g : Game World) → AtMostFour (cap_failures g).panel.verify_fail_count
unfolding cap_failures
cap_failures-AtMostFour g = elim (Bool-cases (over_four g.panel.verify_fail_count)) [
  | inl e ↦ rw e (omega arith)
  | inr e ↦ rw e (capped _ e)
]

prepare-shown : {World : Type 0} (g : Game World) → IsWindow g.panel → prepare g ≡ ok (shown g)
unfolding prepare
prepare-shown g window = rw (set_numpad-numbered g.panel.otp_numpad_list window.1, prepare)

module _ {World : Type 0} (os : Win32 World) (lib : CppTotp)
    (o_process_confirm_click o_update_verify_mode : Game World → Bool × Game World) where
  -- What the hook does behind its preparation.
  update-eq-tried :
      (g : Game World) {tried : Game World}
      → IsWindow g.panel
      → try_pin os lib o_process_confirm_click (shown g) ≡ ok tried
      → update_verify_mode os lib o_process_confirm_click o_update_verify_mode g
        ≡ ok (o_update_verify_mode (cap_failures tried))
  unfolding update_verify_mode
  update-eq-tried g window e = rw (prepare-shown g window, update_verify_mode, e)

  update_verify_mode-eq-later :
      (g : Game World)
      → IsWindow g.panel
      → (g.pin.pincount ≢ 0) ⊎ ((g.panel.verify_fail_count ==ℤ pos 0) ≡ false)
      → update_verify_mode os lib o_process_confirm_click o_update_verify_mode g
        ≡ ok (o_update_verify_mode (cap_failures (shown g)))
  unfolding try_pin
  update_verify_mode-eq-later g window (inl again) = update-eq-tried g window (ground arith)
  update_verify_mode-eq-later g window (inr failed) = update-eq-tried g window (rw failed)

  -- Behind the first showing, or after a failed try, nothing is typed: the game's function is called on
  -- the window with the keyboard on and its keys in order, with one window more counted, and with the
  -- failures as they were, if these were four at most, and else with one; all else is as it was.
  pub update_verify_mode_later :
      (g : Game World)
      → IsWindow g.panel
      → (g.pin.pincount ≢ 0) ⊎ ((g.panel.verify_fail_count ==ℤ pos 0) ≡ false)
      → (failures : ℤ) × (update_verify_mode os lib o_process_confirm_click o_update_verify_mode g
          ≡ ok (
              o_update_verify_mode (record {
                pin = record g.pin { pincount = g.pin.pincount + 1 };
                panel = record {
                  otp_input_list = g.panel.otp_input_list;
                  otp_numpad_list = numbered 0 g.panel.otp_numpad_list;
                  verify_fail_count = failures;
                  cur_input_count = g.panel.cur_input_count;
                  keyboard_enabled = true;
                };
                world = g.world;
              })))
        × (AtMostFour g.panel.verify_fail_count → failures ≡ g.panel.verify_fail_count)
        × (¬ AtMostFour g.panel.verify_fail_count → failures ≡ pos 1)
  unfolding cap_failures
  update_verify_mode_later g window again =
      let ran = update_verify_mode-eq-later g window again in
      elim (Bool-cases (over_four g.panel.verify_fail_count)) [
        | inl over ↦
            (pos 1, ran ∙ rw over refl, (λ few. absurd (over-AtMostFour _ over few)), λ many. refl)
        | inr under ↦ (
          g.panel.verify_fail_count,
          ran ∙ rw under refl,
          (λ few. refl),
          λ many. absurd (many (capped _ under)),
        )
      ]

  -- The first time that the window is shown with no failure, a PIN that is found is typed into its
  -- six inputs and confirmed, with no window counted; the game's update comes behind that.
  pub update_verify_mode_types :
      (g : Game World) (pin : PinState) (world : World)
      → IsWindow g.panel
      → g.pin.pincount ≡ 0
      → g.panel.verify_fail_count ≡ pos 0
      → get_pin os lib (shown g).pin g.world ≡ ok (true, pin, world)
      → IsSix pin.pincode
      → update_verify_mode os lib o_process_confirm_click o_update_verify_mode g
        ≡ ok (
            o_update_verify_mode
              (cap_failures (o_process_confirm_click (typed pin world (shown g))).1))
  unfolding try_pin enter_pin process_confirm_click
  update_verify_mode_types g pin world window none_shown no_failure found six =
      let first : (g.panel.verify_fail_count ==ℤ pos 0 && g.pin.pincount + 1 == 1) ≡ true =
        ground arith in
      let typing = set_inputs-filled pin.pincode g.panel.otp_input_list six window.0 in
      update-eq-tried g window (rw (first, found, typing))

  -- With a secret that decodes, and no PIN in the environment, the digits typed at the first showing
  -- denote the one-time password of now.
  pub update_verify_mode_secret :
      (g : Game World) (qui : List ℕ)
      → IsWindow g.panel
      → g.pin.pincount ≡ 0
      → g.panel.verify_fail_count ≡ pos 0
      → IsSix g.pin.pincode
      → first_code g.pin.pincode ≡ minus_one
      → pincode_reading os lib g.world ≡ 0
      → profile_reading os lib g.world ≡ 0
      → secret_reading os lib g.world ≢ 0
      → decoded os lib g.world ≡ some qui
      → lib.totp qui (os.time g.world) 0 30 6 < 1000000
      → (pin : PinState) × (world : World) × (update_verify_mode os lib o_process_confirm_click
            o_update_verify_mode g
          ≡ ok (
              o_update_verify_mode
                (cap_failures (o_process_confirm_click (typed pin world (shown g))).1)))
        × All IsCode pin.pincode
        × (code_value 0 pin.pincode ≡ lib.totp qui (os.time g.world) 0 30 6)
  update_verify_mode_secret g qui window none_shown no_failure six unset p q r e bound =
      let (code, world, (found, forgotten, size, codes, value, again)) =
        get_pin_secret os lib (shown g).pin g.world qui six unset p q r e bound in
      let pin = record (shown g).pin { pincode = code } in
      (
        pin,
        world,
        update_verify_mode_types g pin _ window none_shown no_failure found size,
        codes,
        value,
      )

  -- The game's own update never sees more than four failures.
  pub update_verify_mode_failures :
      (g : Game World) {result : Bool × Game World}
      → update_verify_mode os lib o_process_confirm_click o_update_verify_mode g ≡ ok result
      → (seen : Game World) × (result ≡ o_update_verify_mode seen)
        × AtMostFour seen.panel.verify_fail_count
  unfolding update_verify_mode
  update_verify_mode_failures g {result} e =
      let (first, prepared, e') = ok->>= (prepare g) _ e in
      let (tried, typed_in, e'') = ok->>= (try_pin os lib o_process_confirm_click first) _ e' in
      (cap_failures tried, cc, cap_failures-AtMostFour tried)
