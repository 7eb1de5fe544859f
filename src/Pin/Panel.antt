-- ===== src/Pin/Panel.antt =====
-- The hooks of LoginOtp.h on the game's PIN window. The window's fields that they touch are those of
-- `LoginOtpPanel` in Data.h; the pointer `panel_offset` is the window. The game's own functions, which
-- the hooks call at their end, are parameters: they may change the window, the globals and the process.
pub mod Laws
use loginhelper.Prelude.{
  ℕ, zero, suc, ◌+◌, ◌-◌, ◌*◌, ◌%◌, ◌^◌, Bool, true, false, ◌&&◌, List, [], ◌∷◌, Option, none, some,
  ◌==◌, leb, ltb, if◌then◌else◌, get_elem?, set, ℤ, pos, negsuc, ◌==ℤ◌, Result, ok, throws, aborts,
  undefined, ◌>>=◌, some_or,
}
use loginhelper.Win32.{Win32}
use loginhelper.Totp.{CppTotp}
use loginhelper.Pin.{PinState, get_pin}

pub record OtpInput : Type 0 where
  pub input_image : ℕ
  pub input_btn_index : ℤ

pub record OtpNumpad : Type 0 where
  pub numpad_btn : ℕ
  pub numpad_value : ℤ

pub record LoginOtpPanel : Type 0 where
  pub otp_input_list : List OtpInput
  pub otp_numpad_list : List OtpNumpad
  pub verify_fail_count : ℤ
  pub cur_input_count : ℤ
  pub keyboard_enabled : Bool

-- The globals of the hooks, the window and the process.
pub record Game (World : Type 0) : Type 0 where
  pub pin : PinState
  pub panel : LoginOtpPanel
  pub world : World

-- `_verifyFailCount > 4`.
unfoldable pub over_four : ℤ → Bool
over_four (pos n) = ltb 4 n
over_four (negsuc n) = false

-- The loop over `_otpNumpadList` at `i`, with `n` rounds left; `undefined` is a write past its end.
unfoldable pub set_numpad : ℕ → ℕ → List OtpNumpad → Result (List OtpNumpad)
set_numpad zero i numpad = ok numpad
set_numpad (suc n) i numpad = do
  key ← some_or undefined (get_elem? numpad i)
  set_numpad n (i + 1) (set numpad i (record key { numpad_value = pos i }))

-- The loop over `_otpInputList` at `i`, with `n` rounds left.
unfoldable pub set_inputs : ℕ → ℕ → List ℤ → List OtpInput → Result (List OtpInput)
set_inputs zero i pincode inputs = ok inputs
set_inputs (suc n) i pincode inputs = do
  code ← some_or undefined (get_elem? pincode i)
  input ← some_or undefined (get_elem? inputs i)
  set_inputs n (i + 1) pincode (set inputs i (record input { input_btn_index = code }))

module _ {World : Type 0} where
  -- The keyboard is switched on, the keys are put in order, and the window is counted.
  unfoldable pub prepare : Game World → Result (Game World)
  prepare g = do
    numpad ← set_numpad 10 0 g.panel.otp_numpad_list
    let panel = record g.panel { keyboard_enabled = true; otp_numpad_list = numpad }
    ok (record g { panel = panel; pin = record g.pin { pincount = g.pin.pincount + 1 } })

  -- More than four failures are counted as one.
  unfoldable pub cap_failures : Game World → Game World
  cap_failures g =
      if over_four g.panel.verify_fail_count
      then record g { panel = record g.panel { verify_fail_count = pos 1 } }
      else g

module _ {World : Type 0} (o_process_confirm_click : Game World → Bool × Game World) where
  -- `hkLoginOtpPanel_processConfirmClick`.
  unfoldable pub process_confirm_click : Game World → Bool × Game World
  process_confirm_click g =
      o_process_confirm_click (record g { pin = record g.pin { pincount = 0 } })

  -- The window with the PIN put in, and the confirmation.
  unfoldable pub enter_pin : Game World → Result (Game World)
  enter_pin g = do
    inputs ← set_inputs 6 0 g.pin.pincode g.panel.otp_input_list
    let panel = record g.panel { otp_input_list = inputs; cur_input_count = pos 6 }
    ok (process_confirm_click (record g { panel = panel })).1

module _ {World : Type 0} (os : Win32 World) (lib : CppTotp)
    (o_process_confirm_click : Game World → Bool × Game World) where
  -- The first time that the window is shown, the PIN is looked for.
  unfoldable pub try_pin : Game World → Result (Game World)
  try_pin g =
      if g.panel.verify_fail_count ==ℤ pos 0 && g.pin.pincount == 1
      then (do
        (found, pin, world) ← get_pin os lib g.pin g.world
        let g' = record g { pin = pin; world = world }
        if found then enter_pin o_process_confirm_click g' else ok g')
      else ok g

module _ {World : Type 0} (os : Win32 World) (lib : CppTotp)
    (o_process_confirm_click o_update_verify_mode : Game World → Bool × Game World) where
  -- `hkLoginOtpPanel_updateVerifyMode`.
  unfoldable pub update_verify_mode : Game World → Result (Bool × Game World)
  update_verify_mode g = do
    shown ← prepare g
    tried ← try_pin os lib o_process_confirm_click shown
    ok (o_update_verify_mode (cap_failures tried))
