-- ===== src/Pin/Tests.antt =====
-- Runs of `GetPin` and of the hooks of LoginOtp.h in a sample process, and the theorems there.
use loginhelper.Prelude.{
  ◌+◌, ℕ, ◌-◌, ◌/◌, ◌%◌, ◌^◌, ◌≡◌, refl, ◌⊎◌, inl, inr, Bool, true, false, List, [], ◌∷◌, some,
  replicate, All, arith, codes, ℤ, pos, minus_one, Result, ok, undefined, throws, aborts, ◌↔◌,
}
use loginhelper.Win32.Sample.{Process, get, read, sample, sample-IsEnvironment}
use loginhelper.Totp.{CppTotp, is_lower, to_upper, normalized_base32_string}
use loginhelper.Regex.Pin.{HasPin}
use loginhelper.Pin.{
  PinState, first_code, initial, store_pin, store_text, forget, pin_from_variable, get_pin,
}
use loginhelper.Pin.Digits.{IsSix, IsCode, digits_of, code_value}
use loginhelper.Pin.Panel.{
  OtpInput, OtpNumpad, LoginOtpPanel, Game, cap_failures, update_verify_mode, prepare, try_pin,
  set_numpad, over_four,
}
use loginhelper.Pin.Panel.Laws.{
  AtMostFour, numbered, typed, shown, update_verify_mode_later, update_verify_mode_secret,
}
use loginhelper.Pin.Arguments.{get_pin_command_line}
use loginhelper.Pin.Sources.{IsForgotten, get_pin_secret, get_pin_forgets}
use loginhelper.Pin.Failures.{IsUnreadable, IsUndecoded, IsTooLong, get_pin-failures}

abbrev counting : CppTotp
counting = record {
  from_unpadded_base32 = λ s. some s;
  totp = λ key now start step digits. (now - start) / step % 10 ^ digits;
}

abbrev with_pin : Process
with_pin = record {
  variables = ("BNS_PINCODE", codes "123456") ∷ [];
  command_line = codes "a.exe";
  clock = 90;
}

abbrev with_short_pin : Process
with_short_pin = record with_pin { variables = ("BNS_PROFILE_PIN", codes "12") ∷ [] }

abbrev with_secret : Process
with_secret = record with_pin { variables = ("BNS_PROFILE_OTP_SECRET", codes "ab cd") ∷ [] }

abbrev with_argument : Process
with_argument = record { variables = []; command_line = codes "a.exe -pin=654321"; clock = 90 }

abbrev short_pin : Result (Bool × PinState × Process)
short_pin = get_pin sample counting initial with_short_pin

short_pin_undefined : short_pin ≡ undefined
unfolding get_pin pin_from_variable store_text store_pin read get
short_pin_undefined = refl

abbrev pin_after : List ℕ → PinState
pin_after text = record initial { pincode = digits_of text; pintext = text }

get_pin-with_pin :
    get_pin sample counting initial with_pin
    ≡ ok (
      true,
      pin_after (codes "123456"),
      record with_pin { variables = ("BNS_PINCODE", []) ∷ with_pin.variables },
    )
unfolding get_pin pin_from_variable store_text store_pin read get forget
get_pin-with_pin = refl

get_pin_command_line_example :
    (get_pin sample counting initial with_argument ≡ ok (false, initial, with_argument))
      × ((text : List ℕ) → ¬ HasPin text with_argument.command_line)
    ⊎ ((text : List ℕ) × HasPin text with_argument.command_line
        × (get_pin sample counting initial with_argument
            ≡ ok
                (true, record initial { pincode = digits_of text; pintext = text }, with_argument)))
unfolding read get
get_pin_command_line_example =
    get_pin_command_line sample counting initial with_argument refl refl refl refl refl

get_pin_secret_example :
    (pincode : List ℤ) × (w' : Process) × (let s' = record initial { pincode = pincode } in
      (get_pin sample counting initial with_secret ≡ ok (true, s', w'))
      × IsForgotten sample counting "BNS_PROFILE_OTP_SECRET" false with_secret w'
      × IsSix pincode
      × All IsCode pincode
      × (code_value 0 pincode ≡ 3)
      × ((later : Process) → get_pin sample counting s' later ≡ ok (true, s', later)))
unfolding read get normalized_base32_string is_lower to_upper
get_pin_secret_example =
    get_pin_secret sample counting initial with_secret (codes "ABCD") refl refl refl refl
      (omega arith) refl (omega arith)

get_pin-failures_example :
    ((get_pin sample counting initial with_short_pin ≡ undefined)
      ↔ ((first_code initial.pincode ≡ minus_one) × IsUnreadable sample counting with_short_pin))
    × ((get_pin sample counting initial with_short_pin ≡ throws)
        ↔ ((first_code initial.pincode ≡ minus_one) × IsUndecoded sample counting with_short_pin))
    × ((get_pin sample counting initial with_short_pin ≡ aborts)
        ↔ ((first_code initial.pincode ≡ minus_one) × IsTooLong sample counting with_short_pin))
unfolding read get
get_pin-failures_example = get_pin-failures sample counting initial with_short_pin (omega arith)

get_pin_forgets_example :
    (read "BNS_PINCODE" 256
      (record with_pin { variables = ("BNS_PINCODE", []) ∷ with_pin.variables })).ret
    ≡ 0
unfolding read get
get_pin_forgets_example =
    get_pin_forgets sample counting initial (pin_after (codes "123456")) with_pin
      (record with_pin { variables = ("BNS_PINCODE", []) ∷ with_pin.variables }) "BNS_PINCODE"
      (read "BNS_PINCODE" 256 with_pin) true sample-IsEnvironment refl refl
      (inl (refl, refl, omega arith)) get_pin-with_pin

abbrev inputs : List OtpInput
inputs = replicate 8 (record { input_image = 1; input_btn_index = minus_one })

abbrev keys : List OtpNumpad
keys = replicate 10 (record { numpad_btn = 2; numpad_value = pos 7 })

abbrev window : LoginOtpPanel
window = record {
  otp_input_list = inputs;
  otp_numpad_list = keys;
  verify_fail_count = pos 0;
  cur_input_count = pos 0;
  keyboard_enabled = false;
}

abbrev game : Process → Game Process
game p = record { pin = initial; panel = window; world = p }

abbrev refused : Game Process
refused = record (game with_pin) { panel = record window { verify_fail_count = pos 5 } }

-- Functions of the game that accept and change nothing.
abbrev accept : Game Process → Bool × Game Process
accept g = (true, g)

-- The window behind a showing with nothing typed, and the failures counted as one.
abbrev refused_after : Game Process
refused_after = record (shown refused) {
  panel = record (shown refused).panel { verify_fail_count = pos 1 };
}

update-refused : update_verify_mode sample counting accept accept refused ≡ ok (true, refused_after)
unfolding update_verify_mode prepare try_pin cap_failures set_numpad over_four
update-refused = refl

update_verify_mode_later_example :
    (failures : ℤ) × (update_verify_mode sample counting accept accept refused
      ≡ ok (
          accept (record {
            pin = record refused.pin { pincount = refused.pin.pincount + 1 };
            panel = record {
              otp_input_list = refused.panel.otp_input_list;
              otp_numpad_list = numbered 0 refused.panel.otp_numpad_list;
              verify_fail_count = failures;
              cur_input_count = refused.panel.cur_input_count;
              keyboard_enabled = true;
            };
            world = refused.world;
          })))
    × (AtMostFour refused.panel.verify_fail_count → failures ≡ refused.panel.verify_fail_count)
    × (¬ AtMostFour refused.panel.verify_fail_count → failures ≡ pos 1)
update_verify_mode_later_example =
    update_verify_mode_later sample counting accept accept refused (refl, refl) (inr refl)

update_verify_mode_secret_example :
    (pin : PinState) × (world : Process) × (update_verify_mode sample counting accept accept
        (game with_secret)
      ≡ ok (accept (cap_failures (typed pin world (shown (game with_secret))))))
    × All IsCode pin.pincode
    × (code_value 0 pin.pincode ≡ 3)
unfolding read get normalized_base32_string is_lower to_upper
update_verify_mode_secret_example =
    update_verify_mode_secret sample counting accept accept (game with_secret) (codes "ABCD")
      (refl, refl) refl refl refl refl refl refl (omega arith) refl (omega arith)
