-- ===== src/Pin.antt =====
-- The PIN window, src/loginhelper/LoginOtp.h: `GetPin` and the two hooks. The globals of the file
-- are a record. An `int` is an integer, a wide text the list of its code units. `pincount` counts
-- the windows shown since the last confirmation, and stays far below the range of `int`.
pub mod Arguments
pub mod Digits
pub mod Sources
pub mod Failures
pub mod Panel
mod Tests
use loginhelper.Prelude.{
  ltb, ℕ, zero, suc, ◌+◌, ◌-◌, Bool, true, false, not, List, [], ◌∷◌, Option, none, some, String,
  ◌==◌, if◌then◌else◌, set, ℤ, pos, negsuc, minus_one, sub_ℕ, ◌==ℤ◌, Result, ok, throws, aborts,
  undefined, ◌>>=◌, some_or,
}
use loginhelper.Win32.{Reading, Win32}
use loginhelper.Std.{sprintf_06d}
use loginhelper.Totp.{CppTotp, normalized_base32_string}
use loginhelper.Regex.{lookup, search_text}
use loginhelper.Regex.Patterns.{pin_regex}

pub record PinState : Type 0 where
  pub pincode : List ℤ
  pub keeppin : Bool
  pub pintext : List ℕ
  pub pincount : ℕ

-- `int pincode[6] = { -1 }`: the other entries are zero.
abbrev pub initial : PinState
initial = record {
  pincode = minus_one ∷ pos 0 ∷ pos 0 ∷ pos 0 ∷ pos 0 ∷ pos 0 ∷ [];
  keeppin = false;
  pintext = [];
  pincount = 0;
}

abbrev pub first_code : List ℤ → ℤ
first_code [] = pos 0
first_code (code ∷ codes) = code

-- `text[i]`: the terminator behind the last character, and nothing behind that.
unfoldable pub char_at : List ℕ → ℕ → Option ℕ
char_at [] zero = some 0
char_at [] (suc i) = none
char_at (c ∷ text) zero = some c
char_at (c ∷ text) (suc i) = char_at text i

-- The loop `pincode[i] = text[i] - '0'` at `i`, with `n` rounds left.
unfoldable pub store_pin : ℕ → ℕ → List ℕ → List ℤ → Result (List ℤ)
unfolding char_at
store_pin zero i text pincode = ok pincode
store_pin (suc n) i text pincode = do
  c ← some_or undefined (char_at text i)
  store_pin n (i + 1) text (set pincode i (sub_ℕ c b'0'))

-- `pintext = text`, and the loop over its characters.
unfoldable pub store_text : List ℕ → PinState → Result PinState
store_text text s = do
  pincode ← store_pin 6 0 text s.pincode
  ok (record s { pincode = pincode; pintext = text })

module _ {World : Type 0} (os : Win32 World) where
  -- `if (!keeppin) SetEnvironmentVariableW(name, L"")`.
  unfoldable pub forget : String → PinState → World → World
  forget name s w = if not s.keeppin then os.set_environment_variable_w name [] w else w

module _ {World : Type 0} (os : Win32 World) (lib : CppTotp) where
  -- The branches of `BNS_PINCODE` and `BNS_PROFILE_PIN`, with what was read into the buffer of 256
  -- characters: the contents that a longer value leaves there are undefined.
  unfoldable pub pin_from_variable :
      String → Reading → PinState → World → Result (Bool × PinState × World)
  unfolding forget
  pin_from_variable name var s w = do
    text ← some_or undefined (if ltb var.ret 256 then some var.buffer else none)
    s' ← store_text text s
    ok (true, s', forget os name s' w)

  -- The branch of `BNS_PROFILE_OTP_SECRET`, with the secret.
  unfoldable pub pin_from_secret : List ℕ → PinState → World → Result (Bool × PinState × World)
  unfolding forget
  pin_from_secret secret s w = do
    qui ← some_or throws (lib.from_unpadded_base32 (normalized_base32_string secret))
    buffer ← some_or aborts (sprintf_06d (lib.totp qui (os.time w) 0 30 6))
    pincode ← store_pin 6 0 buffer s.pincode
    let s' = record s { pincode = pincode }
    ok (true, s', forget os "BNS_PROFILE_OTP_SECRET" s' w)

  -- The branch of the command line.
  unfoldable pub pin_from_command_line : PinState → World → Result (Bool × PinState × World)
  pin_from_command_line s w = elim (search_text pin_regex (os.get_command_line_w w)) [
    | none ↦ ok (false, s, w)
    | some caps ↦ do
      text ← some_or undefined (lookup 1 caps)
      s' ← store_text text s
      ok (true, s', w)
  ]

  -- `GetPin`.
  unfoldable pub get_pin : PinState → World → Result (Bool × PinState × World)
  get_pin s w =
      let pincode_var = os.get_environment_variable_w "BNS_PINCODE" 256 w in
      let profile_var = os.get_environment_variable_w "BNS_PROFILE_PIN" 256 w in
      let secret_var = os.get_environment_variable_a "BNS_PROFILE_OTP_SECRET" 2048 w in
      if first_code s.pincode ==ℤ negsuc 1
      then ok (false, s, w)
      else if not (first_code s.pincode ==ℤ minus_one)
      then ok (true, s, w)
      else if not (pincode_var.ret == 0)
      then pin_from_variable "BNS_PINCODE" pincode_var s w
      else if not (profile_var.ret == 0)
      then pin_from_variable "BNS_PROFILE_PIN" profile_var s w
      else if not (secret_var.ret == 0)
      then pin_from_secret secret_var.buffer s w
      else pin_from_command_line s w
