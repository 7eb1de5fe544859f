-- ===== src/Pin/Sources.antt =====
-- `GetPin`: where the PIN comes from, what it is, and what is left behind.
use loginhelper.Prelude.{
  ℕ, suc, ◌≤◌, ◌<◌, ◌≡◌, ◌≢◌, refl, sym, ap, ◌∙◌, String, lt→ltb, ◌⊎◌, inl, inr, Bool, true, false,
  List, [], ◌∷◌, Option, some, length, take, All, arith, ℤ, minus_one, ok,
}
use loginhelper.Win32.{Reading, Win32, IsEnvironment}
use loginhelper.Std.{decimal, sprintf_06d}
use loginhelper.Std.Decimal.{IsDigit, length-decimal, decimal-IsDigit, decimal_value}
use loginhelper.Totp.{CppTotp, normalized_base32_string}
use loginhelper.Pin.{
  PinState, first_code, store_text, forget, pin_from_variable, pin_from_secret, get_pin,
}
use loginhelper.Pin.Digits.{
  IsCode, IsSix, digits_of, store_pin_six, digits_of-IsCode, code_value, code_value-digits_of,
  take_all,
}

length-digits_of : (text : List ℕ) → length (digits_of text) ≡ length text
length-digits_of [] = refl
length-digits_of (c ∷ text) = ap suc (length-digits_of text)

first_code-IsCode : (codes : List ℤ) → IsSix codes → All IsCode codes → IsCode (first_code codes)
first_code-IsCode [] six h = absurd (omega arith)
first_code-IsCode (c ∷ codes) six h = h.0

module _ {World : Type 0} (os : Win32 World) (lib : CppTotp) where
  -- A PIN whose first entry is a digit is returned again, with no look at the process.
  get_pin_again :
      (s : PinState) (w : World)
      → IsCode (first_code s.pincode)
      → get_pin os lib s w ≡ ok (true, s, w)
  unfolding get_pin
  get_pin_again s w h = ground arith

  -- The readings of the three variables.
  abbrev pub pincode_reading : World → ℕ
  pincode_reading w = (os.get_environment_variable_w "BNS_PINCODE" 256 w).ret

  abbrev pub profile_reading : World → ℕ
  profile_reading w = (os.get_environment_variable_w "BNS_PROFILE_PIN" 256 w).ret

  abbrev pub secret_reading : World → ℕ
  secret_reading w = (os.get_environment_variable_a "BNS_PROFILE_OTP_SECRET" 2048 w).ret

  -- The secret's text and the key that it decodes to.
  abbrev pub decoded : World → Option (List ℕ)
  decoded w = lib.from_unpadded_base32 (
      normalized_base32_string
        (os.get_environment_variable_a "BNS_PROFILE_OTP_SECRET" 2048 w).buffer)

  pub store_text_six :
      (text : List ℕ) (s : PinState)
      → IsSix s.pincode
      → 6 ≤ length text
      → store_text text s ≡ ok (record s { pincode = digits_of (take 6 text); pintext = text })
  unfolding store_text
  store_text_six text s six long = rw (store_pin_six text s.pincode six long)

  pin_from_secret_lem :
      (s : PinState) (w : World) (qui : List ℕ)
      → IsSix s.pincode
      → decoded w ≡ some qui
      → lib.totp qui (os.time w) 0 30 6 < 1000000
      → (let s' = record s { pincode = digits_of (decimal 6 (lib.totp qui (os.time w) 0 30 6)) } in
          pin_from_secret os lib
            (os.get_environment_variable_a "BNS_PROFILE_OTP_SECRET" 2048 w).buffer
            s
            w
          ≡ ok (true, s', forget os "BNS_PROFILE_OTP_SECRET" s' w))
  unfolding pin_from_secret sprintf_06d
  pin_from_secret_lem s w qui six e bound =
      let text = decimal 6 (lib.totp qui (os.time w) 0 30 6) in
      let count : length text ≡ 6 = length-decimal 6 (lib.totp qui (os.time w) 0 30 6) in
      rw (
        e,
        pin_from_secret,
        lt→ltb _ _ bound,
        store_pin_six text s.pincode six (omega arith),
        take_all text count,
      )

  -- The variable that the PIN is read from, and the reading.
  abbrev pub IsInUse : String → Reading → World → Type 0
  IsInUse name var w =
      (name ≡ "BNS_PINCODE")
        × (var ≡ os.get_environment_variable_w "BNS_PINCODE" 256 w)
        × (pincode_reading w ≢ 0)
      ⊎ (name ≡ "BNS_PROFILE_PIN")
        × (var ≡ os.get_environment_variable_w "BNS_PROFILE_PIN" 256 w)
        × (profile_reading w ≢ 0)
        × (pincode_reading w ≡ 0)

  -- Neither variable of a PIN is set, and that of the secret is.
  abbrev pub UsesSecret : World → Type 0
  UsesSecret w = (pincode_reading w ≡ 0) × (profile_reading w ≡ 0) × (secret_reading w ≢ 0)

  pub get_pin-UsesSecret :
      (s : PinState) (w : World)
      → first_code s.pincode ≡ minus_one
      → UsesSecret w
      → get_pin os lib s w
        ≡ pin_from_secret os lib
            (os.get_environment_variable_a "BNS_PROFILE_OTP_SECRET" 2048 w).buffer
            s
            w
  unfolding get_pin
  get_pin-UsesSecret s w unset (p, q, r) = ground arith

  -- The process behind a PIN that was read from a variable: the variable is set to nothing, unless the
  -- option to keep the PIN is on.
  abbrev pub IsForgotten : String → Bool → World → World → Type 0
  IsForgotten name keep w w' =
      (keep ≡ true → w' ≡ w) × (keep ≡ false → w' ≡ os.set_environment_variable_w name [] w)

  forget-IsForgotten :
      (name : String) (s : PinState) (w : World) → IsForgotten name s.keeppin w (forget os name s w)
  unfolding forget
  forget-IsForgotten name s w = (λ e. ground arith, λ e. ground arith)

  -- With no PIN yet, neither variable of a PIN set, and a secret that decodes, whose one-time password is
  -- below 10^6, `GetPin` finds six digits that denote the password of now, kept for every later call.
  -- With `keeppin` off the secret's variable is set to nothing, and nothing else of the process is
  -- changed; with `keeppin` on the process is left as it was.
  pub get_pin_secret :
      (s : PinState) (w : World) (qui : List ℕ)
      → IsSix s.pincode
      → first_code s.pincode ≡ minus_one
      → pincode_reading w ≡ 0
      → profile_reading w ≡ 0
      → secret_reading w ≢ 0
      → decoded w ≡ some qui
      → lib.totp qui (os.time w) 0 30 6 < 1000000
      → (pincode : List ℤ) × (w' : World) × (let s' = record s { pincode = pincode } in
          (get_pin os lib s w ≡ ok (true, s', w'))
          × IsForgotten "BNS_PROFILE_OTP_SECRET" s.keeppin w w'
          × IsSix pincode
          × All IsCode pincode
          × (code_value 0 pincode ≡ lib.totp qui (os.time w) 0 30 6)
          × ((later : World) → get_pin os lib s' later ≡ ok (true, s', later)))
  get_pin_secret s w qui six unset p q r e bound =
      let p10 = lib.totp qui (os.time w) 0 30 6 in
      let text = decimal 6 p10 in
      let count : length text ≡ 6 = length-decimal 6 p10 in
      let digits : All IsDigit text = decimal-IsDigit 6 p10 in
      let codes = digits_of-IsCode text digits in
      let size : IsSix (digits_of text) = length-digits_of text ∙ count in
      let s' = record s { pincode = digits_of text } in
      (
        digits_of text,
        forget os "BNS_PROFILE_OTP_SECRET" s' w,
        (
          get_pin-UsesSecret s w unset (p, q, r) ∙ pin_from_secret_lem s w qui six e bound,
          forget-IsForgotten "BNS_PROFILE_OTP_SECRET" s' w,
          size,
          codes,
          code_value-digits_of 0 text digits ∙ decimal_value p10 bound,
          λ later. get_pin_again _ later (first_code-IsCode (digits_of text) size codes),
        ),
      )

  pub get_pin-IsInUse :
      (s : PinState) (w : World) (name : String) (var : Reading)
      → first_code s.pincode ≡ minus_one
      → IsInUse name var w
      → get_pin os lib s w ≡ pin_from_variable os lib name var s w
  unfolding get_pin
  get_pin-IsInUse s w name var unset (inl (e, f, r)) = rw (e, f) (ground arith)
  get_pin-IsInUse s w name var unset (inr (e, f, r, q)) = rw (e, f) (ground arith)

  -- A variable that holds six characters or more, and fewer than 256, gives the PIN, `BNS_PINCODE`
  -- before `BNS_PROFILE_PIN`, and is set to nothing unless `keeppin` is on.
  pub get_pin_variable :
      (s : PinState) (w : World) (name : String) (var : Reading)
      → IsSix s.pincode
      → first_code s.pincode ≡ minus_one
      → IsInUse name var w
      → var.ret < 256
      → 6 ≤ length var.buffer
      → (let s' = record s { pincode = digits_of (take 6 var.buffer); pintext = var.buffer } in
          get_pin os lib s w ≡ ok (true, s', forget os name s' w))
  unfolding pin_from_variable
  get_pin_variable s w name var six unset use_it fits long =
      get_pin-IsInUse s w name var unset use_it
      ∙ rw (pin_from_variable, lt→ltb _ _ fits, store_text_six var.buffer s six long)

  pin_from_variable-world :
      (s s' : PinState) (w w' : World) (name : String) (var : Reading) (found : Bool)
      → s.keeppin ≡ false
      → pin_from_variable os lib name var s w ≡ ok (found, s', w')
      → w' ≡ os.set_environment_variable_w name [] w
  unfolding pin_from_variable store_text forget
  pin_from_variable-world s s' w w' name var found keep e = ground arith

  -- A PIN that a call of `GetPin` took from a variable, with `keeppin` off and no PIN before, is no longer
  -- to be read there.
  pub get_pin_forgets :
      (s s' : PinState) (w w' : World) (name : String) (var : Reading) (found : Bool)
      → IsEnvironment os
      → s.keeppin ≡ false
      → first_code s.pincode ≡ minus_one
      → IsInUse name var w
      → get_pin os lib s w ≡ ok (found, s', w')
      → (os.get_environment_variable_w name 256 w').ret ≡ 0
  get_pin_forgets s s' w w' name var found env keep unset use_it e =
      let taken = sym (get_pin-IsInUse s w name var unset use_it) ∙ e in
      rw (pin_from_variable-world s s' w w' name var found keep taken)
        (env.set_empty name 256 w (omega arith))
