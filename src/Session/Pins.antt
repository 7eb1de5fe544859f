-- ===== src/Session/Pins.antt =====
-- What `GetPin` leaves alone.
use loginhelper.Std.{sprintf_06d}
use loginhelper.Regex.{lookup, search_text}
use loginhelper.Regex.Patterns.{pin_regex}
use loginhelper.Prelude.{
  ltb, if◌then◌else◌, some, none, [], some_or, throws, aborts, undefined, Holds, Holds->>=,
  Holds-if, Option-cases, ◌≡◌, ◌≢◌, refl, Bool, List, String, ℕ, negsuc, minus_one, ok, arith,
  Bool-cases, inl, inr, not, ◌==◌, ◌==ℤ◌,
}
use loginhelper.Win32.{Reading, Win32}
use loginhelper.Totp.{CppTotp, normalized_base32_string}
use loginhelper.Pin.{
  PinState, first_code, store_pin, store_text, forget, pin_from_variable, pin_from_secret,
  pin_from_command_line, get_pin,
}

module _ {World : Type 0} (os : Win32 World) (lib : CppTotp) where
  -- A PIN whose first entry is not -1 is kept, and `keeppin` is.
  pub get_pin-kept :
      (s s' : PinState) (w w' : World) (found : Bool)
      → first_code s.pincode ≢ minus_one
      → get_pin os lib s w ≡ ok (found, s', w')
      → s' ≡ s
  unfolding get_pin
  get_pin-kept s s' w w' found known e = ground arith

  -- What is left of the process: a state that the variables have been cleared in, or the same.
  module _ (Kept : World → Type 0)
      (clears : (name : String) (text : List ℕ) (w : World)
        → Kept w
        → Kept (os.set_environment_variable_w name text w)) where
    forget-Kept : (name : String) (s : PinState) (w : World) → Kept w → Kept (forget os name s w)
    unfolding forget
    forget-Kept name s w h = elim (Bool-cases s.keeppin) [
      | inl keep ↦ rw keep h
      | inr drop ↦ rw drop (clears name [] w h)
    ]

    -- The PIN keeps its flag, and the process is kept.
    abbrev Keeps : PinState → Bool × PinState × World → Type 0
    Keeps s (found, s', w') = (s'.keeppin ≡ s.keeppin) × Kept w'

    store_text-keeppin :
        (text : List ℕ) (s : PinState) → Holds (λ s'. s'.keeppin ≡ s.keeppin) (store_text text s)
    unfolding store_text
    store_text-keeppin text s =
        Holds->>= (λ s'. s'.keeppin ≡ s.keeppin) (store_pin 6 0 text s.pincode) _
          (λ pincode e. refl)

    stored-keeppin :
        (text : List ℕ) (s s' : PinState) → store_text text s ≡ ok s' → s'.keeppin ≡ s.keeppin
    stored-keeppin text s s' e = rw e at (store_text-keeppin text s)

    pin_from_variable-Keeps :
        (name : String) (var : Reading) (s : PinState) (w : World)
        → Kept w
        → Holds (Keeps s) (pin_from_variable os lib name var s w)
    unfolding pin_from_variable
    pin_from_variable-Keeps name var s w h =
        Holds->>= (Keeps s) (some_or undefined (if ltb var.ret 256 then some var.buffer else none))
          _
          (λ text e'.
            Holds->>= (Keeps s) (store_text text s) _
              (λ s' e. (stored-keeppin text s s' e, forget-Kept name s' w h)))

    pin_from_secret-Keeps :
        (secret : List ℕ) (s : PinState) (w : World)
        → Kept w
        → Holds (Keeps s) (pin_from_secret os lib secret s w)
    unfolding pin_from_secret
    pin_from_secret-Keeps secret s w h =
        Holds->>= (Keeps s)
          (some_or throws (lib.from_unpadded_base32 (normalized_base32_string secret))) _
          (λ qui e.
            Holds->>= (Keeps s) (some_or aborts (sprintf_06d (lib.totp qui (os.time w) 0 30 6))) _
              (λ buffer e'. Holds->>= (Keeps s) (store_pin 6 0 buffer s.pincode) _ (λ pincode e''.
                (refl, forget-Kept "BNS_PROFILE_OTP_SECRET" (record s { pincode = pincode }) w h))))

    pin_from_command_line-Keeps :
        (s : PinState) (w : World) → Kept w → Holds (Keeps s) (pin_from_command_line os lib s w)
    unfolding pin_from_command_line
    pin_from_command_line-Keeps s w h =
        elim (Option-cases (search_text pin_regex (os.get_command_line_w w))) [
          | inl missing ↦ rw (missing, Holds) (refl, h)
          | inr (caps, e) ↦
              rw (e, Holds)
                (Holds->>= (Keeps s) (some_or undefined (lookup 1 caps)) _ (λ text e'.
                  Holds->>= (Keeps s) (store_text text s) _
                    (λ s' e''. (stored-keeppin text s s' e'', h))))
        ]

    get_pin-Keeps : (s : PinState) (w : World) → Kept w → Holds (Keeps s) (get_pin os lib s w)
    unfolding get_pin
    get_pin-Keeps s w h =
        Holds-if (Keeps s) (first_code s.pincode ==ℤ negsuc 1) _ _ (refl, h)
          (Holds-if (Keeps s) (not (first_code s.pincode ==ℤ minus_one)) _ _ (refl, h)
            (Holds-if (Keeps s) (not ((os.get_environment_variable_w "BNS_PINCODE" 256 w).ret == 0))
              _ _ (pin_from_variable-Keeps "BNS_PINCODE" _ s w h)
              (Holds-if (Keeps s)
                (not ((os.get_environment_variable_w "BNS_PROFILE_PIN" 256 w).ret == 0)) _ _
                (pin_from_variable-Keeps "BNS_PROFILE_PIN" _ s w h)
                (Holds-if (Keeps s)
                  (not ((os.get_environment_variable_a "BNS_PROFILE_OTP_SECRET" 2048 w).ret == 0)) _
                  _ (pin_from_secret-Keeps _ s w h) (pin_from_command_line-Keeps s w h)))))

    -- `GetPin` does nothing else to the process than clear variables, and leaves `keeppin` as it is.
    pub get_pin_keeps :
        (s s' : PinState) (w w' : World) (found : Bool)
        → Kept w
        → get_pin os lib s w ≡ ok (found, s', w')
        → (s'.keeppin ≡ s.keeppin) × Kept w'
    get_pin_keeps s s' w w' found h e = rw e at (get_pin-Keeps s w h)
