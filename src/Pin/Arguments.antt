-- ===== src/Pin/Arguments.antt =====
-- `GetPin`: the PIN of the command line.
use loginhelper.Prelude.{
  ℕ, ◌≡◌, ◌∙◌, ◌⊎◌, inl, inr, true, false, List, some, Option-cases, length, arith, minus_one, ok,
}
use loginhelper.Win32.{Win32}
use loginhelper.Totp.{CppTotp}
use loginhelper.Regex.{lookup, search_text}
use loginhelper.Regex.Patterns.{pin_regex}
use loginhelper.Regex.Pin.{HasPin, HasPin-six, pin_regex-HasPin, HasPin-pin_regex}
use loginhelper.Pin.{PinState, first_code, pin_from_command_line, get_pin}
use loginhelper.Pin.Digits.{IsSix, digits_of, take_all}
use loginhelper.Pin.Sources.{store_text_six, pincode_reading, profile_reading, secret_reading}

module _ {World : Type 0} (os : Win32 World) (lib : CppTotp) where
  pin_from_captures :
      (s : PinState) (w : World) {caps : List (ℕ × List ℕ)} (text : List ℕ)
      → IsSix s.pincode
      → search_text pin_regex (os.get_command_line_w w) ≡ some caps
      → lookup 1 caps ≡ some text
      → length text ≡ 6
      → pin_from_command_line os lib s w
        ≡ ok (true, record s { pincode = digits_of text; pintext = text }, w)
  unfolding pin_from_command_line
  pin_from_captures s w text six e captured count = rw (
    e,
    pin_from_command_line,
    captured,
    store_text_six os lib text s six (omega arith),
    take_all text count,
  )

  -- With no variable set, the PIN is the text of an argument -PIN of the command line: a space and the
  -- name, in letters of whichever case, a colon or an equals sign, six decimal digits, which may have a
  -- quote before them and one behind them, and a space or the end of the line. There is no PIN if the
  -- command line has no such argument. The process and all else is left alone, and no read is out of
  -- bounds.
  pub get_pin_command_line :
      (s : PinState) (w : World)
      → IsSix s.pincode
      → first_code s.pincode ≡ minus_one
      → pincode_reading os lib w ≡ 0
      → profile_reading os lib w ≡ 0
      → secret_reading os lib w ≡ 0
      → (get_pin os lib s w ≡ ok (false, s, w))
          × ((text : List ℕ) → ¬ HasPin text (os.get_command_line_w w))
        ⊎ ((text : List ℕ) × HasPin text (os.get_command_line_w w)
            × (get_pin os lib s w
                ≡ ok (true, record s { pincode = digits_of text; pintext = text }, w)))
  get_pin_command_line s w six unset p q r =
      elim (Option-cases (search_text pin_regex (os.get_command_line_w w))) [
        | inl e ↦ inl (
          reaches ∙ unfold pin_from_command_line in rw (e, pin_from_command_line),
          λ text there. HasPin-pin_regex text (os.get_command_line_w w) there e,
        )
        | inr (caps, e) ↦
            let (text, captured, there) = pin_regex-HasPin _ e in
            inr (
              text,
              there,
              reaches ∙ pin_from_captures s w text six e captured (HasPin-six text _ there),
            )
      ]
    where
      reaches : get_pin os lib s w ≡ pin_from_command_line os lib s w
      reaches = unfold get_pin in ground arith
