-- ===== src/Pin/Failures.antt =====
-- `GetPin`: every way in which a call ends.
use mathlib.Core.Path.{subst}
use loginhelper.Prelude.{
  suc, ap, ◌-◌, ◌^◌, leb, ◌⊎◌, ◌∷◌, ℕ, ◌≤◌, ◌<◌, ◌≡◌, ◌≢◌, refl, sym, ◌∙◌, ◌↔◌, String, inl, inr,
  Bool, true, false, List, none, some, Option-cases, Bool-cases, ◌==◌, ltb, length, arith, ℤ,
  minus_one, pos, negsuc, ◌==ℤ◌, Result, ok, throws, aborts, undefined,
}
use loginhelper.Win32.{Reading, Win32}
use loginhelper.Std.{decimal, sprintf_06d}
use loginhelper.Std.Decimal.{length-decimal}
use loginhelper.Totp.{CppTotp}
use loginhelper.Regex.{search_text}
use loginhelper.Regex.Patterns.{pin_regex}
use loginhelper.Regex.Pin.{HasPin-six, pin_regex-HasPin}
use loginhelper.Pin.{
  PinState, first_code, store_text, pin_from_variable, pin_from_secret, pin_from_command_line,
  get_pin, forget,
}
use loginhelper.Pin.Digits.{store_pin_short, store_pin_long}
use loginhelper.Pin.Sources.{
  pincode_reading, profile_reading, secret_reading, decoded, IsInUse, UsesSecret,
  get_pin-UsesSecret, get_pin-IsInUse,
}

is_minus_one : (n : ℤ) → (n ==ℤ minus_one) ≡ true → n ≡ minus_one
is_minus_one (pos n) e = ground arith
is_minus_one (negsuc n) e = ground arith

store_text_long :
    (text : List ℕ) (s : PinState) → 5 ≤ length text → (s' : PinState) × (store_text text s ≡ ok s')
unfolding store_text
store_text_long text s h =
    let (codes, e) = store_pin_long text s.pincode h in
    (record s { pincode = codes; pintext = text }, rw e refl)

store_text_short : (text : List ℕ) (s : PinState) → length text < 5 → store_text text s ≡ undefined
unfolding store_text
store_text_short text s h = rw (store_pin_short text s.pincode h, store_text) refl

module _ {World : Type 0} (os : Win32 World) (lib : CppTotp) where
  -- The variable that is used has fewer than five characters, or more than the buffer holds.
  abbrev pub IsUnreadable : World → Type 0
  IsUnreadable w =
      (name : String) × (var : Reading) × IsInUse os lib name var w
      × ((256 ≤ var.ret) ⊎ (length var.buffer < 5))

  abbrev pub IsUndecoded : World → Type 0
  IsUndecoded w = UsesSecret os lib w × (decoded os lib w ≡ none)

  -- The one-time password, printed as an `int`, has more than six characters.
  abbrev pub IsTooLong : World → Type 0
  IsTooLong w =
      UsesSecret os lib w
      × ((qui : List ℕ) × (decoded os lib w ≡ some qui)
          × (1000000 ≤ lib.totp qui (os.time w) 0 30 6)
          × (lib.totp qui (os.time w) 0 30 6 < 2 ^ 32 - 99999))

  data Outcome (w : World) : Result (Bool × PinState × World) → Type 0 where
    returns : (found : Bool × PinState × World) → Outcome w (ok found)
    reads_behind : IsUnreadable w → Outcome w undefined
    undecoded : IsUndecoded w → Outcome w throws
    too_long : IsTooLong w → Outcome w aborts

  variable-unreadable :
      (s : PinState) (w : World) (name : String) (var : Reading)
      → (256 ≤ var.ret) ⊎ (length var.buffer < 5)
      → pin_from_variable os lib name var s w ≡ undefined
  unfolding pin_from_variable
  variable-unreadable s w name var (inl long) =
      let over : ltb var.ret 256 ≡ false = ground arith in rw (over, pin_from_variable) refl
  variable-unreadable s w name var (inr short) = elim (Bool-cases (ltb var.ret 256)) [
    | inl fits ↦ rw (fits, pin_from_variable, store_text_short var.buffer s short) refl
    | inr over ↦ rw (over, pin_from_variable) refl
  ]

  variable-Outcome :
      (s : PinState) (w : World) (name : String) (var : Reading)
      → IsInUse os lib name var w
      → Outcome w (pin_from_variable os lib name var s w)
  unfolding pin_from_variable
  variable-Outcome s w name var use_it = elim (Bool-cases (ltb var.ret 256)) [
    | inr over ↦ unreadable (inl (ground arith))
    | inl fits ↦ elim (Bool-cases (ltb (length var.buffer) 5)) [
      | inl short ↦ unreadable (inr (ground arith))
      | inr long ↦
          let (s', e) = store_text_long var.buffer s (ground arith) in
          rw (fits, e) (returns (true, s', forget os name s' w))
    ]
  ]
    where
      unreadable :
          (256 ≤ var.ret) ⊎ (length var.buffer < 5)
          → Outcome w (pin_from_variable os lib name var s w)
      unreadable h =
          subst (Outcome w) (sym (variable-unreadable s w name var h))
            (reads_behind (name, var, use_it, h))

  -- What is printed is read whole, or is too long.
  printed-cases :
      (p : ℕ)
      → ((text : List ℕ) × (sprintf_06d p ≡ some text) × (length text ≡ 6))
        ⊎ ((sprintf_06d p ≡ none) × (1000000 ≤ p) × (p < 2 ^ 32 - 99999))
  unfolding sprintf_06d
  printed-cases p = elim (Bool-cases (ltb p 1000000)) [
    | inl small ↦ inl (decimal 6 p, rw small refl, length-decimal 6 p)
    | inr large ↦ elim (Bool-cases (leb (2 ^ 32 - 99999) p)) [
      | inl minus ↦ inl (
        b'-' ∷ decimal 5 (2 ^ 32 - p),
        rw (large, minus) refl,
        ap (λ (n : ℕ). suc n) (length-decimal 5 (2 ^ 32 - p)),
      )
      | inr plus ↦ inr (rw (large, plus) refl, ground arith, ground arith)
    ]
  ]

  printed_none : (p : ℕ) → 1000000 ≤ p → p < 2 ^ 32 - 99999 → sprintf_06d p ≡ none
  unfolding sprintf_06d
  printed_none p low high =
      let large : ltb p 1000000 ≡ false = ground arith in
      let plus : leb (2 ^ 32 - 99999) p ≡ false = ground arith in rw (large, plus) refl

  secret-Outcome :
      (s : PinState) (w : World)
      → UsesSecret os lib w
      → Outcome w (
          pin_from_secret os lib
            (os.get_environment_variable_a "BNS_PROFILE_OTP_SECRET" 2048 w).buffer
            s
            w)
  unfolding pin_from_secret
  secret-Outcome s w uses = elim (Option-cases (decoded os lib w)) [
    | inl e ↦ rw e (undecoded (uses, e))
    | inr (qui, e) ↦ elim (printed-cases (lib.totp qui (os.time w) 0 30 6)) [
      | inl (text, printed, count) ↦
          let (codes, stored) = store_pin_long text s.pincode (omega arith) in
          rw (e, printed, stored) (returns _)
      | inr (none_there, low, high) ↦ rw (e, none_there) (too_long (uses, (qui, e, low, high)))
    ]
  ]

  command_line-Outcome : (s : PinState) (w : World) → Outcome w (pin_from_command_line os lib s w)
  unfolding pin_from_command_line
  command_line-Outcome s w = elim (Option-cases (search_text pin_regex (os.get_command_line_w w))) [
    | inl e ↦ rw (pin_from_command_line, e) (returns _)
    | inr (caps, e) ↦
        let (text, captured, there) = pin_regex-HasPin _ e in
        let count = HasPin-six text _ there in
        let (s', stored) = store_text_long text s (omega arith) in
        rw (pin_from_command_line, e, captured, stored) (returns _)
  ]

  kept-returns :
      (s : PinState) (w : World)
      → (first_code s.pincode ==ℤ minus_one) ≡ false
      → (found : Bool) × (get_pin os lib s w ≡ ok (found, s, w))
  unfolding get_pin
  kept-returns s w other = elim (Bool-cases (first_code s.pincode ==ℤ negsuc 1)) [
    | inl e ↦ (false, rw e refl)
    | inr e ↦ (true, rw (e, other) refl)
  ]

  unset-Outcome :
      (s : PinState) (w : World) → first_code s.pincode ≡ minus_one → Outcome w (get_pin os lib s w)
  unset-Outcome s w unset = elim (Bool-cases (pincode_reading os lib w == 0)) [
    | inr p ↦ used _ _ (inl (refl, refl, λ e. ground arith))
    | inl p ↦ elim (Bool-cases (profile_reading os lib w == 0)) [
      | inr q ↦ used _ _ (inr (refl, refl, (λ e. ground arith), ground arith))
      | inl q ↦ elim (Bool-cases (secret_reading os lib w == 0)) [
        | inr r ↦
            let uses : UsesSecret os lib w = (ground arith, ground arith, λ e. ground arith) in
            subst (Outcome w) (sym (get_pin-UsesSecret os lib s w unset uses))
              (secret-Outcome s w uses)
        | inl r ↦ subst (Outcome w) (sym (to_command_line p q r)) (command_line-Outcome s w)
      ]
    ]
  ]
    where
      used :
          (name : String) (var : Reading)
          → IsInUse os lib name var w
          → Outcome w (get_pin os lib s w)
      used name var use_it =
          subst (Outcome w) (sym (get_pin-IsInUse os lib s w name var unset use_it))
            (variable-Outcome s w name var use_it)

      to_command_line :
          (pincode_reading os lib w == 0) ≡ true
          → (profile_reading os lib w == 0) ≡ true
          → (secret_reading os lib w == 0) ≡ true
          → get_pin os lib s w ≡ pin_from_command_line os lib s w
      to_command_line p q r = unfold get_pin in ground arith

  -- A call that does not return starts from a PIN that is not set, and ends as an unset one does.
  fails-Outcome :
      (s : PinState) (w : World) (failure : Result (Bool × PinState × World))
      → ((found : Bool × PinState × World) → failure ≢ ok found)
      → get_pin os lib s w ≡ failure
      → (first_code s.pincode ≡ minus_one) × Outcome w failure
  fails-Outcome s w failure fails e = elim (Bool-cases (first_code s.pincode ==ℤ minus_one)) [
    | inl here ↦
        let unset = is_minus_one (first_code s.pincode) here in
        (unset, subst (Outcome w) e (unset-Outcome s w unset))
    | inr other ↦
        let (found, kept) = kept-returns s w other in absurd (fails (found, s, w) (sym e ∙ kept))
  ]

  of_undefined : {w : World} → Outcome w undefined → IsUnreadable w
  of_undefined (reads_behind h) = h

  of_throws : {w : World} → Outcome w throws → IsUndecoded w
  of_throws (undecoded h) = h

  of_aborts : {w : World} → Outcome w aborts → IsTooLong w
  of_aborts (too_long h) = h

  -- `GetPin` returns, but for three cases, each with its failure, and all with no PIN yet. It reads what
  -- is not there exactly when the variable that is used has fewer than five characters or 256 and more;
  -- it throws exactly when it uses a secret that does not decode; and the process is aborted exactly
  -- when the one-time password that it gets takes more than six characters as an `int`. This is for a
  -- secret that fits the buffer of 2048 characters.
  pub get_pin-failures :
      (s : PinState) (w : World)
      → secret_reading os lib w < 2048
      → ((get_pin os lib s w ≡ undefined) ↔ ((first_code s.pincode ≡ minus_one) × IsUnreadable w))
        × ((get_pin os lib s w ≡ throws) ↔ ((first_code s.pincode ≡ minus_one) × IsUndecoded w))
        × ((get_pin os lib s w ≡ aborts) ↔ ((first_code s.pincode ≡ minus_one) × IsTooLong w))
  get_pin-failures s w fits = (
    (
      λ e.
          let (unset, h) = fails-Outcome s w undefined (λ found e. cc e) e in
          (unset, of_undefined h),
      λ (unset, (name, var, use_it, h)).
          get_pin-IsInUse os lib s w name var unset use_it ∙ variable-unreadable s w name var h,
    ),
    (
      λ e. let (unset, h) = fails-Outcome s w throws (λ found e. cc e) e in (unset, of_throws h),
      λ (unset, (uses, e)). get_pin-UsesSecret os lib s w unset uses ∙ throws_lem s w e,
    ),
    (
      λ e. let (unset, h) = fails-Outcome s w aborts (λ found e. cc e) e in (unset, of_aborts h),
      λ (unset, (uses, (qui, e, low, high))).
          get_pin-UsesSecret os lib s w unset uses ∙ aborts_lem s w qui e low high,
    ),
  )
    where
      throws_lem :
          (s : PinState) (w : World)
          → decoded os lib w ≡ none
          → pin_from_secret os lib
              (os.get_environment_variable_a "BNS_PROFILE_OTP_SECRET" 2048 w).buffer
              s
              w
            ≡ throws
      throws_lem s w e = unfold pin_from_secret in rw e refl

      aborts_lem :
          (s : PinState) (w : World) (qui : List ℕ)
          → decoded os lib w ≡ some qui
          → 1000000 ≤ lib.totp qui (os.time w) 0 30 6
          → lib.totp qui (os.time w) 0 30 6 < 2 ^ 32 - 99999
          → pin_from_secret os lib
              (os.get_environment_variable_a "BNS_PROFILE_OTP_SECRET" 2048 w).buffer
              s
              w
            ≡ aborts
      aborts_lem s w qui e low high =
          let long = printed_none (lib.totp qui (os.time w) 0 30 6) low high in
          unfold pin_from_secret in rw (e, long) refl
