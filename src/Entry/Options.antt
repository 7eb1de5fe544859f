-- ===== src/Entry/Options.antt =====
-- The options that the entry takes from the environment and the command line.
use loginhelper.Prelude.{
  ◌≡◌, ◌≢◌, refl, ◌∙◌, Bool, false, ◌||◌, Option, none, some, ◌==◌, if◌then◌else◌, ℤ, pos, ◌==ℤ◌,
  Bool-cases, ◌⊎◌, inl, inr, arith,
}
use loginhelper.Win32.{Win32}
use loginhelper.Std.{stoi}
use loginhelper.Regex.{search_text}
use loginhelper.Regex.Patterns.{keeppin_regex, fixprogramid_regex}
use loginhelper.Entry.{
  Plugin, has_argument, keep_option, swap_variable, swap_argument, read_options, swap_number,
  returned, raised, Exit, left_by, and_then,
}

module _ {World : Type 0} (os : Win32 World) (w : World) where
  abbrev pub asks_keep : Bool
  asks_keep = has_argument os w (search_text keeppin_regex (os.get_command_line_w w))

  abbrev pub asks_swap : Bool
  asks_swap = has_argument os w (search_text fixprogramid_regex (os.get_command_line_w w))

  abbrev pub is_one : Option ℤ → Bool
  is_one none = false
  is_one (some n) = n ==ℤ pos 1

  -- The variable BNS_SERVER_FIXPROGRAMID is set to a text that `std::stoi` reads as 1.
  abbrev pub variable_swaps : Bool
  variable_swaps =
      let var = os.get_environment_variable_w "BNS_SERVER_FIXPROGRAMID" 256 w in
      if var.ret == 0 then false else is_one (stoi var.buffer)

  -- The options of an entry, over the hooks of a state.
  abbrev pub Options : Plugin → Plugin → Type 0
  Options p p' =
      (p'.detours ≡ p.detours)
      × (p'.initdone ≡ p.initdone)
      × (p'.keeppin ≡ (asks_keep || p.keeppin))
      × (p'.swap_programid ≡ (variable_swaps || p.swap_programid || asks_swap))

  pub keep_option-fields :
      (p : Plugin)
      → let p' = keep_option os w p in
        (p'.detours ≡ p.detours)
        × (p'.initdone ≡ p.initdone)
        × (p'.keeppin ≡ (asks_keep || p.keeppin))
        × (p'.swap_programid ≡ p.swap_programid)
  unfolding keep_option
  keep_option-fields p = ground arith

  swap_argument-fields :
      (p : Plugin)
      → let p' = swap_argument os w p in
        (p'.detours ≡ p.detours)
        × (p'.initdone ≡ p.initdone)
        × (p'.keeppin ≡ p.keeppin)
        × (p'.swap_programid ≡ (p.swap_programid || asks_swap))
  unfolding swap_argument
  swap_argument-fields p = ground arith

  Swapped : Bool → Plugin → Plugin → Type 0
  Swapped asked p p' =
      (p'.detours ≡ p.detours)
      × (p'.initdone ≡ p.initdone)
      × (p'.keeppin ≡ p.keeppin)
      × (p'.swap_programid ≡ (asked || p.swap_programid))

  -- The variable is not set, or holds a number.
  abbrev pub IsReadable : Type 0
  IsReadable =
      ((os.get_environment_variable_w "BNS_SERVER_FIXPROGRAMID" 256 w).ret ≡ 0)
      ⊎ (n : ℤ) × (stoi (os.get_environment_variable_w "BNS_SERVER_FIXPROGRAMID" 256 w).buffer
          ≡ some n)

  swap_number-fields :
      (p : Plugin) (n : ℤ)
      → (p' : Plugin) × (swap_number p (some n) ≡ returned p') × Swapped (n ==ℤ pos 1) p p'
  unfolding swap_number Swapped
  swap_number-fields p n = (_, refl, ground arith)

  swap_variable-fields :
      (p : Plugin)
      → IsReadable
      → (p' : Plugin) × (swap_variable os w p ≡ returned p') × Swapped variable_swaps p p'
  unfolding swap_variable Swapped
  swap_variable-fields p (inl e) = (p, rw e refl, rw e (refl, refl, refl, refl))
  swap_variable-fields p (inr (n, e)) =
      elim (Bool-cases ((os.get_environment_variable_w "BNS_SERVER_FIXPROGRAMID" 256 w).ret == 0)) [
        | inl unset ↦ (p, rw unset refl, rw unset (refl, refl, refl, refl))
        | inr set ↦
            let (p', ran, fields) = swap_number-fields p n in
            (p', rw (set, e) ran, rw (set, e) fields)
      ]

  pub read_options-Options :
      (p : Plugin) → IsReadable → (p' : Plugin) × (read_options os w p ≡ returned p') × Options p p'
  unfolding read_options Swapped
  read_options-Options p readable =
      let q = keep_option os w p in
      let (a, b, c, d) = keep_option-fields p in
      let (r, ran, (a', b', c', d')) = swap_variable-fields q readable in
      let (a'', b'', c'', d'') = swap_argument-fields r in
      (
        swap_argument os w r,
        rw ran refl,
        (a'' ∙ a' ∙ a, b'' ∙ b' ∙ b, c'' ∙ c' ∙ c, ground (arith, d, d', d'')),
      )

  -- The variable is set to a text that `std::stoi` refuses.
  abbrev pub IsRefused : Type 0
  IsRefused =
      ((os.get_environment_variable_w "BNS_SERVER_FIXPROGRAMID" 256 w).ret ≢ 0)
      × (stoi (os.get_environment_variable_w "BNS_SERVER_FIXPROGRAMID" 256 w).buffer ≡ none)

  pub read_options_raised :
      (p : Plugin) → IsRefused → read_options os w p ≡ raised (keep_option os w p)
  unfolding read_options swap_variable swap_number
  read_options_raised p (set, refused) = ground arith

  -- The options change neither the calls of Detours nor the flag of the entry.
  abbrev pub SameHooks : Plugin → Plugin → Type 0
  SameHooks p q = (q.detours ≡ p.detours) × (q.initdone ≡ p.initdone)

  keep_option-SameHooks : (p : Plugin) → SameHooks p (keep_option os w p)
  unfolding keep_option
  keep_option-SameHooks p = ground arith

  swap_argument-SameHooks : (p : Plugin) → SameHooks p (swap_argument os w p)
  unfolding swap_argument
  swap_argument-SameHooks p = ground arith

  swap_number-SameHooks : (p : Plugin) (n : Option ℤ) → SameHooks p (left_by (swap_number p n))
  unfolding swap_number
  swap_number-SameHooks p none = (refl, refl)
  swap_number-SameHooks p (some n) = ground arith

  swap_variable-SameHooks : (p : Plugin) → SameHooks p (left_by (swap_variable os w p))
  unfolding swap_variable
  swap_variable-SameHooks p =
      elim (Bool-cases ((os.get_environment_variable_w "BNS_SERVER_FIXPROGRAMID" 256 w).ret == 0)) [
        | inl unset ↦ rw unset (refl, refl)
        | inr set ↦ rw set (swap_number-SameHooks p _)
      ]

  and_then-SameHooks :
      (p : Plugin) (x : Exit)
      → SameHooks p (left_by x)
      → SameHooks p (left_by (and_then (swap_argument os w) x))
  and_then-SameHooks p (returned q) (a, b) =
      let (c, d) = swap_argument-SameHooks q in (c ∙ a, d ∙ b)
  and_then-SameHooks p (raised q) h = h

  pub read_options-SameHooks : (p : Plugin) → SameHooks p (left_by (read_options os w p))
  unfolding read_options
  read_options-SameHooks p =
      let q = keep_option os w p in
      let (a, b) = keep_option-SameHooks p in
      let (c, d) = and_then-SameHooks q (swap_variable os w q) (swap_variable-SameHooks q) in
      (c ∙ a, d ∙ b)
