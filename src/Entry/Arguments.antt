-- ===== src/Entry/Arguments.antt =====
-- The options of the entry, by what the user has written.
use loginhelper.Prelude.{
  ◌≡◌, ◌≢◌, ap, ◌↔◌, ◌⊎◌, inl, inr, Bool, true, false, ◌||◌, Option, none, some, Bool-cases, ◌==◌,
  ◌==ℤ◌, ℤ, pos, negsuc, codes, arith, ok,
}
use loginhelper.Win32.{Win32}
use loginhelper.Std.{stoi}
use loginhelper.Regex.{Captures, search_text}
use loginhelper.Regex.Patterns.{keeppin_regex, fixprogramid_regex}
use loginhelper.Regex.Words.{HasWord, search_text-HasWord}
use loginhelper.Searchers.First.{AreBytes}
use loginhelper.Entry.{Plugin, Module, has_argument, oep_notify, returned}
use loginhelper.Entry.Options.{asks_keep, asks_swap, variable_swaps, IsReadable, is_one}
use loginhelper.Entry.Laws.{oep_notify_first}

or_true : (a b : Bool) → ((a || b) ≡ true) ↔ ((a ≡ true) ⊎ (b ≡ true))
or_true a b = ground arith

int_one : (n : ℤ) → ((n ==ℤ pos 1) ≡ true) ↔ (n ≡ pos 1)
int_one (pos n) = ground arith
int_one (negsuc n) = ground arith

module _ {World : Type 0} (os : Win32 World) (w : World) where
  has_argument_iff : (found : Option Captures) → (has_argument os w found ≡ true) ↔ (found ≢ none)
  has_argument_iff none = ground arith
  has_argument_iff (some caps) = ground arith

  asks_keep_iff : (asks_keep os w ≡ true) ↔ HasWord (codes " -KEEPPIN") (os.get_command_line_w w)
  unfolding keeppin_regex
  asks_keep_iff =
      let (there, back) = has_argument_iff (search_text keeppin_regex (os.get_command_line_w w)) in
      let (word, found) = search_text-HasWord (codes " -KEEPPIN") (os.get_command_line_w w) in
      (λ e. word (there e), λ h. back (found h))

  asks_swap_iff :
      (asks_swap os w ≡ true) ↔ HasWord (codes " -FIXPROGRAMID") (os.get_command_line_w w)
  unfolding fixprogramid_regex
  asks_swap_iff =
      let (there, back) =
        has_argument_iff (search_text fixprogramid_regex (os.get_command_line_w w)) in
      let (word, found) = search_text-HasWord (codes " -FIXPROGRAMID") (os.get_command_line_w w) in
      (λ e. word (there e), λ h. back (found h))

  -- The variable is set, to the number one.
  abbrev pub IsOne : Type 0
  IsOne =
      ((os.get_environment_variable_w "BNS_SERVER_FIXPROGRAMID" 256 w).ret ≢ 0)
      × (stoi (os.get_environment_variable_w "BNS_SERVER_FIXPROGRAMID" 256 w).buffer ≡ some (pos 1))

  is_one_iff : (o : Option ℤ) → (is_one os w o ≡ true) ↔ (o ≡ some (pos 1))
  is_one_iff none = ground arith
  is_one_iff (some n) =
      let (there, back) = int_one n in (λ e. ap some (there e), λ e. back (ground arith))

  variable_swaps_iff : (variable_swaps os w ≡ true) ↔ IsOne
  variable_swaps_iff =
      elim (Bool-cases ((os.get_environment_variable_w "BNS_SERVER_FIXPROGRAMID" 256 w).ret == 0)) [
        | inl unset ↦ rw unset ((λ e. cc e), λ (set, h). absurd (set (ground arith)))
        | inr set ↦
            let (there, back) =
              is_one_iff
                (stoi (os.get_environment_variable_w "BNS_SERVER_FIXPROGRAMID" 256 w).buffer) in
            rw set ((λ e. ((λ z. ground arith), there e)), λ (h, e). back e)
      ]

  -- Behind a first notification that returns, the PIN is kept exactly if it was, or the command line
  -- has the word -KEEPPIN, and the program is swapped exactly if it was, or the variable is set to the
  -- number one, or the command line has the word -FIXPROGRAMID: a space, the word in letters of
  -- whichever case, and a space or the end of the line. This is for code of bytes and a variable that
  -- is not set or holds a number.
  pub oep_notify-options :
      (m : Module) (p : Plugin)
      → p.initdone ≡ false
      → AreBytes m.code
      → IsReadable os w
      → (p' : Plugin) × (oep_notify os w (some m) p ≡ ok (returned p'))
        × ((p'.keeppin ≡ true)
            ↔ ((p.keeppin ≡ true) ⊎ HasWord (codes " -KEEPPIN") (os.get_command_line_w w)))
        × ((p'.swap_programid ≡ true) ↔ (
            (p.swap_programid ≡ true)
            ⊎ (IsOne ⊎ HasWord (codes " -FIXPROGRAMID") (os.get_command_line_w w))))
  oep_notify-options m p fresh bytes readable =
      let (p', ran, hooks, done, keep, swap, later) =
        oep_notify_first os w m p fresh bytes readable in
      (p', ran, kept p' keep, swapped p' swap)
    where
      kept :
          (p' : Plugin)
          → p'.keeppin ≡ (asks_keep os w || p.keeppin)
          → (p'.keeppin ≡ true)
            ↔ ((p.keeppin ≡ true) ⊎ HasWord (codes " -KEEPPIN") (os.get_command_line_w w))
      kept p' keep = ground (arith, keep, asks_keep_iff)

      swapped :
          (p' : Plugin)
          → p'.swap_programid ≡ (variable_swaps os w || p.swap_programid || asks_swap os w)
          → (p'.swap_programid ≡ true) ↔ (
              (p.swap_programid ≡ true)
              ⊎ (IsOne ⊎ HasWord (codes " -FIXPROGRAMID") (os.get_command_line_w w)))
      swapped p' swap = ground (arith, swap, asks_swap_iff, variable_swaps_iff)
