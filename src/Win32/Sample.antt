-- ===== src/Win32/Sample.antt =====
-- A concrete environment for the tests: a list of variables, a command line and a clock.
use text.Mathlib.Text.{◌==◌ as str_eq}
use text.Mathlib.TextEquality.{eq_iff}
use text.Mathlib.TextPositions.{eq_refl}
use loginhelper.Prelude.{
  true, refl, ap, sym, ◌∙◌, codes, ℕ, ◌<◌, ◌≡◌, ◌≢◌, arith, ◌+◌, List, [], ◌∷◌, String, ltb,
  if◌then◌else◌, length,
}
use loginhelper.Win32.{same_folded, differ, Reading, Win32, IsEnvironment}

pub record Process : Type 0 where
  pub variables : List (String × List ℕ)
  pub command_line : List ℕ
  pub clock : ℕ

unfoldable pub get : String → List (String × List ℕ) → List ℕ
get name [] = []
get name ((other, text) ∷ rest) = if str_eq name other then text else get name rest

-- A text that does not fit is not stored, and its length with the terminator is returned.
unfoldable pub read : String → ℕ → Process → Reading
read name size p =
    let text = get name p.variables in
    if ltb (length text) size
    then record { ret = length text; buffer = text }
    else record { ret = length text + 1; buffer = [] }

abbrev pub sample : Win32 Process
sample = record {
  get_environment_variable_w = read;
  get_environment_variable_a = read;
  set_environment_variable_w = λ name text p. record p { variables = (name, text) ∷ p.variables };
  get_command_line_w = λ p. p.command_line;
  time = λ p. p.clock;
}

read-empty :
    (name : String) (size : ℕ) (p : Process)
    → 0 < size
    → (read name size (record p { variables = (name, []) ∷ p.variables })).ret ≡ 0
unfolding read get
read-empty name size p h = rw eq_refl (ground arith)

same_folded_self : (cs : List ℕ) → same_folded cs cs ≡ true
same_folded_self [] = refl
same_folded_self (c ∷ cs) = ground (arith, same_folded_self cs)

differ-apart : (name other : String) → differ name other ≡ true → name ≢ other
unfolding differ
differ-apart name other h e =
    let same : same_folded (codes name) (codes other) ≡ true =
      ap (λ (t : String). same_folded (codes name) (codes t)) (sym e)
      ∙ same_folded_self (codes name) in
    ground (arith, same, h)

read-other :
    (name other : String) (text : List ℕ) (size : ℕ) (p : Process)
    → differ name other ≡ true
    → read other size (record p { variables = (name, text) ∷ p.variables }) ≡ read other size p
unfolding read get
read-other name other text size p h =
    let apart = differ-apart name other h in ground (arith, apart, eq_iff other name)

read_fits :
    (name : String) (size : ℕ) (p : Process)
    → (read name size p).ret < size
    → (read name size p).ret ≢ 0
    → length (read name size p).buffer ≡ (read name size p).ret
unfolding read
read_fits name size p h k = ground arith

-- The sample behaves as the interface documents.
pub sample-IsEnvironment : IsEnvironment sample
sample-IsEnvironment = record {
  set_empty = read-empty;
  set_empty_a = read-empty;
  set_other = read-other;
  fits = read_fits;
}
