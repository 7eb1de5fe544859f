-- ===== src/Win32.antt =====
-- The calls of the Windows API on the process's environment, which the repository does not hold:
-- an interface over an abstract state of the process, and the behaviour that is documented of it.
pub mod Sample
use loginhelper.Prelude.{
  ℕ, ◌<◌, ◌≡◌, ◌≢◌, List, [], ◌∷◌, String, length, Bool, true, false, not, ◌&&◌, leb, ltb, ◌==◌,
  ◌-◌, if◌then◌else◌, codes,
}

-- What `GetEnvironmentVariable` returns, and the text that its buffer then holds, if the value fits it:
-- a value that does not gives the size that it needs, and leaves the contents undefined.
pub record Reading : Type 0 where
  pub ret : ℕ
  pub buffer : List ℕ

pub record Win32 (World : Type 0) : Type 0 where
  pub get_environment_variable_w : String → ℕ → World → Reading
  pub get_environment_variable_a : String → ℕ → World → Reading
  pub set_environment_variable_w : String → List ℕ → World → World
  pub get_command_line_w : World → List ℕ
  pub time : World → ℕ

-- The names of variables are compared without regard to case; what is known of the case of letters
-- outside of ASCII is left open.
abbrev fold_case : ℕ → ℕ
fold_case c = if leb b'a' c && leb c b'z' then c - 32 else c

abbrev is_ascii : List ℕ → Bool
is_ascii [] = true
is_ascii (c ∷ cs) = ltb c 128 && is_ascii cs

abbrev pub same_folded : List ℕ → List ℕ → Bool
same_folded [] [] = true
same_folded [] (d ∷ ds) = false
same_folded (c ∷ cs) [] = false
same_folded (c ∷ cs) (d ∷ ds) = fold_case c == fold_case d && same_folded cs ds

-- Two names in ASCII that are different, and not in the case of their letters alone.
unfoldable pub differ : String → String → Bool
differ name other =
    is_ascii (codes name) && is_ascii (codes other) && not (same_folded (codes name) (codes other))

-- A variable set to the empty text reads as absent into a buffer that is not empty, a variable with
-- another name is not touched, and a reading that fits the buffer gives the text's length.
pub record IsEnvironment {World : Type 0} (os : Win32 World) : Type 0 where
  pub set_empty :
      (name : String) (size : ℕ) (w : World)
      → 0 < size
      → (os.get_environment_variable_w name size (os.set_environment_variable_w name [] w)).ret ≡ 0
  pub set_empty_a :
      (name : String) (size : ℕ) (w : World)
      → 0 < size
      → (os.get_environment_variable_a name size (os.set_environment_variable_w name [] w)).ret ≡ 0
  pub set_other :
      (name other : String) (text : List ℕ) (size : ℕ) (w : World)
      → differ name other ≡ true
      → os.get_environment_variable_w other size (os.set_environment_variable_w name text w)
        ≡ os.get_environment_variable_w other size w
  pub fits :
      (name : String) (size : ℕ) (w : World)
      → (os.get_environment_variable_w name size w).ret < size
      → (os.get_environment_variable_w name size w).ret ≢ 0
      → length (os.get_environment_variable_w name size w).buffer
        ≡ (os.get_environment_variable_w name size w).ret
