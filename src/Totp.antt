-- ===== src/Totp.antt =====
-- src/loginhelper/totp.h: the normalisation of a secret's text. `fromUnpaddedBase32` and `totp` of
-- cpptotp are parameters where they are called.
pub mod Normal
mod Tests
use loginhelper.Prelude.{
  ℕ, ◌-◌, Bool, ◌&&◌, ◌||◌, List, [], ◌∷◌, Option, none, some, leb, ◌==◌, if◌then◌else◌,
}

unfoldable pub is_lower : ℕ → Bool
is_lower c = leb b'a' c && leb c b'z'

unfoldable pub to_upper : ℕ → ℕ
to_upper c = if is_lower c then c - 32 else c

unfoldable pub normalized_base32_string : List ℕ → List ℕ
normalized_base32_string [] = []
normalized_base32_string (c ∷ unnorm) =
    let ret = normalized_base32_string unnorm in
    if c == b' ' || c == b'\n' || c == b'-'
    then ret
    else if is_lower c
    then to_upper c ∷ ret
    else c ∷ ret

-- The functions of cpptotp that are called: `CppTotp::Bytes::fromUnpaddedBase32`, with `none` for
-- its exception, and `CppTotp::totp` with the key, the time, the start, the step and the digits.
pub record CppTotp : Type 0 where
  pub from_unpadded_base32 : List ℕ → Option (List ℕ)
  pub totp : List ℕ → ℕ → ℕ → ℕ → ℕ → ℕ

-- `generateTotp` at a given time; `none` is the exception of the decoder.
unfoldable pub generate_totp : CppTotp → ℕ → List ℕ → Option ℕ
generate_totp lib now key = elim (lib.from_unpadded_base32 (normalized_base32_string key)) [
  | none ↦ none
  | some qui ↦ some (lib.totp qui now 0 30 6)
]
