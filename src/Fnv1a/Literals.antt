-- ===== src/Fnv1a/Literals.antt =====
-- The overloads of `make_hash` on views, arrays and strings, and the user-defined literals, of
-- include/fnv1a.h. A literal is its characters, and the length that the compiler passes with them.
-- The plugin is built for x64, where `fnv1a` is `fnv1a64`; a `wchar_t` has two bytes.
use loginhelper.Prelude.{
  ℕ, ◌≡◌, ◌∙◌, sym, List, [], ◌∷◌, ◌++◌, Option, none, some, length, Result, ok,
}
use loginhelper.Fnv1a.{
  ascii_tolower, ascii_toupper, Kind, fnv1a32, fnv1a64, make_hash, make_hash_sized,
}
use loginhelper.Fnv1a.Laws.{hash_text, IsText, make_hash-sized, hashed}

module _ (kind : Kind) where
  -- `make_hash(const std::basic_string_view &, fx)`.
  unfoldable pub make_hash_view : List ℕ → Option (ℕ → ℕ) → Result ℕ
  make_hash_view s fx = make_hash_sized kind s (length s) fx

  -- `make_hash(const std::array &, fx)`.
  unfoldable pub make_hash_array : List ℕ → Option (ℕ → ℕ) → Result ℕ
  make_hash_array s fx = make_hash_sized kind s (length s) fx

  -- `make_hash(const std::basic_string &, fx)`, whose `c_str()` has a terminator.
  unfoldable pub make_hash_string : List ℕ → Option (ℕ → ℕ) → Result ℕ
  make_hash_string s fx = make_hash_sized kind (s ++ (0 ∷ [])) (length s) fx

abbrev pub fnv1a : ℕ → Kind
fnv1a = fnv1a64

unfoldable pub literal_fnv1a32 : List ℕ → ℕ → Result ℕ
literal_fnv1a32 s len = make_hash_sized (fnv1a32 1) s len none

unfoldable pub literal_fnv1a32_wide : List ℕ → ℕ → Result ℕ
literal_fnv1a32_wide s len = make_hash_sized (fnv1a32 2) s len none

unfoldable pub literal_fnv1a32u_wide : List ℕ → ℕ → Result ℕ
literal_fnv1a32u_wide s len = make_hash_sized (fnv1a32 2) s len (some ascii_toupper)

unfoldable pub literal_fnv1a32l_wide : List ℕ → ℕ → Result ℕ
literal_fnv1a32l_wide s len = make_hash_sized (fnv1a32 2) s len (some ascii_tolower)

unfoldable pub literal_fnv1a64 : List ℕ → ℕ → Result ℕ
literal_fnv1a64 s len = make_hash_sized (fnv1a64 1) s len none

unfoldable pub literal_fnv1a64_wide : List ℕ → ℕ → Result ℕ
literal_fnv1a64_wide s len = make_hash_sized (fnv1a64 2) s len none

unfoldable pub literal_fnv1a64u_wide : List ℕ → ℕ → Result ℕ
literal_fnv1a64u_wide s len = make_hash_sized (fnv1a64 2) s len (some ascii_toupper)

unfoldable pub literal_fnv1a64l_wide : List ℕ → ℕ → Result ℕ
literal_fnv1a64l_wide s len = make_hash_sized (fnv1a64 2) s len (some ascii_tolower)

unfoldable pub literal_fnv1a : List ℕ → ℕ → Result ℕ
literal_fnv1a s len = make_hash_sized (fnv1a 1) s len none

unfoldable pub literal_fnv1au : List ℕ → ℕ → Result ℕ
literal_fnv1au s len = make_hash_sized (fnv1a 1) s len (some ascii_toupper)

unfoldable pub literal_fnv1al : List ℕ → ℕ → Result ℕ
literal_fnv1al s len = make_hash_sized (fnv1a 1) s len (some ascii_tolower)

unfoldable pub literal_fnv1a_wide : List ℕ → ℕ → Result ℕ
literal_fnv1a_wide s len = make_hash_sized (fnv1a 2) s len none

unfoldable pub literal_fnv1au_wide : List ℕ → ℕ → Result ℕ
literal_fnv1au_wide s len = make_hash_sized (fnv1a 2) s len (some ascii_toupper)

unfoldable pub literal_fnv1al_wide : List ℕ → ℕ → Result ℕ
literal_fnv1al_wide s len = make_hash_sized (fnv1a 2) s len (some ascii_tolower)

-- For a text with no zero inside, the overload for terminated memory gives what the overloads for a
-- view, an array and a string give, whatever lies behind the terminator: the fold over the characters.
pub make_hash-overloads :
    (kind : Kind) (text behind : List ℕ) (fx : Option (ℕ → ℕ))
    → IsText kind text
    → (make_hash kind (text ++ (0 ∷ behind)) fx ≡ ok (hash_text kind fx kind.offset_basis text))
      × (make_hash_view kind text fx ≡ make_hash kind (text ++ (0 ∷ behind)) fx)
      × (make_hash_array kind text fx ≡ make_hash kind (text ++ (0 ∷ behind)) fx)
      × (make_hash_string kind text fx ≡ make_hash kind (text ++ (0 ∷ behind)) fx)
unfolding make_hash_view make_hash_array make_hash_string make_hash_sized
make_hash-overloads kind text behind fx h =
    let terminated = (make_hash-sized kind text behind fx h).0 in
    let sized = (make_hash-sized kind text [] fx h).1 in
    let whole = hashed kind fx text in
    (terminated, whole ∙ sym terminated, whole ∙ sym terminated, sized ∙ sym terminated)
