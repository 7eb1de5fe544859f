-- ===== src/Version/Tests.antt =====
-- A sample version resource, and what is found in it.
use loginhelper.Prelude.{
  ℕ, ◌+◌, ◌≤◌, ◌≡◌, refl, true, List, [], ◌∷◌, ◌++◌, Option, none, some, leb, ◌==◌, if◌then◌else◌,
  length, replicate, codes, arith,
}
use loginhelper.NtString.{same_text}
use loginhelper.Version.Steps.{goes, Ensures}
use loginhelper.Version.{
  Resource, TextCalls, wide, get_module_version_info, open_resource, open_head, word_at, cb_length,
  check_key, dword_at, dwordup, walk, enter, find_sub, Block, skip_backslashes, read_sub, check_sub,
  judge, index_of, component, answer,
}
use loginhelper.Version.Blocks.{IsTextCalls}
use loginhelper.Version.Safety.{IsLoaded, InResource, get_module_version_info_safe}

-- The number of bytes in front of a zero character.
unfoldable key_length : List ℕ → Option ℕ
key_length (lo ∷ hi ∷ rest) =
    let more : Option ℕ = elim (key_length rest) [ none ↦ none | some n ↦ some (n + 2) ] in
    if lo + hi == 0 then some 0 else more
key_length (lo ∷ []) = none
key_length [] = none

unfoldable within : ℕ → Option ℕ → Option ℕ
within max none = none
within max (some n) = if leb (n + 2) max then some n else none

abbrev text_calls : TextCalls
text_calls = record {
  string_cb_length_w = λ bytes max. within max (key_length bytes);
  compare_string_ex = λ a b. if same_text a b then 2 else 1;
}

within_max : (max : ℕ) (o : Option ℕ) (cb : ℕ) → within max o ≡ some cb → cb + 2 ≤ max
unfolding within
within_max max none cb e = cc
within_max max (some n) cb e = ground arith

text_calls-IsTextCalls : IsTextCalls text_calls
text_calls-IsTextCalls bytes max cb e = within_max max (key_length bytes) cb e

-- Wide characters, as bytes.
unfoldable narrow : List ℕ → List ℕ
narrow [] = []
narrow (c ∷ cs) = c ∷ 0 ∷ narrow cs

-- A head with one child, `ab`, whose value is four bytes.
abbrev head_bytes : List ℕ
head_bytes =
    (108 ∷ 0 ∷ 52 ∷ 0 ∷ 0 ∷ 0 ∷ [])
    ++ (narrow (codes "VS_VERSION_INFO")
        ++ ((0 ∷ 0 ∷ 0 ∷ 0 ∷ 0xBD ∷ 0x04 ∷ 0xEF ∷ 0xFE ∷ []) ++ replicate 48 0))

abbrev version_bytes : List ℕ
version_bytes =
    head_bytes ++ (16 ∷ 0 ∷ 4 ∷ 0 ∷ 0 ∷ 0 ∷ b'a' ∷ 0 ∷ b'b' ∷ 0 ∷ 0 ∷ 0 ∷ 1 ∷ 2 ∷ 3 ∷ 4 ∷ [])

abbrev version : Resource
version = record { found = true; size = 108; loaded = some version_bytes }

child_found : get_module_version_info text_calls version true (some (codes "\\ab")) ≡ goes (104, 4)
unfolding get_module_version_info open_resource open_head word_at cb_length narrow check_key within
    key_length dword_at dwordup walk enter skip_backslashes find_sub read_sub check_sub judge
    index_of component same_text wide answer
child_found = refl

version_length : length version_bytes ≡ 108
unfolding narrow
version_length = refl

version-IsLoaded : IsLoaded text_calls text_calls-IsTextCalls version
version-IsLoaded bytes e =
    let same : bytes ≡ version_bytes = cc in
    let long : length bytes ≡ 108 = rw (same) version_length in (omega arith, long)

get_module_version_info_safe_example :
    Ensures
      (InResource text_calls text_calls-IsTextCalls version)
      (get_module_version_info text_calls version true (some (codes "\\#0")))
get_module_version_info_safe_example =
    get_module_version_info_safe text_calls text_calls-IsTextCalls version true
      (some (codes "\\#0")) version-IsLoaded

abbrev version_head : Block
version_head = record { at = 0; total = 108; value_length = 52; cb = 30; off = 40; len = 92 }

head_accepted : open_head text_calls version_bytes 108 ≡ goes version_head
unfolding open_head word_at cb_length narrow check_key within key_length dword_at dwordup
head_accepted = refl
