-- ===== src/Layout.antt =====
-- The game's windows and interfaces of loginhelper/Data.h, as the compiler lays them out: a member
-- stands at the first multiple of its alignment behind the one in front of it. A base class is the
-- first member of what derives from it.
pub mod Laws
mod Tests
use loginhelper.Prelude.{
  ℕ, ◌+◌, ◌-◌, ◌*◌, ◌/◌, Bool, false, ◌&&◌, List, [], ◌∷◌, Option, none, some, ◌==◌, get_elem?,
  if◌then◌else◌, ltb,
}

-- A member, or a type: how many bytes it takes, and its alignment.
pub record Member : Type 0 where
  pub bytes : ℕ
  pub align : ℕ

unfoldable pub align_up : ℕ → ℕ → ℕ
align_up x align = (x + (align - 1)) / align * align

-- The members' offsets, from a place on.
unfoldable pub offsets : ℕ → List Member → List ℕ
offsets place [] = []
offsets place (m ∷ ms) = align_up place m.align ∷ offsets (align_up place m.align + m.bytes) ms

-- The place behind the last member, and the largest alignment.
unfoldable pub behind : ℕ → List Member → ℕ
behind place [] = place
behind place (m ∷ ms) = behind (align_up place m.align + m.bytes) ms

unfoldable pub alignment : List Member → ℕ
alignment [] = 1
alignment (m ∷ ms) = if ltb (alignment ms) m.align then m.align else alignment ms

-- The structure as a member.
unfoldable pub struct_of : List Member → Member
struct_of ms = record { bytes = align_up (behind 0 ms) (alignment ms); align = alignment ms }

unfoldable pub offset_of : List Member → ℕ → Option ℕ
offset_of ms i = get_elem? (offsets 0 ms) i

abbrev pub char_array : ℕ → Member
char_array n = record { bytes = n; align = 1 }

abbrev pub number : Member
number = record { bytes = 4; align = 4 }

abbrev pub flag : Member
flag = record { bytes = 1; align = 1 }

abbrev pub array : ℕ → Member → Member
array n m = record { bytes = n * m.bytes; align = m.align }

-- A pointer of `p` bytes.
abbrev pub pointer : ℕ → Member
pointer p = record { bytes = p; align = p }

abbrev pub otp_input : List Member
otp_input = number ∷ number ∷ []

abbrev pub otp_numpad : List Member
otp_numpad = number ∷ number ∷ []

-- `vtable_ptr` and the padding.
unfoldable pub ui_panel : ℕ → List Member
ui_panel p = pointer p ∷ char_array 0x120 ∷ []

-- From `Padding_1` on, `_otpInputList` is the member 2, `_verifyModeHolder` the member 9.
unfoldable pub login_otp_panel : ℕ → List Member
login_otp_panel p =
    struct_of (ui_panel p)
    ∷ char_array 0x18
    ∷ array 8 (struct_of otp_input)
    ∷ array 10 (struct_of otp_numpad)
    ∷ number
    ∷ number
    ∷ number
    ∷ number
    ∷ number
    ∷ number
    ∷ flag
    ∷ number
    ∷ number
    ∷ number
    ∷ flag
    ∷ flag
    ∷ flag
    ∷ number
    ∷ flag
    ∷ []

unfoldable pub login_otp_panel2 : List Member
login_otp_panel2 =
    char_array 0xB0
    ∷ array 8 (struct_of otp_input)
    ∷ array 10 (struct_of otp_numpad)
    ∷ char_array 0x1C
    ∷ number
    ∷ number
    ∷ char_array 0xC
    ∷ flag
    ∷ []

unfoldable pub ui_engine_interface : ℕ → List Member
ui_engine_interface p = char_array 0x150 ∷ pointer p ∷ []

-- `_userIdEditBoxID` is the member 1, `_userPasswordEditBoxID` the member 2.
unfoldable pub title_login_panel : ℕ → List Member
title_login_panel p =
    struct_of (ui_panel p) ∷ number ∷ number ∷ number ∷ number ∷ number ∷ number ∷ []

abbrev stands_at : ℕ → Option ℕ → Bool
stands_at place none = false
stands_at place (some offset) = offset == place

-- The four assertions on the offsets, for pointers of `p` bytes.
unfoldable pub asserted : ℕ → Bool
asserted p =
    stands_at 0x1E4 (offset_of (login_otp_panel p) 9)
    && (stands_at 0x150 (offset_of (ui_engine_interface p) 1)
        && (stands_at 0x128 (offset_of (title_login_panel p) 1)
            && stands_at 0x12C (offset_of (title_login_panel p) 2)))
