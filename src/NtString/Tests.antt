-- ===== src/NtString/Tests.antt =====
-- Sample strings of two-byte characters, and the theorems of the comparisons there.
use loginhelper.Prelude.{ℕ, ◌≡◌, ◌↔◌, refl, ◌-◌, true, map, some, arith, codes, get_elem?, ok}
use loginhelper.Fnv1a.{ascii_tolower}
use loginhelper.NtString.{NtString, from_pointer, equals, iequals}
use loginhelper.NtString.Access.{deref, reverse_deref, end, rbegin, iterators-text}
use loginhelper.NtString.Laws.{IsString, equals_iff, iequals_iff}

abbrev section : NtString
section = record { length_field = 10; maximum_length = 10; buffer = some (codes ".text") }

abbrev upper_section : NtString
upper_section = record { length_field = 10; maximum_length = 10; buffer = some (codes ".TEXT") }

abbrev dot : NtString
dot = record { length_field = 2; maximum_length = 2; buffer = some (codes ".x") }

section_made : from_pointer 2 4 (some (codes ".text")) ≡ section
unfolding from_pointer
section_made = refl

section-IsString : IsString 2 4 refl section
section-IsString = refl

equals_iff_example : (equals 2 4 section upper_section ≡ true) ↔ (codes ".text" ≡ codes ".TEXT")
equals_iff_example = equals_iff 2 4 refl section upper_section refl refl

iequals_iff_example :
    (iequals 2 4 ascii_tolower section upper_section ≡ true)
    ↔ (map ascii_tolower (codes ".text") ≡ map ascii_tolower (codes ".TEXT"))
iequals_iff_example = iequals_iff 2 4 refl ascii_tolower section upper_section refl refl

iterators-text_example :
    (c : ℕ) × (get_elem? (codes ".text") 1 ≡ some c)
    × (deref 2 4 section 2 ≡ ok c)
    × (reverse_deref 2 4 section 4 ≡ ok c)
    × (10 ≡ end 2 4 section)
    × (rbegin 2 4 section - 10 ≡ 0)
unfolding end
iterators-text_example = iterators-text 2 4 refl section 1 refl (omega arith)
