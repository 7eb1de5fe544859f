-- ===== src/Pe.antt =====
-- The view of a loaded module in include/pe: its headers, its sections and its exports. A pointer is
-- an address, and 0 is `nullptr`. The structures of winnt.h, which the module's memory holds, are a
-- parameter: a reader for each field that the code uses.
pub mod Loader
pub mod Sections
mod Tests
use loginhelper.Prelude.{
  ℕ, zero, suc, ◌+◌, ◌*◌, ◌%◌, ◌^◌, Bool, true, false, not, ◌&&◌, ◌||◌, List, [], ◌∷◌, Option, none,
  some, ◌==◌, if◌then◌else◌, bit_and, u32, u64, ℤ, to_unsigned,
}
use loginhelper.NtString.{same_text}

pub record Winnt (World : Type 0) : Type 0 where
  pub e_magic : ℕ → World → ℕ
  pub e_lfanew : ℕ → World → ℤ
  pub signature : ℕ → World → ℕ
  pub number_of_sections : ℕ → World → ℕ
  pub size_of_optional_header : ℕ → World → ℕ
  pub magic : ℕ → World → ℕ
  pub size_of_image : ℕ → World → ℕ
  pub export_virtual_address : ℕ → World → ℕ
  pub export_size : ℕ → World → ℕ
  pub image_first_section : ℕ → World → ℕ
  pub sizeof_section : ℕ
  pub section_name : ℕ → World → List ℕ
  pub virtual_size : ℕ → World → ℕ
  pub virtual_address : ℕ → World → ℕ
  pub pointer_to_relocations : ℕ → World → ℕ
  pub number_of_relocations : ℕ → World → ℕ
  pub characteristics : ℕ → World → ℕ
  pub reloc_count : ℕ → World → ℕ
  pub export_timestamp : ℕ → World → ℕ
  pub export_name : ℕ → World → ℕ
  pub rtl_pc_to_file_header : ℕ → World → ℕ

abbrev pub image_dos_signature : ℕ
image_dos_signature = 0x5A4D

abbrev pub image_nt_signature : ℕ
image_nt_signature = 0x4550

abbrev pub image_nt_optional_hdr_magic : ℕ
image_nt_optional_hdr_magic = 0x20B

-- `rva_to`.
unfoldable pub rva_to : ℕ → ℕ → ℕ
rva_to this rva = u64 (this + u32 rva)

-- A module is the address of its first byte, where its DOS header stands.
abbrev pub handle : ℕ → ℕ
handle this = this

abbrev pub dos_header : ℕ → ℕ
dos_header this = this

-- `instance_module`, for the linker's `__ImageBase`.
abbrev pub instance_module : ℕ → ℕ
instance_module image_base = image_base

module _ {World : Type 0} (nt : Winnt World) where
  -- `nt_header`, of which the const overload forwards to the other, as those of the next functions do.
  unfoldable pub nt_header : ℕ → World → ℕ
  nt_header this w =
      if not (nt.e_magic (dos_header this) w == image_dos_signature)
      then 0
      else (let ntheader = rva_to this (to_unsigned 32 (nt.e_lfanew (dos_header this) w)) in
          if not (nt.signature ntheader w == image_nt_signature) then 0 else ntheader)

  -- The conditions on the optional header that `size` and `export_directory` share.
  abbrev pub lacks_optional : ℕ → World → Bool
  lacks_optional ntheader w =
      ntheader == 0
      || (nt.size_of_optional_header ntheader w == 0
          || not (nt.magic ntheader w == image_nt_optional_hdr_magic))

  unfoldable pub size : ℕ → World → ℕ
  size this w =
      if not (nt.e_magic (dos_header this) w == image_dos_signature)
      then 0
      else if lacks_optional (nt_header this w) w
      then 0
      else nt.size_of_image (nt_header this w) w

  -- The elements of a span of `count` section headers.
  unfoldable pub section_span : ℕ → ℕ → List ℕ
  section_span zero first = []
  section_span (suc count) first = first ∷ section_span count (u64 (first + nt.sizeof_section))

  unfoldable pub segments : ℕ → World → List ℕ
  segments this w =
      let ntheader = nt_header this w in
      if ntheader == 0
      then []
      else section_span (nt.number_of_sections ntheader w) (nt.image_first_section ntheader w)

  -- The loop of `segment::name`, over the eight bytes of the field.
  unfoldable pub up_to_zero : List ℕ → List ℕ
  up_to_zero [] = []
  up_to_zero (c ∷ cs) = let rest = up_to_zero cs in if c == 0 then [] else c ∷ rest

  unfoldable pub segment_name : ℕ → World → List ℕ
  segment_name x w = up_to_zero (nt.section_name x w)

  -- `std::find_if` over a span.
  unfoldable pub find_if : (ℕ → Bool) → List ℕ → Option ℕ
  find_if test [] = none
  find_if test (x ∷ xs) = let rest = find_if test xs in if test x then some x else rest

  abbrev address_of : Option ℕ → ℕ
  address_of none = 0
  address_of (some x) = x

  -- `module::segment`.
  unfoldable pub segment : ℕ → List ℕ → World → ℕ
  segment this name w =
      address_of (find_if (λ x. same_text (segment_name x w) name) (segments this w))

  unfoldable pub export_directory : ℕ → World → ℕ
  export_directory this w =
      let ntheader = nt_header this w in
      if lacks_optional ntheader w
        || (nt.export_virtual_address ntheader w == 0 || nt.export_size ntheader w == 0)
      then 0
      else rva_to this (nt.export_virtual_address ntheader w)

  -- `get_module_from_address`, and the `module` of a section and of an export directory.
  unfoldable pub get_module_from_address : ℕ → World → ℕ
  get_module_from_address pc w = nt.rtl_pc_to_file_header pc w

  abbrev pub segment_module : ℕ → World → ℕ
  segment_module x w = get_module_from_address x w

  abbrev pub export_directory_module : ℕ → World → ℕ
  export_directory_module directory w = get_module_from_address directory w

  -- `export_directory::timestamp` and `export_directory::name`.
  unfoldable pub timestamp : ℕ → World → ℕ
  timestamp directory w = nt.export_timestamp directory w

  unfoldable pub export_module_name : ℕ → World → ℕ
  export_module_name directory w =
      rva_to (export_directory_module directory w) (nt.export_name directory w)

  -- `segment::as_bytes`: where the bytes of a section stand, and how many they are.
  unfoldable pub as_bytes : ℕ → World → ℕ × ℕ
  as_bytes x w =
      let base = segment_module x w in
      if base == 0 then (0, 0) else (u64 (base + nt.virtual_address x w), nt.virtual_size x w)

  abbrev pub has_flag : ℕ → ℕ → World → Bool
  has_flag flag x w = not (bit_and (nt.characteristics x w) flag == 0)

  unfoldable pub contains_code : ℕ → World → Bool
  contains_code = has_flag 0x20

  unfoldable pub contains_initialized_data : ℕ → World → Bool
  contains_initialized_data = has_flag 0x40

  unfoldable pub contains_uninitialized_data : ℕ → World → Bool
  contains_uninitialized_data = has_flag 0x80

  unfoldable pub discardable : ℕ → World → Bool
  discardable = has_flag 0x2000000

  unfoldable pub not_cached : ℕ → World → Bool
  not_cached = has_flag 0x4000000

  unfoldable pub not_paged : ℕ → World → Bool
  not_paged = has_flag 0x8000000

  unfoldable pub shared : ℕ → World → Bool
  shared = has_flag 0x10000000

  unfoldable pub executable : ℕ → World → Bool
  executable = has_flag 0x20000000

  unfoldable pub readable : ℕ → World → Bool
  readable = has_flag 0x40000000

  unfoldable pub writable : ℕ → World → Bool
  writable = has_flag 0x80000000

  -- The number of relocations, which the first of them holds where the field is too small.
  unfoldable pub relocation_count : ℕ → World → ℕ
  relocation_count x w =
      if has_flag 0x1000000 x w && nt.number_of_relocations x w == 0xFFFF
      then nt.reloc_count (u64 (segment_module x w + nt.pointer_to_relocations x w)) w
      else nt.number_of_relocations x w

  abbrev pub section_bytes : Option ℕ → World → Option (ℕ × ℕ)
  section_bytes none w = none
  section_bytes (some x) w = some (as_bytes x w)

  -- The section of code that `oep_notify` takes: the first one. A `find_if` that reaches the end of the
  -- sections gives no section to read.
  unfoldable pub code_bytes : ℕ → World → Option (ℕ × ℕ)
  code_bytes this w = section_bytes (find_if (λ x. contains_code x w) (segments this w)) w
