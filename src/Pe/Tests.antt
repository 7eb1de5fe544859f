-- ===== src/Pe/Tests.antt =====
-- A sample module with two sections, a sample loader with two modules, and the views of them.
use loginhelper.Prelude.{
  ℕ, ◌+◌, ◌-◌, ◌*◌, ◌≡◌, refl, true, List, [], ◌∷◌, ◌++◌, map, Option, none, some, ◌==◌,
  if◌then◌else◌, length, pos, codes, arith,
}
use loginhelper.Fnv1a.{ascii_tolower}
use loginhelper.NtString.{
  NtString, same_text, from_pointer, iequals, equals_by, skip_words, chars_agree,
}
use loginhelper.Locks.{LockCalls, IsLock, with_guard}
use loginhelper.Pe.{
  Winnt, nt_header, segments, segment, code_bytes, rva_to, section_span, find_if, segment_name,
  up_to_zero, contains_code, as_bytes, get_module_from_address, address_of,
}
use loginhelper.Pe.Sections.{FindsFirst, IsName, segment-FindsFirst}
use loginhelper.Pe.Loader.{
  LoaderData, Walk, base_name, get_module, base_at, search_list, find_entry, is_named,
}
use loginhelper.Pe.Loader.Rings.{Finds, IsNamed, locked, unlocked, KeepsLocks, get_module-Finds}
use loginhelper.Pe.Loader.Names.{base_name-get_module}

-- A state is how often each lock is entered. The headers are at 0x1080, the sections at
-- 0x1188 and 0x11B0; the first has the code.
abbrev idle : ℕ → ℕ
idle handle = 0

abbrev image : Winnt (ℕ → ℕ)
image = record {
  e_magic = λ this w. if this == 0x1000 then 0x5A4D else 0;
  e_lfanew = λ this w. pos 0x80;
  signature = λ nt w. 0x4550;
  number_of_sections = λ nt w. 2;
  size_of_optional_header = λ nt w. 240;
  magic = λ nt w. 0x20B;
  size_of_image = λ nt w. 0x5000;
  export_virtual_address = λ nt w. 0x3000;
  export_size = λ nt w. 0x100;
  image_first_section = λ nt w. 0x1188;
  sizeof_section = 40;
  section_name = λ x w. if x == 0x1188 then codes ".text" ++ (0 ∷ 0 ∷ 0 ∷ []) else codes ".reloc00";
  virtual_size = λ x w. 0x20;
  virtual_address = λ x w. 0x1000;
  pointer_to_relocations = λ x w. 0;
  number_of_relocations = λ x w. 0;
  characteristics = λ x w. if x == 0x1188 then 0x60000020 else 0x42000040;
  reloc_count = λ x w. 0;
  export_timestamp = λ d w. 0;
  export_name = λ d w. 0x3100;
  rtl_pc_to_file_header = λ pc w. 0x1000;
}

text_section : segment image 0x1000 (codes ".text") idle ≡ 0x1188
unfolding segment segments nt_header rva_to section_span find_if segment_name up_to_zero same_text
text_section = refl

text_code : code_bytes image 0x1000 idle ≡ some (0x2000, 0x20)
unfolding code_bytes segments nt_header rva_to section_span find_if contains_code as_bytes
    get_module_from_address
text_code = refl

segment-FindsFirst_example :
    (found : Option ℕ) × (segment image 0x1000 (codes ".reloc00") idle ≡ address_of image found)
    × FindsFirst
        (λ x. IsName image (image.section_name x idle) (codes ".reloc00"))
        (segments image 0x1000 idle)
        found
segment-FindsFirst_example = segment-FindsFirst image 0x1000 (codes ".reloc00") idle

no_header : nt_header image 0x7000 idle ≡ 0
unfolding nt_header
no_header = refl

abbrev locks : LockCalls (ℕ → ℕ)
locks = record {
  rtl_enter = λ handle w h. if h == handle then w h + 1 else w h;
  rtl_try_enter = λ handle w. (true, λ h. if h == handle then w h + 1 else w h);
  rtl_leave = λ handle w h. if h == handle then w h - 1 else w h;
}

abbrev locks-IsLock : IsLock locks
locks-IsLock = record {
  depth = λ handle w. w handle;
  entered = λ handle other w. refl;
  left = λ handle other w. refl;
}

abbrev counted : List ℕ → NtString
counted s = record { length_field = 2 * length s; maximum_length = 2 * length s; buffer = some s }

-- Two entries, at 0x20 and 0x30, behind a head at 0x10.
abbrev loaded : LoaderData (ℕ → ℕ)
loaded = record {
  loader_lock = λ w. 8;
  image_base_address = λ w. 0x1000;
  head = λ w. 0x10;
  flink = λ e w. if e == 0x30 then 0x10 else e + 0x10;
  in_memory_flink = λ e w. 1;
  dll_base = λ e w. e * 0x100;
  base_dll_name =
      λ e w. if e == 0x20 then counted (codes "app.exe") else counted (codes "NTDLL.dll");
  full_dll_name = λ e w. counted (codes "x");
  ldr_get_procedure_address = λ this name num w. none;
}

get_module-Finds_example :
    (r : Walk) × (base : ℕ) × (get_module locks loaded ascii_tolower 3
        (some (codes "ntdll.dll"))
        idle
      ≡ (some base, unlocked locks locks-IsLock loaded idle))
    × Finds
        (IsNamed locks locks-IsLock loaded ascii_tolower
          (codes "ntdll.dll")
          (omega arith)
          (locked locks locks-IsLock loaded idle))
        (0x20 ∷ 0x30 ∷ [])
        r
    × (base_at locks loaded r (locked locks locks-IsLock loaded idle) ≡ some base)
    × KeepsLocks locks locks-IsLock loaded idle (unlocked locks locks-IsLock loaded idle)
get_module-Finds_example =
    get_module-Finds locks locks-IsLock loaded ascii_tolower (codes "ntdll.dll") (omega arith) 3
      idle (0x20 ∷ 0x30 ∷ []) (omega arith) (omega arith) (refl, (refl, tt))

ntdll_found :
    (get_module locks loaded ascii_tolower 3 (some (codes "ntdll.dll")) idle).0 ≡ some 0x3000
unfolding get_module with_guard base_at search_list find_entry is_named iequals equals_by
    from_pointer skip_words same_text chars_agree ascii_tolower
ntdll_found = refl

base_name-get_module_example :
    (t : List ℕ) × ((base_name locks loaded 3 0x3000 (unlocked locks locks-IsLock loaded idle)).0
      ≡ some t)
    × (map ascii_tolower t ≡ map ascii_tolower (codes "ntdll.dll"))
base_name-get_module_example =
    base_name-get_module locks locks-IsLock loaded ascii_tolower (codes "ntdll.dll") (omega arith) 3
      idle (0x20 ∷ 0x30 ∷ []) 0x3000 (omega arith) (omega arith) (refl, (refl, tt)) (omega arith)
      (refl, (λ e. refl), (λ e. refl), λ e. refl) ntdll_found (λ e. omega arith)
