-- ===== src/Entry/Tests.antt =====
-- The entry on a sample module, whose code holds the pattern of one function behind a first byte.
use loginhelper.Prelude.{
  ℕ, zero, suc, ◌<◌, ◌==◌, if◌then◌else◌, bit_and, ◌≡◌, ◌↔◌, ◌⊎◌, refl, inl, true, false, List, [],
  ◌∷◌, ◌++◌, Option, none, some, pos, arith, codes, ok,
}
use loginhelper.Win32.Sample.{Process, sample, get, read}
use loginhelper.Searchers.{
  pattern_searcher, compile_pattern, compile_end, compile_loop, compile_step, put_nibble,
  hexchtoint, advance, search_range, matches_front, byte_eq,
}
use loginhelper.Searchers.First.{AreBytes}
use loginhelper.Entry.{
  Plugin, Module, oep_notify, function_at, hk_process_event, find_code, returned, raised,
  detour_attach, DetourCall, Exit, left_by,
}
use loginhelper.Pe.{
  rva_to, Winnt, code_bytes, segments, nt_header, section_span, find_if, contains_code, as_bytes,
  get_module_from_address,
}
use loginhelper.Pe.Loader.{LoaderData}
use loginhelper.Locks.{LockCalls}
use loginhelper.Std.{stoi}
use loginhelper.Entry.Main.{notify}
use loginhelper.Entry.Image.{IsImage, section_at, code_module, notify-AreHooked}
use loginhelper.Entry.Laws.{oep_notify_raised, transaction}
use loginhelper.Entry.Places.{AreHooked, all_hooks, IsLoaded, oep_notify-AreHooked}
use loginhelper.Entry.Arguments.{IsOne, oep_notify-options}
use loginhelper.Regex.Words.{HasWord}
use loginhelper.Entry.Hooks.{planned}

abbrev event_code : List ℕ
event_code =
    0xCC ∷ 0x48 ∷ 0x89 ∷ 0x5C ∷ 0x24 ∷ 0x08 ∷ 0x57 ∷ 0x48 ∷ 0x83 ∷ 0xEC ∷ 0x20 ∷ 0x48 ∷ 0x8B ∷ 0xFA
    ∷ 0x48 ∷ 0x8B ∷ 0xD9 ∷ 0xFF ∷ 0x15 ∷ 1 ∷ 2 ∷ 3 ∷ 4 ∷ 0x4C ∷ 0x8B ∷ 0xC8 ∷ []

abbrev client : Module
client = record { handle = 0x140000000; base = 0x140001000; code = event_code }

abbrev unloaded : Plugin
unloaded = record {
  initdone = false;
  detours = [];
  o_process_login = none;
  o_get_instance = none;
  ui_panel_offset = pos 0;
  keeppin = false;
  swap_programid = false;
}

abbrev keeping : Process
keeping = record { variables = []; command_line = codes "a.exe -KEEPPIN"; clock = 0 }

event_code-AreBytes : AreBytes event_code
event_code-AreBytes = ground arith

oep_notify-options_example :
    (p' : Plugin) × (oep_notify sample keeping (some client) unloaded ≡ ok (returned p'))
    × ((p'.keeppin ≡ true) ↔ ((false ≡ true) ⊎ HasWord (codes " -KEEPPIN") keeping.command_line))
    × ((p'.swap_programid ≡ true) ↔ (
        (false ≡ true)
        ⊎ (IsOne sample keeping ⊎ HasWord (codes " -FIXPROGRAMID") keeping.command_line)))
unfolding read get
oep_notify-options_example =
    oep_notify-options sample keeping client unloaded refl event_code-AreBytes (inl refl)

client-planned : planned client ≡ detour_attach hk_process_event 0x140001001 ∷ []
unfolding find_code pattern_searcher compile_pattern compile_end compile_loop compile_step
    put_nibble hexchtoint advance search_range matches_front byte_eq function_at rva_to
client-planned = refl

-- The sample code as the one section of a module at 0x1000.
abbrev image : Winnt Process
image = record {
  e_magic = λ this w. 0x5A4D;
  e_lfanew = λ this w. pos 0x80;
  signature = λ nt w. 0x4550;
  number_of_sections = λ nt w. 1;
  size_of_optional_header = λ nt w. 240;
  magic = λ nt w. 0x20B;
  size_of_image = λ nt w. 0x5000;
  export_virtual_address = λ nt w. 0;
  export_size = λ nt w. 0;
  image_first_section = λ nt w. 0x1188;
  sizeof_section = 40;
  section_name = λ x w. codes ".text" ++ (0 ∷ 0 ∷ 0 ∷ []);
  virtual_size = λ x w. 26;
  virtual_address = λ x w. 0x1000;
  pointer_to_relocations = λ x w. 0;
  number_of_relocations = λ x w. 0;
  characteristics = λ x w. 0x60000020;
  reloc_count = λ x w. 0;
  export_timestamp = λ d w. 0;
  export_name = λ d w. 0;
  rtl_pc_to_file_header = λ pc w. 0x1000;
}

abbrev data_image : Winnt Process
data_image = record image { characteristics = λ x w. 0x40000040 }

abbrev read_sample : ℕ → ℕ → Process → List ℕ
read_sample base size w = event_code

image_code : code_bytes image 0x1000 keeping ≡ some (0x2000, 26)
unfolding code_bytes segments nt_header rva_to section_span find_if contains_code as_bytes
    get_module_from_address
image_code = refl

data_code : code_bytes data_image 0x1000 keeping ≡ none
unfolding code_bytes segments nt_header rva_to section_span find_if contains_code
data_code = refl

-- A process whose module is at 0x1000.
abbrev loader : LoaderData Process
loader = record {
  loader_lock = λ w. 8;
  image_base_address = λ w. 0x1000;
  head = λ w. 0x10;
  flink = λ e w. 0x10;
  in_memory_flink = λ e w. 1;
  dll_base = λ e w. 0;
  base_dll_name = λ e w. record { length_field = 0; maximum_length = 0; buffer = none };
  full_dll_name = λ e w. record { length_field = 0; maximum_length = 0; buffer = none };
  ldr_get_procedure_address = λ this name num w. none;
}

abbrev no_locks : LockCalls Process
no_locks = record {
  rtl_enter = λ handle w. w;
  rtl_try_enter = λ handle w. (true, w);
  rtl_leave = λ handle w. w;
}

-- Two sections, of which the second one has code.
abbrev two_sections : Winnt Process
two_sections = record image {
  number_of_sections = λ nt w. 2;
  characteristics = λ x w. if x == 0x1188 then 0x40000040 else 0x60000020;
}

two_sections-IsImage : IsImage two_sections keeping 0x1000 0x80 1
two_sections-IsImage = record {
  dos = refl;
  lfanew = refl;
  near = omega arith;
  fits = omega arith;
  there = λ e. omega arith;
  signed = refl;
  table = omega arith;
  inside = omega arith;
  code = λ e. omega arith;
  first = front;
  owner = refl;
}
  where
    front :
        (j : ℕ)
        → j < 1
        → bit_and
            (two_sections.characteristics (section_at two_sections keeping 0x1080 j) keeping)
            0x20
          ≡ 0
    front zero low = refl
    front (suc j) low = absurd (omega arith)

notify-AreHooked_example :
    (calls : List DetourCall) × (e : Exit) × (notify sample two_sections no_locks loader read_sample
        keeping unloaded
      ≡ ok e)
    × AreHooked (code_module two_sections read_sample keeping 0x1000 0x80 1) all_hooks calls
    × ((left_by e).detours ≡ [] ++ transaction calls)
notify-AreHooked_example =
    notify-AreHooked sample two_sections no_locks loader read_sample keeping unloaded 0x80 1 refl
      two_sections-IsImage event_code-AreBytes (omega arith, omega arith, omega arith)

-- An environment whose variable is no number.
abbrev unreadable : Process
unreadable = record {
  variables = ("BNS_SERVER_FIXPROGRAMID", codes "yes") ∷ [];
  command_line = codes "a.exe -FIXPROGRAMID";
  clock = 0;
}

oep_notify_raised_example :
    (p' : Plugin) × (oep_notify sample unreadable (some client) unloaded ≡ ok (raised p'))
    × (p'.detours ≡ [] ++ transaction (planned client))
    × (p'.swap_programid ≡ false)
    × ((w' : Process) (o : Option Module) → oep_notify sample w' o p' ≡ ok (returned p'))
unfolding read get stoi
oep_notify_raised_example =
    oep_notify_raised sample unreadable client unloaded refl event_code-AreBytes ((λ e. cc e), refl)

client-IsLoaded : IsLoaded client
client-IsLoaded = (omega arith, omega arith, omega arith)

oep_notify-AreHooked_example :
    (calls : List DetourCall) × (x : Exit) × (oep_notify sample unreadable (some client) unloaded
      ≡ ok x)
    × AreHooked client all_hooks calls
    × ((left_by x).detours ≡ [] ++ transaction calls)
    × ((calls' : List DetourCall) → AreHooked client all_hooks calls' → calls' ≡ calls)
oep_notify-AreHooked_example =
    oep_notify-AreHooked sample unreadable client unloaded refl event_code-AreBytes client-IsLoaded
