-- ===== src/Pe/Loader.antt =====
-- The loader's list of modules, which include/pe/module.inl goes through under the loader's lock. An
-- entry is the address of its `InLoadOrderLinks`; the fields of the loader's structures are a
-- parameter.
pub mod Rings
pub mod Names
use loginhelper.Prelude.{
  ℕ, zero, suc, ◌+◌, ◌*◌, Bool, true, false, not, ◌&&◌, List, [], ◌∷◌, Option, none, some, ◌==◌,
  if◌then◌else◌,
}
use loginhelper.NtString.{NtString, from_pointer, iequals, view}
use loginhelper.Locks.{LockCalls, Critsec, with_guard}

pub record LoaderData (World : Type 0) : Type 0 where
  pub loader_lock : World → ℕ
  pub image_base_address : World → ℕ
  pub head : World → ℕ
  pub flink : ℕ → World → ℕ
  pub in_memory_flink : ℕ → World → ℕ
  pub dll_base : ℕ → World → ℕ
  pub base_dll_name : ℕ → World → NtString
  pub full_dll_name : ℕ → World → NtString
  pub ldr_get_procedure_address : ℕ → Option NtString → ℕ → World → Option ℕ

-- How a loop through the list may end: with its fuel, at the head, or at an entry.
pub data Walk : Type 0 where
  exhausted : Walk
  ended : Walk
  stopped : ℕ → Walk

-- `for ( Entry = Head->Flink; Entry != Head; Entry = Entry->Flink )`, up to an entry that passes.
unfoldable pub find_entry : (ℕ → ℕ) → ℕ → (ℕ → Bool) → ℕ → ℕ → Walk
find_entry next head test zero entry = exhausted
find_entry next head test (suc fuel) entry =
    let rest = find_entry next head test fuel (next entry) in
    if entry == head then ended else if test entry then stopped entry else rest

module _ {World : Type 0} (locks : LockCalls World) (ldr : LoaderData World) where
  abbrev pub crit : World → Critsec
  crit w = record { handle = ldr.loader_lock w }

  -- The loop, on the list of a state.
  unfoldable pub search_list : ℕ → (ℕ → World → Bool) → World → Walk
  search_list fuel test w =
      find_entry (λ entry. ldr.flink entry w) (ldr.head w) (λ entry. test entry w) fuel
        (ldr.flink (ldr.head w) w)

  -- The name of the entry where a search stops, or the empty text. `none` is fuel used up.
  unfoldable pub name_at : (ℕ → World → NtString) → Walk → World → Option (List ℕ)
  name_at name exhausted w = none
  name_at name ended w = some []
  name_at name (stopped entry) w = some (view 2 4 (name entry w))

  -- `base_name` and `full_name`, with the field that they read.
  unfoldable pub module_name : (ℕ → World → NtString) → ℕ → ℕ → World → Option (List ℕ) × World
  module_name name fuel this w =
      with_guard locks (crit w)
        (λ w1.
          (name_at name (search_list fuel (λ entry w. ldr.dll_base entry w == this) w1) w1, w1))
        w

  unfoldable pub base_name : ℕ → ℕ → World → Option (List ℕ) × World
  base_name = module_name ldr.base_dll_name

  unfoldable pub full_name : ℕ → ℕ → World → Option (List ℕ) × World
  full_name = module_name ldr.full_dll_name

  unfoldable pub base_at : Walk → World → Option ℕ
  base_at exhausted w = none
  base_at ended w = some 0
  base_at (stopped entry) w = some (ldr.dll_base entry w)

  -- The test of `get_module` on an entry.
  unfoldable pub is_named : (ℕ → ℕ) → List ℕ → ℕ → World → Bool
  is_named tolower name entry w =
      not (ldr.in_memory_flink entry w == 0)
      && iequals 2 4 tolower (ldr.base_dll_name entry w) (from_pointer 2 4 (some name))

  -- `get_module`.
  unfoldable pub get_module : (ℕ → ℕ) → ℕ → Option (List ℕ) → World → Option ℕ × World
  get_module tolower fuel none w = (some (ldr.image_base_address w), w)
  get_module tolower fuel (some name) w =
      with_guard locks (crit w)
        (λ w1. (base_at (search_list fuel (is_named tolower name) w1) w1, w1)) w

  abbrev pub address_or_null : Option ℕ → ℕ
  address_or_null none = 0
  address_or_null (some address) = address

  -- `find_function`, by a name and by an ordinal.
  unfoldable pub find_function : ℕ → Option (List ℕ) → World → ℕ
  find_function this none w = 0
  find_function this (some name) w =
      address_or_null (ldr.ldr_get_procedure_address this (some (from_pointer 1 8 (some name))) 0 w)

  unfoldable pub find_ordinal : ℕ → ℕ → World → ℕ
  find_ordinal this num w =
      if num == 0 then 0 else address_or_null (ldr.ldr_get_procedure_address this none num w)
