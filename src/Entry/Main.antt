-- ===== src/Entry/Main.antt =====
-- The library's functions that the system and the loader of plugins call: `oep_notify` from the module
-- on, `DllMain` and `init`, of loginhelper/dllmain.cpp.
use loginhelper.Prelude.{
  ℕ, Bool, true, List, [], ◌∷◌, Option, none, some, ◌==◌, if◌then◌else◌, Result, ok, undefined,
  ◌>>=◌,
}
use loginhelper.Win32.{Win32}
use loginhelper.Patches.{MemsetPattern, memsetplist, findoffset}
use loginhelper.Pe.{Winnt, handle, code_bytes}
use loginhelper.Pe.Loader.{LoaderData, get_module, address_or_null}
use loginhelper.Locks.{LockCalls}
use loginhelper.Fnv1a.{ascii_tolower}
use loginhelper.Entry.{Plugin, Module, Exit, returned, oep_notify}

-- The module at an address, with the bytes that `read` finds in its memory. Where no section has code,
-- the code reads a section header behind the last one.
unfoldable pub module_of :
    {World : Type 0} → (ℕ → ℕ → World → List ℕ) → ℕ → Option (ℕ × ℕ) → World → Result Module
module_of read this none w = undefined
module_of read this (some (base, size)) w =
    ok (record { handle = handle this; base = base; code = read base size w })

-- The loop over the patterns: each of them is a copy, which looks its place up and is dropped.
unfoldable pub try_patterns : Module → List MemsetPattern → Plugin → Plugin
try_patterns m [] p = p
try_patterns m (pair ∷ rest) p =
    let (handle_offset, pair') = findoffset pair m.handle m.base m.code in
    let later = try_patterns m rest p in if pair'.handle_offset == 0 then later else later

-- `oep_notify` on a module's address, which is 0 where there is none.
unfoldable pub notify_at :
    {World : Type 0}
    → Win32 World
    → Winnt World
    → (ℕ → ℕ → World → List ℕ)
    → World
    → ℕ
    → Plugin
    → Result Exit
notify_at os nt read w this p = if this == 0 then oep_notify os w none p else (do
  m ← module_of read this (code_bytes nt this w) w
  oep_notify os w (some m) (try_patterns m memsetplist p))

-- `oep_notify`, on the module that `pe::get_module()` gives: the one of the process.
unfoldable pub notify :
    {World : Type 0}
    → Win32 World
    → Winnt World
    → LockCalls World
    → LoaderData World
    → (ℕ → ℕ → World → List ℕ)
    → World
    → Plugin
    → Result Exit
notify os nt locks ldr read w p =
    let this = address_or_null locks ldr (get_module locks ldr ascii_tolower 0 none w).0 in
    if p.initdone then ok (returned p) else notify_at os nt read w this p

-- The reason that `DllMain` is called for when the library is loaded.
abbrev pub dll_process_attach : ℕ
dll_process_attach = 1

-- `DllMain`, over `DisableThreadLibraryCalls`.
unfoldable pub dll_main : {World : Type 0} → (ℕ → World → World) → ℕ → ℕ → World → Bool × World
dll_main disable instance reason w =
    if reason == dll_process_attach then (true, disable instance w) else (true, w)

unfoldable pub init : ℕ → Bool
init version = true
