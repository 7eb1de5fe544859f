-- ===== src/Entry/Image.antt =====
-- The entry on the process's module, as the headers in its memory describe it.
use loginhelper.Prelude.{
  zero, suc, ◌+◌, ◌*◌, ◌%◌, ◌^◌, ◌<◌, ap, sym, ℕ, ◌≡◌, ◌≢◌, refl, ◌∙◌, true, false, List, ◌++◌,
  some, ◌==◌, Bool, ok, arith, bit_and, u64, pos, to_unsigned,
}
use loginhelper.Win32.{Win32}
use loginhelper.Searchers.First.{AreBytes}
use loginhelper.Pe.{
  Winnt, nt_header, rva_to, segments, section_span, find_if, contains_code, as_bytes, code_bytes,
  get_module_from_address,
}
use loginhelper.Entry.{Plugin, Module, Exit, DetourCall, left_by}
use loginhelper.Entry.Main.{module_of, notify, try_patterns}
use loginhelper.Pe.Loader.{LoaderData}
use loginhelper.Locks.{LockCalls}
use loginhelper.Entry.Laws.{transaction}
use loginhelper.Entry.Places.{AreHooked, all_hooks, IsLoaded, oep_notify-AreHooked}
use loginhelper.Entry.Notify.{notify-module_of}

module _ {World : Type 0} (nt : Winnt World) (w : World) where
  -- The header of section `i`, in the table of the headers at `headers`.
  abbrev pub section_at : ℕ → ℕ → ℕ
  section_at headers i = u64 (nt.image_first_section headers w + i * nt.sizeof_section)

  -- An image at `this`, whose headers have their signatures and stand `offset` bytes behind it, and
  -- whose sections have a first one with code, which is section `i`. The loader knows of each address
  -- in the image that it belongs to it.
  pub record IsImage (this offset i : ℕ) : Type 0 where
    pub dos : nt.e_magic this w ≡ 0x5A4D
    pub lfanew : nt.e_lfanew this w ≡ pos offset
    pub near : offset < 2 ^ 31
    pub fits : this + offset < 2 ^ 64
    pub there : this ≢ 0
    pub signed : nt.signature (this + offset) w ≡ 0x4550
    pub table : nt.image_first_section (this + offset) w < 2 ^ 64
    pub inside : i < nt.number_of_sections (this + offset) w
    pub code : bit_and (nt.characteristics (section_at (this + offset) i) w) 0x20 ≢ 0
    pub first :
        (j : ℕ) → j < i → bit_and (nt.characteristics (section_at (this + offset) j) w) 0x20 ≡ 0
    pub owner : nt.rtl_pc_to_file_header (section_at (this + offset) i) w ≡ this

  -- The loop stops at the first header that passes.
  find_if-section_span :
      (test : ℕ → Bool) (count start i : ℕ)
      → start < 2 ^ 64
      → i < count
      → test (u64 (start + i * nt.sizeof_section)) ≡ true
      → ((j : ℕ) → j < i → test (u64 (start + j * nt.sizeof_section)) ≡ false)
      → find_if nt test (section_span nt count start) ≡ some (u64 (start + i * nt.sizeof_section))
  unfolding find_if section_span
  find_if-section_span test zero start i low h good before = absurd (omega arith)
  find_if-section_span test (suc count) start zero low h good before =
      let same : u64 (start + 0 * nt.sizeof_section) ≡ start = omega arith in
      let good' : test start ≡ true = rw same at good in rw (good', same) refl
  find_if-section_span test (suc count) start (suc i) low h good before =
      let next : ℕ = u64 (start + nt.sizeof_section) in
      let step : (j : ℕ)
          → u64 (next + j * nt.sizeof_section) ≡ u64 (start + suc j * nt.sizeof_section) =
        λ j. omega arith in
      let here : test start ≡ false = sym (ap test (omega arith)) ∙ before 0 (omega arith) in
      let later =
        find_if-section_span test count next i (omega arith) (omega arith) (ap test (step i) ∙ good)
          (λ j lower. ap test (step j) ∙ before (suc j) (omega arith)) in
      rw here (later ∙ ap some (step i))

  nt_header-IsImage :
      (this offset i : ℕ) → IsImage this offset i → nt_header nt this w ≡ this + offset
  unfolding nt_header rva_to
  nt_header-IsImage this offset i image =
      let dos : nt.e_magic this w ≡ 0x5A4D = image.dos in
      let lfanew = image.lfanew in
      let place : u64 (this + to_unsigned 32 (pos offset) % 2 ^ 32) ≡ this + offset =
        omega (arith, image.near, image.fits) in
      rw (dos, lfanew, place, image.signed) refl

  -- The bytes of an image's first section with code.
  code_bytes-IsImage :
      (this offset i : ℕ)
      → IsImage this offset i
      → code_bytes nt this w
        ≡ some (
          u64 (this + nt.virtual_address (section_at (this + offset) i) w),
          nt.virtual_size (section_at (this + offset) i) w,
        )
  unfolding code_bytes segments contains_code as_bytes get_module_from_address
  code_bytes-IsImage this offset i image =
      let headers = this + offset in
      let there = image.there in
      let filled : (headers == 0) ≡ false = ground arith in
      let owned : (this == 0) ≡ false = ground arith in
      let code = image.code in
      let first = image.first in
      let found =
        find_if-section_span (λ x. contains_code nt x w) (nt.number_of_sections headers w)
          (nt.image_first_section headers w) i image.table image.inside (ground arith)
          (λ j lower. rw (first j lower) refl) in
      rw (nt_header-IsImage this offset i image, filled, found, image.owner, owned) refl

module _ {World : Type 0} (nt : Winnt World) (read : ℕ → ℕ → World → List ℕ) (w : World) where
  -- The module that an image's first section with code makes.
  abbrev pub code_module : ℕ → ℕ → ℕ → Module
  code_module this offset i =
      let x = section_at nt w (this + offset) i in
      record {
        handle = this;
        base = this + nt.virtual_address x w;
        code = read (this + nt.virtual_address x w) (nt.virtual_size x w) w;
      }

module _ {World : Type 0} (os : Win32 World) (nt : Winnt World) (locks : LockCalls World)
    (ldr : LoaderData World) (read : ℕ → ℕ → World → List ℕ) (w : World) where
  -- The first notification of a process whose image has the signatures of its headers and a section
  -- with code hooks, in one transaction of Detours, the functions whose patterns the bytes of the first
  -- such section have, each on the address that lies before the pattern's first match by the function's
  -- distance, and passes over the others, whether it returns or an exception leaves it. This is for an
  -- image whose sections the loader knows to be the image's, and for code of bytes that stands
  -- between 0x8B bytes and four gigabytes behind the image's start, which has four gigabytes above it.
  pub notify-AreHooked :
      (p : Plugin) (offset i : ℕ)
      → p.initdone ≡ false
      → IsImage nt w (ldr.image_base_address w) offset i
      → AreBytes (code_module nt read w (ldr.image_base_address w) offset i).code
      → IsLoaded (code_module nt read w (ldr.image_base_address w) offset i)
      → (calls : List DetourCall) × (e : Exit) × (notify os nt locks ldr read w p ≡ ok e)
        × AreHooked (code_module nt read w (ldr.image_base_address w) offset i) all_hooks calls
        × ((left_by e).detours ≡ p.detours ++ transaction calls)
  unfolding module_of try_patterns
  notify-AreHooked p offset i fresh image bytes loaded =
      let this = ldr.image_base_address w in
      let m = code_module nt read w this offset i in
      let (calls, e, ran, places, made, only) = oep_notify-AreHooked os w m p fresh bytes loaded in
      let near : u64 (this + nt.virtual_address (section_at nt w (this + offset) i) w) ≡ m.base =
        omega (arith, loaded.0, loaded.1, loaded.2) in
      let code : code_bytes nt this w
          ≡ some (m.base, nt.virtual_size (section_at nt w (this + offset) i) w) =
        rw near at (code_bytes-IsImage nt w this offset i image) in
      (
        calls,
        e,
        notify-module_of os nt locks ldr read w p _ fresh image.there code ∙ ran,
        places,
        made,
      )
