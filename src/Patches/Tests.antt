-- ===== src/Patches/Tests.antt =====
-- A sample address space, with patches of its bytes and searches for a pattern.
use loginhelper.Prelude.{
  ℕ, ◌+◌, ◌-◌, ◌%◌, ◌^◌, ◌≡◌, refl, List, [], ◌∷◌, some, ◌==◌, ◌||◌, if◌then◌else◌, minus_one,
  arith, codes, ok, undefined,
}
use loginhelper.Searchers.{
  compile_pattern, pattern_searcher, compile_end, compile_loop, compile_step, put_nibble,
  hexchtoint, advance, search_range, matches_front, byte_eq,
}
use loginhelper.Patches.{
  VirtualMemory, IsVirtualMemory, in_pages, setaddr, MemsetElement, MemsetPattern, findoffset,
  pattern_address,
}
use loginhelper.Patches.Writes.{AfterWrite, setaddr_patches}
use loginhelper.Patches.Places.{pattern_address-findoffset}

pub record Pages : Type 0 where
  pub bytes : ℕ → ℕ
  pub protections : ℕ → ℕ

-- Every page is committed, and all are of one region.
abbrev pages : VirtualMemory Pages
pages = record {
  virtual_protect = λ addr size protection w. (
    some (w.protections addr),
    record w { protections = λ c. if in_pages addr size c then protection else w.protections c },
  );
  store = λ addr value w.
      if w.protections addr == 0x40
      then ok (record w { bytes = λ c. if c == addr then value else w.bytes c })
      else undefined;
  byte_at = λ c w. w.bytes c;
  protection_at = λ c w. w.protections c;
}

abbrev pages-IsVirtualMemory : IsVirtualMemory pages
pages-IsVirtualMemory = record {
  region_at = λ c w. 0;
  accepts = λ c protection w. protection == 0x20 || protection == 0x40;
  protects = λ addr size protection w h fits mapped.
      (_, refl, (λ c. refl), (λ c. refl), (λ c. refl), λ c p. refl);
  stores = λ addr value w writable. (
    record w { bytes = λ c. if c == addr then value else w.bytes c },
    rw writable refl,
    (λ c. refl),
    (λ c. refl),
    (λ c. refl),
    λ c p. refl,
  );
}

-- Code pages, which can be read and run.
abbrev code : Pages
code = record { bytes = λ c. c % 256; protections = λ c. 0x20 }

setaddr_patches_example :
    (w' : Pages) × (setaddr pages 0x1ffe (0x90 ∷ 0x90 ∷ 0xc3 ∷ []) 3 code ≡ ok w')
    × AfterWrite pages pages-IsVirtualMemory 0x1ffe (0x90 ∷ 0x90 ∷ 0xc3 ∷ []) code w'
setaddr_patches_example =
    setaddr_patches pages pages-IsVirtualMemory 0x1ffe (0x90 ∷ 0x90 ∷ 0xc3 ∷ []) 0x20 code
      (omega arith) (omega arith) ((λ e. omega arith), λ c h. (refl, refl, refl, refl))

abbrev return_zero : MemsetElement
return_zero = record { handle_offset = 0x10; bytearray = 0xc3 ∷ [] }

abbrev nop_ret : MemsetPattern
nop_ret = record { handle_offset = 0; pattern = codes "90 C3"; offset = minus_one; bytearray = [] }

abbrev text : List ℕ
text = 0x40 ∷ 0x90 ∷ 0xc3 ∷ []

nop_ret-found : (pattern_searcher (compile_pattern (codes "90 C3")) text).0 ≡ 1
unfolding pattern_searcher compile_pattern compile_end compile_loop compile_step put_nibble
    hexchtoint advance search_range matches_front byte_eq
nop_ret-found = refl

pattern_address-findoffset_example :
    pattern_address (findoffset nop_ret 0x400000 0x401000 text).1 0x400000
    ≡ (0x401000 + (pattern_searcher (compile_pattern (codes "90 C3")) text).0 + (2 ^ 64 - 1))
      % 2 ^ 64
pattern_address-findoffset_example =
    pattern_address-findoffset nop_ret 0x400000 0x401000 text (omega arith) refl
      (λ e. omega (arith, e, nop_ret-found))

nop_ret-offset : (findoffset nop_ret 0x400000 0x401000 text).0 ≡ 0x1000
unfolding findoffset
nop_ret-offset = rw nop_ret-found refl
