-- ===== src/Patches.antt =====
-- The code patches of loginhelper/memset.h: writes to protected pages, and the place of a pattern.
-- The address space is an abstract state behind an interface, which the calls of the Windows API and
-- the program's own writes change.
pub mod Writes
pub mod Places
mod Tests
use loginhelper.Prelude.{
  ℕ, zero, suc, ◌+◌, ◌-◌, ◌*◌, ◌/◌, ◌%◌, ◌^◌, ◌≤◌, ◌<◌, ◌≡◌, ◌≢◌, Bool, true, not, ◌&&◌, List, [],
  ◌∷◌, Option, none, some, leb, ◌==◌, if◌then◌else◌, length, get_elem?, ℤ, to_unsigned, Result, ok,
  undefined, ◌>>=◌, some_or,
}
use loginhelper.Searchers.{compile_pattern, pattern_searcher}

abbrev pub page_execute_readwrite : ℕ
page_execute_readwrite = 0x40

-- `virtual_protect` returns the old protection, or nothing when the call fails; `store` writes a byte,
-- or faults. A page that is not committed has protection 0.
pub record VirtualMemory (World : Type 0) : Type 0 where
  pub virtual_protect : ℕ → ℕ → ℕ → World → Option ℕ × World
  pub store : ℕ → ℕ → World → Result World
  pub byte_at : ℕ → World → ℕ
  pub protection_at : ℕ → World → ℕ

-- Is an address in a page that holds a byte of the `size` bytes from `addr` on?
abbrev pub in_pages : ℕ → ℕ → ℕ → Bool
in_pages addr size c = leb (addr / 4096) (c / 4096) && leb (c / 4096) ((addr + size - 1) / 4096)

-- What is documented of the calls. A change reaches every page of the range and returns the old
-- protection of the first, if the pages are committed, were reserved as one region, and all can have the
-- protection: it is one of the constants, and compatible with how the memory was allocated or mapped. A
-- byte in a page that can be written is written. Neither call reserves, commits or maps anything.
pub record IsVirtualMemory {World : Type 0} (os : VirtualMemory World) : Type 0 where
  pub region_at : ℕ → World → ℕ
  pub accepts : ℕ → ℕ → World → Bool
  pub protects :
      (addr size protection : ℕ) (w : World)
      → 0 < size
      → addr + size ≤ 2 ^ 64
      → ((c : ℕ)
          → in_pages addr size c ≡ true
          → (os.protection_at c w ≢ 0)
            × (region_at c w ≡ region_at addr w)
            × (accepts c protection w ≡ true))
      → (w' : World) × (os.virtual_protect addr size protection w
          ≡ (some (os.protection_at addr w), w'))
        × ((c : ℕ) → os.byte_at c w' ≡ os.byte_at c w)
        × ((c : ℕ)
            → os.protection_at c w'
              ≡ (if in_pages addr size c then protection else os.protection_at c w))
        × ((c : ℕ) → region_at c w' ≡ region_at c w)
        × ((c protection : ℕ) → accepts c protection w' ≡ accepts c protection w)
  pub stores :
      (addr value : ℕ) (w : World)
      → os.protection_at addr w ≡ page_execute_readwrite
      → (w' : World) × (os.store addr value w ≡ ok w')
        × ((c : ℕ) → os.byte_at c w' ≡ (if c == addr then value else os.byte_at c w))
        × ((c : ℕ) → os.protection_at c w' ≡ os.protection_at c w)
        × ((c : ℕ) → region_at c w' ≡ region_at c w)
        × ((c protection : ℕ) → accepts c protection w' ≡ accepts c protection w)

module _ {World : Type 0} (os : VirtualMemory World) where
  -- The loop `addr[i] = values[i]` at `i`, with `n` rounds left.
  unfoldable pub copy_values : ℕ → ℕ → ℕ → List ℕ → World → Result World
  copy_values zero i addr values w = ok w
  copy_values (suc n) i addr values w = do
    value ← some_or undefined (get_elem? values i)
    w' ← os.store (addr + i) value w
    copy_values n (i + 1) addr values w'

  -- `memset`.
  unfoldable pub memset : ℕ → ℕ → ℕ → World → Result World
  memset zero addr value w = ok w
  memset (suc n) addr value w = do w' ← os.store addr value w; memset n (addr + 1) value w'

  -- A write between two calls of `VirtualProtect`. After a first call that fails, the second one
  -- would read a variable without a value.
  unfoldable pub with_protection : ℕ → ℕ → (World → Result World) → World → Result World
  with_protection addr size write w = do
    let (cur_protection, w1) = os.virtual_protect addr size page_execute_readwrite w
    w2 ← write w1
    old ← some_or undefined cur_protection
    ok (os.virtual_protect addr size old w2).1

  unfoldable pub memset_vp : ℕ → ℤ → ℕ → World → Result World
  memset_vp dst val size = with_protection dst size (memset size dst (to_unsigned 8 val))

  unfoldable pub setaddr : ℕ → List ℕ → ℕ → World → Result World
  setaddr addr values size = with_protection addr size (copy_values size 0 addr values)

-- `MemsetElement`.
pub record MemsetElement : Type 0 where
  pub handle_offset : ℕ
  pub bytearray : List ℕ

-- Its constructor and `size`.
abbrev pub new_element : ℕ → List ℕ → MemsetElement
new_element handle_offset bytearray = record {
  handle_offset = handle_offset;
  bytearray = bytearray;
}

abbrev pub element_size : MemsetElement → ℕ
element_size e = length e.bytearray

-- `MemsetElement::getoffset`.
unfoldable pub element_address : MemsetElement → ℕ → ℕ
element_address e handle = (handle + e.handle_offset) % 2 ^ 64

-- `MemsetElement::apply`; `&bytearray[0]` of an empty vector is out of bounds.
unfoldable pub apply_element :
    {World : Type 0} → VirtualMemory World → MemsetElement → ℕ → World → Result World
apply_element os e handle w = do
  first ← some_or undefined (get_elem? e.bytearray 0)
  setaddr os (element_address e handle) e.bytearray (element_size e) w

-- `MemsetPattern`.
pub record MemsetPattern : Type 0 where
  pub handle_offset : ℕ
  pub pattern : List ℕ
  pub offset : ℤ
  pub bytearray : List ℕ

-- Its constructor and `size`.
abbrev pub new_pattern : List ℕ → ℤ → List ℕ → ℕ → MemsetPattern
new_pattern pattern offset bytearray handle_offset = record {
  handle_offset = handle_offset;
  pattern = pattern;
  offset = offset;
  bytearray = bytearray;
}

abbrev pub pattern_size : MemsetPattern → ℕ
pattern_size p = length p.bytearray

abbrev pub memsetplist : List MemsetPattern
memsetplist = []

-- `MemsetPattern::getoffset`.
unfoldable pub pattern_address : MemsetPattern → ℕ → ℕ
pattern_address p handle = (handle + p.handle_offset) % 2 ^ 64

-- `MemsetPattern::findoffset`, with the data at the address `base`.
unfoldable pub findoffset : MemsetPattern → ℕ → ℕ → List ℕ → ℕ × MemsetPattern
findoffset p handle base bytes =
    let found = (pattern_searcher (compile_pattern p.pattern) bytes).0 in
    let place = (base + found + to_unsigned 64 p.offset + (2 ^ 64 - handle)) % 2 ^ 64 in
    if not (p.handle_offset == 0)
    then (p.handle_offset, p)
    else if found == length bytes
    then (0, record p { handle_offset = 0 })
    else (place, record p { handle_offset = place })
