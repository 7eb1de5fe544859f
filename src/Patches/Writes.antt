-- ===== src/Patches/Writes.antt =====
-- What the writes to protected pages leave in the address space.
use native.Mathlib.Nat.{mod-eq_of_lt}
use loginhelper.Prelude.{
  ℕ, zero, suc, ◌+◌, ◌^◌, ◌≤◌, ◌<◌, ◌≡◌, ◌≢◌, refl, sym, ap, ◌∙◌, true, List, [], ◌∷◌, some, ◌==◌,
  ==_iff, if◌then◌else◌, Bool-cases, inl, inr, length, get_elem?, drop, replicate, Bool, ℤ,
  to_unsigned, ◌%◌, arith, Result, ok,
}
use loginhelper.Patches.{
  MemsetElement, element_address, apply_element, memset, memset_vp, VirtualMemory, IsVirtualMemory,
  page_execute_readwrite, in_pages, copy_values, with_protection, setaddr,
}

-- The byte at `c` when the values are written from `addr` on, over `old`.
abbrev pub patched : ℕ → List ℕ → ℕ → ℕ → ℕ
patched addr [] c old = old
patched addr (value ∷ values) c old = if c == addr then value else patched (addr + 1) values c old

patched-below :
    (addr : ℕ) (values : List ℕ) (c old : ℕ) → c < addr → patched addr values c old ≡ old
patched-below addr [] c old h = refl
patched-below addr (value ∷ values) c old h = elim (Bool-cases (c == addr)) [
  | inl here ↦ absurd (omega (arith, (==_iff _ _).0 here))
  | inr away ↦ rw away (patched-below (addr + 1) values c old (omega arith))
]

drop-front :
    (i : ℕ) (values : List ℕ) {value : ℕ} {rest : List ℕ}
    → drop i values ≡ value ∷ rest
    → (get_elem? values i ≡ some value) × (drop (suc i) values ≡ rest)
drop-front zero [] e = cc
drop-front zero (x ∷ xs) e = ground arith
drop-front (suc i) [] e = cc
drop-front (suc i) (x ∷ xs) e = drop-front i xs e

first_value :
    (values : List ℕ) → 0 < length values → (value : ℕ) × (get_elem? values 0 ≡ some value)
first_value [] h = absurd (omega arith)
first_value (value ∷ values) h = (value, refl)

module _ {World : Type 0} (os : VirtualMemory World) (laws : IsVirtualMemory os) where
  -- The regions, and the protections that pages can have, are as they were.
  abbrev pub SameRegions : World → World → Type 0
  SameRegions w w' =
      ((c : ℕ) → laws.region_at c w' ≡ laws.region_at c w)
      × ((c protection : ℕ) → laws.accepts c protection w' ≡ laws.accepts c protection w)

  SameRegions-trans : {w w1 w2 : World} → SameRegions w w1 → SameRegions w1 w2 → SameRegions w w2
  SameRegions-trans (a, b) (a', b') = ((λ c. a' c ∙ a c), λ c p. b' c p ∙ b c p)

  -- The bytes, the protections and the regions behind a write of `values` at `addr`.
  abbrev pub AfterWrite : ℕ → List ℕ → World → World → Type 0
  AfterWrite addr values w w' =
      ((c : ℕ) → os.byte_at c w' ≡ patched addr values c (os.byte_at c w))
      × ((c : ℕ) → os.protection_at c w' ≡ os.protection_at c w)
      × SameRegions w w'

  AfterWrite-first :
      (addr value : ℕ) (values : List ℕ) (w w1 w' : World)
      → ((c : ℕ) → os.byte_at c w1 ≡ (if c == addr then value else os.byte_at c w))
      → ((c : ℕ) → os.protection_at c w1 ≡ os.protection_at c w)
      → SameRegions w w1
      → AfterWrite (addr + 1) values w1 w'
      → AfterWrite addr (value ∷ values) w w'
  AfterWrite-first addr value values w w1 w' bytes1 kept1 same1 (bytes, kept, same) = (
    (λ c. bytes c ∙ ap (λ (t : ℕ). patched (addr + 1) values c t) (bytes1 c) ∙ here c),
    (λ c. kept c ∙ kept1 c),
    SameRegions-trans same1 same,
  )
    where
      here :
          (c : ℕ)
          → patched (addr + 1) values c (if c == addr then value else os.byte_at c w)
            ≡ patched addr (value ∷ values) c (os.byte_at c w)
      here c = elim (Bool-cases (c == addr)) [
        | inl same ↦
            rw same (patched-below (addr + 1) values c value (omega (arith, (==_iff _ _).0 same)))
        | inr other ↦ rw other refl
      ]

  copy_values-patched :
      (rest : List ℕ) (i addr a : ℕ) (values : List ℕ) (w : World)
      → drop i values ≡ rest
      → addr + i ≡ a
      → ((c : ℕ) → a ≤ c → c < a + length rest → os.protection_at c w ≡ page_execute_readwrite)
      → (w' : World) × (copy_values os (length rest) i addr values w ≡ ok w')
        × AfterWrite a rest w w'
  unfolding copy_values
  copy_values-patched [] i addr a values w e at h =
      (w, refl, ((λ c. refl), (λ c. refl), ((λ c. refl), λ c p. refl)))
  copy_values-patched (value ∷ rest) i addr a values w e at h =
      let (get, tail) = drop-front i values e in
      let (w1, stored, bytes1, kept1, regions1, accepts1) =
        laws.stores a value w (h a (omega arith) (omega arith)) in
      let one : i + 1 ≡ suc i = omega arith in
      let (w', ran, after) =
        copy_values-patched rest (i + 1) addr (a + 1) values w1
          (ap (λ (t : ℕ). drop t values) one ∙ tail) (omega arith)
          (λ c lo hi. kept1 c ∙ h c (omega arith) (omega arith)) in
      (
        w',
        rw (get, at, stored) ran,
        AfterWrite-first a value rest w w1 w' bytes1 kept1 (regions1, accepts1) after,
      )

  memset-patched :
      (n addr value : ℕ) (w : World)
      → ((c : ℕ) → addr ≤ c → c < addr + n → os.protection_at c w ≡ page_execute_readwrite)
      → (w' : World) × (memset os n addr value w ≡ ok w') × AfterWrite addr (replicate n value) w w'
  unfolding memset
  memset-patched zero addr value w h =
      (w, refl, ((λ c. refl), (λ c. refl), ((λ c. refl), λ c p. refl)))
  memset-patched (suc n) addr value w h =
      let (w1, stored, bytes1, kept1, regions1, accepts1) =
        laws.stores addr value w (h addr (omega arith) (omega arith)) in
      let (w', ran, after) =
        memset-patched n (addr + 1) value w1
          (λ c lo hi. kept1 c ∙ h c (omega arith) (omega arith)) in
      (
        w',
        rw stored ran,
        AfterWrite-first addr value (replicate n value) w w1 w' bytes1 kept1 (regions1, accepts1)
            after,
      )

  range_in_pages : (addr size c : ℕ) → addr ≤ c → c < addr + size → in_pages addr size c ≡ true
  range_in_pages addr size c lo hi = ground arith

  -- The pages of a range have one protection, which is not that of pages without memory, were reserved
  -- as one region, and can be written and run, and be as they are.
  abbrev pub IsUniform : ℕ → ℕ → ℕ → World → Type 0
  IsUniform addr size protection w =
      (protection ≢ 0)
      × ((c : ℕ)
          → in_pages addr size c ≡ true
          → (os.protection_at c w ≡ protection)
            × (laws.region_at c w ≡ laws.region_at addr w)
            × (laws.accepts c page_execute_readwrite w ≡ true)
            × (laws.accepts c protection w ≡ true))

  with_protection-patched :
      (addr size protection : ℕ) (values : List ℕ) (write : World → Result World) (w : World)
      → 0 < size
      → addr + size ≤ 2 ^ 64
      → IsUniform addr size protection w
      → ((w1 : World)
          → ((c : ℕ) → addr ≤ c → c < addr + size → os.protection_at c w1 ≡ page_execute_readwrite)
          → (w2 : World) × (write w1 ≡ ok w2) × AfterWrite addr values w1 w2)
      → (w' : World) × (with_protection os addr size write w ≡ ok w') × AfterWrite addr values w w'
  unfolding with_protection
  with_protection-patched addr size protection values write w some_bytes fits (mapped, uniform)
        writes =
      let (w1, opened, bytes1, open1, regions1, accepts1) =
        laws.protects addr size page_execute_readwrite w some_bytes fits (λ c inside.
          let (same, region, writable, kept) = uniform c inside in
          ((λ e. mapped (sym same ∙ e)), region, writable)) in
      let writable = λ (c : ℕ) (inside : in_pages addr size c ≡ true).
        open1 c
        ∙ ap (λ (t : Bool). if t then page_execute_readwrite else os.protection_at c w) inside in
      let (w2, wrote, (bytes2, kept2, same2)) =
        writes w1 (λ c lo hi. writable c (range_in_pages addr size c lo hi)) in
      let (regions, accepted) = SameRegions-trans (regions1, accepts1) same2 in
      let old : os.protection_at addr w ≡ protection =
        (uniform addr (range_in_pages addr size addr (omega arith) (omega arith))).0 in
      let (w3, closed, bytes3, close3, regions3, accepts3) =
        laws.protects addr size (os.protection_at addr w) w2 some_bytes fits (λ c inside.
          let (same, region, rwx, kept) = uniform c inside in
          (
            (λ none_there. let now = kept2 c ∙ writable c inside in ground arith),
            regions c ∙ region ∙ sym (regions addr),
            accepted c (os.protection_at addr w) ∙ ap (λ (t : ℕ). laws.accepts c t w) old ∙ kept,
          )) in
      (
        w3,
        rw (opened, wrote, closed) refl,
        (
          (λ c. bytes3 c ∙ bytes2 c ∙ ap (λ (t : ℕ). patched addr values c t) (bytes1 c)),
          (λ c. elim (Bool-cases (in_pages addr size c)) [
            | inl inside ↦ close3 c ∙ rw inside (old ∙ sym (uniform c inside).0)
            | inr outside ↦ close3 c ∙ rw outside (kept2 c ∙ open1 c ∙ rw outside refl)
          ]),
          SameRegions-trans (regions, accepted) (regions3, accepts3),
        ),
      )

  -- `setaddr` writes the values one behind the other from `addr` on, changes no other byte, and leaves
  -- every page's protection as it was, on a range that is not empty, lies in the address space, and
  -- whose pages are committed, were reserved as one region, have one protection, and can have this one
  -- and PAGE_EXECUTE_READWRITE.
  pub setaddr_patches :
      (addr : ℕ) (values : List ℕ) (protection : ℕ) (w : World)
      → 0 < length values
      → addr + length values ≤ 2 ^ 64
      → IsUniform addr (length values) protection w
      → (w' : World) × (setaddr os addr values (length values) w ≡ ok w')
        × AfterWrite addr values w w'
  unfolding setaddr
  setaddr_patches addr values protection w some_bytes fits uniform =
      with_protection-patched addr (length values) protection values _ w some_bytes fits uniform
        (λ w1 h. copy_values-patched values 0 addr addr values w1 refl (omega arith) h)

  -- `memsetVP` writes the low byte of the value `size` times from `dst` on, changes no other byte, and
  -- leaves every page's protection as it was, on a range as for `setaddr`.
  pub memset_vp_fills :
      (dst : ℕ) (val : ℤ) (size protection : ℕ) (w : World)
      → 0 < size
      → dst + size ≤ 2 ^ 64
      → IsUniform dst size protection w
      → (w' : World) × (memset_vp os dst val size w ≡ ok w')
        × AfterWrite dst (replicate size (to_unsigned 8 val)) w w'
  unfolding memset_vp
  memset_vp_fills dst val size protection w some_bytes fits uniform =
      with_protection-patched dst size protection (replicate size (to_unsigned 8 val)) _ w
        some_bytes fits uniform (λ w1 h. memset-patched size dst (to_unsigned 8 val) w1 h)

  -- A patch at an offset from the handle lands at their sum: `apply` writes the array there, changes no
  -- other byte and no protection, on a range as for `setaddr`.
  pub apply_element_patches :
      (e : MemsetElement) (handle protection : ℕ) (w : World)
      → 0 < length e.bytearray
      → handle + e.handle_offset + length e.bytearray ≤ 2 ^ 64
      → IsUniform (handle + e.handle_offset) (length e.bytearray) protection w
      → (w' : World) × (apply_element os e handle w ≡ ok w')
        × AfterWrite (handle + e.handle_offset) e.bytearray w w'
  unfolding apply_element element_address
  apply_element_patches e handle protection w some_bytes fits uniform =
      let (w', ran, after) =
        setaddr_patches (handle + e.handle_offset) e.bytearray protection w some_bytes fits
          uniform in
      let wrapped : (handle + e.handle_offset) % 2 ^ 64 ≡ handle + e.handle_offset =
        mod-eq_of_lt (omega arith) in
      let (value, there) = first_value e.bytearray some_bytes in
      (w', rw (there, wrapped) ran, after)
