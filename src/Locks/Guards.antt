-- ===== src/Locks/Guards.antt =====
-- What a guard on a section, and a guard on a protection, leave behind.
use loginhelper.Prelude.{
  ap, ℕ, ◌+◌, ◌-◌, ◌*◌, ◌/◌, ◌<◌, ◌≡◌, ◌≢◌, refl, sym, ◌∙◌, Bool, true, if◌then◌else◌, Bool-cases,
  inl, inr, arith,
}
use loginhelper.Locks.{
  LockCalls, Critsec, lock, unlock, with_guard, IsLock, ProtectCall, open_protect, close_protect,
  in_pages, IsProtect,
}

module _ {World : Type 0} (os : LockCalls World) (laws : IsLock os) where
  -- A guarded scope that leaves the locks as they are leaves every section entered as often as before.
  pub with_guard-depth :
      {A : Type 0} (c : Critsec) (body : World → A × World) (w : World) (handle : ℕ)
      → ((w : World) (h : ℕ) → laws.depth h (body w).1 ≡ laws.depth h w)
      → laws.depth handle (with_guard os c body w).1 ≡ laws.depth handle w
  unfolding with_guard lock unlock
  with_guard-depth c body w handle keeps =
      laws.left c.handle handle (body (os.rtl_enter c.handle w)).1
      ∙ ground (arith, keeps (os.rtl_enter c.handle w) handle, laws.entered c.handle handle w)

module _ {World : Type 0} (nt_protect : ProtectCall World) (laws : IsProtect nt_protect) where
  rounded :
      (addr len c : ℕ)
      → 0 < len
      → in_pages (addr / 4096 * 4096) (((addr + len - 1) / 4096 + 1 - addr / 4096) * 4096) c
        ≡ in_pages addr len c
  rounded addr len c some_bytes =
      let first : addr / 4096 * 4096 / 4096 ≡ addr / 4096 = omega arith in
      let last : (addr / 4096 * 4096 + ((addr + len - 1) / 4096 + 1 - addr / 4096) * 4096 - 1)
            / 4096
          ≡ (addr + len - 1) / 4096 =
        omega arith in
      rw (first, last) refl

  -- The pages of a range were reserved as one region, have memory, and can have a protection.
  abbrev pub IsOpen : ℕ → ℕ → ℕ → World → Type 0
  IsOpen addr len prot w =
      (c : ℕ)
      → in_pages addr len c ≡ true
      → (laws.protection_at c w ≢ 0)
        × (laws.region_at c w ≡ laws.region_at addr w)
        × (laws.accepts c prot w ≡ true)

  -- The constructor of `mprotect` succeeds and changes the pages of its range alone, and the destructor
  -- puts back what it has changed: every page has its old protection. This is for a range of one byte at
  -- least whose pages have memory, were reserved as one region, and had one protection, and which can
  -- have this one and the new one, which is not 0.
  pub close_protect-open_protect :
      (addr len prot old : ℕ) (w : World) (c : ℕ)
      → 0 < len
      → prot ≢ 0
      → IsOpen addr len prot w
      → IsOpen addr len old w
      → ((c : ℕ) → in_pages addr len c ≡ true → laws.protection_at c w ≡ old)
      → let (p, w') = open_protect nt_protect addr len prot w in
        (p.success ≡ true)
        × (laws.protection_at c w' ≡ (if in_pages addr len c then prot else laws.protection_at c w))
        × (laws.protection_at c (close_protect nt_protect p w') ≡ laws.protection_at c w)
  unfolding open_protect close_protect
  close_protect-open_protect addr len prot old w c some_bytes granted opens closes same =
      let (w1, opened, changed, regions, accepted) =
        laws.succeeds addr len prot w some_bytes opens in
      let page = addr / 4096 * 4096 in
      let size = ((addr + len - 1) / 4096 + 1 - addr / 4096) * 4096 in
      let first : laws.protection_at addr w ≡ old = same addr (ground arith) in
      let first_page : in_pages addr len page ≡ true =
        sym (rounded addr len page some_bytes) ∙ ground arith in
      let (w2, closed, restored, regions2, accepted2) =
        laws.succeeds page size (laws.protection_at addr w) w1 (omega arith) (λ d inside.
          let within = sym (rounded addr len d some_bytes) ∙ inside in
          let (mapped, region, kept) = closes d within in
          (
            (λ e. granted (sym (changed d ∙ in_range d within) ∙ e)),
            regions d ∙ region ∙ sym (closes page first_page).1 ∙ sym (regions page),
            accepted d (laws.protection_at addr w)
                ∙ ap (λ (t : ℕ). laws.accepts d t w) first
                ∙ kept,
          )) in
      (
        rw opened refl,
        rw opened (changed c),
        rw (opened, close_protect, closed)
            (restored c ∙ put_back (rounded addr len c some_bytes) (changed c) first),
      )
    where
      in_range :
          (d : ℕ)
          → in_pages addr len d ≡ true
          → (if in_pages addr len d then prot else laws.protection_at d w) ≡ prot
      in_range d inside = rw inside refl

      put_back :
          {inside : Bool} {now : ℕ}
          → inside ≡ in_pages addr len c
          → now ≡ (if in_pages addr len c then prot else laws.protection_at c w)
          → laws.protection_at addr w ≡ old
          → (if inside then laws.protection_at addr w else now) ≡ laws.protection_at c w
      put_back e e' first = elim (Bool-cases (in_pages addr len c)) [
        | inl within ↦ rw (e, within) (first ∙ sym (same c within))
        | inr beyond ↦ rw (e, beyond) (e' ∙ rw beyond refl)
      ]
