-- ===== src/Locks.antt =====
-- The wrappers of include/ntapi/critsec.h and mprotect.h around locks and page protections, with
-- `std::lock_guard`. The system's calls are parameters.
pub mod Guards
mod Tests
use loginhelper.Prelude.{
  ℕ, ◌+◌, ◌-◌, ◌*◌, ◌/◌, ◌≤◌, ◌<◌, ◌≡◌, ◌≢◌, Bool, true, false, ◌&&◌, leb, ◌==◌, if◌then◌else◌, ltb,
}

-- `RtlEnterCriticalSection` and its kin, on the section at an address.
pub record LockCalls (World : Type 0) : Type 0 where
  pub rtl_enter : ℕ → World → World
  pub rtl_try_enter : ℕ → World → Bool × World
  pub rtl_leave : ℕ → World → World

-- `critsec`.
pub record Critsec : Type 0 where
  pub handle : ℕ

module _ {World : Type 0} (os : LockCalls World) where
  unfoldable pub lock : Critsec → World → World
  lock c w = os.rtl_enter c.handle w

  unfoldable pub try_lock : Critsec → World → Bool × World
  try_lock c w = os.rtl_try_enter c.handle w

  unfoldable pub unlock : Critsec → World → World
  unlock c w = os.rtl_leave c.handle w

  abbrev pub native_handle : Critsec → ℕ
  native_handle c = c.handle

  -- A scope with a `std::lock_guard` on the section.
  unfoldable pub with_guard : {A : Type 0} → Critsec → (World → A × World) → World → A × World
  with_guard c body w = let (result, w') = body (lock c w) in (result, unlock c w')

-- What is relied on of the sections: how often each is entered.
pub record IsLock {World : Type 0} (os : LockCalls World) : Type 0 where
  pub depth : ℕ → World → ℕ
  pub entered :
      (handle other : ℕ) (w : World)
      → depth other (os.rtl_enter handle w)
        ≡ (if other == handle then depth other w + 1 else depth other w)
  pub left :
      (handle other : ℕ) (w : World)
      → depth other (os.rtl_leave handle w)
        ≡ (if other == handle then depth other w - 1 else depth other w)

-- What `NtProtectVirtualMemory` stores: the range in whole pages, and the old protection, or the one
-- that was asked for where it fails.
pub record Protected : Type 0 where
  pub addr : ℕ
  pub len : ℕ
  pub prot : ℕ
  pub success : Bool

abbrev pub ProtectCall : Type 0 → Type 0
ProtectCall World = ℕ → ℕ → ℕ → World → Protected × World

module _ {World : Type 0} (nt_protect : ProtectCall World) where
  -- The constructor of `mprotect`, and its destructor.
  unfoldable pub open_protect : ℕ → ℕ → ℕ → World → Protected × World
  open_protect addr len prot w = nt_protect addr len prot w

  unfoldable pub close_protect : Protected → World → World
  close_protect p w = (nt_protect p.addr p.len p.prot w).1

-- `operator bool`.
unfoldable pub is_protected : Protected → Bool
is_protected p = p.success

-- Is an address in a page that holds a byte of the range?
abbrev pub in_pages : ℕ → ℕ → ℕ → Bool
in_pages addr len c = leb (addr / 4096) (c / 4096) && leb (c / 4096) ((addr + len - 1) / 4096)

-- What is documented of `NtProtectVirtualMemory`: on pages with memory that were reserved as one region
-- and can all have the protection, it succeeds, and stores the range rounded to pages and the old
-- protection of the first page; a page can have a protection that is one of the constants and compatible
-- with how its memory was allocated or mapped, which the call does not change. Where it fails it changes
-- nothing and stores nothing.
pub record IsProtect {World : Type 0} (nt_protect : ProtectCall World) : Type 0 where
  pub protection_at : ℕ → World → ℕ
  pub region_at : ℕ → World → ℕ
  pub accepts : ℕ → ℕ → World → Bool
  pub succeeds :
      (addr len prot : ℕ) (w : World)
      → 0 < len
      → ((c : ℕ)
          → in_pages addr len c ≡ true
          → (protection_at c w ≢ 0)
            × (region_at c w ≡ region_at addr w)
            × (accepts c prot w ≡ true))
      → (w' : World) × (nt_protect addr len prot w ≡ (
        record {
          addr = addr / 4096 * 4096;
          len = ((addr + len - 1) / 4096 + 1 - addr / 4096) * 4096;
          prot = protection_at addr w;
          success = true;
        },
        w',
      ))
        × ((c : ℕ) → protection_at c w' ≡ (if in_pages addr len c then prot else protection_at c w))
        × ((c : ℕ) → region_at c w' ≡ region_at c w)
        × ((c prot : ℕ) → accepts c prot w' ≡ accepts c prot w)
  pub refused :
      (addr len prot : ℕ) (w : World)
      → (nt_protect addr len prot w).0.success ≡ false
      → (nt_protect addr len prot w)
        ≡ (record { addr = addr; len = len; prot = prot; success = false }, w)
