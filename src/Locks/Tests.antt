-- ===== src/Locks/Tests.antt =====
-- A sample of sections and of page protections, with the guards on them.
use loginhelper.Prelude.{
  not, ◌||◌, Bool, ℕ, ◌+◌, ◌-◌, ◌*◌, ◌/◌, ◌≡◌, ◌≢◌, refl, true, false, ◌==◌, if◌then◌else◌,
  Bool-cases, inl, inr, ◌<◌, arith,
}
use loginhelper.Locks.{
  LockCalls, IsLock, Protected, ProtectCall, open_protect, close_protect, in_pages, IsProtect,
}
use loginhelper.Locks.Guards.{close_protect-open_protect}

pub record Sections : Type 0 where
  pub depths : ℕ → ℕ

abbrev sections : LockCalls Sections
sections = record {
  rtl_enter =
      λ handle w. record w { depths = λ h. if h == handle then w.depths h + 1 else w.depths h };
  rtl_try_enter = λ handle w.
      (true, record w { depths = λ h. if h == handle then w.depths h + 1 else w.depths h });
  rtl_leave =
      λ handle w. record w { depths = λ h. if h == handle then w.depths h - 1 else w.depths h };
}

abbrev sections-IsLock : IsLock sections
sections-IsLock = record {
  depth = λ h w. w.depths h;
  entered = λ handle other w. refl;
  left = λ handle other w. refl;
}

abbrev idle : Sections
idle = record { depths = λ h. 0 }

-- Protections of addresses; a call on a page without memory, or for an unknown protection, is
-- refused.
abbrev granted : ℕ → ℕ → ℕ → (ℕ → ℕ) → Protected × (ℕ → ℕ)
granted addr len prot w = (
  record {
    addr = addr / 4096 * 4096;
    len = ((addr + len - 1) / 4096 + 1 - addr / 4096) * 4096;
    prot = w addr;
    success = true;
  },
  λ c. if in_pages addr len c then prot else w c,
)

-- PAGE_READONLY, PAGE_READWRITE, PAGE_EXECUTE_READ and PAGE_EXECUTE_READWRITE.
abbrev is_known : ℕ → Bool
is_known prot = prot == 2 || prot == 4 || prot == 0x20 || prot == 0x40

abbrev protect : ProtectCall (ℕ → ℕ)
protect addr len prot w =
    if (w addr == 0) || not (is_known prot)
    then (record { addr = addr; len = len; prot = prot; success = false }, w)
    else granted addr len prot w

mapped_first :
    (addr len prot : ℕ) (w : ℕ → ℕ)
    → 0 < len
    → ((c : ℕ)
        → in_pages addr len c ≡ true
        → (w c ≢ 0) × (◌≡◌ {A = ℕ} 0 0) × (is_known prot ≡ true))
    → ((w addr == 0) || not (is_known prot)) ≡ false
mapped_first addr len prot w some_bytes mapped =
    let (there, region, known) = mapped addr (ground arith) in ground arith

refused_only :
    (addr len prot : ℕ) (w : ℕ → ℕ)
    → (protect addr len prot w).0.success ≡ false
    → protect addr len prot w ≡ (record { addr = addr; len = len; prot = prot; success = false }, w)
refused_only addr len prot w failed = elim (Bool-cases ((w addr == 0) || not (is_known prot))) [
  | inl none ↦ rw none refl
  | inr some ↦ cc (rw some at failed)
]

abbrev protect-IsProtect : IsProtect protect
protect-IsProtect = record {
  protection_at = λ c w. w c;
  region_at = λ c w. 0;
  accepts = λ c prot w. is_known prot;
  succeeds = λ addr len prot w some_bytes mapped. (
    _,
    rw (mapped_first addr len prot w some_bytes mapped) refl,
    (λ c. refl),
    (λ c. refl),
    λ c p. refl,
  );
  refused = refused_only;
}

abbrev readable : ℕ → ℕ
readable c = 2

close_protect-open_protect_example :
    let (p, w') = open_protect protect 0x1ff0 0x20 4 readable in
    (p.success ≡ true) × (w' 0x1ff5 ≡ 4) × (close_protect protect p w' 0x1ff5 ≡ 2)
close_protect-open_protect_example =
    close_protect-open_protect protect protect-IsProtect 0x1ff0 0x20 4 2 readable 0x1ff5
      (omega arith) (λ e. omega arith) (λ c inside. ((λ e. omega arith), refl, refl))
      (λ c inside. ((λ e. omega arith), refl, refl)) (λ c inside. refl)
