-- ===== src/Entry/Notify.antt =====
-- The entry on a module in memory, over the view of its sections.
use loginhelper.Prelude.{
  ap, sym, Bool, if◌then◌else◌, ℕ, ◌≡◌, ◌≢◌, refl, ◌∙◌, false, List, Option, none, some, ◌==◌, ok,
  undefined, ◌>>=◌, arith, ok->>=, Bool-cases, inl, inr,
}
use loginhelper.Win32.{Win32}
use loginhelper.Patches.{memsetplist}
use loginhelper.Pe.{Winnt, code_bytes}
use loginhelper.Entry.{Plugin, Module, Exit, returned, oep_notify}
use loginhelper.Entry.Main.{module_of, notify, notify_at, try_patterns}
use loginhelper.Pe.Loader.{LoaderData, get_module, address_or_null}
use loginhelper.Locks.{LockCalls}
use loginhelper.Fnv1a.{ascii_tolower}

module _ {World : Type 0} (os : Win32 World) (nt : Winnt World) (locks : LockCalls World)
    (ldr : LoaderData World) (read : ℕ → ℕ → World → List ℕ) (w : World) where
  pub notify-module_of :
      (p : Plugin) (code : Option (ℕ × ℕ))
      → p.initdone ≡ false
      → ldr.image_base_address w ≢ 0
      → code_bytes nt (ldr.image_base_address w) w ≡ code
      → notify os nt locks ldr read w p ≡ (
          module_of read (ldr.image_base_address w) code w
          >>= (λ m. oep_notify os w (some m) (try_patterns m memsetplist p)))
  unfolding notify notify_at get_module
  notify-module_of p code fresh there e =
      let found : (ldr.image_base_address w == 0) ≡ false = ground arith in
      rw (fresh, found, e) refl

  -- For a module none of whose sections has code, or without a header, the first notification reads out
  -- of bounds.
  pub notify_no_code :
      (p : Plugin)
      → p.initdone ≡ false
      → ldr.image_base_address w ≢ 0
      → code_bytes nt (ldr.image_base_address w) w ≡ none
      → notify os nt locks ldr read w p ≡ undefined
  unfolding module_of try_patterns
  notify_no_code p fresh there code = notify-module_of p none fresh there code

  notify_at-oep_notify :
      (this : ℕ) (p : Plugin) (x : Exit)
      → notify_at os nt read w this p ≡ ok x
      → (o : Option Module) × (oep_notify os w o p ≡ ok x)
  unfolding notify_at module_of try_patterns
  notify_at-oep_notify this p x e = elim (Bool-cases (this == 0)) [
    | inl nowhere ↦ (none, rw nowhere at e)
    | inr there ↦
        let (m, found, ran) =
          ok->>= (module_of read this (code_bytes nt this w) w) _ (rw there at e) in
        (some m, ran)
  ]

  -- A notification that is left is one of `oep_notify` on the code of some module, or on none.
  pub notify-oep_notify :
      (p : Plugin) (x : Exit)
      → notify os nt locks ldr read w p ≡ ok x
      → (o : Option Module) × (oep_notify os w o p ≡ ok x)
  unfolding notify oep_notify
  notify-oep_notify p x e =
      let this = address_or_null locks ldr (get_module locks ldr ascii_tolower 0 none w).0 in
      let run = λ (done : Bool). if done then ok (returned p) else notify_at os nt read w this p in
      elim (Bool-cases p.initdone) [
        | inl done ↦ (none, ap run (sym done) ∙ e)
        | inr fresh ↦ notify_at-oep_notify this p x (ap run (sym fresh) ∙ e)
      ]
