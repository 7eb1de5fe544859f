-- ===== src/Session/Notified.antt =====
-- A notification of the process, from its module on, among the hooks of a session.
use loginhelper.Prelude.{◌≡◌, List, ℕ, ok}
use loginhelper.Win32.{Win32}
use loginhelper.Totp.{CppTotp}
use loginhelper.Pe.{Winnt}
use loginhelper.Pe.Loader.{LoaderData}
use loginhelper.Locks.{LockCalls}
use loginhelper.Entry.{Exit}
use loginhelper.Entry.Main.{notify}
use loginhelper.Entry.Notify.{notify-oep_notify}
use loginhelper.Session.{Session, plugin_of, with_plugin, left_by, Step, notified}

module _ {World : Type 0} (os : Win32 World) (nt : Winnt World) (locks : LockCalls World)
    (ldr : LoaderData World) (read : ℕ → ℕ → World → List ℕ) (lib : CppTotp) where
  -- A notification that is left is a step of the session.
  pub notify-Step :
      (s : Session World) (x : Exit)
      → notify os nt locks ldr read s.globals.world (plugin_of s) ≡ ok x
      → Step os lib s (with_plugin (left_by x) s)
  notify-Step s x e =
      let (o, ran) = notify-oep_notify os nt locks ldr read s.globals.world (plugin_of s) x e in
      notified s o x ran
