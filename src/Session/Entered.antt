-- ===== src/Session/Entered.antt =====
-- The entry among the hooks: it hooks the game's functions once, and sets the options once.
use loginhelper.Prelude.{
  ◌≡◌, refl, ap, sym, ◌∙◌, ◌⊎◌, inl, inr, true, false, List, [], ◌++◌, ◌∷◌, Option, none, some, ok,
  ok->>=, arith, ◌>>=◌,
}
use mathlib.Core.List.{append_assoc}
use mathlib.Core.Path.{subst}
use loginhelper.Win32.{Win32}
use loginhelper.Totp.{CppTotp}
use loginhelper.Entry.{
  Plugin, Module, Exit, returned, left_by, DetourCall, transaction_begin, update_thread,
  transaction_commit, read_options, hook_all, begin_hooks, commit_hooks, oep_notify,
}
use loginhelper.Entry.Hooks.{hook_all-Attaches, planned}
use loginhelper.Entry.Options.{read_options-SameHooks}
use loginhelper.Entry.Laws.{transaction, oep_notify_later}
use loginhelper.Session.{
  Session, plugin_of, with_plugin, Step, notified, changed, Reach, start, step,
}
use loginhelper.Session.Stable.{Stable, Stable-refl, Stable-trans, Changes-Stable}

module _ {World : Type 0} (os : Win32 World) (w : World) where
  -- The first notification of the entry, if it is left: it has found no module and done nothing, or it
  -- has hooked one in a transaction.
  oep_notify-cases :
      (o : Option Module) (p : Plugin) (x : Exit)
      → p.initdone ≡ false
      → oep_notify os w o p ≡ ok x
      → (x ≡ returned p)
        ⊎ ((m : Module) × ((left_by x).detours ≡ p.detours ++ transaction (planned m))
            × ((left_by x).initdone ≡ true))
  unfolding oep_notify begin_hooks commit_hooks
  oep_notify-cases none p x fresh e = inl (ground arith)
  oep_notify-cases (some m) p x fresh e =
      let run : (hook_all m (begin_hooks p) >>= (λ q. ok (read_options os w (commit_hooks q))))
          ≡ ok x =
        rw fresh at e in
      let (q, hooked, e') = ok->>= (hook_all m (begin_hooks p)) _ run in
      let (a, b, c, d) = hook_all-Attaches m (begin_hooks p) q hooked in
      let (a', b') = read_options-SameHooks os w (commit_hooks q) in
      let same : x ≡ read_options os w (commit_hooks q) = cc in
      inr (
        m,
        ap (λ (x : Exit). (left_by x).detours) same
            ∙ a'
            ∙ ap (λ (t : List DetourCall). t ++ (transaction_commit ∷ [])) a
            ∙ append_assoc (p.detours ++ (transaction_begin ∷ update_thread ∷ [])) (planned m) _
            ∙ append_assoc p.detours (transaction_begin ∷ update_thread ∷ []) _,
        ap (λ (x : Exit). (left_by x).initdone) same ∙ b' ∙ b,
      )

-- No entry yet, or one that has hooked a module in one transaction of Detours.
abbrev pub IsEntered : {World : Type 0} → Session World → Type 0
IsEntered s =
    ((s.initdone ≡ false) × (s.detours ≡ []))
    ⊎ ((s.initdone ≡ true) × ((m : Module) × (s.detours ≡ transaction (planned m))))

module _ {World : Type 0} (os : Win32 World) (lib : CppTotp) where
  -- Where the globals of the entry are left as they are, the session is.
  left_alone :
      (s : Session World) (x : Exit) → x ≡ returned (plugin_of s) → with_plugin (left_by x) s ≡ s
  unfolding with_plugin plugin_of
  left_alone s x e = ap (λ (x : Exit). with_plugin (left_by x) s) e

  -- A notification behind the first one changes nothing.
  notified_later :
      (s : Session World) (o : Option Module) (x : Exit)
      → s.initdone ≡ true
      → oep_notify os s.globals.world o (plugin_of s) ≡ ok x
      → with_plugin (left_by x) s ≡ s
  unfolding plugin_of
  notified_later s o x done e =
      let same : ok (returned (plugin_of s)) ≡ ok x =
        sym (oep_notify_later os s.globals.world o (plugin_of s) done) ∙ e in
      left_alone s x (cc same)

  notified-IsEntered :
      (s : Session World) (o : Option Module) (x : Exit)
      → oep_notify os s.globals.world o (plugin_of s) ≡ ok x
      → IsEntered s
      → IsEntered (with_plugin (left_by x) s)
  unfolding plugin_of with_plugin
  notified-IsEntered s o x e (inl (fresh, empty)) =
      elim (oep_notify-cases os s.globals.world o (plugin_of s) x fresh e) [
        | inl same ↦ subst IsEntered (sym (left_alone s x same)) (inl (fresh, empty))
        | inr (m, hooks, done) ↦
            inr
              (done, (m, hooks ∙ ap (λ (t : List DetourCall). t ++ transaction (planned m)) empty))
      ]
  notified-IsEntered s o x e (inr (done, hooked)) =
      subst IsEntered (sym (notified_later s o x done e)) (inr (done, hooked))

  Step-IsEntered : {s t : Session World} → Step os lib s t → IsEntered s → IsEntered t
  Step-IsEntered (notified s o x e) h = notified-IsEntered s o x e h
  Step-IsEntered (changed s c) h = h

  -- Whatever the notifications, the hooks and the game do, and in whatever order, the game's functions
  -- are hooked in one transaction of Detours, or not at all, if no entry was before.
  pub Reach-IsEntered :
      {s t : Session World}
      → (s.initdone ≡ false) × (s.detours ≡ [])
      → Reach os lib s t
      → IsEntered t
  Reach-IsEntered h start = inl h
  Reach-IsEntered h (step r st) = Step-IsEntered st (Reach-IsEntered h r)

  -- What is final behind the entry.
  pub record IsFinal (s t : Session World) : Type 0 where
    pub entered : t.initdone ≡ true
    pub hooks : t.detours ≡ s.detours
    pub kept : Stable s.globals t.globals

  notified-IsFinal :
      (s : Session World) (o : Option Module) (x : Exit)
      → oep_notify os s.globals.world o (plugin_of s) ≡ ok x
      → s.initdone ≡ true
      → IsFinal s (with_plugin (left_by x) s)
  notified-IsFinal s o x e done =
      subst (λ (t : Session World). IsFinal s t) (sym (notified_later s o x done e))
        (record { entered = done; hooks = refl; kept = Stable-refl s.globals })

  Step-IsFinal : {s t : Session World} → Step os lib s t → s.initdone ≡ true → IsFinal s t
  Step-IsFinal (notified s o x e) done = notified-IsFinal s o x e done
  Step-IsFinal (changed s c) done = record {
    entered = done;
    hooks = refl;
    kept = Changes-Stable os lib c;
  }

  -- Behind the entry, whatever the notifications, the hooks and the game do, and in whatever order, the
  -- functions that are hooked and the options are final; a login that was requested, credentials that
  -- were looked for and a PIN that was found are kept.
  pub Reach-IsFinal : {s t : Session World} → s.initdone ≡ true → Reach os lib s t → IsFinal s t
  Reach-IsFinal {s = s} done start = record {
    entered = done;
    hooks = refl;
    kept = Stable-refl s.globals;
  }
  Reach-IsFinal done (step r st) =
      let before = Reach-IsFinal done r in
      let after = Step-IsFinal st before.entered in
      record {
        entered = after.entered;
        hooks = after.hooks ∙ before.hooks;
        kept = Stable-trans _ _ _ before.kept after.kept;
      }
