-- ===== src/Entry/Hooks.antt =====
-- The hooks that the entry attaches, step by step.
use mathlib.Core.Path.{subst}
use mathlib.Core.List.{append_assoc, append-nil}
use loginhelper.Prelude.{
  ℕ, ◌+◌, ◌≡◌, refl, sym, ap, ◌∙◌, List, [], ◌∷◌, ◌++◌, Option, none, some, Result, ok, throws,
  aborts, undefined, ok->>=,
}
use loginhelper.Entry.{
  Hook, hk_update_verify_mode, hk_process_confirm_click, hk_request_login, hk_open_login_panel,
  hk_process_event, Plugin, Module, update_verify_mode_text, process_confirm_click_text,
  request_login_text, open_login_panel_text, process_event_text, process_login_text,
  process_login_text2, read_code, find_code, function_at, attach, hook_at, hook_confirm_click,
  hook_open_login_panel, keep_process_login, hook_found, hook_all, DetourCall, detour_attach,
}

-- A step that attaches some hooks and leaves the flags.
abbrev pub Attaches : List DetourCall → Plugin → Plugin → Type 0
Attaches hooks p p' =
    (p'.detours ≡ p.detours ++ hooks)
    × (p'.initdone ≡ p.initdone)
    × (p'.keeppin ≡ p.keeppin)
    × (p'.swap_programid ≡ p.swap_programid)

ok-injective : {q r : Plugin} → ok q ≡ ok r → q ≡ r
ok-injective {q = q} e =
    ap (λ (t : Result Plugin). elim t [ ok p ↦ p | throws ↦ q | aborts ↦ q | undefined ↦ q ]) e

Attaches-trans :
    (xs ys : List DetourCall) (p q r : Plugin)
    → Attaches xs p q
    → Attaches ys q r
    → Attaches (xs ++ ys) p r
Attaches-trans xs ys p q r (a, b, c, d) (a', b', c', d') = (
  a' ∙ ap (λ (t : List DetourCall). t ++ ys) a ∙ append_assoc p.detours xs ys,
  b' ∙ b,
  c' ∙ c,
  d' ∙ d,
)

module _ (m : Module) where
  abbrev pub hook_of : Hook → ℕ → Option ℕ → List DetourCall
  hook_of hook back none = []
  hook_of hook back (some found) = detour_attach hook (function_at m found back) ∷ []

  -- The hook for a pattern: on the function at the match, moved back, if the pattern is found.
  abbrev pub hook_for : Hook → List ℕ → ℕ → List DetourCall
  hook_for hook text back = hook_of hook back (find_code m text)

  abbrev pub planned : List DetourCall
  planned =
      hook_for hk_update_verify_mode update_verify_mode_text 0
      ++ (hook_for hk_process_confirm_click process_confirm_click_text 0x8B
          ++ (hook_for hk_request_login request_login_text 0x5E
              ++ (hook_for hk_open_login_panel open_login_panel_text 0
                  ++ hook_for hk_process_event process_event_text 0)))

  hook_found-Attaches :
      (hook : Hook) (back : ℕ) (p : Plugin) (o : Option ℕ)
      → Attaches (hook_of hook back o) p (hook_found m hook back p o)
  unfolding hook_found attach
  hook_found-Attaches hook back p none = (sym (append-nil p.detours), refl, refl, refl)
  hook_found-Attaches hook back p (some found) = (refl, refl, refl, refl)

  hook_at-Attaches :
      (hook : Hook) (text : List ℕ) (back : ℕ) (p : Plugin)
      → Attaches (hook_for hook text back) p (hook_at m hook text back p)
  unfolding hook_at
  hook_at-Attaches hook text back p = hook_found-Attaches hook back p (find_code m text)

  keep_process_login-Attaches :
      (p : Plugin) (first second : Option ℕ) → Attaches [] p (keep_process_login m p first second)
  unfolding keep_process_login
  keep_process_login-Attaches p (some found) second = (sym (append-nil p.detours), refl, refl, refl)
  keep_process_login-Attaches p none (some found) = (sym (append-nil p.detours), refl, refl, refl)
  keep_process_login-Attaches p none none = (sym (append-nil p.detours), refl, refl, refl)

  Attaches-ok :
      (hooks : List DetourCall) (p q r : Plugin)
      → Attaches hooks p q
      → ok q ≡ ok r
      → Attaches hooks p r
  Attaches-ok hooks p q r h e = subst (λ (t : Plugin). Attaches hooks p t) (ok-injective e) h

  hook_confirm_click-Attaches :
      (p p' : Plugin) (o : Option ℕ)
      → hook_confirm_click m p o ≡ ok p'
      → Attaches (hook_of hk_process_confirm_click 0x8B o) p p'
  unfolding hook_confirm_click attach
  hook_confirm_click-Attaches p p' none h =
      Attaches-ok [] p p p' (sym (append-nil p.detours), refl, refl, refl) h
  hook_confirm_click-Attaches p p' (some found) h =
      let (offset, e, h') = ok->>= (read_code m.code (found + 2)) _ h in
      Attaches-ok _ p _ p' (refl, refl, refl, refl) h'

  hook_open_login_panel-Attaches :
      (p p' : Plugin) (o : Option ℕ)
      → hook_open_login_panel m p o ≡ ok p'
      → Attaches (hook_of hk_open_login_panel 0 o) p p'
  unfolding hook_open_login_panel attach
  hook_open_login_panel-Attaches p p' none h =
      Attaches-ok [] p p p' (sym (append-nil p.detours), refl, refl, refl) h
  hook_open_login_panel-Attaches p p' (some found) h =
      let (offset, e, h') = ok->>= (read_code m.code (found + 0x10)) _ h in
      Attaches-ok _ p _ p' (refl, refl, refl, refl) h'

  pub hook_all-Attaches : (p p' : Plugin) → hook_all m p ≡ ok p' → Attaches planned p p'
  unfolding hook_all
  hook_all-Attaches p p' h =
      let q0 = hook_at m hk_update_verify_mode update_verify_mode_text 0 p in
      let (q1, e1, h1) =
        ok->>= (hook_confirm_click m q0 (find_code m process_confirm_click_text)) _ h in
      let q2 = hook_at m hk_request_login request_login_text 0x5E q1 in
      let (q3, e3, h3) =
        ok->>= (hook_open_login_panel m q2 (find_code m open_login_panel_text)) _ h1 in
      let q4 =
        keep_process_login m q3 (find_code m process_login_text)
          (find_code m process_login_text2) in
      let q5 = hook_at m hk_process_event process_event_text 0 q4 in
      Attaches-trans _ _ p q0 p' (hook_at-Attaches _ _ 0 p) (
        Attaches-trans _ _ q0 q1 p' (hook_confirm_click-Attaches q0 q1 _ e1) (
          Attaches-trans _ _ q1 q2 p' (hook_at-Attaches _ _ 0x5E q1) (
            Attaches-trans _ _ q2 q3 p' (hook_open_login_panel-Attaches q2 q3 _ e3) (
              Attaches-ok _ q3 q5 p'
                (Attaches-trans [] _ q3 q4 q5 (keep_process_login-Attaches q3 _ _)
                  (hook_at-Attaches _ _ 0 q4))
                h3))))
