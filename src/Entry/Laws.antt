-- ===== src/Entry/Laws.antt =====
-- What the entry hooks and which options it takes.
use mathlib.Core.List.{append_assoc}
use loginhelper.Prelude.{
  ℕ, ◌+◌, ◌-◌, ◌^◌, ◌≤◌, ◌<◌, ◌≡◌, refl, ap, ◌∙◌, Bool, true, false, ◌||◌, List, [], ◌∷◌, ◌++◌,
  Option, none, some, if◌then◌else◌, ok, ◌>>=◌, arith,
}
use loginhelper.Win32.{Win32}
use loginhelper.Searchers.First.{AreBytes}
use loginhelper.Searchers.{hexchtoint}
use loginhelper.Searchers.Nibbles.{nibbles, classify}
use loginhelper.Entry.Reads.{find_code-inside, hook_confirm_click-ok, hook_open_login_panel-ok}
use loginhelper.Pe.{rva_to}
use loginhelper.Entry.{
  hk_update_verify_mode, hk_request_login, hk_process_event, Plugin, Module,
  update_verify_mode_text, process_confirm_click_text, request_login_text, open_login_panel_text,
  process_event_text, process_login_text, process_login_text2, find_code, function_at, hook_at,
  keep_process_login, hook_all, read_options, oep_notify, keep_option, returned, raised,
  begin_hooks, commit_hooks, DetourCall, transaction_begin, update_thread, transaction_commit,
}
use loginhelper.Entry.Hooks.{hook_all-Attaches, planned}
use loginhelper.Entry.Options.{
  asks_keep, asks_swap, variable_swaps, IsReadable, read_options-Options, IsRefused,
  read_options_raised, keep_option-fields,
}

module _ (m : Module) where
  -- The address that a function is hooked at is that of its pattern's match, moved back, if it does not
  -- lie below the handle or four gigabytes above it, and the handle has four gigabytes above it.
  pub function_at-place :
      (found back : ℕ)
      → m.handle + back ≤ m.base + found
      → m.base + found < m.handle + 2 ^ 32
      → m.handle + 2 ^ 32 < 2 ^ 64
      → function_at m found back ≡ m.base + found - back
  unfolding function_at rva_to
  function_at-place found back low high room = omega arith

  hook_all-ok : (p : Plugin) → AreBytes m.code → (p' : Plugin) × (hook_all m p ≡ ok p')
  unfolding hook_all nibbles classify hexchtoint
  hook_all-ok p bytes =
      let q0 = hook_at m hk_update_verify_mode update_verify_mode_text 0 p in
      let (q1, e1) =
        hook_confirm_click-ok m q0 (find_code m process_confirm_click_text)
          (λ found e. find_code-inside m process_confirm_click_text found bytes e) in
      let q2 = hook_at m hk_request_login request_login_text 0x5E q1 in
      let (q3, e3) =
        hook_open_login_panel-ok m q2 (find_code m open_login_panel_text)
          (λ found e. find_code-inside m open_login_panel_text found bytes e) in
      let q4 =
        keep_process_login m q3 (find_code m process_login_text)
          (find_code m process_login_text2) in
      (hook_at m hk_process_event process_event_text 0 q4, rw (e1, e3) refl)

-- The calls of Detours around the hooks of one entry.
abbrev pub transaction : List DetourCall → List DetourCall
transaction hooks = transaction_begin ∷ update_thread ∷ (hooks ++ (transaction_commit ∷ []))

module _ {World : Type 0} (os : Win32 World) where
  -- A notification behind the first one returns and changes nothing.
  pub oep_notify_later :
      (w' : World) (o : Option Module) (p : Plugin)
      → p.initdone ≡ true
      → oep_notify os w' o p ≡ ok (returned p)
  unfolding oep_notify
  oep_notify_later w' none p done = refl
  oep_notify_later w' (some m) p done =
      ap
        (λ (t : Bool).
          if t
          then ok (returned p)
          else (hook_all m (begin_hooks p) >>= (λ q. ok (read_options os w' (commit_hooks q)))))
        done

module _ {World : Type 0} (os : Win32 World) (w : World) (m : Module) where
  -- The first entry up to its options.
  pub oep_notify-transaction :
      (p : Plugin)
      → p.initdone ≡ false
      → AreBytes m.code
      → (q : Plugin) × (oep_notify os w (some m) p ≡ ok (read_options os w q))
        × (q.detours ≡ p.detours ++ transaction (planned m))
        × (q.initdone ≡ true)
        × (q.keeppin ≡ p.keeppin)
        × (q.swap_programid ≡ p.swap_programid)
  unfolding oep_notify begin_hooks commit_hooks
  oep_notify-transaction p fresh bytes =
      let p0 = begin_hooks p in
      let (p1, hooked) = hook_all-ok m p0 bytes in
      let (a, b, c, d) = hook_all-Attaches m p0 p1 hooked in
      (
        commit_hooks p1,
        rw (fresh, hooked) refl,
        ap (λ (t : List DetourCall). t ++ (transaction_commit ∷ [])) a
            ∙ append_assoc (p.detours ++ (transaction_begin ∷ update_thread ∷ [])) (planned m) _
            ∙ append_assoc p.detours (transaction_begin ∷ update_thread ∷ []) _,
        b,
        c,
        d,
      )

  -- The first notification returns, with one transaction of Detours more, which hooks the functions
  -- whose patterns are found, each at its match moved back by its distance, in the order of the code;
  -- the PIN is kept if the argument asks for it, and the program is swapped if the variable or the
  -- argument does. Every later notification changes nothing. This is for code of bytes and a variable
  -- that is not set or holds a number.
  pub oep_notify_first :
      (p : Plugin)
      → p.initdone ≡ false
      → AreBytes m.code
      → IsReadable os w
      → (p' : Plugin) × (oep_notify os w (some m) p ≡ ok (returned p'))
        × (p'.detours ≡ p.detours ++ transaction (planned m))
        × (p'.initdone ≡ true)
        × (p'.keeppin ≡ (asks_keep os w || p.keeppin))
        × (p'.swap_programid ≡ (variable_swaps os w || p.swap_programid || asks_swap os w))
        × ((w' : World) (o : Option Module) → oep_notify os w' o p' ≡ ok (returned p'))
  oep_notify_first p fresh bytes readable =
      let (p1, hooked, a, b, c, d) = oep_notify-transaction p fresh bytes in
      let (p2, ran, (a', b', c', d')) = read_options-Options os w p1 readable in
      (
        p2,
        hooked ∙ ap ok ran,
        a' ∙ a,
        b' ∙ b,
        c' ∙ ap (λ (k : Bool). asks_keep os w || k) c,
        d' ∙ ap (λ (k : Bool). variable_swaps os w || k || asks_swap os w) d,
        λ w' o. oep_notify_later os w' o p2 (b' ∙ b),
      )

  -- With a variable that is set to a text that is no `int`, and code of bytes, an exception leaves the
  -- first notification, when its hooks are committed; the program is not swapped, whatever the argument
  -- says, and every later notification changes nothing.
  pub oep_notify_raised :
      (p : Plugin)
      → p.initdone ≡ false
      → AreBytes m.code
      → IsRefused os w
      → (p' : Plugin) × (oep_notify os w (some m) p ≡ ok (raised p'))
        × (p'.detours ≡ p.detours ++ transaction (planned m))
        × (p'.swap_programid ≡ p.swap_programid)
        × ((w' : World) (o : Option Module) → oep_notify os w' o p' ≡ ok (returned p'))
  oep_notify_raised p fresh bytes refused =
      let (p1, hooked, a, b, c, d) = oep_notify-transaction p fresh bytes in
      let (a', b', c', d') = keep_option-fields os w p1 in
      (
        keep_option os w p1,
        hooked ∙ ap ok (read_options_raised os w p1 refused),
        a' ∙ a,
        d' ∙ d,
        λ w' o. oep_notify_later os w' o (keep_option os w p1) (b' ∙ b),
      )
