-- ===== src/Entry/Places.antt =====
-- Where the hooks stand: the entry's searches, against the meaning of the patterns' texts.
use mathlib.Core.List.{append-nil}
use mathlib.Core.Path.{subst}
use loginhelper.Prelude.{
  ℕ, ◌+◌, ◌-◌, ◌^◌, ◌≤◌, ◌<◌, ◌≡◌, refl, ◌∙◌, List, [], ◌∷◌, ◌++◌, none, some, ◌==◌, false, true,
  ◌⊎◌, inl, inr, length, drop, arith, ok,
}
use loginhelper.Searchers.{compile_pattern, pattern_searcher}
use loginhelper.Searchers.Nibbles.{nibbles}
use loginhelper.Searchers.First.{AreBytes, Reads, pattern_searcher-IsRange}
use loginhelper.Entry.{
  Hook, hk_update_verify_mode, hk_process_confirm_click, hk_request_login, hk_open_login_panel,
  hk_process_event, Plugin, Exit, left_by, read_options, oep_notify, Module, DetourCall,
  detour_attach, find_code, update_verify_mode_text, process_confirm_click_text, request_login_text,
  open_login_panel_text, process_event_text,
}
use loginhelper.Entry.Hooks.{planned, hook_for}
use loginhelper.Entry.Laws.{function_at-place, oep_notify-transaction, transaction}
use loginhelper.Entry.Options.{read_options-SameHooks}
use loginhelper.Win32.{Win32}

-- The text of a function's pattern, and how far before the pattern the function starts.
abbrev pub text_of : Hook → List ℕ
text_of hk_update_verify_mode = update_verify_mode_text
text_of hk_process_confirm_click = process_confirm_click_text
text_of hk_request_login = request_login_text
text_of hk_open_login_panel = open_login_panel_text
text_of hk_process_event = process_event_text

abbrev pub back_of : Hook → ℕ
back_of hk_update_verify_mode = 0
back_of hk_process_confirm_click = 0x8B
back_of hk_request_login = 0x5E
back_of hk_open_login_panel = 0
back_of hk_process_event = 0

abbrev pub all_hooks : List Hook
all_hooks =
    hk_update_verify_mode ∷ hk_process_confirm_click ∷ hk_request_login ∷ hk_open_login_panel
    ∷ hk_process_event ∷ []

module _ (m : Module) where
  -- The code reads as the text says at a position, for the first time.
  abbrev pub IsMatch : List ℕ → ℕ → Type 0
  IsMatch text found =
      (found < length m.code)
      × Reads (nibbles text) (drop found m.code)
      × ((j : ℕ) → j < found → ¬ Reads (nibbles text) (drop j m.code))

  abbrev pub HasNoMatch : List ℕ → Type 0
  HasNoMatch text = (j : ℕ) → j < length m.code → ¬ Reads (nibbles text) (drop j m.code)

  -- The attachments for a list of functions: one for each whose pattern the code has, on the address
  -- in memory that lies before the first match by the function's distance.
  pub data AreHooked : List Hook → List DetourCall → Type 0 where
    hooked_all : AreHooked [] []
    hooked :
        {hook : Hook} {hooks : List Hook} {calls : List DetourCall} (found : ℕ)
        → IsMatch (text_of hook) found
        → AreHooked hooks calls
        → AreHooked (hook ∷ hooks) (detour_attach hook (m.base + found - back_of hook) ∷ calls)
    passed_over :
        {hook : Hook} {hooks : List Hook} {calls : List DetourCall}
        → HasNoMatch (text_of hook)
        → AreHooked hooks calls
        → AreHooked (hook ∷ hooks) calls

  -- The module in memory: its code stands some bytes behind its handle, and ends less than four
  -- gigabytes behind it, as does the address space.
  abbrev pub IsLoaded : Type 0
  IsLoaded =
      (m.handle + 0x8B ≤ m.base)
      × (m.base + length m.code ≤ m.handle + 2 ^ 32)
      × (m.handle + 2 ^ 32 < 2 ^ 64)

  find_code-cases :
      (text : List ℕ)
      → AreBytes m.code
      → ((found : ℕ) × (find_code m text ≡ some found) × IsMatch text found)
        ⊎ ((find_code m text ≡ none) × HasNoMatch text)
  unfolding find_code
  find_code-cases text bytes =
      let found = (pattern_searcher (compile_pattern text) m.code).0 in
      elim (pattern_searcher-IsRange text m.code bytes).0 [
        | inl (inside, good, before) ↦
            let here : (found == length m.code) ≡ false = ground arith in
            inl (found, rw here refl, (inside, good, before))
        | inr (out, nowhere) ↦
            let out_there : (found == length m.code) ≡ true = ground arith in
            inr (rw out_there refl, nowhere)
      ]

  back_of-bound : (hook : Hook) → back_of hook ≤ 0x8B
  back_of-bound hk_update_verify_mode = omega arith
  back_of-bound hk_process_confirm_click = omega arith
  back_of-bound hk_request_login = omega arith
  back_of-bound hk_open_login_panel = omega arith
  back_of-bound hk_process_event = omega arith

  -- One function more, before others.
  hook_for-AreHooked :
      (hook : Hook) {hooks : List Hook} {calls : List DetourCall}
      → AreBytes m.code
      → IsLoaded
      → AreHooked hooks calls
      → AreHooked (hook ∷ hooks) (hook_for m hook (text_of hook) (back_of hook) ++ calls)
  hook_for-AreHooked hook {hooks} {calls} bytes (low, high, room) rest =
      elim (find_code-cases (text_of hook) bytes) [
        | inl (found, e, (inside, good, before)) ↦
            let place =
              function_at-place m found (back_of hook) (omega (arith, back_of-bound hook))
                (omega arith) room in
            rw (e, place) (hooked found (inside, good, before) rest)
        | inr (e, nowhere) ↦ rw e (passed_over nowhere rest)
      ]

  -- The plan of the entry hooks each function where its pattern says.
  pub planned-AreHooked : AreBytes m.code → IsLoaded → AreHooked all_hooks (planned m)
  planned-AreHooked bytes loaded = hook_for-AreHooked hk_update_verify_mode bytes loaded (
      hook_for-AreHooked hk_process_confirm_click bytes loaded (
        hook_for-AreHooked hk_request_login bytes loaded (
          hook_for-AreHooked hk_open_login_panel bytes loaded (
            subst (AreHooked (hk_process_event ∷ []))
              (append-nil (hook_for m hk_process_event process_event_text 0))
              (hook_for-AreHooked hk_process_event bytes loaded hooked_all)))))

  IsMatch-unique : (text : List ℕ) (i j : ℕ) → IsMatch text i → IsMatch text j → i ≡ j
  IsMatch-unique text i j (inside, good, before) (inside', good', before') =
      let not_before : ¬ (i < j) = λ lower. before' i lower good in
      let not_behind : ¬ (j < i) = λ higher. before j higher good' in omega arith

  AreHooked-unique :
      {hooks : List Hook} {calls calls' : List DetourCall}
      → AreHooked hooks calls
      → AreHooked hooks calls'
      → calls ≡ calls'
  AreHooked-unique hooked_all hooked_all = refl
  AreHooked-unique (hooked found here r) (hooked found' here' r') =
      let same = IsMatch-unique _ found found' here here' in
      let rest = AreHooked-unique r r' in rw (same, rest) refl
  AreHooked-unique (hooked found (inside, good, before) r) (passed_over nowhere r') =
      absurd (nowhere found inside good)
  AreHooked-unique (passed_over nowhere r) (hooked found (inside, good, before) r') =
      absurd (nowhere found inside good)
  AreHooked-unique (passed_over {hook = hook} nowhere r) (passed_over nowhere' r') =
      AreHooked-unique r r'

module _ {World : Type 0} (os : Win32 World) (w : World) (m : Module) where
  -- A first notification, whether it returns or an exception leaves it, makes one transaction of
  -- Detours, which hooks the functions whose patterns the code has, in the order of the code and each
  -- on the address that lies before the pattern's first match by its distance, and passes over the
  -- others; no other list of attachments is of this kind. This is for a module whose code is of bytes
  -- and stands between 0x8B bytes and four gigabytes behind its handle, which has four gigabytes
  -- above it.
  pub oep_notify-AreHooked :
      (p : Plugin)
      → p.initdone ≡ false
      → AreBytes m.code
      → IsLoaded m
      → (calls : List DetourCall) × (x : Exit) × (oep_notify os w (some m) p ≡ ok x)
        × AreHooked m all_hooks calls
        × ((left_by x).detours ≡ p.detours ++ transaction calls)
        × ((calls' : List DetourCall) → AreHooked m all_hooks calls' → calls' ≡ calls)
  oep_notify-AreHooked p fresh bytes loaded =
      let (q, ran, a, b, c, d) = oep_notify-transaction os w m p fresh bytes in
      let (same, same') = read_options-SameHooks os w q in
      let places = planned-AreHooked m bytes loaded in
      (
        planned m,
        read_options os w q,
        ran,
        places,
        same ∙ a,
        λ calls' h. AreHooked-unique m h places,
      )
