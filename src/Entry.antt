-- ===== src/Entry.antt =====
-- The entry of the plugin, `oep_notify` of loginhelper/dllmain.cpp: the search for the game's functions
-- in the code of the module, the hooks on them, and the options. The module is its handle, and its
-- code the bytes of the first section with code, which stand at `base`.
pub mod Hooks
pub mod Main
pub mod Notify
pub mod Image
pub mod Options
pub mod Arguments
pub mod Laws
pub mod Places
pub mod Reads
mod Tests
use loginhelper.Prelude.{
  ℕ, ◌+◌, ◌-◌, ◌*◌, ◌%◌, ◌^◌, Bool, true, false, not, ◌&&◌, ◌||◌, List, [], ◌∷◌, ◌++◌, Option, none,
  some, ◌==◌, ltb, if◌then◌else◌, length, get_elem?, codes, ℤ, pos, negsuc, ◌==ℤ◌, to_unsigned, u32,
  u64, Result, ok, throws, undefined, ◌>>=◌, some_or,
}
use loginhelper.Win32.{Win32}
use loginhelper.Std.{stoi}
use loginhelper.Regex.{search_text}
use loginhelper.Regex.Patterns.{keeppin_regex, fixprogramid_regex}
use loginhelper.Searchers.{compile_pattern, pattern_searcher}
use loginhelper.Pe.{Winnt, rva_to, code_bytes}

-- The functions of this library that are put in front of the game's.
pub data Hook : Type 0 where
  hk_update_verify_mode : Hook
  hk_process_confirm_click : Hook
  hk_request_login : Hook
  hk_open_login_panel : Hook
  hk_process_event : Hook

-- The calls of Detours, where `DetourAttach` has the address of the game's function.
pub data DetourCall : Type 0 where
  transaction_begin : DetourCall
  update_thread : DetourCall
  detour_attach : Hook → ℕ → DetourCall
  transaction_commit : DetourCall

-- The globals that the entry sets, and the calls of Detours so far, in their order.
pub record Plugin : Type 0 where
  pub initdone : Bool
  pub detours : List DetourCall
  pub o_process_login : Option ℕ
  pub o_get_instance : Option ℕ
  pub ui_panel_offset : ℤ
  pub keeppin : Bool
  pub swap_programid : Bool

-- How a call of the entry ends: it returns, or an exception leaves it, with the globals that it has set.
pub data Exit : Type 0 where
  returned : Plugin → Exit
  raised : Plugin → Exit

abbrev pub and_then : (Plugin → Plugin) → Exit → Exit
and_then f (returned p) = returned (f p)
and_then f (raised p) = raised p

-- The globals behind a call.
abbrev pub left_by : Exit → Plugin
left_by (returned p) = p
left_by (raised p) = p

pub record Module : Type 0 where
  pub handle : ℕ
  pub base : ℕ
  pub code : List ℕ

abbrev pub update_verify_mode_text : List ℕ
update_verify_mode_text =
    codes
      "48 8B C4 56 57 41 55 41 56 41 57 48 81 EC 80 00 00 00 48 C7 40 98 FE FF FF FF 48 89 58 10 48 89 68 18 0F 29 70 C8"

abbrev pub process_confirm_click_text : List ℕ
process_confirm_click_text =
    codes
      "83 BB ?? ?? 00 00 00 0F8E ?? ?? ?? ?? 83 BB ?? ?? ?? ?? 00 0F8E ?? ?? ?? ?? E8 ?? ?? ?? ??"

abbrev pub request_login_text : List ℕ
request_login_text =
    codes
      "0F 84 F0 03 00 00 33 F6 66 41 3B F0 0F 84 E4 03 00 00 4D 85 ED 0F 84 DB 03 00 00 66 3B 75 70 0F 84 D1 03 00 00 48 85 DB 0F 84 C8 03 00 00 48 85 C0 0F 84 BF 03 00 00"

abbrev pub open_login_panel_text : List ℕ
open_login_panel_text =
    codes
      "48 89 7C 24 18 41 56 48 83 EC 20 4C 8B F1 FF 15 ?? ?? ?? ?? 48 8B F8 48 85 C0 0F 84 E9 01 00 00"

abbrev pub process_login_text : List ℕ
process_login_text =
    codes "48 8B C4 55 57 41 56 48 8D 68 A8 48 81 EC 40 01 00 00 48 C7 44 24 68 FE FF FF FF"

abbrev pub process_login_text2 : List ℕ
process_login_text2 =
    codes "33 DB 48 89 5D D7 4C 8B 08 4C 8D 45 D7 41 8B 94 24 ?? ?? 00 00 48 8B C8"

abbrev pub process_event_text : List ℕ
process_event_text =
    codes "48 89 5C 24 08 57 48 83 EC 20 48 8B FA 48 8B D9 FF 15 ?? ?? ?? ?? 4C 8B C8"

-- The conversion of a `uint32_t` to `int`.
abbrev pub to_int32 : ℕ → ℤ
to_int32 n = if ltb n (2 ^ 31) then pos n else negsuc (2 ^ 32 - 1 - n)

-- a - b on `uintptr_t`.
abbrev pub sub64 : ℕ → ℕ → ℕ
sub64 a b = u64 (a + (2 ^ 64 - u64 b))

-- The 32-bit number in the code at `i`; a read behind its end is out of bounds.
unfoldable pub read_code : List ℕ → ℕ → Result ℕ
read_code code i = do
  b0 ← some_or undefined (get_elem? code i)
  b1 ← some_or undefined (get_elem? code (i + 1))
  b2 ← some_or undefined (get_elem? code (i + 2))
  b3 ← some_or undefined (get_elem? code (i + 3))
  ok (b0 + b1 * 2 ^ 8 + b2 * 2 ^ 16 + b3 * 2 ^ 24)

module _ (m : Module) where
  -- `std::search(data.begin(), data.end(), pattern_searcher(text))`, where it is not `data.end()`.
  unfoldable pub find_code : List ℕ → Option ℕ
  find_code text =
      let found = (pattern_searcher (compile_pattern text) m.code).0 in
      if found == length m.code then none else some found

  -- `module->rva_to((uintptr_t)&result[0] - back - handle)`.
  unfoldable pub function_at : ℕ → ℕ → ℕ
  function_at found back = rva_to m.handle (sub64 (sub64 (m.base + found) back) m.handle)

  unfoldable pub attach : Hook → ℕ → Plugin → Plugin
  attach hook address p = record p { detours = p.detours ++ (detour_attach hook address ∷ []) }

  -- A pattern whose function is hooked, and nothing else.
  unfoldable pub hook_found : Hook → ℕ → Plugin → Option ℕ → Plugin
  hook_found hook back p none = p
  hook_found hook back p (some found) = attach hook (function_at found back) p

  unfoldable pub hook_at : Hook → List ℕ → ℕ → Plugin → Plugin
  hook_at hook text back p = hook_found hook back p (find_code text)

  -- `processConfirmClick`, whose code holds the place of the PIN window's fields.
  unfoldable pub hook_confirm_click : Plugin → Option ℕ → Result Plugin
  hook_confirm_click p none = ok p
  hook_confirm_click p (some found) = do
    offset ← read_code m.code (found + 2)
    let p' = record p { ui_panel_offset = to_int32 (u32 (offset + (2 ^ 32 - 0x298))) }
    ok (attach hk_process_confirm_click (function_at found 0x8B) p')

  -- `OpenLoginPanel`, whose code holds the place of `UIEngineInterface`'s `GetInstance`.
  unfoldable pub hook_open_login_panel : Plugin → Option ℕ → Result Plugin
  hook_open_login_panel p none = ok p
  hook_open_login_panel p (some found) = do
    offset ← read_code m.code (found + 0x10)
    let place = m.base + found + 0x10 + to_unsigned 64 (to_int32 offset) + 4
    ok (record (attach hk_open_login_panel (function_at found 0) p) {
      o_get_instance = some (rva_to m.handle (sub64 (u64 place) m.handle));
    })

  -- The two patterns of `processLogin`, which is not hooked.
  unfoldable pub keep_process_login : Plugin → Option ℕ → Option ℕ → Plugin
  keep_process_login p (some found) second = record p {
    o_process_login = some (function_at found 0);
  }
  keep_process_login p none (some found) = record p {
    o_process_login = some (function_at found 0x52);
  }
  keep_process_login p none none = p

  unfoldable pub hook_all : Plugin → Result Plugin
  hook_all p = do
    p1 ←
        hook_confirm_click (hook_at hk_update_verify_mode update_verify_mode_text 0 p)
          (find_code process_confirm_click_text)
    p2 ←
        hook_open_login_panel (hook_at hk_request_login request_login_text 0x5E p1)
          (find_code open_login_panel_text)
    let p3 = keep_process_login p2 (find_code process_login_text) (find_code process_login_text2)
    ok (hook_at hk_process_event process_event_text 0 p3)

unfoldable pub swap_number : Plugin → Option ℤ → Exit
swap_number p none = raised p
swap_number p (some n) = returned (if n ==ℤ pos 1 then record p { swap_programid = true } else p)

-- `DetourTransactionBegin` and `DetourUpdateThread`, and `DetourTransactionCommit`.
unfoldable pub begin_hooks : Plugin → Plugin
begin_hooks p = record p {
  initdone = true;
  detours = p.detours ++ (transaction_begin ∷ update_thread ∷ []);
}

unfoldable pub commit_hooks : Plugin → Plugin
commit_hooks p = record p { detours = p.detours ++ (transaction_commit ∷ []) }

module _ {World : Type 0} (os : Win32 World) (w : World) where
  abbrev pub has_argument : Option (List (ℕ × List ℕ)) → Bool
  has_argument none = false
  has_argument (some caps) = true

  unfoldable pub keep_option : Plugin → Plugin
  keep_option p =
      if has_argument (search_text keeppin_regex (os.get_command_line_w w))
      then record p { keeppin = true }
      else p

  -- The variable that asks for the program to be swapped; `std::stoi` may throw.
  unfoldable pub swap_variable : Plugin → Exit
  swap_variable p =
      let var = os.get_environment_variable_w "BNS_SERVER_FIXPROGRAMID" 256 w in
      if var.ret == 0 then returned p else swap_number p (stoi var.buffer)

  unfoldable pub swap_argument : Plugin → Plugin
  swap_argument p =
      if not p.swap_programid
        && has_argument (search_text fixprogramid_regex (os.get_command_line_w w))
      then record p { swap_programid = true }
      else p

  unfoldable pub read_options : Plugin → Exit
  read_options p = and_then swap_argument (swap_variable (keep_option p))

  -- `oep_notify`, for a module with a section of code, or none where no module is found.
  unfoldable pub oep_notify : Option Module → Plugin → Result Exit
  oep_notify none p = ok (returned p)
  oep_notify (some m) p =
      if p.initdone
      then ok (returned p)
      else (do p' ← hook_all m (begin_hooks p); ok (read_options (commit_hooks p')))
