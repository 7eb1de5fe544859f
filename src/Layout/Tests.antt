-- ===== src/Layout/Tests.antt =====
-- The asserted offsets for x64, where the hooks of the login window use them, and the layouts there.
use loginhelper.Prelude.{◌≡◌, refl, some}
use loginhelper.LoginPanel.{user_id_edit_box_id, user_password_edit_box_id, set_text_value_slot}
use loginhelper.Layout.{
  offset_of, offsets, align_up, struct_of, behind, alignment, ui_panel, login_otp_panel2,
  title_login_panel, ui_engine_interface,
}

user_id_offset : offset_of (title_login_panel 8) 1 ≡ some user_id_edit_box_id
unfolding offset_of offsets align_up struct_of behind alignment ui_panel title_login_panel
user_id_offset = refl

user_password_offset : offset_of (title_login_panel 8) 2 ≡ some user_password_edit_box_id
unfolding offset_of offsets align_up struct_of behind alignment ui_panel title_login_panel
user_password_offset = refl

set_text_value_offset : offset_of (ui_engine_interface 8) 1 ≡ some set_text_value_slot
unfolding offset_of offsets align_up ui_engine_interface
set_text_value_offset = refl

-- `_keyboardEnabled` of LoginOtpPanel2, the other declaration of the PIN window.
keyboard_offset : offset_of login_otp_panel2 7 ≡ some 0x170
unfolding offset_of offsets align_up struct_of behind alignment login_otp_panel2
keyboard_offset = refl
