-- ===== src/Totp/Tests.antt =====
-- Runs of the normalisation of totp.h, and its theorems at concrete inputs.
use loginhelper.Prelude.{◌-◌, ◌/◌, ◌%◌, ◌^◌, ◌≡◌, refl, some, codes}
use loginhelper.Totp.{is_lower, to_upper, normalized_base32_string, CppTotp, generate_totp}

normalized : normalized_base32_string (codes "jbsw y3dp-ehpk") ≡ codes "JBSWY3DPEHPK"
unfolding normalized_base32_string is_lower to_upper
normalized = refl

-- A decoder that takes every text for its own key, and a password that counts the steps.
abbrev counting : CppTotp
counting = record {
  from_unpadded_base32 = λ s. some s;
  totp = λ key now start step digits. (now - start) / step % 10 ^ digits;
}

generated : generate_totp counting 90 (codes "ab") ≡ some 3
unfolding generate_totp
generated = refl
