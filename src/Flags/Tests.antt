-- ===== src/Flags/Tests.antt =====
-- The flags of a device that reports a few features.
use fido2_manage.Prelude.{◌≡◌, refl, true, false, [], ◌∷◌}
use fido2_manage.Io.Tests.{small}
use fido2_manage.Flags.{
  CborInfo, set_flags, set_extension_flags, set_option_flags, set_protocol_flags, client_pin, uv,
  cred_protect,
}
use fido2_manage.Flags.Meaning.{Flagged, set_flags-Flagged}

-- A PIN is supported and not set, and one extension is not known to the library.
abbrev pinless : CborInfo
pinless = record {
  extensions = (104 ∷ []) ∷ cred_protect ∷ [];
  options = (client_pin, false) ∷ (uv, true) ∷ ([], true) ∷ [];
  protocols = 2 ∷ 9 ∷ [];
  maxmsgsiz = 1200;
}

pinless_flags : (set_flags small pinless).flags ≡ 0x66
unfolding set_flags set_extension_flags set_option_flags set_protocol_flags
pinless_flags = refl

set_flags-Flagged_example : Flagged pinless (set_flags small pinless)
set_flags-Flagged_example = set_flags-Flagged small pinless refl
