-- ===== src/Flags.antt =====
-- src/dev.c: the internal flags of a device, read off the answer to authenticatorGetInfo.
pub mod Meaning
mod Tests
use fido2_manage.Prelude.{
  ℕ, Bool, not, List, [], ◌∷◌, bit_and, bit_or, ◌==◌, if◌then◌else◌, bytes_eq,
}
use fido2_manage.Device.{Dev}

-- What the device reports, as far as dev.c reads it (`fido_cbor_info_t` of src/fido/types.h).
-- A name is the list of its ASCII codes; the names and the values of the options go in pairs.
pub record CborInfo : Type 0 where
  pub extensions : List (List ℕ)
  pub options : List (List ℕ × Bool)
  pub protocols : List ℕ
  pub maxmsgsiz : ℕ

-- "credProtect"
abbrev pub cred_protect : List ℕ
cred_protect = 99 ∷ 114 ∷ 101 ∷ 100 ∷ 80 ∷ 114 ∷ 111 ∷ 116 ∷ 101 ∷ 99 ∷ 116 ∷ []

-- "clientPin"
abbrev pub client_pin : List ℕ
client_pin = 99 ∷ 108 ∷ 105 ∷ 101 ∷ 110 ∷ 116 ∷ 80 ∷ 105 ∷ 110 ∷ []

-- "credMgmt"
abbrev pub cred_mgmt : List ℕ
cred_mgmt = 99 ∷ 114 ∷ 101 ∷ 100 ∷ 77 ∷ 103 ∷ 109 ∷ 116 ∷ []

-- "credentialMgmtPreview"
abbrev pub credential_mgmt_preview : List ℕ
credential_mgmt_preview =
    99 ∷ 114 ∷ 101 ∷ 100 ∷ 101 ∷ 110 ∷ 116 ∷ 105 ∷ 97 ∷ 108 ∷ 77 ∷ 103 ∷ 109 ∷ 116 ∷ 80 ∷ 114 ∷ 101
    ∷ 118 ∷ 105 ∷ 101 ∷ 119 ∷ []

-- "uv"
abbrev pub uv : List ℕ
uv = 117 ∷ 118 ∷ []

-- "pinUvAuthToken"
abbrev pub pin_uv_auth_token : List ℕ
pin_uv_auth_token =
    112 ∷ 105 ∷ 110 ∷ 85 ∷ 118 ∷ 65 ∷ 117 ∷ 116 ∷ 104 ∷ 84 ∷ 111 ∷ 107 ∷ 101 ∷ 110 ∷ []

-- "bioEnroll"
abbrev pub bio_enroll : List ℕ
bio_enroll = 98 ∷ 105 ∷ 111 ∷ 69 ∷ 110 ∷ 114 ∷ 111 ∷ 108 ∷ 108 ∷ []

-- The FIDO_DEV_* bits of src/extern.h.
abbrev pub dev_pin_set : ℕ
dev_pin_set = 0x0001

abbrev pub dev_pin_unset : ℕ
dev_pin_unset = 0x0002

abbrev pub dev_cred_prot : ℕ
dev_cred_prot = 0x0004

abbrev pub dev_credman : ℕ
dev_credman = 0x0008

abbrev pub dev_pin_protocol1 : ℕ
dev_pin_protocol1 = 0x0010

abbrev pub dev_pin_protocol2 : ℕ
dev_pin_protocol2 = 0x0020

abbrev pub dev_uv_set : ℕ
dev_uv_set = 0x0040

abbrev pub dev_uv_unset : ℕ
dev_uv_unset = 0x0080

abbrev pub dev_token_perms : ℕ
dev_token_perms = 0x0100

abbrev pub dev_credman_pre : ℕ
dev_credman_pre = 0x0400

abbrev pub dev_bio_set : ℕ
dev_bio_set = 0x0800

abbrev pub dev_bio_unset : ℕ
dev_bio_unset = 0x1000

abbrev pub extension_loop : List (List ℕ) → ℕ → ℕ
extension_loop [] f = f
extension_loop (name ∷ names) f =
    extension_loop names (if bytes_eq name cred_protect then bit_or f dev_cred_prot else f)

unfoldable pub set_extension_flags : Dev → CborInfo → Dev
set_extension_flags dev info = record dev { flags = extension_loop info.extensions dev.flags }

-- One round of the loop over the options.
abbrev pub option_flags : List ℕ → Bool → ℕ → ℕ
option_flags name val f =
    if bytes_eq name client_pin
    then bit_or f (if val then dev_pin_set else dev_pin_unset)
    else if bytes_eq name cred_mgmt
    then (if val then bit_or f dev_credman else f)
    else if bytes_eq name credential_mgmt_preview
    then (if val then bit_or f dev_credman_pre else f)
    else if bytes_eq name uv
    then bit_or f (if val then dev_uv_set else dev_uv_unset)
    else if bytes_eq name pin_uv_auth_token
    then (if val then bit_or f dev_token_perms else f)
    else if bytes_eq name bio_enroll
    then bit_or f (if val then dev_bio_set else dev_bio_unset)
    else f

abbrev pub option_loop : List (List ℕ × Bool) → ℕ → ℕ
option_loop [] f = f
option_loop ((name, val) ∷ opts) f = option_loop opts (option_flags name val f)

unfoldable pub set_option_flags : Dev → CborInfo → Dev
set_option_flags dev info = record dev { flags = option_loop info.options dev.flags }

abbrev pub protocol_loop : List ℕ → ℕ → ℕ
protocol_loop [] f = f
protocol_loop (p ∷ ps) f = protocol_loop ps (
    if p == 1 then bit_or f dev_pin_protocol1 else if p == 2 then bit_or f dev_pin_protocol2 else f)

unfoldable pub set_protocol_flags : Dev → CborInfo → Dev
set_protocol_flags dev info = record dev { flags = protocol_loop info.protocols dev.flags }

unfoldable pub set_flags : Dev → CborInfo → Dev
set_flags dev info = set_protocol_flags (set_option_flags (set_extension_flags dev info) info) info

-- `dev->flags & mask`, as a truth value.
abbrev pub has : ℕ → ℕ → Bool
has mask f = not (bit_and f mask == 0)

unfoldable pub fido_dev_supports_pin : Dev → Bool
fido_dev_supports_pin dev = has (bit_or dev_pin_set dev_pin_unset) dev.flags

unfoldable pub fido_dev_has_pin : Dev → Bool
fido_dev_has_pin dev = has dev_pin_set dev.flags

unfoldable pub fido_dev_supports_cred_prot : Dev → Bool
fido_dev_supports_cred_prot dev = has dev_cred_prot dev.flags

unfoldable pub fido_dev_supports_credman : Dev → Bool
fido_dev_supports_credman dev = has (bit_or dev_credman dev_credman_pre) dev.flags

unfoldable pub fido_dev_supports_uv : Dev → Bool
fido_dev_supports_uv dev = has (bit_or dev_uv_set dev_uv_unset) dev.flags

unfoldable pub fido_dev_has_uv : Dev → Bool
fido_dev_has_uv dev = has dev_uv_set dev.flags

unfoldable pub fido_dev_supports_permissions : Dev → Bool
fido_dev_supports_permissions dev = has dev_token_perms dev.flags

unfoldable pub fido_dev_get_pin_protocol : Dev → ℕ
fido_dev_get_pin_protocol dev =
    if has dev_pin_protocol2 dev.flags then 2 else if has dev_pin_protocol1 dev.flags then 1 else 0
