-- ===== src/Err.antt =====
-- src/fido/err.h: the codes that the public functions return.
use fido2_manage.Prelude.{ℤ, pos, negsuc}

abbrev pub fido_ok : ℤ
fido_ok = pos 0

abbrev pub err_tx : ℤ
err_tx = negsuc 0

abbrev pub err_rx : ℤ
err_rx = negsuc 1

abbrev pub err_rx_not_cbor : ℤ
err_rx_not_cbor = negsuc 2

abbrev pub err_rx_invalid_cbor : ℤ
err_rx_invalid_cbor = negsuc 3

abbrev pub err_invalid_param : ℤ
err_invalid_param = negsuc 4

abbrev pub err_invalid_sig : ℤ
err_invalid_sig = negsuc 5

abbrev pub err_invalid_argument : ℤ
err_invalid_argument = negsuc 6

abbrev pub err_user_presence_required : ℤ
err_user_presence_required = negsuc 7

abbrev pub err_internal : ℤ
err_internal = negsuc 8

abbrev pub err_notfound : ℤ
err_notfound = negsuc 9

abbrev pub err_credential_excluded : ℤ
err_credential_excluded = pos 0x19

abbrev pub err_unsupported_option : ℤ
err_unsupported_option = pos 0x2b

abbrev pub err_no_credentials : ℤ
err_no_credentials = pos 0x2e

abbrev pub err_compress : ℤ
err_compress = negsuc 10

abbrev pub err_pin_required : ℤ
err_pin_required = pos 0x36

abbrev pub err_pin_policy_violation : ℤ
err_pin_policy_violation = pos 0x37

abbrev pub err_invalid_command : ℤ
err_invalid_command = pos 0x01
