-- ===== src/Credman/Rk.antt =====
-- src/credman.c: the stored credentials of a relying party.
use mathlib.Core.Option
use fido2_manage.Prelude.{
  false, ℕ, List, Option, none, some, ltb, ◌==◌, ◌||◌, bit_or, without, ℤ, pos, if◌then◌else◌, true,
}
use fido2_manage.Err.{err_internal}
use fido2_manage.Try.{Try, ◌>>=◌, ◌>>◌, try_option}
use fido2_manage.Device.{Dev}
use fido2_manage.Blob.{Blob}
use fido2_manage.Cred.{CredExt}
use fido2_manage.Cbor.{Parser, cbor_bytestring_copy}
use fido2_manage.Cbor.Encode.{Chars, User, ext_cred_protect}
use fido2_manage.Cbor.Decode.{by_number, cbor_decode_uint64, cbor_decode_user, cbor_decode_cred_id}
use fido2_manage.Cbor.Keys.{PubKey, cbor_decode_pubkey, int_max}
use fido2_manage.Ctap.{Calls, with_timeout}
use fido2_manage.Credman.{no_body, rp_hash, credman_tx, cmd_rk_begin, cmd_rk_next}
use fido2_manage.Listing.{Listing, empty_list, Kind, rx_first, rx_next, rx_all, parse_count, entry}

-- The parts of a `fido_cred_t` that a stored credential has. `none` is a zeroed key.
pub record StoredCred : Type 0 where
  pub user : User
  pub id : Blob
  pub type : ℤ
  pub pubkey : Option PubKey
  pub ext : CredExt
  pub largeblob_key : Blob

abbrev pub blank_cred : StoredCred
blank_cred = record {
  user = record { id = none; icon = none; name = none; display_name = none };
  id = none;
  type = pos 0;
  pubkey = none;
  ext = record { mask = 0; prot = 0; minpinlen = 0 };
  largeblob_key = none;
}

-- The three policies of CTAP2, or none.
unfoldable pub fido_cred_set_prot : CredExt → ℕ → Option CredExt
fido_cred_set_prot ext prot =
    if prot == 0
    then some (record ext { mask = without ext_cred_protect ext.mask; prot = 0 })
    else if prot == 1 || prot == 2 || prot == 3
    then some (record ext { mask = bit_or ext.mask ext_cred_protect; prot = prot })
    else none

abbrev pub decode_prot : StoredCred → Option ℕ → Option StoredCred
decode_prot cred none = none
decode_prot cred (some prot) =
    if ltb int_max prot
    then none
    else Option.map (λ e. record cred { ext = e }) (fido_cred_set_prot cred.ext prot)

unfoldable pub credman_parse_rk : Parser StoredCred
credman_parse_rk = by_number λ n v cred.
    if n == 6
    then Option.map (λ u. record cred { user = u }) (cbor_decode_user v cred.user)
    else if n == 7
    then Option.map (λ b. record cred { id = b }) (cbor_decode_cred_id v cred.id)
    else if n == 8
    then Option.map (λ k. record cred { type = k.0; pubkey = some k.1 }) (cbor_decode_pubkey v)
    else if n == 10
    then decode_prot cred (cbor_decode_uint64 v)
    else if n == 11
    then Option.map (λ b. record cred { largeblob_key = b })
        (cbor_bytestring_copy v cred.largeblob_key)
    else some cred

unfoldable pub credman_parse_rk_count : Parser (Listing StoredCred)
credman_parse_rk_count = parse_count 9 blank_cred

abbrev pub rks : Kind StoredCred
rks = record {
  blank = blank_cred;
  start = empty_list;
  count = credman_parse_rk_count;
  parse = credman_parse_rk;
  ask = λ c d. credman_tx c d cmd_rk_next no_body none none false;
}

unfoldable pub credman_rx_rk : Calls → Dev → Try (Listing StoredCred)
credman_rx_rk = rx_first rks

unfoldable pub credman_rx_next_rk : Calls → Dev → Listing StoredCred → Try (Listing StoredCred)
credman_rx_next_rk = rx_next rks

unfoldable pub fido_credman_get_dev_rk : Calls → Dev → List ℕ → Chars → Try (Listing StoredCred)
fido_credman_get_dev_rk c d rp_id pin = with_timeout d (do
  dgst ← try_option err_internal (c.sha256 rp_id)
  credman_tx c d cmd_rk_begin (rp_hash (some dgst)) pin (some rp_id) true
  rx_all rks c d)

abbrev pub fido_credman_rk_count : Listing StoredCred → ℕ
fido_credman_rk_count rk = rk.n_rx

unfoldable pub fido_credman_rk : Listing StoredCred → ℕ → Option StoredCred
fido_credman_rk rk idx = entry rks rk idx
