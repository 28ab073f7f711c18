-- ===== src/Credman.antt =====
-- src/credman.c: the credentials that a device stores, and the relying parties that they are for. The
-- lists of both are fetched in the same way, entry by entry.
pub mod Rk
pub mod Rp
pub mod Total
pub mod Fetched
mod Tests
use fido2_manage.Prelude.{
  ℕ, Bool, true, false, not, ◌||◌, List, [], ◌∷◌, Option, none, some, bit_and, ◌==◌, ℤ,
  if◌then◌else◌,
}
use fido2_manage.Err.{err_internal, err_invalid_command, err_invalid_argument}
use fido2_manage.Try.{Try, ◌>>=◌, ◌>>◌, give, throw, try_option}
use fido2_manage.Device.{Dev}
use fido2_manage.Blob.{Blob, blob_bytes, fido_blob_set}
use fido2_manage.Flags.{has, dev_credman}
use fido2_manage.Session.{fido_dev_is_fido2}
use fido2_manage.Cbor.{
  Value, uint, Parser, cbor_flatten_vector, cbor_build_frame, cbor_bytestring_copy,
}
use fido2_manage.Cbor.Encode.{
  Chars, User, fido_blob_encode, cbor_encode_pubkey, cbor_encode_user_entity, definite_map_of,
}
use fido2_manage.Cbor.Decode.{by_number, cbor_decode_uint64}
use fido2_manage.Ctap.{
  Calls, send_frame, receive_parsed, fido_do_ecdh, device_accepts, with_timeout,
}
use fido2_manage.Pin.{cbor_add_uv_params}

abbrev pub cmd_cred_metadata : ℕ
cmd_cred_metadata = 0x01

abbrev pub cmd_rp_begin : ℕ
cmd_rp_begin = 0x02

abbrev pub cmd_rp_next : ℕ
cmd_rp_next = 0x03

abbrev pub cmd_rk_begin : ℕ
cmd_rk_begin = 0x04

abbrev pub cmd_rk_next : ℕ
cmd_rk_next = 0x05

abbrev pub cmd_delete_cred : ℕ
cmd_delete_cred = 0x06

abbrev pub cmd_update_cred : ℕ
cmd_update_cred = 0x07

-- What goes with a subcommand: nothing, the hash of a relying party's name, the name of a
-- credential, or a credential's name and user.
pub data Body : Type 0 where
  no_body : Body
  rp_hash : Blob → Body
  cred_id : Blob → Body
  cred_user : Blob → User → Body

-- The arguments of the subcommand; `none` if they cannot be encoded.
unfoldable pub body_args : Body → Option (List (Option Value))
body_args no_body = some []
body_args (rp_hash b) = elim (fido_blob_encode b) [ none ↦ none | some v ↦ some (some v ∷ []) ]
body_args (cred_id id) = some (none ∷ some (cbor_encode_pubkey id) ∷ [])
body_args (cred_user id user) =
    some (none ∷ some (cbor_encode_pubkey id) ∷ some (cbor_encode_user_entity user) ∷ [])

abbrev pub with_frame : Option (List ℕ) → Value → Option (Option Value × List ℕ)
with_frame none param = none
with_frame (some hmac) param = some (some param, hmac)

unfoldable pub encode_args : Calls → ℕ → List (Option Value) → Option (Option Value × List ℕ)
encode_args c cmd argv = elim (cbor_flatten_vector argv) [
  | none ↦ none
  | some pairs ↦ with_frame (cbor_build_frame c.cbor cmd argv) (definite_map_of pairs)
]

-- The parameter, and the bytes that the token is to sign.
unfoldable pub credman_prepare_hmac : Calls → ℕ → Body → Option (Option Value × List ℕ)
credman_prepare_hmac c cmd no_body = some (none, cmd ∷ [])
credman_prepare_hmac c cmd body = elim (body_args body) [
  | none ↦ none
  | some argv ↦ encode_args c cmd argv
]

unfoldable pub credman_get_cmd : Dev → ℕ
credman_get_cmd d = if has dev_credman d.flags then 0x0a else 0x41

-- The parameter, and the two arguments that authenticate it.
unfoldable pub signed_args : Calls → Dev → ℕ → Body → Chars → Chars → Try (List (Option Value))
signed_args c d subcmd body pin rp_id = do
  (param, hmac) ← try_option err_internal (credman_prepare_hmac c subcmd body)
  (pk, ecdh) ← fido_do_ecdh c d
  (auth, opt) ← cbor_add_uv_params c d (credman_get_cmd d) hmac pk ecdh pin rp_id
  give (param ∷ some opt ∷ some auth ∷ [])

abbrev pub is_set : Chars → Bool
is_set none = false
is_set (some chars) = true

unfoldable pub credman_tx : Calls → Dev → ℕ → Body → Chars → Chars → Bool → Try (Unit {0})
credman_tx c d subcmd body pin rp_id uv = do
  (if fido_dev_is_fido2 d then give tt else throw err_invalid_command)
  args ←
      (if is_set pin || uv
        then signed_args c d subcmd body pin rp_id
        else give (none ∷ none ∷ none ∷ []))
  send_frame c d (credman_get_cmd d) (some (uint 1 subcmd) ∷ args)

-- `fido_credman_metadata_t`
pub record Metadata : Type 0 where
  pub rk_existing : ℕ
  pub rk_remaining : ℕ

abbrev pub put_existing : Metadata → Option ℕ → Option Metadata
put_existing m none = none
put_existing m (some n) = some (record m { rk_existing = n })

abbrev pub put_remaining : Metadata → Option ℕ → Option Metadata
put_remaining m none = none
put_remaining m (some n) = some (record m { rk_remaining = n })

unfoldable pub credman_parse_metadata : Parser Metadata
credman_parse_metadata = by_number λ n v m.
    if n == 1
    then put_existing m (cbor_decode_uint64 v)
    else if n == 2
    then put_remaining m (cbor_decode_uint64 v)
    else some m

unfoldable pub fido_credman_get_dev_metadata : Calls → Dev → Chars → Try Metadata
fido_credman_get_dev_metadata c d pin = with_timeout d (do
  credman_tx c d cmd_cred_metadata no_body pin none true
  receive_parsed c d credman_parse_metadata (record { rk_existing = 0; rk_remaining = 0 }))

abbrev pub set_blob : Bool × Blob → Option Blob
set_blob (true, b) = some b
set_blob (false, b) = none

unfoldable pub fido_credman_del_dev_rk : Calls → Dev → Blob → Chars → Try (Unit {0})
fido_credman_del_dev_rk c d id pin = with_timeout d (do
  cred ← try_option err_invalid_argument (set_blob (fido_blob_set id))
  credman_tx c d cmd_delete_cred (cred_id cred) pin none true
  device_accepts c d)

unfoldable pub fido_credman_set_dev_rk : Calls → Dev → Blob → User → Chars → Try (Unit {0})
fido_credman_set_dev_rk c d id user pin =
    with_timeout d
      (do credman_tx c d cmd_update_cred (cred_user id user) pin none true; device_accepts c d)
