-- ===== src/Cbor/Encode.antt =====
-- src/cbor.c and src/es256.c: the parts of a request, as items. A definite map that is made here has
-- room for all that is added to it, and a key is given as its characters.
use Prim.Native.String.{String}
use fido2_manage.Prelude.{
  ℕ, Bool, true, false, List, [], ◌∷◌, ◌++◌, Option, none, some, map, length, ltb, ◌==◌, bit_and,
  codes, ℤ, pos, negsuc, if◌then◌else◌,
}
use fido2_manage.Blob.{Blob, blob_bytes}
use fido2_manage.Assert.{Opt, opt_omit, opt_false, opt_true}
use fido2_manage.Cred.{CredExt}
use fido2_manage.Cbor.{
  Value, uint, negint, bytestring, string, array_of, map_of, boolean, Pairs, fields_of, values_of,
}

-- A character string in C: NULL, or its bytes before the terminator.
abbrev pub Chars : Type 0
Chars = Option (List ℕ)

-- `fido_rp_t`
pub record Rp : Type 0 where
  pub id : Chars
  pub name : Chars

-- `fido_user_t`
pub record User : Type 0 where
  pub id : Blob
  pub icon : Chars
  pub name : Chars
  pub display_name : Chars

-- `es256_pk_t`
pub record Es256Pk : Type 0 where
  pub x : List ℕ
  pub y : List ℕ

abbrev pub definite_map_of : Pairs → Value
definite_map_of pairs = map_of (fields_of pairs)

abbrev pub cbor_add : Pairs → String → Value → Pairs
cbor_add item key value = item ++ ((string (codes key), value) ∷ [])

abbrev pub cbor_add_bytestring : Pairs → String → List ℕ → Pairs
cbor_add_bytestring item key bs = cbor_add item key (bytestring bs)

abbrev pub cbor_add_string : Pairs → String → List ℕ → Pairs
cbor_add_string item key chars = cbor_add item key (string chars)

abbrev pub cbor_add_bool : Pairs → String → Bool → Pairs
cbor_add_bool item key b = cbor_add item key (boolean b)

abbrev pub cbor_add_uint8 : Pairs → String → ℕ → Pairs
cbor_add_uint8 item key n = cbor_add item key (uint 1 n)

-- `ptr && cbor_add_…(item, key, ptr) < 0`
abbrev pub add_chars : Pairs → String → Chars → Pairs
add_chars item key none = item
add_chars item key (some chars) = cbor_add_string item key chars

abbrev pub add_blob : Pairs → String → Blob → Pairs
add_blob item key none = item
add_blob item key (some bs) = cbor_add_bytestring item key bs

abbrev pub add_opt : Pairs → String → Opt → Pairs
add_opt item key opt_omit = item
add_opt item key opt_false = cbor_add_bool item key false
add_opt item key opt_true = cbor_add_bool item key true

unfoldable pub fido_blob_encode : Blob → Option Value
fido_blob_encode none = none
fido_blob_encode (some bs) = some (bytestring bs)

unfoldable pub rp_pairs : Rp → Pairs
rp_pairs rp = add_chars (add_chars [] "id" rp.id) "name" rp.name

unfoldable pub cbor_encode_rp_entity : Rp → Value
cbor_encode_rp_entity rp = definite_map_of (rp_pairs rp)

unfoldable pub user_pairs : User → Pairs
user_pairs user =
    let item = add_chars (add_blob [] "id" user.id) "icon" user.icon in
    add_chars (add_chars item "name" user.name) "displayName" user.display_name

unfoldable pub cbor_encode_user_entity : User → Value
cbor_encode_user_entity user = definite_map_of (user_pairs user)

-- The type of a credential.
abbrev pub public_key : List ℕ
public_key = codes "public-key"

abbrev pub param_of : ℕ → Value
param_of n =
    definite_map_of (
      cbor_add_string (cbor_add [] "alg" (negint (if ltb 255 n then 2 else 1) n)) "type" public_key)

-- `negsuc n` is `-n - 1`; INT16_MIN is -32768.
unfoldable pub cbor_encode_pubkey_param : ℤ → Option Value
cbor_encode_pubkey_param (pos n) = none
cbor_encode_pubkey_param (negsuc n) =
    if ltb 32767 n then none else some (array_of (values_of (param_of n ∷ [])))

unfoldable pub pubkey_pairs : Blob → Pairs
pubkey_pairs id = cbor_add_string (cbor_add_bytestring [] "id" (blob_bytes id)) "type" public_key

unfoldable pub cbor_encode_pubkey : Blob → Value
cbor_encode_pubkey id = definite_map_of (pubkey_pairs id)

unfoldable pub cbor_encode_pubkey_list : List Blob → Value
cbor_encode_pubkey_list list = array_of (values_of (map cbor_encode_pubkey list))

unfoldable pub cbor_encode_str_array : List (List ℕ) → Value
cbor_encode_str_array a = array_of (values_of (map string a))

-- Constants of src/fido/param.h.
abbrev pub ext_hmac_secret : ℕ
ext_hmac_secret = 0x01

abbrev pub ext_cred_protect : ℕ
ext_cred_protect = 0x02

abbrev pub ext_largeblob_key : ℕ
ext_largeblob_key = 0x04

abbrev pub ext_cred_blob : ℕ
ext_cred_blob = 0x08

abbrev pub ext_minpinlen : ℕ
ext_minpinlen = 0x10

abbrev pub has_ext : ℕ → ℕ → Bool
has_ext mask ext = if bit_and mask ext == 0 then false else true

abbrev pub add_if : Bool → Pairs → String → Value → Pairs
add_if b item key v = if b then cbor_add item key v else item

-- The map of `cbor_encode_cred_ext`, in the order of its tests.
unfoldable pub cred_ext_pairs : CredExt → Blob → Pairs
cred_ext_pairs ext blob =
    let has = has_ext ext.mask in
    let item = add_if (has ext_cred_blob) [] "credBlob" (bytestring (blob_bytes blob)) in
    let item = add_if (has ext_cred_protect) item "credProtect" (uint 1 ext.prot) in
    let item = add_if (has ext_hmac_secret) item "hmac-secret" (boolean true) in
    let item = add_if (has ext_largeblob_key) item "largeBlobKey" (boolean true) in
    add_if (has ext_minpinlen) item "minPinLength" (boolean true)

-- A policy outside of a byte is refused, and so is an empty map.
unfoldable pub cbor_encode_cred_ext : CredExt → Blob → Option Value
cbor_encode_cred_ext ext blob =
    let pairs = cred_ext_pairs ext blob in
    if length pairs == 0
    then none
    else if has_ext ext.mask ext_cred_protect
    then (if ltb 255 ext.prot then none else some (definite_map_of pairs))
    else some (definite_map_of pairs)

unfoldable pub cbor_encode_cred_opt : Opt → Opt → Value
cbor_encode_cred_opt rk uv = definite_map_of (add_opt (add_opt [] "rk" rk) "uv" uv)

unfoldable pub cbor_encode_assert_opt : Opt → Opt → Value
cbor_encode_assert_opt up uv = definite_map_of (add_opt (add_opt [] "up" up) "uv" uv)

-- The key type, the algorithm (-25 for key agreement, -7 otherwise), the curve and the coordinates.
unfoldable pub es256_pairs : Es256Pk → Bool → Pairs
es256_pairs pk ecdh =
    (uint 1 1, uint 1 2)
    ∷ (uint 1 3, negint 1 (if ecdh then 24 else 6))
    ∷ (negint 1 0, uint 1 1)
    ∷ (negint 1 1, bytestring pk.x)
    ∷ (negint 1 2, bytestring pk.y)
    ∷ []

unfoldable pub es256_pk_encode : Es256Pk → Bool → Value
es256_pk_encode pk ecdh = definite_map_of (es256_pairs pk ecdh)
