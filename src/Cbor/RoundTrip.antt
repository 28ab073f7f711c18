-- ===== src/Cbor/RoundTrip.antt =====
-- src/cbor.c: what is encoded for a request is what the decoders read.
use fido2_manage.Prelude.{ℕ, ◌≡◌, refl, Bool, true, false, List, none, some, length, arith}
use fido2_manage.Blob.{Blob}
use fido2_manage.Assert.{cose_es256}
use fido2_manage.Cbor.{
  bytestring, cbor_map_iter, map_loop, ctap_check_cbor, check_key_type, before,
  cbor_bytestring_copy,
}
use fido2_manage.Cbor.Encode.{
  Chars, Rp, User, Es256Pk, rp_pairs, user_pairs, pubkey_pairs, es256_pairs, cbor_encode_rp_entity,
  cbor_encode_user_entity, cbor_encode_pubkey, es256_pk_encode,
}
use fido2_manage.Cbor.Decode.{
  c_string, cbor_string_copy, decode_user_entry, cbor_decode_user, decode_rp_entity_entry,
  cbor_decode_rp_entity, decode_cred_id_entry, cbor_decode_cred_id,
}
use fido2_manage.Cbor.Keys.{
  decode_coord, decode_pubkey_point, es256_pk_decode, find_cose_alg, known_cose_key, get_cose_alg,
  decode_key, cbor_decode_pubkey, es256, blank_point,
}

-- The characters of a C string hold no terminator.
abbrev pub IsText : Chars → Type 0
IsText none = Unit
IsText (some bs) = c_string bs ≡ bs

abbrev pub blank_user : User
blank_user = record { id = none; icon = none; name = none; display_name = none }

abbrev pub blank_rp : Rp
blank_rp = record { id = none; name = none }

user_lem :
    (id : Blob) (icon name display : Chars)
    → IsText icon
    → IsText name
    → IsText display
    → let user : User = record { id = id; icon = icon; name = name; display_name = display } in
      cbor_decode_user (cbor_encode_user_entity user) blank_user ≡ some user
unfolding cbor_decode_user cbor_encode_user_entity user_pairs cbor_map_iter map_loop
    decode_user_entry ctap_check_cbor check_key_type before cbor_bytestring_copy cbor_string_copy
user_lem none none none none c n d = refl
user_lem i c n d hc hn hd = ground arith

rp_lem :
    (id name : Chars)
    → IsText id
    → IsText name
    → let rp : Rp = record { id = id; name = name } in
      cbor_decode_rp_entity (cbor_encode_rp_entity rp) blank_rp ≡ some rp
unfolding cbor_decode_rp_entity cbor_encode_rp_entity rp_pairs cbor_map_iter map_loop
    decode_rp_entity_entry ctap_check_cbor check_key_type before cbor_string_copy
rp_lem none none i n = refl
rp_lem id name i n = ground arith

cred_id_lem :
    (id : List ℕ) → cbor_decode_cred_id (cbor_encode_pubkey (some id)) none ≡ some (some id)
unfolding cbor_decode_cred_id cbor_encode_pubkey pubkey_pairs cbor_map_iter map_loop
    decode_cred_id_entry ctap_check_cbor check_key_type before cbor_bytestring_copy
cred_id_lem id = refl

coord_lem : (len : ℕ) (bs : List ℕ) → length bs ≡ len → decode_coord len (bytestring bs) ≡ some bs
unfolding decode_coord
coord_lem len bs h = ground arith

es256_lem :
    (x y : List ℕ) (ecdh : Bool) (k : Es256Pk)
    → length x ≡ 32
    → length y ≡ 32
    → let pk : Es256Pk = record { x = x; y = y } in
      es256_pk_decode (es256_pk_encode pk ecdh) k ≡ some pk
unfolding es256_pk_decode es256_pk_encode es256_pairs cbor_map_iter map_loop decode_pubkey_point
    ctap_check_cbor check_key_type
es256_lem x y true k hx hy = ground (arith, coord_lem 32 x, coord_lem 32 y)
es256_lem x y false k hx hy = ground (arith, coord_lem 32 x, coord_lem 32 y)

alg_lem : (pk : Es256Pk) → get_cose_alg (es256_pk_encode pk false) ≡ some cose_es256
unfolding get_cose_alg es256_pk_encode es256_pairs cbor_map_iter map_loop find_cose_alg
    known_cose_key ctap_check_cbor check_key_type
alg_lem pk = refl

pubkey_lem :
    (pk : Es256Pk)
    → length pk.x ≡ 32
    → length pk.y ≡ 32
    → cbor_decode_pubkey (es256_pk_encode pk false) ≡ some (cose_es256, es256 pk)
unfolding cbor_decode_pubkey decode_key
pubkey_lem pk hx hy = ground (arith, alg_lem pk, es256_lem pk.x pk.y false (blank_point 32) hx hy)

-- What the encoders make, the decoders read into zeroed memory: a user and a relying party, each
-- with any of their names left out, as long as the names hold no zero byte; the name of a
-- credential; and a P-256 key with coordinates of 32 bytes, which is also found to be one if it is
-- not for key agreement.
pub decoders-encoders :
    (user : User) (rp : Rp) (id : List ℕ) (pk : Es256Pk) (ecdh : Bool)
    → IsText user.icon
    → IsText user.name
    → IsText user.display_name
    → IsText rp.id
    → IsText rp.name
    → length pk.x ≡ 32
    → length pk.y ≡ 32
    → (cbor_decode_user (cbor_encode_user_entity user) blank_user ≡ some user)
      × (cbor_decode_rp_entity (cbor_encode_rp_entity rp) blank_rp ≡ some rp)
      × (cbor_decode_cred_id (cbor_encode_pubkey (some id)) none ≡ some (some id))
      × (es256_pk_decode (es256_pk_encode pk ecdh) (blank_point 32) ≡ some pk)
      × (cbor_decode_pubkey (es256_pk_encode pk false) ≡ some (cose_es256, es256 pk))
decoders-encoders user rp id pk ecdh icon name display rp_id rp_name hx hy = (
  user_lem user.id user.icon user.name user.display_name icon name display,
  rp_lem rp.id rp.name rp_id rp_name,
  cred_id_lem id,
  es256_lem pk.x pk.y ecdh (blank_point 32) hx hy,
  pubkey_lem pk hx hy,
)
