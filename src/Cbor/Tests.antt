-- ===== src/Cbor/Tests.antt =====
-- Items of requests and replies, and theorems at concrete inputs.
use fido2_manage.Prelude.{ℕ, ◌≡◌, refl, true, false, [], ◌∷◌, none, some, replicate, codes}
use fido2_manage.Assert.{opt_true, opt_omit, cose_es256}
use fido2_manage.Cred.{CredExt}
use fido2_manage.Cbor.{
  indefinite_string, Value, uint, bytestring, string, boolean, other, Pairs, cbor_map_iter,
  map_loop, ctap_check_cbor, check_key_type, cbor_flatten_vector,
}
use fido2_manage.Cbor.Encode.{
  Rp, User, Es256Pk, definite_map_of, cbor_encode_rp_entity, cbor_encode_user_entity,
  cbor_encode_pubkey, cbor_encode_cred_ext, cbor_encode_cred_opt, cbor_encode_assert_opt,
  es256_pk_encode, cred_ext_pairs,
}
use fido2_manage.Cbor.Decode.{cbor_decode_user, cbor_decode_rp_entity, cbor_decode_cred_id}
use fido2_manage.Cbor.Keys.{cbor_decode_pubkey, es256_pk_decode, es256, blank_point}
use fido2_manage.Cbor.Canonical.{IsCanonical, entries, encoders-IsCanonical}
use fido2_manage.Cbor.Distinct.{AreDistinct, map_iter-AreDistinct}
use fido2_manage.Cbor.RoundTrip.{blank_user, blank_rp, decoders-encoders}

abbrev rp : Rp
rp = record { id = some (codes "localhost"); name = some (codes "a site") }

abbrev user : User
user = record {
  id = some (1 ∷ 2 ∷ 3 ∷ []);
  icon = none;
  name = some (codes "john");
  display_name = some (codes "John");
}

abbrev all_exts : CredExt
all_exts = record { mask = 0x1f; prot = 3; minpinlen = 0 }

abbrev pk : Es256Pk
pk = record { x = replicate 32 1; y = replicate 32 2 }

-- All five extensions, in the canonical order.
all_five :
    cbor_encode_cred_ext all_exts (some (9 ∷ []))
    ≡ some (
        definite_map_of (
          (string (codes "credBlob"), bytestring (9 ∷ []))
          ∷ (string (codes "credProtect"), uint 1 3)
          ∷ (string (codes "hmac-secret"), boolean true)
          ∷ (string (codes "largeBlobKey"), boolean true)
          ∷ (string (codes "minPinLength"), boolean true)
          ∷ []))
unfolding cbor_encode_cred_ext cred_ext_pairs
all_five = refl

encoders-IsCanonical_example :
    IsCanonical (entries (cbor_encode_rp_entity rp))
    × IsCanonical (entries (cbor_encode_user_entity user))
    × IsCanonical (entries (cbor_encode_pubkey (some (7 ∷ []))))
    × ((v : Value)
        → cbor_encode_cred_ext all_exts (some (9 ∷ [])) ≡ some v
        → IsCanonical (entries v))
    × IsCanonical (entries (cbor_encode_cred_opt opt_true opt_omit))
    × IsCanonical (entries (cbor_encode_assert_opt opt_true opt_omit))
    × IsCanonical (entries (es256_pk_encode pk true))
    × ((pairs : Pairs)
        → cbor_flatten_vector (some (uint 1 1) ∷ none ∷ some other ∷ []) ≡ some pairs
        → IsCanonical pairs)
encoders-IsCanonical_example =
    encoders-IsCanonical rp user (some (7 ∷ [])) (some (9 ∷ [])) all_exts opt_true opt_omit pk true
      (some (uint 1 1) ∷ none ∷ some other ∷ [])

abbrev keys : Pairs
keys =
    (uint 1 1, other)
    ∷ (uint 1 4, other)
    ∷ (indefinite_string (codes "id" ∷ []), other)
    ∷ (string (codes "id"), other)
    ∷ []

-- Every key is counted. The text is there in both of its forms.
map_iter-AreDistinct_example : AreDistinct keys
unfolding cbor_map_iter map_loop ctap_check_cbor check_key_type
map_iter-AreDistinct_example = map_iter-AreDistinct {S = ℕ} (λ key v n. some n) keys 5 5 refl

decoders-encoders_example :
    (cbor_decode_user (cbor_encode_user_entity user) blank_user ≡ some user)
    × (cbor_decode_rp_entity (cbor_encode_rp_entity rp) blank_rp ≡ some rp)
    × (cbor_decode_cred_id (cbor_encode_pubkey (some (7 ∷ []))) none ≡ some (some (7 ∷ [])))
    × (es256_pk_decode (es256_pk_encode pk true) (blank_point 32) ≡ some pk)
    × (cbor_decode_pubkey (es256_pk_encode pk false) ≡ some (cose_es256, es256 pk))
decoders-encoders_example =
    decoders-encoders user rp (7 ∷ []) pk true tt refl refl refl refl refl refl
