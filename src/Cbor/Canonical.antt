-- ===== src/Cbor/Canonical.antt =====
-- src/cbor.c: the maps of a request are in the order of CTAP2's canonical encoding.
use fido2_manage.Prelude.{
  ℕ, suc, ◌<◌, ◌≡◌, refl, ap, subst, length, Bool, true, List, [], ◌∷◌, Option, none, some, ltb,
  arith, Bool-cases, inl, inr,
}
use fido2_manage.Blob.{Blob, blob_bytes}
use fido2_manage.Assert.{Opt, opt_omit}
use fido2_manage.Cred.{CredExt}
use fido2_manage.Cbor.{
  Value, uint, bytestring, boolean, Pairs, ctap_check_cbor, check_key_type, before, flatten_from,
  cbor_flatten_vector, map_of, pairs_of, fields_of,
}
use fido2_manage.Cbor.Encode.{
  Rp, User, Es256Pk, rp_pairs, user_pairs, definite_map_of, cbor_encode_rp_entity,
  cbor_encode_user_entity, cbor_encode_pubkey, cbor_encode_cred_ext, cbor_encode_cred_opt,
  cbor_encode_assert_opt, es256_pk_encode, pubkey_pairs, cred_ext_pairs, es256_pairs, add_opt,
  add_if, has_ext, ext_cred_blob, ext_cred_protect, ext_hmac_secret, ext_largeblob_key,
  ext_minpinlen,
}

-- Each key stands in the canonical order before the next one.
abbrev pub IsCanonical : Pairs → Type 0
IsCanonical [] = Unit
IsCanonical (p ∷ []) = Unit
IsCanonical (p ∷ q ∷ pairs) = (ctap_check_cbor p.0 q.0 ≡ true) × IsCanonical (q ∷ pairs)

rp-IsCanonical : (rp : Rp) → IsCanonical (rp_pairs rp)
unfolding rp_pairs ctap_check_cbor check_key_type before
rp-IsCanonical rp = go rp.id rp.name
  where
    go : (id name : Blob) → IsCanonical (rp_pairs (record { id = id; name = name }))
    go none none = tt
    go id name = ground arith

user-IsCanonical : (user : User) → IsCanonical (user_pairs user)
unfolding user_pairs ctap_check_cbor check_key_type before
user-IsCanonical user = go user.id user.icon user.name user.display_name
  where
    go :
        (id icon name display : Blob)
        → IsCanonical
            (user_pairs (record { id = id; icon = icon; name = name; display_name = display }))
    go none none none none = tt
    go i c n d = ground arith

-- Five entries of a map, each of them there or not.
five :
    (v w x y z : Value) (a b c d e : Bool)
    → IsCanonical (
        add_if e
          (add_if d
            (add_if c (add_if b (add_if a [] "credBlob" v) "credProtect" w) "hmac-secret" x)
            "largeBlobKey"
            y)
          "minPinLength"
          z)
unfolding ctap_check_cbor check_key_type before
five v w x y z true true true true true = (refl, (refl, (refl, (refl, tt))))
five v w x y z a b c d e = ground arith

ext-IsCanonical : (ext : CredExt) (blob : Blob) → IsCanonical (cred_ext_pairs ext blob)
unfolding cred_ext_pairs
ext-IsCanonical ext blob =
    let has = has_ext ext.mask in
    five (bytestring (blob_bytes blob)) (uint 1 ext.prot) (boolean true) (boolean true)
      (boolean true) (has ext_cred_blob) (has ext_cred_protect) (has ext_hmac_secret)
      (has ext_largeblob_key) (has ext_minpinlen)

opts-IsCanonical :
    (a b : Opt)
    → IsCanonical (add_opt (add_opt [] "rk" a) "uv" b)
      × IsCanonical (add_opt (add_opt [] "up" a) "uv" b)
unfolding ctap_check_cbor check_key_type before
opts-IsCanonical opt_omit opt_omit = (tt, tt)
opts-IsCanonical a b = ground arith

flatten_head :
    (i j : ℕ) (v : Value) (argv : List (Option Value))
    → i < j
    → IsCanonical (flatten_from j argv)
    → IsCanonical ((uint 1 i, v) ∷ flatten_from j argv)
unfolding flatten_from ctap_check_cbor
flatten_head i j v [] h c = tt
flatten_head i j v (none ∷ argv) h c = flatten_head i (suc j) v argv (omega arith) c
flatten_head i j v (some arg ∷ argv) h c = (ground arith, c)

flatten-IsCanonical : (i : ℕ) (argv : List (Option Value)) → IsCanonical (flatten_from i argv)
unfolding flatten_from
flatten-IsCanonical i [] = tt
flatten-IsCanonical i (none ∷ argv) = flatten-IsCanonical (suc i) argv
flatten-IsCanonical i (some v ∷ argv) =
    flatten_head i (suc i) v argv (omega arith) (flatten-IsCanonical (suc i) argv)

pub pairs_of-fields_of : (pairs : Pairs) → pairs_of (fields_of pairs) ≡ pairs
pairs_of-fields_of [] = refl
pairs_of-fields_of ((k, v) ∷ pairs) = ap (λ r. (k, v) ∷ r) (pairs_of-fields_of pairs)

-- The entries of a map.
abbrev pub entries : Value → Pairs
entries (map_of fs) = pairs_of fs
entries v = []

entries_of : (pairs : Pairs) → IsCanonical pairs → IsCanonical (entries (definite_map_of pairs))
entries_of pairs h = rw (pairs_of-fields_of pairs) h

ext_map :
    (ext : CredExt) (blob : Blob) (v : Value)
    → cbor_encode_cred_ext ext blob ≡ some v
    → v ≡ definite_map_of (cred_ext_pairs ext blob)
unfolding cbor_encode_cred_ext
ext_map ext blob v h = ground arith

-- The maps that the encoders of a relying party, a user, a credential's name, the extensions and
-- the options of a request, a P-256 key and the numbered arguments of a command give are in the
-- order of CTAP2's canonical encoding, in which each key stands before the next.
pub encoders-IsCanonical :
    (rp : Rp) (user : User) (id blob : Blob) (ext : CredExt) (a b : Opt) (pk : Es256Pk)
    (ecdh : Bool) (argv : List (Option Value))
    → IsCanonical (entries (cbor_encode_rp_entity rp))
      × IsCanonical (entries (cbor_encode_user_entity user))
      × IsCanonical (entries (cbor_encode_pubkey id))
      × ((v : Value) → cbor_encode_cred_ext ext blob ≡ some v → IsCanonical (entries v))
      × IsCanonical (entries (cbor_encode_cred_opt a b))
      × IsCanonical (entries (cbor_encode_assert_opt a b))
      × IsCanonical (entries (es256_pk_encode pk ecdh))
      × ((pairs : Pairs) → cbor_flatten_vector argv ≡ some pairs → IsCanonical pairs)
unfolding cbor_encode_rp_entity cbor_encode_user_entity cbor_encode_pubkey pubkey_pairs
    cbor_encode_cred_opt cbor_encode_assert_opt es256_pk_encode es256_pairs cbor_flatten_vector
    ctap_check_cbor check_key_type before
encoders-IsCanonical rp user id blob ext a b pk ecdh argv = (
  entries_of (rp_pairs rp) (rp-IsCanonical rp),
  entries_of (user_pairs user) (user-IsCanonical user),
  (refl, tt),
  λ v h.
      rw (ext_map ext blob v h) (entries_of (cred_ext_pairs ext blob) (ext-IsCanonical ext blob)),
  entries_of (add_opt (add_opt [] "rk" a) "uv" b) (opts-IsCanonical a b).0,
  entries_of (add_opt (add_opt [] "up" a) "uv" b) (opts-IsCanonical a b).1,
  (refl, (refl, (refl, (refl, tt)))),
  λ pairs h. flattened argv pairs h,
)
  where
    flattened :
        (argv : List (Option Value)) (pairs : Pairs)
        → cbor_flatten_vector argv ≡ some pairs
        → IsCanonical pairs
    flattened argv pairs h = elim (Bool-cases (ltb 254 (length argv))) [
      | inl long ↦ ground (arith, long, h)
      | inr short ↦
          let same : flatten_from 1 argv ≡ pairs = ground (arith, h, short) in
          subst IsCanonical same (flatten-IsCanonical 1 argv)
    ]
