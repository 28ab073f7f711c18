-- ===== src/Cbor/Keys.antt =====
-- src/cbor.c, and the decoders of src/es256.c, src/es384.c, src/rs256.c and src/eddsa.c: the public
-- key of a credential.
use mathlib.Core.Option
use fido2_manage.Prelude.{
  ℕ, ◌^◌, ◌-◌, Bool, not, ◌&&◌, ◌||◌, List, Option, none, some, length, ltb, ◌==◌, replicate, ℤ,
  pos, negsuc, eqb_ℤ, if◌then◌else◌,
}
use fido2_manage.Assert.{cose_es256, cose_es384, cose_rs256, cose_eddsa}
use fido2_manage.Cbor.{Value, uint, negint, bytestring, Parser}
use fido2_manage.Cbor.Encode.{Es256Pk}
use fido2_manage.Cbor.Decode.{key_number, key_negative, iter_map}

-- A definite byte string of a fixed length.
unfoldable pub decode_coord : ℕ → Value → Option (List ℕ)
decode_coord len (bytestring bs) = if length bs == len then some bs else none
decode_coord len v = none

-- The coordinates of a point, `len` bytes each.
unfoldable pub decode_pubkey_point : ℕ → Parser Es256Pk
decode_pubkey_point len key v k = elim (key_negative key) [
  | none ↦ some k
  | some n ↦
      if n == 1
      then Option.map (λ bs. record k { x = bs }) (decode_coord len v)
      else if n == 2
      then Option.map (λ bs. record k { y = bs }) (decode_coord len v)
      else some k
]

abbrev pub blank_point : ℕ → Es256Pk
blank_point len = record { x = replicate len 0; y = replicate len 0 }

unfoldable pub es256_pk_decode : Value → Es256Pk → Option Es256Pk
es256_pk_decode = iter_map (decode_pubkey_point 32)

unfoldable pub es384_pk_decode : Value → Es256Pk → Option Es256Pk
es384_pk_decode = iter_map (decode_pubkey_point 48)

-- `rs256_pk_t`
pub record Rs256Pk : Type 0 where
  pub n : List ℕ
  pub e : List ℕ

unfoldable pub decode_rsa_pubkey : Parser Rs256Pk
decode_rsa_pubkey key v k = elim (key_negative key) [
  | none ↦ some k
  | some n ↦
      if n == 0
      then Option.map (λ bs. record k { n = bs }) (decode_coord 256 v)
      else if n == 1
      then Option.map (λ bs. record k { e = bs }) (decode_coord 3 v)
      else some k
]

unfoldable pub rs256_pk_decode : Value → Rs256Pk → Option Rs256Pk
rs256_pk_decode = iter_map decode_rsa_pubkey

unfoldable pub decode_eddsa_point : Parser (List ℕ)
decode_eddsa_point key v x = elim (key_negative key) [
  | none ↦ some x
  | some n ↦ if n == 1 then decode_coord 32 v else some x
]

unfoldable pub eddsa_pk_decode : Value → List ℕ → Option (List ℕ)
eddsa_pk_decode = iter_map decode_eddsa_point

-- `struct cose_key`
pub record CoseKey : Type 0 where
  pub kty : ℕ
  pub alg : ℤ
  pub crv : ℕ

abbrev pub int_max : ℕ
int_max = 2 ^ 31 - 1

abbrev pub find_kty : Value → CoseKey → Option CoseKey
find_kty (uint w n) k =
    if ltb int_max n || not (k.kty == 0) then none else some (record k { kty = n })
find_kty v k = none

abbrev pub find_alg : Value → CoseKey → Option CoseKey
find_alg (negint w n) k =
    if ltb int_max n || not (eqb_ℤ k.alg (pos 0)) then none else some (record k { alg = negsuc n })
find_alg v k = none

abbrev pub find_crv : Value → CoseKey → CoseKey
find_crv (uint w n) k = if not (ltb int_max n) && k.crv == 0 then record k { crv = n } else k
find_crv v k = k

abbrev pub find_number : ℕ → Value → CoseKey → Option CoseKey
find_number n v k = if n == 1 then find_kty v k else if n == 3 then find_alg v k else some k

unfoldable pub find_cose_alg : Parser CoseKey
find_cose_alg key v k = elim (key_number key) [
  | some n ↦ find_number n v k
  | none ↦ elim (key_negative key) [
    | none ↦ some k
    | some n ↦ if n == 0 then some (find_crv v k) else some k
  ]
]

-- The key types and the curves that go with an algorithm.
unfoldable pub known_cose_key : CoseKey → Bool
known_cose_key k =
    if eqb_ℤ k.alg cose_es256
    then k.kty == 2 && k.crv == 1
    else if eqb_ℤ k.alg cose_es384
    then k.kty == 2 && k.crv == 2
    else if eqb_ℤ k.alg cose_eddsa
    then k.kty == 1 && k.crv == 6
    else eqb_ℤ k.alg cose_rs256 && k.kty == 3

unfoldable pub get_cose_alg : Value → Option ℤ
get_cose_alg v = elim (iter_map find_cose_alg v (record { kty = 0; alg = pos 0; crv = 0 })) [
  | none ↦ none
  | some k ↦ if known_cose_key k then some k.alg else none
]

-- The union in `fido_attcred_t`.
pub data PubKey : Type 0 where
  es256 : Es256Pk → PubKey
  es384 : Es256Pk → PubKey
  rs256 : Rs256Pk → PubKey
  eddsa : List ℕ → PubKey

-- A key is decoded into zeroed memory.
unfoldable pub decode_key : ℤ → Value → Option PubKey
decode_key type v =
    if eqb_ℤ type cose_es256
    then Option.map es256 (es256_pk_decode v (blank_point 32))
    else if eqb_ℤ type cose_es384
    then Option.map es384 (es384_pk_decode v (blank_point 48))
    else if eqb_ℤ type cose_rs256
    then Option.map rs256 (rs256_pk_decode v (record { n = replicate 256 0; e = replicate 3 0 }))
    else if eqb_ℤ type cose_eddsa
    then Option.map eddsa (eddsa_pk_decode v (replicate 32 0))
    else none

unfoldable pub cbor_decode_pubkey : Value → Option (ℤ × PubKey)
cbor_decode_pubkey v = elim (get_cose_alg v) [
  | none ↦ none
  | some type ↦ Option.map (λ k. (type, k)) (decode_key type v)
]
