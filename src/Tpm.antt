-- ===== src/Tpm.antt =====
-- src/tpm.c: the structures of a TPM attestation, as the bytes that they are in memory.
pub mod Sound
mod Tests
use fido2_manage.Prelude.{
  ℕ, ◌+◌, ◌*◌, ◌/◌, ◌%◌, Bool, true, false, not, ◌||◌, List, [], ◌∷◌, ◌++◌, Option, none, some,
  length, take, drop, replicate, get_or, bit_and, bit_or, bytes_eq, ◌==◌, ℤ, eqb_ℤ, if◌then◌else◌,
  negsuc,
}
use fido2_manage.Blob.{Blob, blob_bytes}
use fido2_manage.Assert.{cose_es256, cose_rs256}

-- The digests of OpenSSL (`none` if they fail).
pub record Hashes : Type 0 where
  pub sha1 : List ℕ → Option (List ℕ)
  pub sha256 : List ℕ → Option (List ℕ)

-- The attestation statement and the credential's key, as far as tpm.c reads them.
pub record TpmStmt : Type 0 where
  pub alg : ℤ
  pub certinfo : Blob
  pub pubarea : Blob
  pub type : ℤ
  pub x : List ℕ
  pub y : List ℕ
  pub n : List ℕ

abbrev pub cose_rs1 : ℤ
cose_rs1 = negsuc 65534

-- `htobe16` and `htobe32`.
abbrev pub be16 : ℕ → List ℕ
be16 n = n / 256 % 256 ∷ n % 256 ∷ []

abbrev pub be32 : ℕ → List ℕ
be32 n = be16 (n / 65536) ++ be16 n

-- `be32toh`
abbrev pub rd_be32 : List ℕ → ℕ
rd_be32 b = ((get_or b 0 0 * 256 + get_or b 1 0) * 256 + get_or b 2 0) * 256 + get_or b 3 0

-- ~(TPMA_RESERVED | TPMA_CLEAR), and the flags that are set.
abbrev pub tpm_attr : ℕ → ℕ
tpm_attr attr = bit_or (bit_and attr 0x00070cf2) 0x00040032

-- The head of a public area: the algorithm, TPM_ALG_SHA256, the attributes and the policy.
abbrev pub pubarea_head : ℕ → List ℕ → List ℕ
pubarea_head alg actual =
    be16 alg
    ++ be16 0x000b
    ++ be32 (tpm_attr (rd_be32 (drop 4 actual)))
    ++ be16 32
    ++ take 32 (drop 10 actual)

abbrev pub rs256_pubarea : List ℕ → List ℕ → List ℕ
rs256_pubarea actual n =
    pubarea_head 0x0001 actual
    ++ be16 0x0010
    ++ be16 0x0010
    ++ be16 2048
    ++ replicate 4 0
    ++ be16 256
    ++ n

abbrev pub es256_pubarea : List ℕ → List ℕ → List ℕ → List ℕ
es256_pubarea actual x y =
    pubarea_head 0x0023 actual
    ++ be16 0x0010
    ++ be16 0x0010
    ++ be16 0x0003
    ++ be16 0x0010
    ++ be16 32
    ++ x
    ++ be16 32
    ++ y

-- `true` for the C value 0.
unfoldable pub check_rs256_pubarea : List ℕ → List ℕ → Bool
check_rs256_pubarea actual n =
    if not (length actual == 310) then false else bytes_eq (rs256_pubarea actual n) actual

unfoldable pub check_es256_pubarea : List ℕ → List ℕ → List ℕ → Bool
check_es256_pubarea actual x y =
    if not (length actual == 118) then false else bytes_eq (es256_pubarea actual x y) actual

-- The attestation that is expected: what the TPM chose is taken from `actual`.
abbrev pub sha1_attest : List ℕ → List ℕ → List ℕ → List ℕ
sha1_attest actual dgst name =
    be32 0xff544347
    ++ be16 0x8017
    ++ be16 34
    ++ take 34 (drop 8 actual)
    ++ be16 20
    ++ dgst
    ++ take 16 (drop 64 actual)
    ++ (1 ∷ [])
    ++ take 8 (drop 81 actual)
    ++ be16 34
    ++ be16 0x000b
    ++ name
    ++ take 36 (drop 125 actual)

abbrev pub check_attest : List ℕ → Option (List ℕ) → Option (List ℕ) → Bool
check_attest actual none name = false
check_attest actual (some dgst) none = false
check_attest actual (some dgst) (some name) =
    if not (length actual == 161) then false else bytes_eq (sha1_attest actual dgst name) actual

-- `get_signed_sha1` and `get_signed_name` give the data and the name.
unfoldable pub check_sha1_certinfo : Hashes → List ℕ → List ℕ → List ℕ → List ℕ → Bool
check_sha1_certinfo h actual cdh authdata_raw pubarea =
    check_attest actual (h.sha1 (authdata_raw ++ cdh)) (h.sha256 pubarea)

-- The switch on the type of the key.
abbrev pub check_pubarea : TpmStmt → Bool
check_pubarea s =
    if eqb_ℤ s.type cose_es256
    then check_es256_pubarea (blob_bytes s.pubarea) s.x s.y
    else if eqb_ℤ s.type cose_rs256
    then check_rs256_pubarea (blob_bytes s.pubarea) s.n
    else false

-- The digest has room.
unfoldable pub fido_get_signed_hash_tpm : Hashes → List ℕ → Blob → TpmStmt → Option (List ℕ)
fido_get_signed_hash_tpm h cdh authdata_raw s =
    if not (eqb_ℤ s.alg cose_rs1)
    then none
    else if not (check_pubarea s)
    then none
    else if not (
        check_sha1_certinfo h (blob_bytes s.certinfo) cdh (blob_bytes authdata_raw)
          (blob_bytes s.pubarea))
    then none
    else h.sha1 (blob_bytes s.certinfo)
