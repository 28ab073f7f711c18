-- ===== src/Tpm/Tests.antt =====
-- A TPM attestation of a P-256 key, with stand-ins for the digests.
use fido2_manage.Prelude.{ℕ, ◌≡◌, refl, List, [], ◌∷◌, ◌++◌, none, some, take, replicate}
use fido2_manage.Blob.{Blob}
use fido2_manage.Assert.{cose_es256}
use fido2_manage.Tpm.{
  Hashes, TpmStmt, cose_rs1, es256_pubarea, sha1_attest, check_es256_pubarea, check_sha1_certinfo,
  fido_get_signed_hash_tpm,
}
use fido2_manage.Tpm.Sound.{Accepted, signed_hash_tpm-Accepted}

-- The digests are the first bytes of the message, filled up.
abbrev toy : Hashes
toy = record {
  sha1 = λ bs. some (take 20 (bs ++ replicate 20 0));
  sha256 = λ bs. some (take 32 (bs ++ replicate 32 0));
}

abbrev area : List ℕ
area = es256_pubarea (replicate 118 7) (replicate 32 1) (replicate 32 2)

abbrev certinfo : List ℕ
certinfo = sha1_attest (replicate 161 3) (5 ∷ 6 ∷ (9 ∷ replicate 17 0)) (take 32 area)

abbrev statement : TpmStmt
statement = record {
  alg = cose_rs1;
  certinfo = some certinfo;
  pubarea = some area;
  type = cose_es256;
  x = replicate 32 1;
  y = replicate 32 2;
  n = [];
}

abbrev raw : Blob
raw = some (5 ∷ 6 ∷ [])

made : fido_get_signed_hash_tpm toy (9 ∷ []) raw statement ≡ some (take 20 certinfo)
unfolding fido_get_signed_hash_tpm check_sha1_certinfo check_es256_pubarea
made = refl

other_client_data : fido_get_signed_hash_tpm toy (8 ∷ []) raw statement ≡ none
unfolding fido_get_signed_hash_tpm check_sha1_certinfo check_es256_pubarea
other_client_data = refl

signed_hash_tpm-Accepted_example : Accepted toy (9 ∷ []) (5 ∷ 6 ∷ []) statement (take 20 certinfo)
signed_hash_tpm-Accepted_example =
    signed_hash_tpm-Accepted toy (9 ∷ []) raw statement (take 20 certinfo) made
