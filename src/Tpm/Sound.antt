-- ===== src/Tpm/Sound.antt =====
-- src/tpm.c: what a TPM attestation that is accepted says.
use fido2_manage.Prelude.{
  bit_and, ℕ, ◌≡◌, inl, inr, refl, sym, Bool, true, false, not, List, [], ◌∷◌, ◌++◌, Option, none,
  some, length, take, drop, replicate, bytes_eq, bytes_eq_sound, ◌==◌, ℤ, eqb_ℤ, if◌then◌else◌,
  arith, Bool-cases, eq_of_parts, subst,
}
use fido2_manage.Prelude.Bits.{bit_and-bit_or, bit_or_covers, bit_and_clears}
use fido2_manage.Blob.{Blob, blob_bytes}
use fido2_manage.Assert.{cose_es256, cose_rs256}
use fido2_manage.Tpm.{
  Hashes, TpmStmt, cose_rs1, be16, be32, rd_be32, tpm_attr, check_rs256_pubarea,
  check_es256_pubarea, sha1_attest, check_attest, check_sha1_certinfo, check_pubarea,
  fido_get_signed_hash_tpm,
}

-- The attributes of an object that is fixed to the TPM and to its parent, whose secret part the TPM
-- made, and that may sign; it is not cleared at a restart, and no reserved bit is set.
pub record IsSigner (attr : ℕ) : Type 0 where
  pub fixed_tpm : bit_and attr 0x2 ≡ 0x2
  pub st_clear : bit_and attr 0x4 ≡ 0
  pub fixed_parent : bit_and attr 0x10 ≡ 0x10
  pub sensitive_data_origin : bit_and attr 0x20 ≡ 0x20
  pub sign : bit_and attr 0x40000 ≡ 0x40000
  pub reserved : bit_and attr 0xfff8f309 ≡ 0

tpm_attr-IsSigner : (attr : ℕ) → IsSigner (tpm_attr attr)
tpm_attr-IsSigner attr =
    let kept = bit_and attr 0x00070cf2 in
    let cleared = λ (q : ℕ) (h : bit_and 0x00070cf2 q ≡ 0) (h' : bit_and 0x00040032 q ≡ 0).
      (bit_and-bit_or kept 0x00040032 q).1 (bit_and_clears attr 0x00070cf2 q h, h') in
    record {
      fixed_tpm = bit_or_covers kept 0x00040032 0x2 refl;
      st_clear = cleared 0x4 refl refl;
      fixed_parent = bit_or_covers kept 0x00040032 0x10 refl;
      sensitive_data_origin = bit_or_covers kept 0x00040032 0x20 refl;
      sign = bit_or_covers kept 0x00040032 0x40000 refl;
      reserved = cleared 0xfff8f309 refl refl;
    }

-- The public area is that of the credential's key, with the attributes above; the attributes that are
-- left and the policy are free.
pub data IsPubarea (s : TpmStmt) : List ℕ → Type 0 where
  ecc :
      (attr : ℕ) (policy : List ℕ)
      → s.type ≡ cose_es256
      → IsSigner attr
      → IsPubarea s (
          (be16 0x0023 ++ be16 0x000b ++ be32 attr ++ be16 32 ++ policy)
          ++ be16 0x0010
          ++ be16 0x0010
          ++ be16 0x0003
          ++ be16 0x0010
          ++ be16 32
          ++ s.x
          ++ be16 32
          ++ s.y)
  rsa :
      (attr : ℕ) (policy : List ℕ)
      → s.type ≡ cose_rs256
      → IsSigner attr
      → IsPubarea s (
          (be16 0x0001 ++ be16 0x000b ++ be32 attr ++ be16 32 ++ policy)
          ++ be16 0x0010
          ++ be16 0x0010
          ++ be16 2048
          ++ replicate 4 0
          ++ be16 256
          ++ s.n)

-- The attestation is one that a TPM generated of a certification: it signs the SHA-1 hash of the
-- authenticator data and the client data hash, the time is safe, and the name of the certified object
-- is the SHA-256 hash of the public area. The signer, the clock, the firmware version and the
-- qualified name are free.
pub record IsCertified (h : Hashes) (cdh authdata_raw : List ℕ) (s : TpmStmt) : Type 0 where
  pub dgst : List ℕ
  pub name : List ℕ
  pub signer : List ℕ
  pub clock : List ℕ
  pub fwversion : List ℕ
  pub qual_name : List ℕ
  pub alg : eqb_ℤ s.alg cose_rs1 ≡ true
  pub area : IsPubarea s (blob_bytes s.pubarea)
  pub dgst_is : h.sha1 (authdata_raw ++ cdh) ≡ some dgst
  pub name_is : h.sha256 (blob_bytes s.pubarea) ≡ some name
  pub certinfo :
      blob_bytes s.certinfo
      ≡ be32 0xff544347
        ++ be16 0x8017
        ++ be16 34
        ++ signer
        ++ be16 20
        ++ dgst
        ++ clock
        ++ (1 ∷ [])
        ++ fwversion
        ++ be16 34
        ++ be16 0x000b
        ++ name
        ++ qual_name

eqb-eq : (a b : ℤ) → eqb_ℤ a b ≡ true → a ≡ b
eqb-eq a b e = eq_of_parts a b (ground (arith, e))

sized : (b same : Bool) → (if not b then false else same) ≡ true → same ≡ true
sized true same h = h
sized false same h = cc

check_pubarea-IsPubarea :
    (s : TpmStmt) → check_pubarea s ≡ true → IsPubarea s (blob_bytes s.pubarea)
unfolding check_es256_pubarea check_rs256_pubarea
check_pubarea-IsPubarea s h =
    let actual = blob_bytes s.pubarea in
    elim (Bool-cases (eqb_ℤ s.type cose_es256)) [
      | inl e ↦
          let same = sized (length actual == 118) _ (rw e at h) in
          subst (IsPubarea s) (bytes_eq_sound _ actual same) (
            ecc (tpm_attr (rd_be32 (drop 4 actual))) (take 32 (drop 10 actual))
              (eqb-eq s.type cose_es256 e) (tpm_attr-IsSigner (rd_be32 (drop 4 actual))))
      | inr e ↦ elim (Bool-cases (eqb_ℤ s.type cose_rs256)) [
        | inl r ↦
            let same = sized (length actual == 310) _ (rw (e, r) at h) in
            subst (IsPubarea s) (bytes_eq_sound _ actual same) (
              rsa (tpm_attr (rd_be32 (drop 4 actual))) (take 32 (drop 10 actual))
                (eqb-eq s.type cose_rs256 r) (tpm_attr-IsSigner (rd_be32 (drop 4 actual))))
        | inr r ↦ absurd (ground (arith, rw (e, r) at h))
      ]
    ]

-- What is accepted, and the digest that is verified.
pub record Accepted (h : Hashes) (cdh authdata_raw : List ℕ) (s : TpmStmt) (hash : List ℕ)
    : Type 0 where
  pub certified : IsCertified h cdh authdata_raw s
  pub hash_is : h.sha1 (blob_bytes s.certinfo) ≡ some hash

certinfo-IsCertified :
    (h : Hashes) (cdh authdata_raw : List ℕ) (s : TpmStmt) (dgst name : Option (List ℕ))
    → h.sha1 (authdata_raw ++ cdh) ≡ dgst
    → h.sha256 (blob_bytes s.pubarea) ≡ name
    → check_attest (blob_bytes s.certinfo) dgst name ≡ true
    → eqb_ℤ s.alg cose_rs1 ≡ true
    → IsPubarea s (blob_bytes s.pubarea)
    → IsCertified h cdh authdata_raw s
certinfo-IsCertified h cdh authdata_raw s none name e1 e2 ok alg area = cc
certinfo-IsCertified h cdh authdata_raw s (some dgst) none e1 e2 ok alg area = cc
certinfo-IsCertified h cdh authdata_raw s (some dgst) (some name) e1 e2 ok alg area =
    let actual = blob_bytes s.certinfo in
    let same = sized (length actual == 161) (bytes_eq (sha1_attest actual dgst name) actual) ok in
    record {
      dgst = dgst;
      name = name;
      signer = take 34 (drop 8 actual);
      clock = take 16 (drop 64 actual);
      fwversion = take 8 (drop 81 actual);
      qual_name = take 36 (drop 125 actual);
      alg = alg;
      area = area;
      dgst_is = e1;
      name_is = e2;
      certinfo = sym (bytes_eq_sound (sha1_attest actual dgst name) actual same);
    }

-- If fido_get_signed_hash_tpm gives a digest, it is the SHA-1 hash of a certification that a TPM made
-- of the public area in the statement, under the algorithm RS1: the certification signs the SHA-1
-- hash of the authenticator data and the client data hash, and the public area holds the credential's
-- key, fixed to the TPM and its parent, made in the TPM and able to sign.
pub signed_hash_tpm-Accepted :
    (h : Hashes) (cdh : List ℕ) (authdata_raw : Blob) (s : TpmStmt) (hash : List ℕ)
    → fido_get_signed_hash_tpm h cdh authdata_raw s ≡ some hash
    → Accepted h cdh (blob_bytes authdata_raw) s hash
unfolding fido_get_signed_hash_tpm check_sha1_certinfo
signed_hash_tpm-Accepted h cdh authdata_raw s hash e =
    go (eqb_ℤ s.alg cose_rs1) (check_pubarea s) _ refl refl refl e
  where
    go :
        (a b d : Bool)
        → eqb_ℤ s.alg cose_rs1 ≡ a
        → check_pubarea s ≡ b
        → check_attest
            (blob_bytes s.certinfo)
            (h.sha1 (blob_bytes authdata_raw ++ cdh))
            (h.sha256 (blob_bytes s.pubarea))
          ≡ d
        → (if not a
            then none
            else if not b
            then none
            else if not d
            then none
            else h.sha1 (blob_bytes s.certinfo))
          ≡ some hash
        → Accepted h cdh (blob_bytes authdata_raw) s hash
    go false b d p q r e = cc
    go true false d p q r e = cc
    go true true false p q r e = cc
    go true true true p q r e = record {
      certified =
          certinfo-IsCertified h cdh (blob_bytes authdata_raw) s _ _ refl refl r p
            (check_pubarea-IsPubarea s q);
      hash_is = e;
    }
