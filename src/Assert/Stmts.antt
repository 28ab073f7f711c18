-- ===== src/Assert/Stmts.antt =====
-- src/assert.c: the functions that set a statement, and the decoding of authenticator data in
-- src/cbor.c.
use fido2_manage.Prelude.{
  ℕ, ◌+◌, ◌-◌, ◌*◌, Bool, true, false, List, ◌++◌, Option, none, some, length, take, drop,
  replicate, get_elem?, get_or, set, bit_and, leb, ◌==◌, ◌||◌, ℤ, if◌then◌else◌,
}
use fido2_manage.Err.{fido_ok, err_invalid_argument, err_internal}
use fido2_manage.Blob.{Blob, fido_blob_is_empty, fido_blob_set}
use fido2_manage.Buf.{fido_buf_read}
use fido2_manage.Assert.{Assert, Stmt}

-- A CBOR item, as far as it is told apart here: a definite byte string, or another.
pub data Item : Type 0 where
  bytestring : List ℕ → Item
  other : Item

-- What libcbor gives: the item at the head of some bytes; the encoding of a byte string (empty if
-- it fails); and the mask of the extensions in a map at the head of some bytes.
pub record Decoder : Type 0 where
  pub load : List ℕ → Option Item
  pub serialize : List ℕ → List ℕ
  pub extensions : List ℕ → Option ℕ

abbrev pub blank_stmt : Stmt
blank_stmt = record {
  id = none;
  rp_id_hash = replicate 32 0;
  flags = 0;
  sigcount = 0;
  authdata_ext_mask = 0;
  authdata_cbor = none;
  authdata_raw = none;
  sig = none;
}

unfoldable pub clean_authdata : Stmt → Stmt
clean_authdata st = record st {
  rp_id_hash = replicate 32 0;
  flags = 0;
  sigcount = 0;
  authdata_ext_mask = 0;
  authdata_cbor = none;
  authdata_raw = none;
}

-- `sizeof(fido_authdata_t)`, which is packed.
abbrev pub sizeof_authdata : ℕ
sizeof_authdata = 37

abbrev pub be32 : List ℕ → ℕ
be32 b = ((get_or b 0 0 * 256 + get_or b 1 0) * 256 + get_or b 2 0) * 256 + get_or b 3 0

-- The 37 bytes of a `fido_authdata_t`, read as the struct with its counter turned.
abbrev pub with_authdata : Stmt → List ℕ → Stmt
with_authdata st hd = record st {
  rp_id_hash = take 32 hd;
  flags = get_or hd 32 0;
  sigcount = be32 (drop 33 hd);
}

abbrev pub with_extensions : Stmt → Option ℕ → Option Stmt
with_extensions st none = none
with_extensions st (some mask) = some (record st { authdata_ext_mask = mask })

abbrev pub decode_head : Decoder → Stmt → Option (List ℕ × List ℕ) → Option Stmt
decode_head dec st none = none
decode_head dec st (some (hd, rest)) =
    if bit_and (get_or hd 32 0) 0x80 == 0
    then some (with_authdata st hd)
    else with_extensions (with_authdata st hd) (dec.extensions rest)

-- `none` is the C value -1. The statement was cleaned before.
unfoldable pub cbor_decode_assert_authdata : Decoder → Item → Stmt → Option Stmt
unfolding fido_buf_read
cbor_decode_assert_authdata dec other st = none
cbor_decode_assert_authdata dec (bytestring bs) st =
    let ser = dec.serialize bs in
    if length ser == 0
    then none
    else decode_head dec (record st { authdata_cbor = some ser }) (fido_buf_read bs sizeof_authdata)

-- `fido_blob_decode` of an empty blob.
abbrev pub decode_blob : Item → Option (List ℕ)
decode_blob other = none
decode_blob (bytestring bs) = some bs

abbrev pub put_stmt : Assert → ℕ → Stmt → Assert
put_stmt a idx st = record a { stmt = set a.stmt idx st }

abbrev pub finish_authdata : Assert → ℕ → Stmt → Option Stmt → ℤ × Assert
finish_authdata a idx clean none = (err_invalid_argument, put_stmt a idx clean)
finish_authdata a idx clean (some st) = (fido_ok, put_stmt a idx st)

abbrev pub decode_item : Decoder → Assert → ℕ → Stmt → Item → ℤ × Assert
decode_item dec a idx clean other = (err_internal, put_stmt a idx clean)
decode_item dec a idx clean (bytestring bs) =
    finish_authdata a idx clean
      (cbor_decode_assert_authdata dec (bytestring bs) (record clean { authdata_raw = some bs }))

abbrev pub load_item : Decoder → Assert → ℕ → Stmt → Option Item → ℤ × Assert
load_item dec a idx clean none = (err_invalid_argument, put_stmt a idx clean)
load_item dec a idx clean (some item) = decode_item dec a idx clean item

abbrev pub at_stmt : (Stmt → ℤ × Assert) → Assert → Option Stmt → ℤ × Assert
at_stmt use_stmt a none = (err_invalid_argument, a)
at_stmt use_stmt a (some st) = use_stmt st

unfoldable pub fido_assert_set_authdata : Decoder → Assert → ℕ → Blob → ℤ × Assert
fido_assert_set_authdata dec a idx b =
    if leb a.stmt_len idx || fido_blob_is_empty b
    then (err_invalid_argument, a)
    else at_stmt
        (λ st.
          load_item dec a idx (clean_authdata st) (elim b [ none ↦ none | some bs ↦ dec.load bs ]))
        a (get_elem? a.stmt idx)

-- The bytes are those inside the byte string here.
unfoldable pub fido_assert_set_authdata_raw : Decoder → Assert → ℕ → Blob → ℤ × Assert
fido_assert_set_authdata_raw dec a idx b =
    if leb a.stmt_len idx || fido_blob_is_empty b
    then (err_invalid_argument, a)
    else at_stmt
        (λ st.
          decode_item dec a idx (clean_authdata st)
            (elim b [ none ↦ other | some bs ↦ bytestring bs ]))
        a (get_elem? a.stmt idx)

abbrev pub store_sig : Assert → ℕ → Stmt → Bool × Blob → ℤ × Assert
store_sig a idx st (false, b) = (err_internal, put_stmt a idx (record st { sig = b }))
store_sig a idx st (true, b) = (fido_ok, put_stmt a idx (record st { sig = b }))

unfoldable pub fido_assert_set_sig : Assert → ℕ → Blob → ℤ × Assert
fido_assert_set_sig a idx b =
    if leb a.stmt_len idx || fido_blob_is_empty b
    then (err_invalid_argument, a)
    else at_stmt (λ st. store_sig a idx st (fido_blob_set b)) a (get_elem? a.stmt idx)

-- New statements are zeroed.
unfoldable pub fido_assert_set_count : Assert → ℕ → ℤ × Assert
fido_assert_set_count a n = (
  fido_ok,
  record a { stmt = take n a.stmt ++ replicate (n - length a.stmt) blank_stmt; stmt_len = n },
)
