-- ===== src/Assert/Names.antt =====
-- src/assert.c: the functions that set a part of a statement leave the names of all statements.
use fido2_manage.Prelude.{
  ℕ, ◌≡◌, ap, refl, sym, Bool, true, false, ◌||◌, List, map, Option, none, some, length, get_elem?,
  leb, ◌==◌, ℤ, if◌then◌else◌, map-set_same, bit_and, get_or,
}
use fido2_manage.Err.{err_invalid_argument}
use fido2_manage.Blob.{Blob, fido_blob_set, fido_blob_is_empty}
use fido2_manage.Assert.{Assert, Stmt}
use fido2_manage.Assert.Stmts.{
  Decoder, Item, bytestring, other, cbor_decode_assert_authdata, clean_authdata, put_stmt,
  fido_assert_set_authdata, fido_assert_set_sig, with_authdata, with_extensions, decode_head,
  load_item, at_stmt, finish_authdata, store_sig,
}
use fido2_manage.Buf.{fido_buf_read}

-- The credentials that the statements name.
abbrev pub ids : Assert → List Blob
ids a = map (λ st. st.id) a.stmt

-- The same names, and the same parameters that the loop reads.
abbrev pub HasNames : Assert → List Blob → Assert → Type 0
HasNames a names b = (ids b ≡ names) × (b.up ≡ a.up) × (b.rp_id ≡ a.rp_id) × (b.cdh ≡ a.cdh)

pub put_stmt-HasNames :
    (a : Assert) (idx : ℕ) (st st' : Stmt)
    → get_elem? a.stmt idx ≡ some st
    → st'.id ≡ st.id
    → HasNames a (ids a) (put_stmt a idx st')
put_stmt-HasNames a idx st st' h e =
    (map-set_same (λ s. s.id) a.stmt idx st' st h e, refl, refl, refl)

-- Decoding authenticator data leaves the name of a statement.
with_extensions-id :
    (st st' : Stmt) (mask : Option ℕ) → with_extensions st mask ≡ some st' → st'.id ≡ st.id
with_extensions-id st st' none h = cc
with_extensions-id st st' (some mask) h = sym (ap (λ o. elim o [ none ↦ st.id | some x ↦ x.id ]) h)

decode_head-id :
    (dec : Decoder) (st st' : Stmt) (r : Option (List ℕ × List ℕ))
    → decode_head dec st r ≡ some st'
    → st'.id ≡ st.id
decode_head-id dec st st' none h = cc
decode_head-id dec st st' (some (hd, rest)) h = go (bit_and (get_or hd 32 0) 0x80 == 0) h
  where
    go :
        (plain : Bool)
        → (if plain
            then some (with_authdata st hd)
            else with_extensions (with_authdata st hd) (dec.extensions rest))
          ≡ some st'
        → st'.id ≡ st.id
    go true e = sym (ap (λ o. elim o [ none ↦ st.id | some x ↦ x.id ]) e)
    go false e = with_extensions-id (with_authdata st hd) st' (dec.extensions rest) e

decode-id :
    (dec : Decoder) (item : Item) (st st' : Stmt)
    → cbor_decode_assert_authdata dec item st ≡ some st'
    → st'.id ≡ st.id
unfolding cbor_decode_assert_authdata
decode-id dec other st st' h = cc
decode-id dec (bytestring bs) st st' h = go (length (dec.serialize bs) == 0) h
  where
    go :
        (empty : Bool)
        → (if empty
            then none
            else decode_head dec
                (record st { authdata_cbor = some (dec.serialize bs) })
                (fido_buf_read bs 37))
          ≡ some st'
        → st'.id ≡ st.id
    go true e = cc
    go false e =
        decode_head-id dec (record st { authdata_cbor = some (dec.serialize bs) }) st'
          (fido_buf_read bs 37) e

-- What a setter gives: a code, and an assertion with the same names.
abbrev pub IsSetter : Assert → ℤ × Assert → Type 0
IsSetter a r = HasNames a (ids a) r.1

abbrev with_raw : Stmt → List ℕ → Stmt
with_raw st bs = record (clean_authdata st) { authdata_raw = some bs }

load_item-IsSetter :
    (dec : Decoder) (a : Assert) (idx : ℕ) (st : Stmt) (item : Item)
    → get_elem? a.stmt idx ≡ some st
    → IsSetter a (load_item dec a idx (clean_authdata st) (some item))
unfolding clean_authdata
load_item-IsSetter dec a idx st other h = put_stmt-HasNames a idx st (clean_authdata st) h refl
load_item-IsSetter dec a idx st (bytestring bs) h =
    go (cbor_decode_assert_authdata dec (bytestring bs) (with_raw st bs)) refl
  where
    go :
        (o : Option Stmt)
        → cbor_decode_assert_authdata dec (bytestring bs) (with_raw st bs) ≡ o
        → IsSetter a (finish_authdata a idx (clean_authdata st) o)
    go none e = put_stmt-HasNames a idx st (clean_authdata st) h refl
    go (some st') e =
        put_stmt-HasNames a idx st st' h (decode-id dec (bytestring bs) (with_raw st bs) st' e)

pub set_authdata-IsSetter :
    (dec : Decoder) (a : Assert) (idx : ℕ) (b : Blob)
    → IsSetter a (fido_assert_set_authdata dec a idx b)
unfolding fido_assert_set_authdata clean_authdata
set_authdata-IsSetter dec a idx b = go (leb a.stmt_len idx || fido_blob_is_empty b)
  where
    loaded :
        (st : Stmt) (o : Option Item)
        → get_elem? a.stmt idx ≡ some st
        → IsSetter a (load_item dec a idx (clean_authdata st) o)
    loaded st none h = put_stmt-HasNames a idx st (clean_authdata st) h refl
    loaded st (some i) h = load_item-IsSetter dec a idx st i h

    at :
        (o : Option Stmt)
        → get_elem? a.stmt idx ≡ o
        → IsSetter a (
            at_stmt
              (λ st.
                load_item dec a idx
                  (clean_authdata st)
                  (elim b [ none ↦ none | some bs ↦ dec.load bs ]))
              a
              o)
    at none h = (refl, refl, refl, refl)
    at (some st) h = loaded st (elim b [ none ↦ none | some bs ↦ dec.load bs ]) h

    go :
        (bad : Bool)
        → IsSetter a (
            if bad
            then (err_invalid_argument, a)
            else at_stmt
                (λ st.
                  load_item dec a idx
                    (clean_authdata st)
                    (elim b [ none ↦ none | some bs ↦ dec.load bs ]))
                a
                (get_elem? a.stmt idx))
    go true = (refl, refl, refl, refl)
    go false = at (get_elem? a.stmt idx) refl

pub set_sig-IsSetter : (a : Assert) (idx : ℕ) (b : Blob) → IsSetter a (fido_assert_set_sig a idx b)
unfolding fido_assert_set_sig
set_sig-IsSetter a idx b = go (leb a.stmt_len idx || fido_blob_is_empty b)
  where
    stored :
        (st : Stmt) (r : Bool × Blob)
        → get_elem? a.stmt idx ≡ some st
        → IsSetter a (store_sig a idx st r)
    stored st (false, s) h = put_stmt-HasNames a idx st _ h refl
    stored st (true, s) h = put_stmt-HasNames a idx st _ h refl

    at :
        (o : Option Stmt)
        → get_elem? a.stmt idx ≡ o
        → IsSetter a (at_stmt (λ st. store_sig a idx st (fido_blob_set b)) a o)
    at none h = (refl, refl, refl, refl)
    at (some st) h = stored st (fido_blob_set b) h

    go :
        (bad : Bool)
        → IsSetter a (
            if bad
            then (err_invalid_argument, a)
            else at_stmt (λ st. store_sig a idx st (fido_blob_set b)) a (get_elem? a.stmt idx))
    go true = (refl, refl, refl, refl)
    go false = at (get_elem? a.stmt idx) refl
