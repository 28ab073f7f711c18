-- ===== src/GetAssert/Reply.antt =====
-- src/assert.c and src/cbor.c: the statement that a device answers with.
use mathlib.Core.Option
use fido2_manage.Prelude.{
  ℕ, ◌-◌, ◌||◌, not, List, [], ◌++◌, Option, none, some, length, take, drop, replicate, bit_and,
  bit_or, ltb, ◌==◌, if◌then◌else◌,
}
use fido2_manage.Blob.{Blob}
use fido2_manage.Assert.{Stmt}
use fido2_manage.Assert.Stmts
use fido2_manage.Assert.Stmts.{
  Decoder, other, blank_stmt, cbor_decode_assert_authdata, sizeof_authdata,
}
use fido2_manage.Cbor.{
  Value, bytestring, Parser, Libcbor, Item, definite_map, cbor_map_iter, cbor_bytestring_copy,
}
use fido2_manage.Cbor.Encode.{User, ext_hmac_secret, ext_cred_blob}
use fido2_manage.Cbor.Decode.{
  by_name, by_number, named, cbor_decode_uint64, cbor_decode_cred_id, cbor_decode_user,
}
use fido2_manage.Listing.{Listing}

-- `fido_assert_extattr_t`
pub record ExtAttr : Type 0 where
  pub mask : ℕ
  pub hmac_secret_enc : Blob
  pub blob : Blob

abbrev pub blank_ext : ExtAttr
blank_ext = record { mask = 0; hmac_secret_enc = none; blob = none }

unfoldable pub decode_assert_extension : Parser ExtAttr
decode_assert_extension = by_name λ name v ext.
    if named name "hmac-secret"
    then Option.map
        (λ b. record ext { hmac_secret_enc = b; mask = bit_or ext.mask ext_hmac_secret })
        (cbor_bytestring_copy v ext.hmac_secret_enc)
    else if named name "credBlob"
    then Option.map (λ b. record ext { blob = b; mask = bit_or ext.mask ext_cred_blob })
        (cbor_bytestring_copy v ext.blob)
    else some ext

abbrev pub iter_extensions : Option Item → Option ExtAttr
iter_extensions (some (definite_map pairs)) = cbor_map_iter decode_assert_extension pairs blank_ext
iter_extensions item = none

unfoldable pub decode_assert_extensions : Libcbor → List ℕ → Option ExtAttr
decode_assert_extensions l bs = iter_extensions (l.load bs)

-- A `fido_assert_stmt`: what verification reads of it, and the rest.
pub record Statement : Type 0 where
  pub stmt : Stmt
  pub user : User
  pub hmac_secret : Blob
  pub ext : ExtAttr
  pub largeblob_key : Blob

abbrev pub blank_statement : Statement
blank_statement = record {
  stmt = blank_stmt;
  user = record { id = none; icon = none; name = none; display_name = none };
  hmac_secret = none;
  ext = blank_ext;
  largeblob_key = none;
}

-- The decoder of authenticator data, with the mask of these extensions.
abbrev pub decoder_of : Libcbor → Decoder → Decoder
decoder_of l dec = record dec {
  extensions = λ bs. Option.map (λ (e : ExtAttr). e.mask) (decode_assert_extensions l bs);
}

abbrev pub as_item : Value → Stmts.Item
as_item (bytestring bs) = Stmts.bytestring bs
as_item v = other

abbrev as_bytes : Value → List ℕ
as_bytes (bytestring bs) = bs
as_bytes v = []

-- The attributes that follow the authenticator data, where their flag is set.
abbrev pub extensions_of : Libcbor → List ℕ → Statement → Stmt → Option Statement
extensions_of l bs r st =
    if bit_and st.flags 0x80 == 0
    then some (record r { stmt = st })
    else Option.map (λ e. record r { stmt = st; ext = e })
        (decode_assert_extensions l (drop sizeof_authdata bs))

abbrev pub with_stmt : Libcbor → List ℕ → Statement → Option Stmt → Option Statement
with_stmt l bs r none = none
with_stmt l bs r (some st) = extensions_of l bs r st

-- `fido_blob_decode` into `authdata_raw`, and then the authenticator data.
abbrev pub put_authdata : Libcbor → Decoder → Value → Statement → Option Blob → Option Statement
put_authdata l dec v r none = none
put_authdata l dec v r (some raw) = with_stmt l (as_bytes v) r (
    cbor_decode_assert_authdata (decoder_of l dec) (as_item v)
      (record r.stmt { authdata_raw = raw }))

unfoldable pub parse_assert_reply : Libcbor → Decoder → Parser Statement
parse_assert_reply l dec = by_number λ n v r.
    if n == 1
    then Option.map (λ b. record r { stmt = record r.stmt { id = b } })
        (cbor_decode_cred_id v r.stmt.id)
    else if n == 2
    then put_authdata l dec v r (cbor_bytestring_copy v r.stmt.authdata_raw)
    else if n == 3
    then Option.map (λ b. record r { stmt = record r.stmt { sig = b } })
        (cbor_bytestring_copy v r.stmt.sig)
    else if n == 4
    then Option.map (λ u. record r { user = u }) (cbor_decode_user v r.user)
    else if n == 7
    then Option.map (λ b. record r { largeblob_key = b }) (cbor_bytestring_copy v r.largeblob_key)
    else some r

-- Room for `n` statements, none received. The list is fresh, with room for one statement.
abbrev pub set_count : Listing Statement → Option ℕ → Option (Listing Statement)
set_count l none = none
set_count l (some n) =
    if not (l.n_rx == 0) || not (l.n_alloc == 1) || ltb n l.n_alloc
    then none
    else some (record {
      ptr = take n l.ptr ++ replicate (n - length l.ptr) blank_statement;
      n_alloc = n;
      n_rx = 0;
    })

abbrev pub adjust_step : ℕ → Value → Listing Statement → Option (Listing Statement)
adjust_step n v l = if n == 5 then set_count l (cbor_decode_uint64 v) else some l

unfoldable pub adjust_assert_count : Parser (Listing Statement)
adjust_assert_count = by_number adjust_step
