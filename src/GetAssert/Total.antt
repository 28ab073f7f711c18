-- ===== src/GetAssert/Total.antt =====
-- src/assert.c: the request for an assertion and the count of the statements, in any world.
use fido2_manage.Prelude.{
  ℕ, zero, suc, ◌-◌, ◌≡◌, refl, ap, subst, Bool, true, false, not, ◌||◌, List, [], ◌∷◌, ◌++◌,
  Option, none, some, take, replicate, ltb, ◌==◌, arith, Bool-cases, inl, inr, some_equal, ◌∙◌,
}
use fido2_manage.Platform.{World}
use fido2_manage.Err.{err_tx, err_internal, err_invalid_argument}
use fido2_manage.Try.{val, give-Ends, throw-Ends}
use fido2_manage.Ends.{Ends}
use fido2_manage.Device.{Dev}
use fido2_manage.Io.{fido_tx}
use fido2_manage.Io.Total.{fido_tx-Stops}
use fido2_manage.Blob.{Blob}
use fido2_manage.Assert.{Assert}
use fido2_manage.Assert.Stmts.{Decoder}
use fido2_manage.Cbor.{Value, Pairs, cbor_parse_reply, boolean}
use fido2_manage.Cbor.Auth.{pin_protocol, cbor_encode_pin_auth}
use fido2_manage.Cbor.Decode.{cbor_decode_uint64}
use fido2_manage.Cbor.Invariant.{parse_reply_inv, by_number_inv}
use fido2_manage.Cbor.Encode.{Chars, add_if, has_ext, ext_cred_blob, ext_hmac_secret}
use fido2_manage.Ctap.{Calls, cmd_cbor}
use fido2_manage.Ctap.Total.{
  IsPlain, AnyCode, AnyRet, any_option, any_then, any_try, send_frame-Ends, aes256_cbc_enc-Ends,
}
use fido2_manage.Pin.Total.{add_uv_params-Ends}
use fido2_manage.Listing.{Listing}
use fido2_manage.Listing.Whole.{IsKind}
use fido2_manage.GetAssert.Request.{
  Key, salted, cbor_encode_hmac_secret_param, add_hmac_secret, any_extension,
  cbor_encode_assert_ext, wants_token, encode_ext, encode_uv, cbor_assert, fido_dev_get_assert_tx,
}
use fido2_manage.GetAssert.Reply.{
  Statement, blank_statement, set_count, adjust_step, adjust_assert_count,
}
use fido2_manage.GetAssert.{fido_get_next_assert_tx, statements}

-- Blank statements, one at least.
abbrev pub IsReady : Listing Statement → Type 0
IsReady l =
    (l.ptr ≡ replicate l.n_alloc blank_statement) × ((l.n_rx ≡ 0) × ((l.n_alloc == 0) ≡ false))

abbrev refused : Listing Statement → ℕ → Bool
refused l n = not (l.n_rx == 0) || not (l.n_alloc == 1) || ltb n l.n_alloc

pub no_value : {A : Type 0} {a : A} → none ≡ some a → ⊥
no_value e = cc

take-nil : {A : Type 0} (n : ℕ) → take {A = A} n [] ≡ []
take-nil zero = refl
take-nil (suc n) = refl

room_lem :
    (n : ℕ)
    → (n == 0) ≡ false
    → take n (blank_statement ∷ []) ++ replicate (n - 1) blank_statement
      ≡ replicate n blank_statement
room_lem zero h = cc
room_lem (suc n) h = let e : suc n - 1 ≡ n = omega arith in rw (e, take-nil n) refl

set-IsReady :
    (n : ℕ) (l l' : Listing Statement) → IsReady l → set_count l (some n) ≡ some l' → IsReady l'
set-IsReady n l l' ready h = elim (Bool-cases (refused l n)) [
  | inl bad ↦ absurd (no_value (rw bad at h))
  | inr good ↦
      let one : l.n_alloc ≡ 1 = ground (arith, good, ready.1.0, ready.1.1) in
      let some_left : (n == 0) ≡ false = ground (arith, good, ready.1.0, ready.1.1) in
      let ptr : l.ptr ≡ blank_statement ∷ [] =
        ready.0 ∙ ap (λ m. replicate m blank_statement) one in
      subst IsReady (some_equal (rw good at h)) (rw ptr (room_lem n some_left), (refl, some_left))
]

step-IsReady :
    (n : ℕ) (v : Value) (l l' : Listing Statement)
    → IsReady l
    → adjust_step n v l ≡ some l'
    → IsReady l'
step-IsReady n v l l' ready h = elim (Bool-cases (n == 5)) [
  | inl counted ↦ count (cbor_decode_uint64 v) (rw counted at h)
  | inr other_key ↦ subst IsReady (some_equal (rw other_key at h)) ready
]
  where
    count : (o : Option ℕ) → set_count l o ≡ some l' → IsReady l'
    count none e = absurd (no_value e)
    count (some m) e = set-IsReady m l l' ready e

module _ (c : Calls) (dec : Decoder) (d : Dev) (plain : IsPlain c d) where
  pub counted-IsReady :
      (msg : List ℕ) (l : Listing Statement)
      → cbor_parse_reply c.cbor msg adjust_assert_count
          (record { ptr = blank_statement ∷ []; n_alloc = 1; n_rx = 0 })
        ≡ val l
      → IsReady l
  unfolding adjust_assert_count
  counted-IsReady msg l h =
      parse_reply_inv IsReady adjust_assert_count (by_number_inv IsReady adjust_step step-IsReady)
        c.cbor msg _ l (refl, (refl, refl)) h

  next_tx-Ends : (w : World) → Ends AnyRet (fido_get_next_assert_tx c d w)
  unfolding fido_get_next_assert_tx
  next_tx-Ends w =
      any_try err_tx (fido_tx c.driver d cmd_cbor (0x08 ∷ []) w)
        (fido_tx-Stops c.driver d cmd_cbor (0x08 ∷ []) w plain.transport_tx)

  pub statements_kind : IsKind c d (statements c dec)
  statements_kind = record {
    ask = next_tx-Ends;
    fresh = λ msg l h.
        let ready = counted-IsReady msg l h in record { ptr = ready.0; n_rx = ready.1.0 };
  }

  hmac-Ends :
      (item : Pairs) (key : Key) (salt : Blob) (w : World)
      → Ends AnyRet (cbor_encode_hmac_secret_param c d item key salt w)
  unfolding cbor_encode_hmac_secret_param
  hmac-Ends item key salt w = any_then _ _ (any_option err_internal (salted key salt) w) λ s w1.
      any_then _ _ (aes256_cbc_enc-Ends c d plain s.0.1 s.1 w1) λ enc w2.
        any_then _ _ (any_option err_internal (pin_protocol d) w2) λ prot w3.
          any_then _ _ (any_option err_internal (cbor_encode_pin_auth c.hmac_sha256 d s.0.1 enc) w3)
            λ auth w4.
              any_then _ _ (any_option err_internal _ w4) λ param w5. give-Ends AnyCode _ w5 tt

  add_hmac-Ends :
      (mask : ℕ) (salt : Blob) (key : Key) (item : Pairs) (w : World)
      → Ends AnyRet (add_hmac_secret c d mask salt key item w)
  add_hmac-Ends mask salt key item w = elim (Bool-cases (has_ext mask ext_hmac_secret)) [
    | inl asked ↦ rw asked (hmac-Ends item key salt w)
    | inr not_asked ↦ rw not_asked (give-Ends AnyCode item w tt)
  ]

  assert_ext-Ends :
      (mask : ℕ) (salt : Blob) (key : Key) (w : World)
      → Ends AnyRet (cbor_encode_assert_ext c d mask salt key w)
  unfolding cbor_encode_assert_ext
  assert_ext-Ends mask salt key w = elim (Bool-cases (any_extension mask)) [
    | inl known ↦ rw known (
        any_then _ _
          (add_hmac-Ends mask salt key
            (add_if (has_ext mask ext_cred_blob) [] "credBlob" (boolean true)) w)
          λ item w1. give-Ends AnyCode _ w1 tt)
    | inr unknown ↦ rw unknown (throw-Ends AnyCode err_internal w tt)
  ]

  ext-Ends : (a : Assert) (key : Key) (w : World) → Ends AnyRet (encode_ext c d a key w)
  ext-Ends a key w = elim (Bool-cases (a.ext_mask == 0)) [
    | inl none_asked ↦ rw none_asked (give-Ends AnyCode none w tt)
    | inr some_asked ↦ rw some_asked (
        any_then _ _ (assert_ext-Ends a.ext_mask a.hmac_salt key w)
          λ v w1. give-Ends AnyCode (some v) w1 tt)
  ]

  uv-Ends :
      (a : Assert) (key : Key) (pin : Chars) (rp_id cdh : List ℕ) (w : World)
      → Ends AnyRet (encode_uv c d a key pin rp_id cdh w)
  uv-Ends a key pin rp_id cdh w = elim (Bool-cases (wants_token d a pin)) [
    | inr unwanted ↦ rw unwanted (give-Ends AnyCode _ w tt)
    | inl wanted ↦ rw wanted (
        any_then _ _
          (any_then _ _ (any_option err_internal key w)
            λ k w1. add_uv_params-Ends c d plain cbor_assert cdh k.0 k.1 pin (some rp_id) w1)
          λ p w2. give-Ends AnyCode _ w2 tt)
  ]

  pub tx-Ends :
      (a : Assert) (key : Key) (pin : Chars) (w : World)
      → Ends AnyRet (fido_dev_get_assert_tx c d a key pin w)
  unfolding fido_dev_get_assert_tx
  tx-Ends a key pin w = any_then _ _ (any_option err_invalid_argument a.rp_id w) λ rp_id w1.
      any_then _ _ (any_option err_invalid_argument a.cdh w1) λ cdh w2.
        any_then _ _ (ext-Ends a key w2) λ ext w3.
          any_then _ _ (uv-Ends a key pin rp_id cdh w3)
            λ uv w4. send_frame-Ends c d plain cbor_assert _ w4
