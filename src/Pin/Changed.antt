-- ===== src/Pin/Changed.antt =====
-- src/pin.c: what a successful change of the PIN means.
use fido2_manage.Prelude.{
  ℕ, ◌≤◌, ◌<◌, ◌≡◌, without, refl, Bool, true, false, not, ◌&&◌, ◌||◌, List, [], none, some, length,
  ◌==◌, ==_iff, bit_and, bit_or, exceptions, exceptions-none, if◌then◌else◌, arith,
}
use fido2_manage.Platform.{World, Result}
use fido2_manage.Err.{err_internal, err_invalid_argument}
use fido2_manage.Try.{Ret, val, err, OnRet, then-Ends, give-Ends, try_option}
use fido2_manage.Ends.{Ends, weaken-Ends}
use fido2_manage.Device.{Dev}
use fido2_manage.Flags.{has, dev_pin_set, dev_pin_unset}
use fido2_manage.Cbor.Auth.{cbor_encode_pin_auth, cbor_encode_pin_opt, cbor_encode_change_pin_auth}
use fido2_manage.Cbor.Encode.{Chars}
use fido2_manage.Ctap.{Calls, cbor_client_pin, aes256_cbc_enc}
use fido2_manage.Ctap.Total.{
  IsPlain, AnyCode, AnyRet, any_option, any_then, give_ret-Ends, send_frame-Ends,
  aes256_cbc_enc-Ends, fido_do_ecdh-Ends, device_accepts-Ends,
}
use fido2_manage.Pin.Total.{sha256_enc-Ends}
use fido2_manage.Pin.{pad64, pin_pad64_enc, non_empty}
use fido2_manage.Pin.Change.{
  fido_dev_change_pin_tx, fido_dev_set_pin_tx, set_or_change, pin_now_set, fido_dev_set_pin,
}

abbrev pub IsPermitted : List ℕ → Type 0
IsPermitted pin = (4 ≤ length pin) × (length pin ≤ 63)

pad64-IsPermitted : (pin out : List ℕ) → pad64 pin ≡ val out → IsPermitted pin
unfolding pad64
pad64-IsPermitted pin out h = ground arith

-- The flags of src/extern.h take 13 bits.
abbrev pub all_flags : ℕ
all_flags = 8192

abbrev others : ℕ
others = 0x1ffc

abbrev flags_after : ℕ → ℕ
flags_after f = if has dev_pin_unset f then bit_or (without dev_pin_unset f) dev_pin_set else f

abbrev good_flags : ℕ → Bool
good_flags f =
    not (has dev_pin_unset (flags_after f))
    && (not (has dev_pin_unset f) || has dev_pin_set (flags_after f))
    && bit_and (flags_after f) others == bit_and f others

flags_table : exceptions good_flags all_flags ≡ []
unfolding exceptions
flags_table = refl

-- The device that the library sees afterwards: it has a PIN if it had none, it is not one that could
-- have a PIN and has none, and no other flag is changed.
pub record IsChanged (d d' : Dev) : Type 0 where
  pub not_unset : has dev_pin_unset d'.flags ≡ false
  pub now_set : has dev_pin_unset d.flags ≡ true → has dev_pin_set d'.flags ≡ true
  pub others_kept : bit_and d'.flags others ≡ bit_and d.flags others

pin_now_set-flags : (d : Dev) → (pin_now_set d).flags ≡ flags_after d.flags
unfolding pin_now_set
pin_now_set-flags d = ground arith

pin_now_set-IsChanged : (d : Dev) → d.flags < all_flags → IsChanged d (pin_now_set d)
pin_now_set-IsChanged d h =
    let good = exceptions-none good_flags all_flags d.flags flags_table h in
    let same = pin_now_set-flags d in
    record {
      not_unset = rw same (ground (arith, good));
      now_set = λ u. rw same (ground (arith, good, u));
      others_kept = rw same ((==_iff _ _).0 (ground (arith, good)));
    }

pin_known :
    {A : Type 0} (pin : List ℕ)
    → IsPermitted pin
    → (r : Result (Ret A) × World) → Ends AnyRet r
    → Ends (OnRet AnyCode (λ a v. IsPermitted pin)) r
pin_known {A = A} pin h r e = weaken-Ends r e each
  where
    each : (a : Ret A) (v : World) → AnyRet a v → OnRet AnyCode (λ a v. IsPermitted pin) a v
    each (val a) v u = h
    each (err code) v u = tt

module _ (c : Calls) (d : Dev) (plain : IsPlain c d) where
  pad64_enc-Ends :
      (shared pin : List ℕ) (w : World)
      → Ends (OnRet AnyCode (λ out v. IsPermitted pin)) (pin_pad64_enc c d shared pin w)
  unfolding pin_pad64_enc
  pad64_enc-Ends shared pin w = then-Ends AnyCode _ _ (give_ret-Ends (pad64 pin) w) λ ppin w1 e.
      pin_known pin (pad64-IsPermitted pin ppin e) (aes256_cbc_enc c d shared ppin w1)
        (aes256_cbc_enc-Ends c d plain shared ppin w1)

  pin_opt-Ends : (w : World) → Ends AnyRet (try_option err_internal (cbor_encode_pin_opt d) w)
  pin_opt-Ends w = any_option err_internal (cbor_encode_pin_opt d) w

  set_tx-Ends :
      (pin : List ℕ) (w : World)
      → Ends (OnRet AnyCode (λ u v. IsPermitted pin)) (fido_dev_set_pin_tx c d pin w)
  unfolding fido_dev_set_pin_tx
  set_tx-Ends pin w = then-Ends AnyCode _ _ (fido_do_ecdh-Ends c d plain w) λ k w1 e1.
      then-Ends AnyCode _ _ (pad64_enc-Ends k.1 pin w1) λ ppine w2 good. pin_known pin good _ (
        any_then _ _ (pin_opt-Ends w2) λ opt w3.
          any_then _ _ (any_option err_internal (cbor_encode_pin_auth c.hmac_sha256 d k.1 ppine) w3)
            λ auth w4. send_frame-Ends c d plain cbor_client_pin _ w4)

  change_tx-Ends :
      (pin oldpin : List ℕ) (w : World)
      → Ends (OnRet AnyCode (λ u v. IsPermitted pin)) (fido_dev_change_pin_tx c d pin oldpin w)
  unfolding fido_dev_change_pin_tx
  change_tx-Ends pin oldpin w =
      then-Ends AnyCode _ _ (any_option err_invalid_argument (non_empty oldpin) w) λ opin w0 e0.
        then-Ends AnyCode _ _ (fido_do_ecdh-Ends c d plain w0) λ k w1 e1.
          then-Ends AnyCode _ _ (pad64_enc-Ends k.1 pin w1) λ ppine w2 good. pin_known pin good _ (
            any_then _ _ (sha256_enc-Ends c d plain k.1 opin w2) λ opinhe w3.
              any_then _ _ (pin_opt-Ends w3) λ opt w4.
                any_then _ _
                  (any_option err_internal
                    (cbor_encode_change_pin_auth c.hmac_sha256 d k.1 ppine opinhe) w4)
                  λ auth w5. send_frame-Ends c d plain cbor_client_pin _ w5)

  set_or_change-Ends :
      (pin : List ℕ) (oldpin : Chars) (w : World)
      → Ends (OnRet AnyCode (λ u v. IsPermitted pin)) (set_or_change c d pin oldpin w)
  set_or_change-Ends pin none w = set_tx-Ends pin w
  set_or_change-Ends pin (some oldpin) w = change_tx-Ends pin oldpin w

  -- Setting or changing the PIN of a device whose flags are those of src/extern.h ends in every
  -- world without transport functions, with reports of at least 8 bytes and random bytes and keys
  -- that are given or not. If it succeeds, the new PIN has 4 to 63 bytes, the device is no longer
  -- one that can have a PIN and has none, it has a PIN if it was one, and its other flags are kept.
  pub set_pin-IsChanged :
      (pin : List ℕ) (oldpin : Chars) (w : World)
      → d.flags < all_flags
      → Ends
          (OnRet AnyCode (λ d' v. IsPermitted pin × IsChanged d d'))
          (fido_dev_set_pin c d pin oldpin w)
  unfolding fido_dev_set_pin
  set_pin-IsChanged pin oldpin w h =
      then-Ends AnyCode _ _ (set_or_change-Ends pin oldpin (record w { ms = d.timeout_ms }))
        λ u w1 good.
          then-Ends AnyCode _ _ (device_accepts-Ends c d plain w1)
            λ u2 w2 e2. give-Ends AnyCode (pin_now_set d) w2 (good, pin_now_set-IsChanged d h)
