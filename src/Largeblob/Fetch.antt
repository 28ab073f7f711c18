-- ===== src/Largeblob/Fetch.antt =====
-- src/largeblob.c: a fragment of the array, which takes an outcome of the driver's reads.
use fido2_manage.Prelude.{ℕ, ◌≤◌, ◌<◌, ◌≡◌, ap, refl, [], ◌∷◌, none, some, length, arith}
use fido2_manage.Platform.{World}
use fido2_manage.Err.{err_tx, err_rx}
use fido2_manage.Try.{Ret, val, err, OnRet, then-Ends, option-Ends, or_code-Ends, try}
use fido2_manage.Ends.{Ends, return-Ends, weaken-Ends}
use fido2_manage.Device.{Dev}
use fido2_manage.Blob.{Blob}
use fido2_manage.Io.{fido_tx}
use fido2_manage.Io.Total.{fido_tx-Quiet, fido_rx-Ends}
use fido2_manage.Cbor.{cbor_build_frame, cbor_build_uint}
use fido2_manage.Ctap.{cmd_cbor, fido_maxmsg, give_ret}
use fido2_manage.Ctap.Total.{AnyCode}
use fido2_manage.Largeblob.{Calls, cbor_largeblob, largeblob_get_tx, largeblob_get_rx, get_chunk}

-- The driver has no transport functions.
pub record IsPlain (c : Calls) (d : Dev) : Type 0 where
  pub transport_tx : c.ctap.driver.transport_tx ≡ none
  pub transport_rx : c.ctap.driver.transport_rx ≡ none
  pub rx_len : 8 ≤ d.rx_len

-- Whether fewer reads are left than in the first world.
abbrev pub Reads : {A : Type 0} → World → A → World → Type 0
Reads w a v = length v.incoming < length w.incoming

give_ret-Ends :
    {A : Type 0} (P : World → Type 0) (r : Ret A) (w : World)
    → P w
    → Ends (OnRet AnyCode (λ a v. P v)) (give_ret r w)
give_ret-Ends P (val a) w h = return-Ends (val a) w h
give_ret-Ends P (err code) w h = return-Ends (err code) w tt

module _ (c : Calls) (d : Dev) (plain : IsPlain c d) where
  get_tx-Ends :
      (offset count : ℕ) (w : World)
      → Ends (OnRet AnyCode (λ u v. v.incoming ≡ w.incoming)) (largeblob_get_tx c d offset count w)
  unfolding largeblob_get_tx
  get_tx-Ends offset count w =
      option-Ends AnyCode err_tx
        (cbor_build_frame c.ctap.cbor cbor_largeblob
          (some (cbor_build_uint count) ∷ none ∷ some (cbor_build_uint offset) ∷ []))
        (λ f. try err_tx (fido_tx c.ctap.driver d cmd_cbor f)) w tt
        λ f e.
          let sent =
            fido_tx-Quiet w.incoming c.ctap.driver d cmd_cbor f w plain.transport_tx refl in
          or_code-Ends AnyCode err_tx (fido_tx c.ctap.driver d cmd_cbor f w) tt
            (record { ends = sent.stops.ends; value = λ a h. sent.incoming })

  get_rx-Ends : (w : World) → Ends (OnRet AnyCode (Reads w)) (largeblob_get_rx c d w)
  unfolding largeblob_get_rx
  get_rx-Ends w =
      then-Ends AnyCode _ _
        (or_code-Ends AnyCode err_rx _ tt
          (fido_rx-Ends c.ctap.driver d cmd_cbor fido_maxmsg w plain.transport_rx plain.rx_len))
        λ msg w1 e. give_ret-Ends (λ v. length v.incoming < length w.incoming) _ w1 e.1

  -- A fragment takes an outcome of the driver's reads.
  pub get_chunk-Ends :
      (offset n : ℕ) (w : World) → Ends (OnRet AnyCode (Reads w)) (get_chunk c d offset n w)
  unfolding get_chunk
  get_chunk-Ends offset n w =
      then-Ends AnyCode _ _ (get_tx-Ends offset n w)
        λ u w1 e. weaken-Ends (largeblob_get_rx c d w1) (get_rx-Ends w1) (fewer w1 (ap length e))
    where
      fewer :
          (w1 : World)
          → length w1.incoming ≡ length w.incoming
          → (r : Ret Blob) (v : World) → OnRet AnyCode (Reads w1) r v
          → OnRet AnyCode (Reads w) r v
      fewer w1 e (val b) v h = omega (arith, e, h)
      fewer w1 e (err code) v h = tt
