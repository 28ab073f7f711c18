-- ===== src/Pin/Tests.antt =====
-- Runs of the PIN commands with a device that gives the reports below, and theorems at concrete
-- inputs.
use fido2_manage.Prelude.{
  ℕ, ◌≡◌, refl, [], ◌∷◌, ◌++◌, none, some, arith, replicate, codes, length-replicate,
}
use fido2_manage.Platform.{World}
use fido2_manage.Try.{val, OnRet}
use fido2_manage.Ends.{Ends}
use fido2_manage.Ctap.{aes256_cbc_dec, aes256_cbc_enc, aes256_cbc_fips_enc, aes256_cbc}
use fido2_manage.Flags.{fido_dev_get_pin_protocol}
use fido2_manage.Ctap.Samples.{fresh, toy, toy-IsPlain, frame, answering}
use fido2_manage.Ctap.Total.{AnyCode}
use fido2_manage.Pin.{pad64}
use fido2_manage.Pin.Change.{fido_dev_set_pin}
use fido2_manage.Pin.Secret.{IsCipher, cbc_dec-cbc_enc}
use fido2_manage.Pin.Changed.{IsPermitted, IsChanged, set_pin-IsChanged}

toy-IsCipher : IsCipher toy
toy-IsCipher = record {
  inverse = λ key iv bs out e. cc;
  same_length = λ key iv bs out e. ground (arith, e);
  random_length = λ n w bs e. ground (arith, e, length-replicate {A = ℕ} n 5);
}

-- The device gives its key, and accepts the PIN.
abbrev accepting : World
accepting = answering (frame 0 1 ∷ frame 0 0 ∷ [])

padded : pad64 (codes "1234") ≡ val (codes "1234" ++ replicate 60 0)
unfolding pad64
padded = refl

cbc_dec-cbc_enc_example :
    aes256_cbc_dec toy fresh (replicate 64 1) (replicate 16 5 ++ replicate 32 6)
    ≡ some (replicate 32 6)
unfolding aes256_cbc_enc fido_dev_get_pin_protocol aes256_cbc_fips_enc aes256_cbc
cbc_dec-cbc_enc_example =
    cbc_dec-cbc_enc toy toy-IsCipher fresh (replicate 64 1) (replicate 32 6) accepting
      (replicate 16 5 ++ replicate 32 6) refl

set_pin-IsChanged_example :
    Ends
      (OnRet AnyCode (λ d' v. IsPermitted (codes "1234") × IsChanged fresh d'))
      (fido_dev_set_pin toy fresh (codes "1234") none accepting)
set_pin-IsChanged_example =
    set_pin-IsChanged toy fresh toy-IsPlain (codes "1234") none accepting (omega arith)
