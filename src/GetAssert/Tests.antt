-- ===== src/GetAssert/Tests.antt =====
-- src/assert.c: an assertion from a device that answers, and a theorem at a concrete input.
use fido2_manage.Prelude.{
  arith, ◌++◌, ◌-◌, length, List, ℕ, ◌≡◌, refl, true, [], ◌∷◌, some, none, replicate, codes, pos,
}
use fido2_manage.Platform.{World, ok}
use fido2_manage.Try.{OnRet}
use fido2_manage.Ends.{Ends}
use fido2_manage.Assert.{Assert, opt_omit}
use fido2_manage.Assert.Stmts
use fido2_manage.Session.{fido_dev_is_fido2}
use fido2_manage.U2f
use fido2_manage.U2f.Wait
use fido2_manage.Device.{Dev}
use fido2_manage.Prelude.{false}
use fido2_manage.GetAssert.OverU2f.{IsAllowed, get_assert-IsAllowed}
use fido2_manage.Ctap.Samples.{fresh, toy, toy-IsPlain, frame, answering}
use fido2_manage.Ctap.Total.{AnyCode}
use fido2_manage.GetAssert.{fido_dev_get_assert}
use fido2_manage.GetAssert.Answered.{IsAnswered, get_assert-IsAnswered}

abbrev u2f : U2f.Calls
u2f = record {
  driver = toy.driver;
  usleep = λ n w. (ok tt, w);
  sha256 = toy.sha256;
  decoder = record {
    load = λ bs. some (Stmts.bytestring bs);
    serialize = λ bs. 0x58 ∷ bs;
    extensions = λ bs. none;
  };
}

abbrev wanted : Assert
wanted = record {
  rp_id = some (codes "example.org");
  cd = none;
  cdh = some (replicate 32 1);
  allow_list = [];
  up = opt_omit;
  uv = opt_omit;
  ext_mask = 0;
  hmac_salt = none;
  stmt = [];
  stmt_len = 0;
}

-- The device answers with one statement.
abbrev signing : World
signing = answering (frame 0 1 ∷ [])

fresh_lem : fido_dev_is_fido2 fresh ≡ true
unfolding fido_dev_is_fido2
fresh_lem = refl

get_assert-IsAnswered_example :
    Ends
      (OnRet AnyCode (λ g v.
        IsAnswered toy u2f.decoder fresh wanted none (record signing { ms = pos 1000 }) g v))
      (fido_dev_get_assert toy u2f fresh wanted none signing)
get_assert-IsAnswered_example =
    get_assert-IsAnswered toy u2f fresh toy-IsPlain wanted none signing fresh_lem

-- A device that speaks U2F only.
abbrev old : Dev
old = record fresh { attr = record fresh.attr { flags = 0 } }

abbrev listed : Assert
listed = record wanted { allow_list = some (3 ∷ []) ∷ some (4 ∷ []) ∷ [] }

u2f-IsPlain : Wait.IsPlain u2f old
u2f-IsPlain = record {
  usleep = λ n w. record { stops = record { ends = λ e. cc; value = λ a e. tt }; incoming = refl };
  transport_tx = refl;
  transport_rx = refl;
  rx_len = omega arith;
}

old_lem : fido_dev_is_fido2 old ≡ false
unfolding fido_dev_is_fido2
old_lem = refl

-- A U2F message.
abbrev message : List ℕ → List ℕ
message bs = 0x44 ∷ 0x33 ∷ 0x22 ∷ 0x11 ∷ 0x83 ∷ 0 ∷ length bs ∷ bs ++ replicate (57 - length bs) 0

-- The device does not know the first credential, and signs with the second one.
abbrev second_known : World
second_known = answering (
    message (0x6a ∷ 0x80 ∷ [])
    ∷ message (0x69 ∷ 0x85 ∷ [])
    ∷ message (0x69 ∷ 0x85 ∷ [])
    ∷ message (1 ∷ 0 ∷ 0 ∷ 0 ∷ 9 ∷ 0xaa ∷ 0x90 ∷ 0 ∷ [])
    ∷ [])

get_assert-IsAllowed_example :
    Ends
      (OnRet AnyCode (λ g v. IsAllowed listed none g))
      (fido_dev_get_assert toy u2f old listed none second_known)
get_assert-IsAllowed_example =
    get_assert-IsAllowed toy u2f old u2f-IsPlain listed none second_known old_lem refl refl
