-- ===== src/GetAssert/Answered.antt =====
-- src/assert.c: getting assertions from a FIDO2 device, in any world.
use mathlib.Core.Option
use fido2_manage.Prelude.{
  ℕ, suc, ◌≤◌, ◌≡◌, refl, ap, sym, subst, true, false, List, [], ◌∷◌, Option, none, some, arith,
  Bool-cases, inl, inr, some_equal,
}
use fido2_manage.Platform.{World, ok}
use fido2_manage.Err.{err_internal, err_invalid_argument}
use fido2_manage.Try.{val, OnRet, OnRet-map, then-Ends, give-Ends, option-Ends}
use fido2_manage.Ends.{Ends, weaken-Ends}
use fido2_manage.Device.{Dev}
use fido2_manage.Session.{fido_dev_is_fido2}
use fido2_manage.Assert.{Assert}
use fido2_manage.Assert.Stmts.{Decoder}
use fido2_manage.U2f
use fido2_manage.Cbor.{cbor_parse_reply}
use fido2_manage.Cbor.Encode.{Chars, Es256Pk, has_ext, ext_hmac_secret}
use fido2_manage.Ctap.{Calls, receive}
use fido2_manage.Ctap.Total.{
  IsPlain, AnyCode, AnyRet, any_then, receive-Ends, fido_do_ecdh-Ends, outcome-Ends,
  parsed_here-Ends,
}
use fido2_manage.Listing.{Listing, rx_rest}
use fido2_manage.Listing.Meaning.{Counted, Fetched, first, more, IsListed, nothing, whole}
use fido2_manage.Listing.Whole.{first_parsed-Ends, finished-Ends, Begun}
use fido2_manage.GetAssert.Request.{Key, fido_dev_get_assert_tx}
use fido2_manage.GetAssert.Reply.{Statement, blank_statement, adjust_assert_count}
use fido2_manage.GetAssert.{
  statements, fido_dev_get_assert_rx, fido_dev_get_assert_wait, decrypt_hmac_secrets, decrypted,
  Got, by_fido2, wants_key, get_key, over_fido2, fido_dev_get_assert,
}
use fido2_manage.GetAssert.Total.{no_value, counted-IsReady, statements_kind, tx-Ends}
use fido2_manage.GetAssert.Secrets.{AreDecrypted, secrets-AreDecrypted}

module _ (c : Calls) (dec : Decoder) (d : Dev) (plain : IsPlain c d) where
  begin-Ends :
      (w : World)
      → Ends
          (OnRet AnyCode
            (λ l v. Begun c d plain (statements c dec) (statements_kind c dec d plain) w l v))
          (fido_dev_get_assert_rx c dec d w)
  unfolding fido_dev_get_assert_rx
  begin-Ends w =
      then-Ends AnyCode _ _ (outcome-Ends (receive c d w) (receive-Ends c d plain w)) λ msg w1 got.
        then-Ends AnyCode _ _
          (parsed_here-Ends
            (cbor_parse_reply c.cbor msg adjust_assert_count
              (record { ptr = blank_statement ∷ []; n_alloc = 1; n_rx = 0 }))
            w1)
          λ l w2 counted.
            let ready = counted-IsReady c dec d plain msg l counted.0 in
            first_parsed-Ends c d plain (statements c dec) (statements_kind c dec d plain) w l msg
              w2 (subst (λ x. receive c d w ≡ (ok (val msg), x)) (sym counted.1) got)
              (record { list = l; counted = counted.0; n_alloc = refl })
              (record { ptr = ready.0; n_rx = ready.1.0 }) ready.1.1

  positive_count : (n : ℕ) (msg : List ℕ) → Counted c (statements c dec) msg n → 1 ≤ n
  positive_count n msg counted =
      let ready = counted-IsReady c dec d plain msg counted.list counted.counted in
      ground (arith, ready.1.1, counted.n_alloc)

  positive_total :
      (w : World) (n : ℕ) (msgs : List (List ℕ)) (v : World)
      → Fetched c d (statements c dec) w n msgs v
      → 1 ≤ n
  positive_total w n _ v (first msg _ got counted) = positive_count n msg counted
  positive_total w n _ v (more msgs msg v0 v1 _ before asked got) =
      positive_total w n msgs v0 before

  positive_alloc :
      (w : World) (l : Listing Statement) (v : World)
      → IsListed c d (statements c dec) w l v
      → 1 ≤ l.n_alloc
  positive_alloc w l v (nothing msg got counted alloc rx) =
      absurd (omega (arith, positive_count 0 msg counted))
  positive_alloc w l v (whole n msgs fetched parsed alloc rx len) =
      omega (arith, alloc, positive_total w n msgs v fetched)

-- What becomes of the list that was fetched.
pub data IsFinished (c : Calls) (d : Dev) (a : Assert) (key : Key) (list : Listing Statement)
    (g : Got) : Type 0 where
  unasked :
      has_ext a.ext_mask ext_hmac_secret ≡ false → g ≡ by_fido2 list → IsFinished c d a key list g
  asked :
      (k : Es256Pk × List ℕ) (ss : List Statement)
      → has_ext a.ext_mask ext_hmac_secret ≡ true
      → key ≡ some k
      → AreDecrypted c d k.1 list.ptr ss
      → g ≡ by_fido2 (record list { ptr = ss })
      → IsFinished c d a key list g

pub record IsAnswered (c : Calls) (dec : Decoder) (d : Dev) (a : Assert) (pin : Chars) (w : World)
    (g : Got) (v : World) : Type 0 where
  pub key : Key
  pub list : Listing Statement
  pub agreed : World
  pub begun : World
  pub got_key : get_key c d a pin w ≡ (ok (val key), agreed)
  pub sent : fido_dev_get_assert_tx c d a key pin agreed ≡ (ok (val tt), begun)
  pub listed : IsListed c d (statements c dec) begun list v
  pub some_there : 1 ≤ list.n_alloc
  pub finished : IsFinished c d a key list g

decrypted-IsFinished :
    (c : Calls) (d : Dev) (a : Assert) (key : Key) (list list' : Listing Statement)
    → decrypted c d a key list ≡ some list'
    → IsFinished c d a key list (by_fido2 list')
decrypted-IsFinished c d a none list list' h =
    elim (Bool-cases (has_ext a.ext_mask ext_hmac_secret)) [
      | inl wanted ↦ absurd (no_value (rw wanted at h))
      | inr unwanted ↦ unasked unwanted (ap by_fido2 (sym (some_equal (rw unwanted at h))))
    ]
decrypted-IsFinished c d a (some k) list list' h =
    elim (Bool-cases (has_ext a.ext_mask ext_hmac_secret)) [
      | inl wanted ↦ opened_all wanted (decrypt_hmac_secrets c d k.1 list.ptr) refl (rw wanted at h)
      | inr unwanted ↦ unasked unwanted (ap by_fido2 (sym (some_equal (rw unwanted at h))))
    ]
  where
    opened_all :
        has_ext a.ext_mask ext_hmac_secret ≡ true
        → (o : Option (List Statement)) → decrypt_hmac_secrets c d k.1 list.ptr ≡ o
        → Option.map (λ ss. record list { ptr = ss }) o ≡ some list'
        → IsFinished c d a (some k) list (by_fido2 list')
    opened_all wanted none e m = absurd (no_value m)
    opened_all wanted (some ss) e m =
        asked k ss wanted refl (secrets-AreDecrypted c d k.1 list.ptr ss e)
          (ap by_fido2 (sym (some_equal m)))

module _ (c : Calls) (u : U2f.Calls) (d : Dev) (plain : IsPlain c d) where
  key-Ends : (a : Assert) (pin : Chars) (w : World) → Ends AnyRet (get_key c d a pin w)
  key-Ends a pin w = elim (Bool-cases (wants_key d a pin)) [
    | inl wanted ↦
        rw wanted
          (any_then _ _ (fido_do_ecdh-Ends c d plain w) λ k w1. give-Ends AnyCode (some k) w1 tt)
    | inr unwanted ↦ rw unwanted (give-Ends AnyCode none w tt)
  ]

  over_fido2-Ends :
      (a : Assert) (pin : Chars) (w : World)
      → Ends
          (OnRet AnyCode (λ g v. IsAnswered c u.decoder d a pin w g v))
          (over_fido2 c u.decoder d a pin w)
  unfolding fido_dev_get_assert_wait
  over_fido2-Ends a pin w =
      let dec = u.decoder in
      then-Ends AnyCode _ _ (outcome-Ends (get_key c d a pin w) (key-Ends a pin w))
        λ key w1 got_key. then-Ends AnyCode _ _ (wait-Ends key w1) λ l w4 p.
          option-Ends AnyCode err_internal (decrypted c d a key l) _ w4 tt λ l' e.
            give-Ends AnyCode (by_fido2 l') w4 (record {
              key = key;
              list = l;
              agreed = w1;
              begun = p.0;
              got_key = got_key;
              sent = p.1;
              listed = p.2;
              some_there = positive_alloc c dec d plain p.0 l w4 p.2;
              finished = decrypted-IsFinished c d a key l l' e;
            })
    where
      wait-Ends :
          (key : Key) (w1 : World)
          → Ends
              (OnRet AnyCode (λ l v.
                (begun : World) × (fido_dev_get_assert_tx c d a key pin w1 ≡ (ok (val tt), begun))
                × IsListed c d (statements c u.decoder) begun l v))
              (fido_dev_get_assert_wait c u.decoder d a key pin w1)
      wait-Ends key w1 =
          then-Ends AnyCode _ _
            (outcome-Ends (fido_dev_get_assert_tx c d a key pin w1)
              (tx-Ends c u.decoder d plain a key pin w1))
            λ u2 w2 sent. then-Ends AnyCode _ _ (begin-Ends c u.decoder d plain w2) λ l w3 b.
              weaken-Ends (rx_rest (statements c u.decoder) (suc l.n_alloc) c d l w3)
                (finished-Ends c d plain (statements c u.decoder)
                  (statements_kind c u.decoder d plain) w2 l w3 b)
                λ r v h. OnRet-map AnyCode _ _ r v (λ l' whole. (w2, sent, whole)) h

  -- In every world, without transport functions and with reports of at least 8 bytes, getting
  -- assertions from a FIDO2 device ends, however many statements the device announces. If it
  -- succeeds, a key was agreed where one is wanted, the request was sent, and the statements are as
  -- many as the device's first message announced, one at least, all of them received. Each is what is
  -- parsed from one of the device's messages in turn, the first one and the answers to the requests
  -- for the next, but for its secret, which is decrypted under the agreed key if the extension was
  -- asked for and the statement has one.
  pub get_assert-IsAnswered :
      (a : Assert) (pin : Chars) (w : World)
      → fido_dev_is_fido2 d ≡ true
      → Ends
          (OnRet AnyCode
            (λ g v. IsAnswered c u.decoder d a pin (record w { ms = d.timeout_ms }) g v))
          (fido_dev_get_assert c u d a pin w)
  unfolding fido_dev_get_assert
  get_assert-IsAnswered a pin w fido2 =
      option-Ends AnyCode err_invalid_argument a.rp_id _ _ tt λ rp_id e1.
        option-Ends AnyCode err_invalid_argument a.cdh _ _ tt
          λ cdh e2. rw fido2 (over_fido2-Ends a pin (record w { ms = d.timeout_ms }))
