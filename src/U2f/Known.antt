-- ===== src/U2f/Known.antt =====
-- src/u2f.c: which credentials the device knows, by its answers.
use fido2_manage.Prelude.{
  ℕ, ◌≡◌, refl, Bool, true, false, List, [], ◌∷◌, Option, none, some, length, replicate, ltb, ◌==◌,
  ==_iff, Bool-cases, inl, inr, SubList, done, skip, keep, if◌then◌else◌,
}
use fido2_manage.Platform.{World, ok}
use fido2_manage.Err.{err_tx, err_rx, err_internal, err_invalid_argument}
use fido2_manage.Try.{
  Ret, val, err, OnRet, or_code-Ends, throw, try, option-Ends, then-Ends, give-Ends, throw-Ends,
}
use fido2_manage.Ends.{Ends, weaken-Ends, outcome-Ends}
use fido2_manage.Device.{Dev}
use fido2_manage.Io.{fido_tx, fido_rx}
use fido2_manage.Io.Total.{fido_tx-Stops, fido_rx-Ends}
use fido2_manage.Apdu.{Apdu, apdu_bytes}
use fido2_manage.Blob.{Blob, blob_bytes}
use fido2_manage.Assert.{Opt}
use fido2_manage.U2f.{
  Calls, auth_apdu, key_lookup, key_status, do_auth, status_at, cmd_msg, fido_maxmsg,
  u2f_auth_check, sw_conditions_not_satisfied, sw_wrong_data,
}
use fido2_manage.U2f.Wait.{IsPlain, IsCallCode, auth_apdu-Ends}
use fido2_manage.U2f.Authenticate.{is_false}

-- The device was asked to check a credential, and its answer is a status word.
pub record Answers (c : Calls) (d : Dev) (rp_id : Option (List ℕ)) (key_id : Blob) (status : ℕ)
    (w w1 : World) : Type 0 where
  pub id : List ℕ
  pub hash : List ℕ
  pub request : Apdu
  pub reply : List ℕ
  pub built : World
  pub asked : World
  pub id_is : rp_id ≡ some id
  pub hash_is : c.sha256 id ≡ some hash
  pub request_is :
      auth_apdu 0x07 (replicate 32 0xff) hash (blob_bytes key_id) w ≡ (ok (val request), built)
  pub sent : fido_tx c.driver d cmd_msg (apdu_bytes request) built ≡ (ok tt, asked)
  pub got : fido_rx c.driver d cmd_msg fido_maxmsg asked ≡ (ok reply, w1)
  pub word : length reply ≡ 2
  pub status_is : status_at 0 reply ≡ status

-- The status words of a key that the device knows, and of another.
abbrev pub known_status : ℕ
known_status = 0x6985

abbrev pub unknown_status : ℕ
unknown_status = 0x6a80

abbrev pub Looked : Calls → Dev → Option (List ℕ) → Blob → World → Bool → World → Type 0
Looked c d rp_id key_id w found w1 =
    Answers c d rp_id key_id (if found then known_status else unknown_status) w w1

module _ (c : Calls) (d : Dev) (plain : IsPlain c d) (rp_id : Option (List ℕ)) (key_id : Blob) where
  status_lem :
      (reply : List ℕ) (w w1 : World)
      → ((status : ℕ)
          → status_at 0 reply ≡ status
          → length reply ≡ 2
          → Answers c d rp_id key_id status w w1)
      → Ends
          (OnRet IsCallCode (λ found v. Looked c d rp_id key_id w found v))
          ((if length reply == 2 then key_status (status_at 0 reply) else throw err_rx) w1)
  status_lem reply w w1 answers = elim (Bool-cases (length reply == 2)) [
    | inr short ↦ rw short (throw-Ends IsCallCode err_rx w1 (refl, refl, refl))
    | inl two ↦ elim (Bool-cases (status_at 0 reply == sw_conditions_not_satisfied)) [
      | inl known ↦
          rw (two, known)
            (give-Ends IsCallCode true w1
              (answers known_status ((==_iff _ _).0 known) ((==_iff _ _).0 two)))
      | inr not_known ↦ elim (Bool-cases (status_at 0 reply == sw_wrong_data)) [
        | inl other ↦
            rw (two, not_known, other)
              (give-Ends IsCallCode false w1
                (answers unknown_status ((==_iff _ _).0 other) ((==_iff _ _).0 two)))
        | inr neither ↦
            rw (two, not_known, neither) (throw-Ends IsCallCode err_internal w1 (refl, refl, refl))
      ]
    ]
  ]

  sent-Ends :
      (msg : List ℕ) (w : World)
      → Ends
          (OnRet IsCallCode (λ u v. fido_tx c.driver d cmd_msg msg w ≡ (ok tt, v)))
          (try err_tx (fido_tx c.driver d cmd_msg msg) w)
  sent-Ends msg w =
      or_code-Ends IsCallCode err_tx _ (refl, refl, refl)
        (weaken-Ends (fido_tx c.driver d cmd_msg msg w)
          (outcome-Ends (fido_tx c.driver d cmd_msg msg w)
            (fido_tx-Stops c.driver d cmd_msg msg w plain.transport_tx))
          λ u v q. q.1)

  got-Ends :
      (w : World)
      → Ends
          (OnRet IsCallCode (λ reply v. fido_rx c.driver d cmd_msg fido_maxmsg w ≡ (ok reply, v)))
          (try err_rx (fido_rx c.driver d cmd_msg fido_maxmsg) w)
  got-Ends w =
      or_code-Ends IsCallCode err_rx _ (refl, refl, refl)
        (weaken-Ends (fido_rx c.driver d cmd_msg fido_maxmsg w)
          (outcome-Ends (fido_rx c.driver d cmd_msg fido_maxmsg w)
            (fido_rx-Ends c.driver d cmd_msg fido_maxmsg w plain.transport_rx plain.rx_len))
          λ a v q. q.1)

  built-Ends :
      (hash : List ℕ) (w : World)
      → Ends
          (OnRet IsCallCode (λ a v.
            auth_apdu 0x07 (replicate 32 0xff) hash (blob_bytes key_id) w ≡ (ok (val a), v)))
          (auth_apdu u2f_auth_check (replicate 32 0xff) hash (blob_bytes key_id) w)
  built-Ends hash w =
      let r = auth_apdu u2f_auth_check (replicate 32 0xff) hash (blob_bytes key_id) w in
      weaken-Ends r
        (outcome-Ends r
          (auth_apdu-Ends u2f_auth_check (replicate 32 0xff) hash (blob_bytes key_id) w))
        each
    where
      each :
          (x : Ret Apdu) (v : World)
          → OnRet IsCallCode (λ a v. Unit) x v
            × (auth_apdu u2f_auth_check (replicate 32 0xff) hash (blob_bytes key_id) w ≡ (ok x, v))
          → OnRet IsCallCode
              (λ a v.
                auth_apdu 0x07 (replicate 32 0xff) hash (blob_bytes key_id) w ≡ (ok (val a), v))
              x
              v
      each (val a) v q = q.1
      each (err code) v q = q.0

  pub key_lookup-Looked :
      (w : World)
      → Ends
          (OnRet IsCallCode (λ found v. Looked c d rp_id key_id w found v))
          (key_lookup c d rp_id key_id w)
  unfolding key_lookup
  key_lookup-Looked w =
      option-Ends IsCallCode err_invalid_argument
        (if ltb 255 (length (blob_bytes key_id)) then none else rp_id) _ w (refl, refl, refl)
        λ id e1.
          option-Ends IsCallCode err_internal (c.sha256 id) _ w (refl, refl, refl)
            λ hash e2. then-Ends IsCallCode _ _ (built-Ends hash w) λ a w3 e3.
              then-Ends IsCallCode _ _ (sent-Ends (apdu_bytes a) w3) λ u w4 e4.
                then-Ends IsCallCode _ _ (got-Ends w4) λ reply w5 e5.
                  status_lem reply w w5 λ status is two. record {
                    id = id;
                    hash = hash;
                    request = a;
                    reply = reply;
                    built = w3;
                    asked = w4;
                    id_is = named id (ltb 255 (length (blob_bytes key_id))) e1;
                    hash_is = e2;
                    request_is = e3;
                    sent = e4;
                    got = e5;
                    word = two;
                    status_is = is;
                  }
    where
      named : (id : List ℕ) (b : Bool) → (if b then none else rp_id) ≡ some id → rp_id ≡ some id
      named id true e = cc
      named id false e = e

-- Whether the device is asked to sign with a credential that it knows: it is, unless the user's
-- presence is turned off, and the signature that it gives is read.
pub data Signs (c : Calls) (d : Dev) (up : Opt) (rp_id : Option (List ℕ)) (cdh : Blob)
    (key_id : Blob) : World → World → Type 0 where
  turned_off : (w : World) → is_false up ≡ true → Signs c d up rp_id cdh key_id w w
  signed_with :
      (w w1 : World) (sig authdata : List ℕ)
      → is_false up ≡ false
      → do_auth c d cdh rp_id key_id w ≡ (ok (val (sig, authdata)), w1)
      → Signs c d up rp_id cdh key_id w w1

-- The walk over a list of credentials, and those of them that the device knows.
pub data Knows (c : Calls) (d : Dev) (up : Opt) (rp_id : Option (List ℕ)) (cdh : Blob)
    : World → List Blob → List Blob → World → Type 0 where
  none_left : (w : World) → Knows c d up rp_id cdh w [] [] w
  unknown_key :
      (key_id : Blob) (keys known : List Blob) (w w1 v : World)
      → Answers c d rp_id key_id unknown_status w w1
      → Knows c d up rp_id cdh w1 keys known v
      → Knows c d up rp_id cdh w (key_id ∷ keys) known v
  known_key :
      (key_id : Blob) (keys known : List Blob) (w w1 w2 v : World)
      → Answers c d rp_id key_id known_status w w1
      → Signs c d up rp_id cdh key_id w1 w2
      → Knows c d up rp_id cdh w2 keys known v
      → Knows c d up rp_id cdh w (key_id ∷ keys) (key_id ∷ known) v

module _ (c : Calls) (d : Dev) (up : Opt) (rp_id : Option (List ℕ)) (cdh : Blob) where
  pub Knows-SubList :
      (w : World) (keys known : List Blob) (v : World)
      → Knows c d up rp_id cdh w keys known v
      → SubList known keys
  Knows-SubList _ _ _ _ (none_left w) = done
  Knows-SubList _ _ _ _ (unknown_key key_id keys known w w1 v answer rest) =
      skip key_id known keys (Knows-SubList w1 keys known v rest)
  Knows-SubList _ _ _ _ (known_key key_id keys known w w1 w2 v answer signs rest) =
      keep key_id known keys (Knows-SubList w2 keys known v rest)
