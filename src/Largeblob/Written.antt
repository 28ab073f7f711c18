-- ===== src/Largeblob/Written.antt =====
-- src/largeblob.c: what storing an array sends.
use fido2_manage.Prelude.{
  ℕ, zero, suc, ◌+◌, ◌-◌, ◌≤◌, ◌<◌, ◌≡◌, ap, sym, ◌∙◌, Bool, true, false, List, [], ◌∷◌, ◌++◌,
  Option, none, some, length, take, drop, ltb, ◌==◌, if◌then◌else◌, arith, Bool-cases, inl, inr,
  length-take, length-drop, take-append-drop, subst, eq-nil,
}
use fido2_manage.Platform.{World, Result, ok}
use fido2_manage.Err.{err_tx, err_rx, err_internal, err_invalid_argument}
use fido2_manage.Try.{Ret, val, err, OnRet, then-Ends, or_code-Ends, OnRet-map, try_option-Ends}
use fido2_manage.Ends.{Ends, return-Ends, weaken-Ends}
use fido2_manage.Device.{Dev}
use fido2_manage.Blob.{size_max}
use fido2_manage.Flags.{fido_dev_supports_permissions}
use fido2_manage.Io.{fido_rx_cbor_status}
use fido2_manage.Io.Total.{rx_cbor_status-Stops, fido_tx-Stops}
use fido2_manage.Cbor.{
  Entry, Item, definite_array, cbor_build_frame, cbor_build_uint, bytestring, definite_map,
  other_item,
}
use fido2_manage.Cbor.Auth.{cbor_encode_pin_auth, cbor_encode_pin_opt}
use fido2_manage.Ctap.{cmd_cbor, give_ret}
use fido2_manage.Largeblob.{Calls, cbor_largeblob, get_chunklen, as_array}
use fido2_manage.Ctap.Total.{IsPlain, AnyCode, AnyRet, any_option, any_then, fido_do_ecdh-Ends}
use fido2_manage.Pin.Total.{uv_token-Ends as pin_token-Ends}
use fido2_manage.Largeblob.Store.{
  prepare_hmac, token_args, largeblob_set_tx, code_of, rx_status, set_fragment, set_body, ask_token,
  largeblob_get_uv_token, uv_token, full, set_parts, largeblob_set_array,
}

-- The bytes from an offset on were sent in fragments of 1 to `maxlen` bytes, one after the other, and
-- the device accepted each.
pub data Sent (c : Calls) (d : Dev) (token : Option (List ℕ)) (maxlen total : ℕ)
    : ℕ → List ℕ → World → World → Type 0 where
  nothing : (offset : ℕ) (w : World) → Sent c d token maxlen total offset [] w w
  fragment :
      (offset : ℕ) (f rest : List ℕ) (w w1 w2 : World)
      → 1 ≤ length f
      → length f ≤ maxlen
      → set_fragment c d token f offset total w ≡ (ok (val tt), w1)
      → Sent c d token maxlen total (offset + length f) rest w1 w2
      → Sent c d token maxlen total offset (f ++ rest) w w2

-- The array's encoding was sent, and then the first half of its hash.
pub record Stored (c : Calls) (d : Dev) (item : Item) (v : World) : Type 0 where
  pub entries : List Entry
  pub bytes : List ℕ
  pub dgst : List ℕ
  pub token : Option (List ℕ)
  pub start : World
  pub middle : World
  pub item_is : item ≡ definite_array entries
  pub bytes_are : c.ctap.cbor.serialize (definite_array entries) ≡ bytes
  pub dgst_is : c.ctap.sha256 bytes ≡ some dgst
  pub body : Sent c d token (get_chunklen d) (length bytes + 32 - 16) 0 bytes start middle
  pub digest :
      set_fragment c d token (take 16 dgst) (length bytes) (length bytes + 32 - 16) middle
      ≡ (ok (val tt), v)

-- The outcome of a call that ends.
outcome-Ends :
    {A : Type 0} {P : A → World → Type 0} (r : Result A × World)
    → Ends P r
    → Ends (λ a v. r ≡ (ok a, v)) r
outcome-Ends r h = record { ends = h.ends; value = λ a e. ap (λ x. (x, r.1)) e }

any_ret : {A : Type 0} (r : Ret A) (w : World) → Ends AnyRet (give_ret r w)
any_ret (val a) w = return-Ends (val a) w tt
any_ret (err code) w = return-Ends (err code) w tt

as_array_is :
    (item : Item) (entries : List Entry)
    → as_array (some item) ≡ some entries
    → item ≡ definite_array entries
as_array_is (definite_array es) entries h =
    ap (λ o. elim o [ none ↦ definite_array es | some x ↦ definite_array x ]) h
as_array_is (definite_map pairs) entries h = cc
as_array_is other_item entries h = cc

array_of :
    (n : ℕ) (item : Item) (entries : List Entry)
    → (if n == 0 then none else as_array (some item)) ≡ some entries
    → (1 ≤ n) × (item ≡ definite_array entries)
array_of n item entries h = elim (Bool-cases (n == 0)) [
  | inl no_chunk ↦ absurd (none-some entries (rw no_chunk at h))
  | inr chunk ↦ (ground (arith, chunk), as_array_is item entries (rw chunk at h))
]
  where
    none-some : (xs : List Entry) → none ≡ some xs → ⊥
    none-some xs e = cc

full_is : (bs bytes : List ℕ) → full bs ≡ some bytes → bs ≡ bytes
full_is bs bytes h = go (length bs == 0) h
  where
    go : (b : Bool) → (if b then none else some bs) ≡ some bytes → bs ≡ bytes
    go true e = cc
    go false e = ap (λ o. elim o [ none ↦ bs | some x ↦ x ]) e

module _ (c : Calls) (d : Dev) (plain : IsPlain c.ctap d) where
  token_args-Ends :
      (token : Option (List ℕ)) (chunk : List ℕ) (offset : ℕ) (w : World)
      → Ends AnyRet (token_args c d token chunk offset w)
  unfolding token_args
  token_args-Ends none chunk offset w = return-Ends _ w tt
  token_args-Ends (some token) chunk offset w =
      then-Ends AnyCode _ _ (any_option err_internal (prepare_hmac c offset chunk) w) λ hmac w1 e1.
        then-Ends AnyCode _ _
          (any_option err_internal (cbor_encode_pin_auth c.ctap.hmac_sha256 d token hmac) w1)
          λ auth w2 e2.
            then-Ends AnyCode _ _ (any_option err_internal (cbor_encode_pin_opt d) w2)
              λ opt w3 e3. return-Ends _ w3 tt

  set_tx-Ends :
      (token : Option (List ℕ)) (chunk : List ℕ) (offset total : ℕ) (w : World)
      → Ends AnyRet (largeblob_set_tx c d token chunk offset total w)
  unfolding largeblob_set_tx
  set_tx-Ends token chunk offset total w =
      let size = if offset == 0 then some (cbor_build_uint total) else none in
      then-Ends AnyCode _ _ (token_args-Ends token chunk offset w) λ args w1 e1.
        then-Ends AnyCode _ _
          (any_option err_tx
            (cbor_build_frame c.ctap.cbor cbor_largeblob
              (none ∷ some (bytestring chunk) ∷ some (cbor_build_uint offset) ∷ size ∷ args))
            w1)
          λ f w2 e2.
            or_code-Ends AnyCode err_tx _ tt
              (fido_tx-Stops c.ctap.driver d cmd_cbor f w2 plain.transport_tx)

  rx_status-Ends : (w : World) → Ends AnyRet (rx_status c d w)
  unfolding rx_status
  rx_status-Ends w =
      then-Ends AnyCode _ _
        (or_code-Ends AnyCode err_rx (fido_rx_cbor_status c.ctap.driver d w) tt
          (rx_cbor_status-Stops c.ctap.driver d w plain.transport_rx plain.rx_len))
        λ r w1 e. any_ret (code_of r) w1

  fragment_any :
      (token : Option (List ℕ)) (chunk : List ℕ) (offset total : ℕ) (w : World)
      → Ends AnyRet (set_fragment c d token chunk offset total w)
  unfolding set_fragment
  fragment_any token chunk offset total w =
      then-Ends AnyCode _ _ (set_tx-Ends token chunk offset total w) λ u w1 e. rx_status-Ends w1

  set_fragment-Ends :
      (token : Option (List ℕ)) (chunk : List ℕ) (offset total : ℕ) (w : World)
      → Ends
          (OnRet AnyCode (λ u v. set_fragment c d token chunk offset total w ≡ (ok (val tt), v)))
          (set_fragment c d token chunk offset total w)
  set_fragment-Ends token chunk offset total w =
      let r = set_fragment c d token chunk offset total w in
      weaken-Ends r (outcome-Ends r (fragment_any token chunk offset total w)) each
    where
      each :
          (r : Ret (Unit {0})) (v : World)
          → set_fragment c d token chunk offset total w ≡ (ok r, v)
          → OnRet AnyCode
              (λ u v. set_fragment c d token chunk offset total w ≡ (ok (val tt), v))
              r
              v
      each (val u) v e = e
      each (err code) v e = tt

  Sent-step :
      (token : Option (List ℕ)) (maxlen total offset n : ℕ) (rest : List ℕ) (w w1 w2 : World)
      → 1 ≤ n
      → n ≤ maxlen
      → n ≤ length rest
      → set_fragment c d token (take n rest) offset total w ≡ (ok (val tt), w1)
      → Sent c d token maxlen total (offset + n) (drop n rest) w1 w2
      → Sent c d token maxlen total offset rest w w2
  Sent-step token maxlen total offset n rest w w1 w2 pos fits le e s =
      let len : length (take n rest) ≡ n = length-take n rest ∙ omega (arith, le) in
      subst (λ bs. Sent c d token maxlen total offset bs w w2) (take-append-drop n rest)
        (fragment offset (take n rest) (drop n rest) w w1 w2 (omega (arith, len, pos))
          (omega (arith, len, fits)) e (rw len s))

  set_body-Ends :
      (fuel : ℕ) (token : Option (List ℕ)) (maxlen total offset : ℕ) (rest : List ℕ) (w : World)
      → length rest < fuel
      → 1 ≤ maxlen
      → Ends
          (OnRet AnyCode (λ u v. Sent c d token maxlen total offset rest w v))
          (set_body fuel c d token maxlen total offset rest w)
  unfolding set_body
  set_body-Ends zero token maxlen total offset rest w h pos = absurd (omega (arith, h))
  set_body-Ends (suc fuel) token maxlen total offset rest w h pos =
      let n = if ltb maxlen (length rest) then maxlen else length rest in
      elim (Bool-cases (length rest == 0)) [
        | inl done ↦
            rw (done, set_body)
              (return-Ends (val tt) w (
                subst (λ bs. Sent c d token maxlen total offset bs w w)
                  (sym (eq-nil rest (ground (arith, done)))) (nothing offset w)))
        | inr todo ↦
            let some_n : 1 ≤ n = ground (arith, todo, pos) in
            let small : n ≤ maxlen = ground arith in
            let within : n ≤ length rest = ground arith in
            rw (todo, set_body)
              (then-Ends AnyCode _ _ (set_fragment-Ends token (take n rest) offset total w)
                λ u w1 e.
                  let body = set_body fuel c d token maxlen total (offset + n) (drop n rest) w1 in
                  weaken-Ends body
                    (set_body-Ends fuel token maxlen total (offset + n) (drop n rest) w1
                      (omega (arith, length-drop n rest, some_n, h)) pos)
                    (λ r v q.
                      OnRet-map _ _ _ r v
                        (λ a sent.
                          Sent-step token maxlen total offset n rest w w1 v some_n small within e
                            sent)
                        q))
      ]

  ask_token-Ends : (pin : Option (List ℕ)) (w : World) → Ends AnyRet (ask_token c d pin w)
  unfolding largeblob_get_uv_token
  ask_token-Ends pin w =
      any_then _ _
        (any_then _ _ (fido_do_ecdh-Ends c.ctap d plain w)
          λ k w1. pin_token-Ends c.ctap d plain cbor_largeblob pin k.1 k.0 none w1)
        λ t w2. return-Ends _ w2 tt

  uv_token-Ends : (pin : Option (List ℕ)) (w : World) → Ends AnyRet (uv_token c d pin w)
  uv_token-Ends (some pin) w = ask_token-Ends (some pin) w
  uv_token-Ends none w = elim (Bool-cases (fido_dev_supports_permissions d)) [
    | inl asked ↦ rw asked (ask_token-Ends none w)
    | inr spared ↦ rw spared (return-Ends (val none) w tt)
  ]

  set_parts-Ends :
      (item : Item) (entries : List Entry) (token : Option (List ℕ)) (bytes dgst : List ℕ)
      (w : World)
      → item ≡ definite_array entries
      → c.ctap.cbor.serialize (definite_array entries) ≡ bytes
      → c.ctap.sha256 bytes ≡ some dgst
      → 1 ≤ get_chunklen d
      → Ends
          (OnRet AnyCode (λ u v. Stored c d item v))
          (set_parts c d token (get_chunklen d) bytes dgst w)
  unfolding set_parts
  set_parts-Ends item entries token bytes dgst w is encoded hash pos =
      let total = length bytes + 32 - 16 in
      then-Ends AnyCode _ _
        (set_body-Ends (suc (length bytes)) token (get_chunklen d) total 0 bytes w (omega arith)
          pos)
        λ u w1 sent.
          let last = set_fragment c d token (take 16 dgst) (length bytes) total w1 in
          weaken-Ends last (set_fragment-Ends token (take 16 dgst) (length bytes) total w1)
            (λ r v q.
              OnRet-map _ _ _ r v
                (λ a e. record {
                  entries = entries;
                  bytes = bytes;
                  dgst = dgst;
                  token = token;
                  start = w;
                  middle = w1;
                  item_is = is;
                  bytes_are = encoded;
                  dgst_is = hash;
                  body = sent;
                  digest = e;
                })
                q)

  -- Storing an array ends in every world, without transport functions, with reports of at least 8
  -- bytes and with random bytes and keys that are given or not. If it succeeds, the device accepted the encoding
  -- of a definite array in consecutive fragments of at most `get_chunklen` bytes, and then the first
  -- half of its SHA-256 hash, at the offset behind it and with the size of both.
  pub set_array-Ends :
      (item : Item) (pin : Option (List ℕ)) (w : World)
      → Ends (OnRet AnyCode (λ u v. Stored c d item v)) (largeblob_set_array c d item pin w)
  unfolding largeblob_set_array
  set_array-Ends item pin w =
      let n = get_chunklen d in
      let fits =
        λ (bytes : List ℕ). (if ltb (size_max - 32) (length bytes) then none else some tt) in
      then-Ends AnyCode _ _
        (try_option-Ends AnyCode err_invalid_argument
          (if n == 0 then none else as_array (some item)) w tt)
        λ entries w1 is.
          let (pos, item_is) = array_of n item entries is in
          let bytes = c.ctap.cbor.serialize (definite_array entries) in
          then-Ends AnyCode _ _ (try_option-Ends AnyCode err_internal (full bytes) w1 tt)
            λ bytes' w2 e2.
              then-Ends AnyCode _ _ (any_option err_invalid_argument (fits bytes') w2) λ u w3 e3.
                then-Ends AnyCode _ _
                  (try_option-Ends AnyCode err_internal (c.ctap.sha256 bytes') w3 tt)
                  λ dgst w4 hash. then-Ends AnyCode _ _ (uv_token-Ends pin w4) λ token w5 e5.
                    set_parts-Ends item entries token bytes' dgst w5 item_is
                      (full_is bytes bytes' e2) hash pos
