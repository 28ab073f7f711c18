-- ===== src/U2f/Allowed.antt =====
-- src/u2f.c: which credentials the statements of an assertion over U2F name.
use fido2_manage.Prelude.{
  ℕ, suc, ◌+◌, ◌-◌, ◌≤◌, ◌<◌, ◌≡◌, ap, refl, sym, ◌∙◌, true, false, List, [], ◌∷◌, ◌++◌,
  append_assoc, append-nil, length, set, take, replicate, Bool-cases, inl, inr, ℤ, arith,
  length-set, length-map, length-append, length-take, length-replicate, take-set,
}
use fido2_manage.Platform.{World}
use fido2_manage.Err.{fido_ok, err_no_credentials}
use fido2_manage.Ends.{Ends, return-Ends, continue-Ends, weaken-Ends}
use fido2_manage.Device.{Dev}
use fido2_manage.Blob.{Blob}
use fido2_manage.Assert.{Assert, Stmt, is_true}
use fido2_manage.Assert.Stmts.{fido_assert_set_count, blank_stmt}
use fido2_manage.Assert.Names.{ids, HasNames}
use fido2_manage.U2f.{Calls}
use fido2_manage.U2f.Wait.{IsPlain, IsCallCode}
use fido2_manage.U2f.Single.{
  Single, failed, unknown, not_asked, asked, u2f_authenticate_single-Ends,
}
use fido2_manage.U2f.Known.{
  Answers, Signs, Knows, none_left, unknown_key, known_key, known_status, unknown_status,
  turned_off,
}
use fido2_manage.U2f.Authenticate.{
  is_false, authenticated, count_single, authenticate_loop, no_keys, u2f_authenticate,
}

-- What the loop leaves: a code of a call that failed, or the statements of the credentials that the
-- device knows by its answers. FIDO_OK needs one, and that the user's presence is not turned off.
pub data Found (c : Calls) (d : Dev) (fa : Assert) (w : World) (keys : List Blob)
    (nfound nauth_ok : ℕ) : ℤ × Assert → World → Type 0 where
  stopped :
      (r : ℤ) (fa' : Assert) (v : World)
      → IsCallCode r
      → Found c d fa w keys nfound nauth_ok (r, fa') v
  all :
      (r : ℤ) (fa' : Assert) (v : World) (more : List Blob)
      → Knows c d fa.up fa.rp_id fa.cdh w keys more v
      → take (nfound + length more) (ids fa') ≡ take nfound (ids fa) ++ more
      → fa'.stmt_len ≡ nfound + length more
      → (r ≡ err_no_credentials → fa'.stmt_len ≡ 0)
      → (r ≡ fido_ok → (is_false fa.up ≡ false) × (1 ≤ fa'.stmt_len))
      → Found c d fa w keys nfound nauth_ok (r, fa') v

module _ (c : Calls) (d : Dev) (fa : Assert) (key_id : Blob) (keys : List Blob)
    (nfound nauth_ok : ℕ) (w w1 : World) where
  Found-skip :
      (s : ℤ × Assert) (v : World)
      → Answers c d fa.rp_id key_id unknown_status w w1
      → Found c d fa w1 keys nfound nauth_ok s v
      → Found c d fa w (key_id ∷ keys) nfound nauth_ok s v
  Found-skip s v answer (stopped r fa' _ h) = stopped r fa' v h
  Found-skip s v answer (all r fa' _ more knows names len none_found good) =
      all r fa' v more (unknown_key key_id keys more w w1 v answer knows) names len none_found good

  Found-keep :
      (fa1 : Assert) (nauth' : ℕ) (w2 : World) (s : ℤ × Assert) (v : World)
      → nfound < length fa.stmt
      → HasNames fa (set (ids fa) nfound key_id) fa1
      → Answers c d fa.rp_id key_id known_status w w1
      → Signs c d fa.up fa.rp_id fa.cdh key_id w1 w2
      → Found c d fa1 w2 keys (nfound + 1) nauth' s v
      → Found c d fa w (key_id ∷ keys) nfound nauth_ok s v
  Found-keep fa1 nauth' w2 s v h n answer signs (stopped r fa' _ e) = stopped r fa' v e
  Found-keep fa1 nauth' w2 s v h n answer signs (all r fa' _ more knows names len none_found good) =
      let e : nfound + length (key_id ∷ more) ≡ nfound + 1 + length more = omega arith in
      let next : nfound + 1 ≡ suc nfound = omega arith in
      let size = length-map fa.stmt (λ (st : Stmt). st.id) in
      let named : take (nfound + 1) (ids fa1) ≡ take nfound (ids fa) ++ (key_id ∷ []) =
        rw (next, n.0) (take-set (ids fa) nfound key_id (omega (arith, size, h))) in
      let later : Knows c d fa.up fa.rp_id fa.cdh w2 keys more v = rw (n.1, n.2, n.3) at knows in
      all r fa' v (key_id ∷ more) (known_key key_id keys more w w1 w2 v answer signs later)
        (rw (e, names, named) (append_assoc (take nfound (ids fa)) (key_id ∷ []) more))
        (omega (arith, len)) none_found (λ g. rw (sym n.1) (good g))

authenticated-Found :
    (c : Calls) (d : Dev) (fa : Assert) (w : World) (nfound nauth_ok : ℕ)
    → nauth_ok ≤ nfound
    → (is_false fa.up ≡ true → nauth_ok ≡ 0)
    → Found c d fa w [] nfound nauth_ok (authenticated nfound nauth_ok fa) w
authenticated-Found c d fa w nfound nauth_ok h off =
    let (r, fa') = authenticated nfound nauth_ok fa in
    let e : nfound + 0 ≡ nfound = omega arith in
    all r fa' w [] (none_left w) (rw e (sym (append-nil (take nfound (ids fa))))) (sym e) none_found
      good
  where
    none_found : (authenticated nfound nauth_ok fa).0 ≡ err_no_credentials → nfound ≡ 0
    none_found g = ground (arith, g)

    good : (authenticated nfound nauth_ok fa).0 ≡ fido_ok → (is_false fa.up ≡ false) × (1 ≤ nfound)
    good g = elim (Bool-cases (is_false fa.up)) [
      | inl up ↦ absurd (ground (arith, g, off up))
      | inr up ↦ (up, ground (arith, g))
    ]

module _ (c : Calls) (d : Dev) (plain : IsPlain c d) where
  -- What is to be shown of the loop on some keys.
  LoopEnds : List Blob → Type 0
  LoopEnds keys =
      (nfound nauth_ok : ℕ) (fa : Assert) (w : World)
      → nfound + length keys ≤ length fa.stmt
      → nauth_ok ≤ nfound
      → (is_false fa.up ≡ true → nauth_ok ≡ 0)
      → Ends (λ s v. Found c d fa w keys nfound nauth_ok s v)
          (authenticate_loop c d keys nfound nauth_ok fa w)

  module _ (key_id : Blob) (keys : List Blob) (nfound nauth_ok : ℕ) (fa : Assert) (w : World)
      (rest : LoopEnds keys) (room : suc (nfound + length keys) ≤ length fa.stmt) where
    kept-Ends :
        (nauth' : ℕ) (fa1 : Assert) (w1 w2 : World)
        → HasNames fa (set (ids fa) nfound key_id) fa1
        → Answers c d fa.rp_id key_id known_status w w1
        → Signs c d fa.up fa.rp_id fa.cdh key_id w1 w2
        → nauth' ≤ nfound + 1
        → (is_false fa1.up ≡ true → nauth' ≡ 0)
        → Ends
            (λ s v. Found c d fa w (key_id ∷ keys) nfound nauth_ok s v)
            (authenticate_loop c d keys (nfound + 1) nauth' fa1 w2)
    unfolding LoopEnds
    kept-Ends nauth' fa1 w1 w2 n answer signs h off =
        let size = length-map fa.stmt (λ (st : Stmt). st.id) in
        let size' = length-map fa1.stmt (λ (st : Stmt). st.id) in
        let same = ap length n.0 ∙ length-set (ids fa) nfound key_id in
        weaken-Ends (authenticate_loop c d keys (nfound + 1) nauth' fa1 w2)
          (rest (nfound + 1) nauth' fa1 w2 (omega (arith, size, size', same, room)) h off)
          λ s v q.
            Found-keep c d fa key_id keys nfound nauth_ok w w1 fa1 nauth' w2 s v
              (omega (arith, room)) n answer signs q

    count_single-Ends :
        (s : ℤ × Assert) (w2 : World)
        → nauth_ok ≤ nfound
        → (is_false fa.up ≡ true → nauth_ok ≡ 0)
        → Single c d fa key_id nfound w s w2
        → Ends
            (λ s v. Found c d fa w (key_id ∷ keys) nfound nauth_ok s v)
            (count_single (authenticate_loop c d keys) nfound nauth_ok s w2)
    unfolding LoopEnds
    count_single-Ends s w2 h off (failed r fa' _ code) =
        rw (code.0, code.1, code.2) (return-Ends (r, fa') w2 (stopped r fa' w2 code))
    count_single-Ends s w2 h off (unknown _ answer) =
        weaken-Ends (authenticate_loop c d keys nfound nauth_ok fa w2)
          (rest nfound nauth_ok fa w2 (omega (arith, room)) h off)
          λ s v q. Found-skip c d fa key_id keys nfound nauth_ok w w2 s v answer q
    count_single-Ends s w2 h off (not_asked fa' _ n answer up) =
        kept-Ends nauth_ok fa' w2 w2 n answer (turned_off w2 up) (omega (arith, h)) (λ e. off up)
    count_single-Ends s w2 h off (asked fa' w1 _ n answer up signs) =
        kept-Ends (nauth_ok + 1) fa' w1 w2 n answer signs (omega (arith, h))
          (λ e. let q : true ≡ false = sym e ∙ ap is_false n.1 ∙ up in absurd (cc q))

  authenticate_loop-Ends : (keys : List Blob) → LoopEnds keys
  unfolding authenticate_loop LoopEnds
  authenticate_loop-Ends [] nfound nauth_ok fa w room h off =
      return-Ends _ w (authenticated-Found c d fa w nfound nauth_ok h off)
  authenticate_loop-Ends (key_id ∷ keys) nfound nauth_ok fa w room h off =
      let rest = authenticate_loop-Ends keys in
      continue-Ends _ _ (u2f_authenticate_single-Ends c d plain key_id nfound w fa (omega arith))
        λ s w1 q.
          count_single-Ends key_id keys nfound nauth_ok fa w rest (omega (arith, room)) s w1 h off q

  pub u2f_authenticate-Found :
      (fa : Assert) (w : World)
      → is_true fa.uv ≡ false
      → no_keys fa.allow_list ≡ false
      → Ends (λ s v. Found c d fa w fa.allow_list 0 0 s v) (u2f_authenticate c d fa w)
  unfolding u2f_authenticate fido_assert_set_count LoopEnds
  u2f_authenticate-Found fa w uv keys =
      let fa1 = (fido_assert_set_count fa (length fa.allow_list)).1 in
      let n = length fa.allow_list in
      rw (uv, keys)
        (weaken-Ends (authenticate_loop c d fa.allow_list 0 0 fa1 w)
          (authenticate_loop-Ends fa.allow_list 0 0 fa1 w
            (ground (
              arith,
              length-append (take n fa.stmt) (replicate (n - length fa.stmt) blank_stmt),
              length-take n fa.stmt,
              length-replicate (n - length fa.stmt) blank_stmt,
            ))
            (omega arith) (λ e. refl))
          forget)
    where
      forget :
          (s : ℤ × Assert) (v : World)
          → Found c d (fido_assert_set_count fa (length fa.allow_list)).1 w fa.allow_list 0 0 s v
          → Found c d fa w fa.allow_list 0 0 s v
      forget s v (stopped r fa' _ h) = stopped r fa' v h
      forget s v (all r fa' _ more knows names len none_found good) =
          all r fa' v more knows names len none_found good
