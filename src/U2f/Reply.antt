-- ===== src/U2f/Reply.antt =====
-- src/u2f.c: the reply to a U2F authentication, and the statement that is made of it.
use fido2_manage.Prelude.{
  ℕ, ◌*◌, suc, ◌+◌, ◌-◌, ◌≤◌, ◌≡◌, ap, refl, sym, ◌∙◌, true, false, not, ◌||◌, List, [], ◌∷◌, ◌++◌,
  none, some, length, get_elem?, get_or, take, drop, ltb, leb, ◌==◌, if◌then◌else◌, arith,
  length-append, take-append, drop-append, bit_and, take_all, drop-drop, get_elem?-set, set-set,
}
use fido2_manage.Platform.{World, ok}
use fido2_manage.Err.{fido_ok, err_rx}
use fido2_manage.Try.{val, then-some}
use fido2_manage.Buf.{fido_buf_read}
use fido2_manage.Assert.{Assert, Stmt}
use fido2_manage.Blob.{fido_blob_is_empty, fido_blob_set}
use fido2_manage.Assert.Stmts.{
  bytestring, be32, put_stmt, clean_authdata, cbor_decode_assert_authdata, fido_assert_set_authdata,
  fido_assert_set_sig,
}
use fido2_manage.U2f.{Calls, parse_auth_reply, authdata_fake, last_status}
use fido2_manage.U2f.Authenticate.{set_signed}

get_or-skip : (xs ys : List ℕ) (i d : ℕ) → get_or (xs ++ ys) (length xs + i) d ≡ get_or ys i d
get_or-skip [] ys i d = rw (let e : 0 + i ≡ i = omega arith in e) refl
get_or-skip (x ∷ xs) ys i d =
    rw (let e : suc (length xs) + i ≡ suc (length xs + i) = omega arith in e)
      (get_or-skip xs ys i d)

last_status-append : (body : List ℕ) (a b : ℕ) → last_status (body ++ (a ∷ b ∷ [])) ≡ a * 256 + b
last_status-append body a b =
    let n : length (body ++ (a ∷ b ∷ [])) - 2 ≡ length body + 0 =
      omega (arith, length-append body (a ∷ b ∷ [])) in
    let e : length body + 0 + 1 ≡ length body + 1 = omega arith in
    rw (n, e, get_or-skip body (a ∷ b ∷ []) 0 0, get_or-skip body (a ∷ b ∷ []) 1 0) refl

-- The pieces of a reply, and how it stands in memory.
pub record AuthReply : Type 0 where
  pub flags : ℕ
  pub counter : List ℕ
  pub sig : List ℕ

abbrev pub encode_reply : AuthReply → List ℕ
encode_reply r = (r.flags ∷ (r.counter ++ r.sig)) ++ (0x90 ∷ 0 ∷ [])

-- libcbor can read what it wrote, and the reply has no CTAP2 extensions and has a signature.
pub record IsReply (c : Calls) (h : List ℕ) (r : AuthReply) : Type 0 where
  pub counter : length r.counter ≡ 4
  pub sig : 1 ≤ length r.sig
  pub no_extensions : (bit_and r.flags 0x80 == 0) ≡ true
  pub written : 1 ≤ length (c.decoder.serialize (h ++ (r.flags ∷ r.counter)))
  pub read :
      c.decoder.load (c.decoder.serialize (h ++ (r.flags ∷ r.counter)))
      ≡ some (bytestring (h ++ (r.flags ∷ r.counter)))

-- The authenticator data that stand for a U2F reply.
abbrev pub authdata_of : List ℕ → AuthReply → List ℕ
authdata_of h r = h ++ (r.flags ∷ r.counter)

-- The reply of a device, taken apart.
pub parse_auth_reply-encode :
    (c : Calls) (rp_id h : List ℕ) (r : AuthReply) (w : World)
    → c.sha256 rp_id ≡ some h
    → IsReply c h r
    → parse_auth_reply c rp_id (encode_reply r) w
      ≡ (ok (val (r.sig, c.decoder.serialize (authdata_of h r))), w)
unfolding parse_auth_reply authdata_fake fido_buf_read
parse_auth_reply-encode c rp_id h r w hash reply =
    let body = r.flags ∷ (r.counter ++ r.sig) in
    let size = length-append body (0x90 ∷ 0 ∷ []) in
    let size' = length-append r.counter r.sig in
    let long : ltb (length (encode_reply r)) 2 ≡ false = ground (arith, size) in
    let n : length (encode_reply r) - 2 ≡ length body = omega (arith, size) in
    let split : fido_buf_read body 1 ≡ some (r.flags ∷ [], r.counter ++ r.sig) =
      let fits : ltb (length body) 1 ≡ false = ground arith in rw fits refl in
    let split' : fido_buf_read (r.counter ++ r.sig) 4 ≡ some (r.counter, r.sig) =
      let fits : ltb (length (r.counter ++ r.sig)) 4 ≡ false =
        ground (arith, size', reply.counter) in
      rw
        (
          fits,
          take-append 4 r.counter r.sig reply.counter,
          drop-append 4 r.counter r.sig reply.counter,
        )
        refl in
    let ser = c.decoder.serialize (authdata_of h r) in
    let fake : authdata_fake c rp_id (r.flags ∷ []) r.counter ≡ some ser =
      let full : (length ser == 0) ≡ false = ground (arith, reply.written) in
      rw (hash, authdata_fake) (rw full refl) in
    let cut : take (length body) (encode_reply r) ≡ body =
      take-append (length body) body (0x90 ∷ 0 ∷ []) refl in
    let whole : (if ltb (length (encode_reply r)) 2 || not (last_status (encode_reply r) == 0x9000)
          then none
          else some (take (length (encode_reply r) - 2) (encode_reply r)))
        ≡ some body =
      rw (long, last_status-append body 0x90 0, n, cut) refl in
    then-some err_rx _ _ body w whole
    ∙ then-some err_rx (fido_buf_read body 1) _ (r.flags ∷ [], r.counter ++ r.sig) w split
    ∙ then-some err_rx (fido_buf_read (r.counter ++ r.sig) 4) _ (r.counter, r.sig) w split'
    ∙ then-some err_rx (authdata_fake c rp_id (r.flags ∷ []) r.counter) _ ser w fake

-- The statement as the device answered it.
abbrev pub answered : Calls → List ℕ → AuthReply → Stmt → Stmt
answered c h r st = record st {
  rp_id_hash = h;
  flags = r.flags;
  sigcount = be32 r.counter;
  authdata_ext_mask = 0;
  authdata_cbor = some (c.decoder.serialize (authdata_of h r));
  authdata_raw = some (authdata_of h r);
  sig = some r.sig;
}

-- `fido_blob_set` of bytes that are there.
full_blob :
    (bs : List ℕ)
    → 1 ≤ length bs
    → (fido_blob_is_empty (some bs) ≡ false) × (fido_blob_set (some bs) ≡ (true, some bs))
full_blob [] h = absurd (omega arith)
full_blob (x ∷ xs) h = (refl, refl)

-- What the statement is after the authenticator data are set, and before the signature.
abbrev unsigned : Calls → List ℕ → AuthReply → Stmt → Stmt
unsigned c h r st = record (answered c h r st) { sig = st.sig }

decode_authdata_of :
    (c : Calls) (h : List ℕ) (r : AuthReply) (st : Stmt)
    → length h ≡ 32
    → IsReply c h r
    → cbor_decode_assert_authdata c.decoder
        (bytestring (authdata_of h r))
        (record (clean_authdata st) { authdata_raw = some (authdata_of h r) })
      ≡ some (unsigned c h r st)
unfolding cbor_decode_assert_authdata fido_buf_read clean_authdata
decode_authdata_of c h r st size reply =
    let ser = c.decoder.serialize (authdata_of h r) in
    let full : (length ser == 0) ≡ false = ground (arith, reply.written) in
    let total = length-append h (r.flags ∷ r.counter) in
    let fits : ltb (length (authdata_of h r)) 37 ≡ false =
      ground (arith, total, size, reply.counter) in
    let all : take 37 (authdata_of h r) ≡ authdata_of h r =
      take_all 37 (authdata_of h r) (omega (arith, total, size, reply.counter)) in
    let flag : get_or (authdata_of h r) 32 0 ≡ r.flags =
      let e : 32 ≡ length h + 0 = omega (arith, size) in
      rw e (get_or-skip h (r.flags ∷ r.counter) 0 0) in
    let tail : drop 33 (authdata_of h r) ≡ r.counter =
      sym (drop-drop 32 1 (authdata_of h r))
      ∙ ap (drop 1) (drop-append 32 h (r.flags ∷ r.counter) size) in
    rw (full, fits, all)
      (rw (flag, tail, take-append 32 h (r.flags ∷ r.counter) size) (rw reply.no_extensions refl))

-- For a reply with a signature and without extensions, the two setters that follow `do_auth` accept
-- what `parse_auth_reply` gave, and the statement then carries the hash of the relying party's name,
-- the device's flags and counter, and the signature.
pub set_signed-answered :
    (c : Calls) (fa : Assert) (idx : ℕ) (st : Stmt) (h : List ℕ) (r : AuthReply)
    → length h ≡ 32
    → IsReply c h r
    → (leb fa.stmt_len idx) ≡ false
    → get_elem? fa.stmt idx ≡ some st
    → set_signed c fa idx (val (r.sig, c.decoder.serialize (authdata_of h r)))
      ≡ (fido_ok, put_stmt fa idx (answered c h r st))
unfolding fido_assert_set_authdata fido_assert_set_sig
set_signed-answered c fa idx st h r size reply room here =
    let ser = c.decoder.serialize (authdata_of h r) in
    let first : fido_assert_set_authdata c.decoder fa idx (some ser)
        ≡ (fido_ok, put_stmt fa idx (unsigned c h r st)) =
      rw
        (
          room,
          (full_blob ser reply.written).0,
          here,
          reply.read,
          decode_authdata_of c h r st size reply,
        )
        refl in
    let second : fido_assert_set_sig (put_stmt fa idx (unsigned c h r st)) idx (some r.sig)
        ≡ (fido_ok, put_stmt fa idx (answered c h r st)) =
      rw
        (
          room,
          (full_blob r.sig reply.sig).0,
          get_elem?-set fa.stmt idx st (unsigned c h r st) here,
          (full_blob r.sig reply.sig).1,
          set-set fa.stmt idx (unsigned c h r st) (answered c h r st),
        )
        refl in
    rw (first, second) refl
