-- ===== src/U2f/Verified.antt =====
-- src/u2f.c and src/assert.c: from the reply of a U2F device to the verification of the assertion.
use fido2_manage.Prelude.{
  ℕ, ◌<◌, ◌≡◌, ◌≢◌, refl, sym, true, false, List, ◌++◌, some, length, get_elem?, get_elem?-set, leb,
  bit_and, ℤ, arith,
}
use fido2_manage.Platform.{World, ok, return, ◌>>=◌}
use fido2_manage.Err.{fido_ok}
use fido2_manage.Assert.{Assert, Stmt, Crypto, opt_true, fido_assert_verify}
use fido2_manage.Assert.Digest.{digest}
use fido2_manage.Assert.Exact.{IsGenuine, verify-exact}
use fido2_manage.Assert.Stmts.{put_stmt}
use fido2_manage.U2f.{Calls, parse_auth_reply}
use fido2_manage.U2f.Authenticate.{set_signed}
use fido2_manage.U2f.Reply.{
  AuthReply, encode_reply, IsReply, authdata_of, answered, parse_auth_reply-encode,
  set_signed-answered,
}

-- A request over U2F to a device that holds the key: there is a client data hash and a name, the
-- user's verification and extensions (other than largeBlobKey) are not asked for, and the statement
-- is there.
pub record IsRequest (fa : Assert) (idx : ℕ) (rp cdh : List ℕ) (st : Stmt) : Type 0 where
  pub rp_id : fa.rp_id ≡ some rp
  pub cdh_is : fa.cdh ≡ some cdh
  pub uv : fa.uv ≢ opt_true
  pub extensions : bit_and fa.ext_mask 0xfffffffb ≡ 0
  pub received : idx < fa.stmt_len
  pub stmt : get_elem? fa.stmt idx ≡ some st

-- The device has seen the user, and it signed the authenticator data and the client data hash.
pub record IsSigned (x : Crypto) (alg : ℤ) (key h cdh : List ℕ) (r : AuthReply) : Type 0 where
  pub present : bit_and r.flags 0x01 ≢ 0
  pub dgst : List ℕ
  pub digest_is : digest x alg (authdata_of h r ++ cdh) ≡ some dgst
  pub accepted : x.verify_sig alg dgst key r.sig ≡ true

-- Both parts of the program use the same hash, and the library that verifies reads the byte string
-- that the U2F code wrote.
pub record Agrees (c : Calls) (x : Crypto) (rp h : List ℕ) (r : AuthReply) : Type 0 where
  pub hash : c.sha256 rp ≡ some h
  pub same_hash : x.sha256 rp ≡ some h
  pub size : length h ≡ 32
  pub read : x.load_bytestring (c.decoder.serialize (authdata_of h r)) ≡ some (authdata_of h r)

answered-IsGenuine :
    (c : Calls) (x : Crypto) (fa : Assert) (idx : ℕ) (st : Stmt) (alg : ℤ) (key rp cdh h : List ℕ)
    (r : AuthReply)
    → IsRequest fa idx rp cdh st
    → Agrees c x rp h r
    → IsSigned x alg key h cdh r
    → IsGenuine x (put_stmt fa idx (answered c h r st)) idx alg (some key)
answered-IsGenuine c x fa idx st alg key rp cdh h r request agrees signed = record {
  st = answered c h r st;
  key = key;
  cdh = cdh;
  id = rp;
  cbor = c.decoder.serialize (authdata_of h r);
  sig = r.sig;
  authdata = authdata_of h r;
  dgst = signed.dgst;
  received = request.received;
  stmt_is = get_elem?-set fa.stmt idx st (answered c h r st) request.stmt;
  key_is = refl;
  cdh_is = request.cdh_is;
  id_is = request.rp_id;
  cbor_is = refl;
  sig_is = refl;
  present = λ e. signed.present;
  verified = λ e. absurd (request.uv e);
  extensions = sym request.extensions;
  rp = agrees.same_hash;
  authdata_is = agrees.read;
  digest_is = signed.digest_is;
  accepted = signed.accepted;
}

-- A well-formed U2F reply of a device that saw the user and that signed the hash of the relying
-- party's name, its flags, its counter and the hash of the client data becomes a statement that
-- fido_assert_verify accepts. The request asks for neither the user's verification nor extensions
-- other than largeBlobKey.
pub reply-Verifies :
    (c : Calls) (x : Crypto) (fa : Assert) (idx : ℕ) (st : Stmt) (alg : ℤ) (key rp cdh h : List ℕ)
    (r : AuthReply) (w : World)
    → IsReply c h r
    → IsRequest fa idx rp cdh st
    → Agrees c x rp h r
    → IsSigned x alg key h cdh r
    → let fa' = put_stmt fa idx (answered c h r st) in
      ((parse_auth_reply c rp (encode_reply r) >>= λ ret. return (set_signed c fa idx ret)) w
        ≡ (ok (fido_ok, fa'), w))
      × (fido_assert_verify x fa' idx alg (some key) ≡ fido_ok)
reply-Verifies c x fa idx st alg key rp cdh h r w reply request agrees signed =
    let room : leb fa.stmt_len idx ≡ false = ground (arith, request.received) in
    (
      rw
          (
            parse_auth_reply-encode c rp h r w agrees.hash reply,
            set_signed-answered c fa idx st h r agrees.size reply room request.stmt,
          )
          refl,
      (verify-exact x (put_stmt fa idx (answered c h r st)) idx alg (some key)).1
          (answered-IsGenuine c x fa idx st alg key rp cdh h r request agrees signed),
    )
