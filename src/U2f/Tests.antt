-- ===== src/U2f/Tests.antt =====
-- Runs of U2F commands with a device that gives the reports below, and theorems at concrete inputs.
use fido2_manage.Prelude.{
  ℕ, ◌≡◌, refl, true, false, List, [], ◌∷◌, ◌++◌, none, some, length, pos, arith, replicate,
  bytes_eq, map, if◌then◌else◌,
}
use fido2_manage.Platform.{World, ok, io_write, io_read, return, ◌>>=◌}
use fido2_manage.Time.{elapsed, time_now, time_delta}
use fido2_manage.Time.Budget.{at}
use fido2_manage.Err.{fido_ok}
use fido2_manage.Try.{val, OnRet}
use fido2_manage.Ends.{Ends}
use fido2_manage.Device.{Dev}
use fido2_manage.Io.{
  tx, tx_preamble, tx_loop, tx_frame, send_pkt, tx_pkt, rx, rx_preamble, rx_payload, rx_loop,
  rx_frame, fido_tx, fido_rx,
}
use fido2_manage.Assert.{Assert, Crypto, opt_omit, cose_es256, fido_assert_verify}
use fido2_manage.Assert.Digest.{digest}
use fido2_manage.Assert.Stmts.{bytestring, blank_stmt, put_stmt}
use fido2_manage.U2f.{Calls, delay_ms, exchange_all, parse_auth_reply, exchange}
use fido2_manage.U2f.Authenticate.{set_signed}
use fido2_manage.U2f.Delay.{delay_ms-charged}
use fido2_manage.U2f.Wait.{IsPlain, IsCallCode}
use fido2_manage.U2f.Reply.{AuthReply, encode_reply, answered}
use fido2_manage.U2f.Verified.{reply-Verifies}
use fido2_manage.U2f.Touch.{u2f_get_touch_status, Seen, get_touch_status-Seen}

-- Reports of 64 bytes.
abbrev wide : Dev
wide = record {
  nonce = 0;
  attr = record { nonce = 0; cid = 0; protocol = 0; major = 0; minor = 0; build = 0; flags = 0 };
  cid = 0x11223344;
  io_handle = true;
  io_own = false;
  rx_len = 64;
  tx_len = 64;
  flags = 0;
  maxmsgsize = 0;
  timeout_ms = pos 0;
}

-- Hashes are 32 bytes; a CBOR byte string is its content behind one byte.
abbrev toy : Calls
toy = record {
  driver = record { has_read = true; has_write = true; transport_tx = none; transport_rx = none };
  usleep = λ n w. (ok tt, w);
  sha256 = λ bs. some (replicate 32 7);
  decoder = record {
    load = λ bs. elim bs [ [] ↦ none | x ∷ xs ↦ some (bytestring xs) ];
    serialize = λ bs. 0x42 ∷ bs;
    extensions = λ bs. none;
  };
}

toy-IsPlain : IsPlain toy wide
toy-IsPlain = record {
  usleep = λ n w. record { stops = record { ends = λ e. cc; value = λ a e. tt }; incoming = refl };
  transport_tx = refl;
  transport_rx = refl;
  rx_len = omega arith;
}

-- A U2F message of two bytes.
abbrev frame : ℕ → ℕ → List ℕ
frame a b = 0x44 ∷ 0x33 ∷ 0x22 ∷ 0x11 ∷ 0x83 ∷ 0 ∷ 2 ∷ a ∷ b ∷ replicate 55 0

abbrev answering : List (List ℕ) → World
answering frames = record {
  sent = [];
  accepts = λ s p. some (length p);
  incoming = map some frames;
  clock = λ n. some (at 5 0);
  ticks = 0;
  ms = pos 1000;
}

-- The user touches the device at the third attempt.
abbrev patient : World
patient = answering (frame 0x69 0x85 ∷ frame 0x69 0x85 ∷ frame 0x90 0x00 ∷ [])

waits : (exchange_all toy wide (1 ∷ 2 ∷ []) patient).0 ≡ ok (val (0x90 ∷ 0x00 ∷ []))
unfolding exchange_all exchange delay_ms fido_tx fido_rx tx tx_preamble tx_loop tx_frame send_pkt
    tx_pkt io_write time_now time_delta elapsed rx rx_preamble rx_payload rx_loop rx_frame io_read
waits = refl

spends_300_ms : (exchange_all toy wide (1 ∷ 2 ∷ []) patient).1.ms ≡ pos 700
unfolding exchange_all exchange delay_ms fido_tx fido_rx tx tx_preamble tx_loop tx_frame send_pkt
    tx_pkt io_write time_now time_delta elapsed rx rx_preamble rx_payload rx_loop rx_frame io_read
spends_300_ms = refl

delay_ms-charged_example : (delay_ms toy 100 patient).1.ms ≡ pos 900
unfolding delay_ms
delay_ms-charged_example = delay_ms-charged toy 100 patient (λ n v. refl) refl

-- The device knows the second of two credentials.
abbrev request : Assert
request = record {
  rp_id = some (9 ∷ []);
  cd = none;
  cdh = some (replicate 32 5);
  allow_list = some (1 ∷ 2 ∷ []) ∷ some (3 ∷ 4 ∷ []) ∷ [];
  up = opt_omit;
  uv = opt_omit;
  ext_mask = 0;
  hmac_salt = none;
  stmt = [];
  stmt_len = 0;
}

-- The answer to a signature: the user was present, the counter is 9, and the signature is one byte.
abbrev signed_frame : List ℕ
signed_frame =
    0x44 ∷ 0x33 ∷ 0x22 ∷ 0x11 ∷ 0x83 ∷ 0 ∷ 8 ∷ 1 ∷ 0 ∷ 0 ∷ 0 ∷ 9 ∷ 0xaa ∷ 0x90 ∷ 0 ∷ replicate 49 0

abbrev second_known : World
second_known = answering (frame 0x6a 0x80 ∷ frame 0x69 0x85 ∷ frame 0x69 0x85 ∷ signed_frame ∷ [])

-- A signature is the key and then the digest, and a digest is the message itself.
abbrev verifier : Crypto
verifier = record {
  sha256 = λ bs. if bytes_eq bs (9 ∷ []) then some (replicate 32 7) else some bs;
  sha384 = some;
  load_bytestring = λ bs. elim bs [ [] ↦ none | x ∷ xs ↦ some xs ];
  verify_sig = λ alg dgst key sig. bytes_eq sig (key ++ dgst);
}

abbrev message : List ℕ
message = replicate 32 7 ++ (1 ∷ 0 ∷ 0 ∷ 0 ∷ 9 ∷ []) ++ replicate 32 5

abbrev reply : AuthReply
reply = record { flags = 1; counter = 0 ∷ 0 ∷ 0 ∷ 9 ∷ []; sig = 1 ∷ message }

abbrev one_stmt : Assert
one_stmt = record request { stmt = blank_stmt ∷ []; stmt_len = 1 }

reply-Verifies_example :
    let fa' = put_stmt one_stmt 0 (answered toy (replicate 32 7) reply blank_stmt) in
    ((parse_auth_reply toy (9 ∷ []) (encode_reply reply) >>= λ ret.
    return (set_signed toy one_stmt 0 ret))
        patient
      ≡ (ok (fido_ok, fa'), patient))
    × (fido_assert_verify verifier fa' 0 cose_es256 (some (1 ∷ [])) ≡ fido_ok)
unfolding digest
reply-Verifies_example =
    reply-Verifies toy verifier one_stmt 0 blank_stmt cose_es256 (1 ∷ []) (9 ∷ []) (replicate 32 5)
      (replicate 32 7) reply patient
      (record {
        counter = refl;
        sig = omega arith;
        no_extensions = refl;
        written = omega arith;
        read = refl;
      })
      (record {
        rp_id = refl;
        cdh_is = refl;
        uv = λ e. cc;
        extensions = refl;
        received = omega arith;
        stmt = refl;
      })
      (record { hash = refl; same_hash = refl; size = refl; read = refl })
      (record { present = λ e. cc; dgst = message; digest_is = refl; accepted = refl })

-- The user has touched the device when it is polled.
abbrev touching : World
touching = answering (frame 0x90 0x00 ∷ [])

is_touched : (u2f_get_touch_status toy wide false touching).0 ≡ ok (val true)
unfolding u2f_get_touch_status fido_rx rx rx_preamble rx_payload rx_loop rx_frame io_read time_now
    time_delta elapsed
is_touched = refl

get_touch_status-Seen_example :
    Ends
      (OnRet IsCallCode (λ after v. Seen toy wide false touching after))
      (u2f_get_touch_status toy wide false touching)
get_touch_status-Seen_example = get_touch_status-Seen toy wide toy-IsPlain false touching
