-- ===== src/Largeblob/Tests.antt =====
-- Runs of the large-blob functions, and their theorems at concrete inputs.
use fido2_manage.Prelude.{
  ℕ, ◌≡◌, refl, true, false, List, [], ◌∷◌, ◌++◌, none, some, length, map, pos, arith, replicate,
  take, drop, ◌-◌, ◌+◌, ◌==◌, if◌then◌else◌,
}
use fido2_manage.Platform.{World, ok, io_write, io_read}
use fido2_manage.Time.{elapsed, time_now, time_delta}
use fido2_manage.Time.Budget.{at}
use fido2_manage.Err.{err_internal}
use fido2_manage.Try.{val, err, OnRet}
use fido2_manage.Ends.{Ends}
use fido2_manage.Device.{Dev}
use fido2_manage.Blob.{fido_blob_append}
use fido2_manage.Io.{
  tx, tx_preamble, tx_loop, tx_frame, send_pkt, tx_pkt, rx, rx_preamble, rx_payload, rx_loop,
  rx_frame, fido_tx, fido_rx,
}
use fido2_manage.Cbor.{
  definite_array, definite_map, entry_other, uint, bytestring, cbor_build_frame, cbor_build_uint,
  cbor_flatten_vector, flatten_from, cbor_parse_reply, cbor_map_iter, map_loop,
  cbor_bytestring_copy,
}
use fido2_manage.Compress.{fido_compress, fido_uncompress, rfc1951_deflate}
use fido2_manage.Ctap.Total.{AnyCode}
use fido2_manage.Largeblob.{
  Calls, get_chunk, get_chunklen, largeblob_get_array, largeblob_get_tx, largeblob_get_rx,
  parse_largeblob_reply, checked_array, get_chunks,
}
use fido2_manage.Ctap.Total
use fido2_manage.Largeblob.Fetch.{IsPlain}
use fido2_manage.Largeblob.Whole.{
  Serves, last, more, read_array, get_array-Serves, stored, checked_array-stored,
}
use fido2_manage.Largeblob.Store.{largeblob_set_array}
use fido2_manage.Largeblob.Written.{Stored, set_array-Ends}
use fido2_manage.Largeblob.Blobs.{largeblob_encode}
use fido2_manage.Largeblob.Sealed.{IsSealable, entry_of}
use fido2_manage.Largeblob.Placed.{Findable}
use fido2_manage.Largeblob.RoundTrip.{stored_blob-Findable}

-- Fragments of two bytes.
abbrev wide : Dev
wide = record {
  nonce = 0;
  attr = record { nonce = 0; cid = 0; protocol = 0; major = 0; minor = 0; build = 0; flags = 0 };
  cid = 0x11223344;
  io_handle = true;
  io_own = false;
  rx_len = 64;
  tx_len = 64;
  flags = 0;
  maxmsgsize = 66;
  timeout_ms = pos 1000;
}

-- A message is a map of one byte string here, and 5 is an array of one item; a hash is 32 sevens; the
-- text of a body is the body behind 16 bytes; and the cipher appends 16 bytes.
abbrev toy : Calls
toy = record {
  ctap = record {
    driver = record { has_read = true; has_write = true; transport_tx = none; transport_rx = none };
    cbor = record {
      load = λ bs. elim bs [
        | [] ↦ some (definite_map ((uint 1 1, bytestring []) ∷ []))
        | b ∷ rest ↦
            if b == 5
            then some (definite_array (entry_other (6 ∷ []) ∷ []))
            else some (definite_map ((uint 1 1, bytestring (b ∷ rest)) ∷ []))
      ];
      serialize = λ item. 5 ∷ [];
    };
    get_random = λ n w. (ok (replicate n 4), w);
    sha256 = λ bs. some (replicate 32 7);
    hmac_sha256 = λ key bs. some (replicate 32 8);
    hkdf_sha256 = λ info bs. some (replicate 32 9);
    aes256_cbc = λ encrypt key iv bs. some bs;
    new_key = λ w. (ok (replicate 32 3, record { x = replicate 32 1; y = replicate 32 2 }), w);
    derive = λ sk pk. some (replicate 32 4);
  };
  zlib = record {
    uncompress = λ bs n. none;
    inflate = λ bs n. some (drop 16 bs);
    deflate = λ bs n. if length bs == 1 then some bs else some (replicate 16 3 ++ bs);
  };
  gcm_seal = λ key nonce aad bs. some (bs ++ replicate 16 9);
  gcm_open = λ key nonce aad bs. some (take (length bs - 16) bs);
}

toy-IsPlain : IsPlain toy wide
toy-IsPlain = record { transport_tx = refl; transport_rx = refl; rx_len = omega arith }

ctap-IsPlain : Total.IsPlain toy.ctap wide
ctap-IsPlain = record {
  transport_tx = refl;
  transport_rx = refl;
  rx_len = omega arith;
  get_random = λ n w. record { ends = λ e. cc; value = λ a e. tt };
  new_key = λ w. record { ends = λ e. cc; value = λ a e. tt };
}

abbrev answering : List (List ℕ) → World
answering frames = record {
  sent = [];
  accepts = λ s p. some (length p);
  incoming = map some frames;
  clock = λ n. some (at 5 0);
  ticks = 0;
  ms = pos 1000;
}

-- FIDO_OK and the bytes of a fragment.
abbrev fragment : List ℕ → List ℕ
fragment bs =
    0x44
    ∷ 0x33
    ∷ 0x22
    ∷ 0x11
    ∷ 0x90
    ∷ 0
    ∷ (length bs + 1)
    ∷ 0
    ∷ (bs ++ replicate (56 - length bs) 0)

abbrev three : World
three = answering (fragment (10 ∷ 11 ∷ []) ∷ fragment (12 ∷ []) ∷ [])

abbrev three_1 : World
three_1 = (get_chunk toy wide 0 2 three).1

abbrev three_2 : World
three_2 = (get_chunk toy wide 2 2 three_1).1

three-Serves : Serves toy wide 2 (10 ∷ 11 ∷ 12 ∷ []) 0 three 1 three_2
unfolding get_chunk largeblob_get_tx largeblob_get_rx parse_largeblob_reply cbor_build_frame
    cbor_build_uint cbor_flatten_vector flatten_from cbor_parse_reply cbor_map_iter map_loop
    cbor_bytestring_copy fido_tx fido_rx tx tx_preamble tx_loop tx_frame send_pkt tx_pkt io_write
    time_now time_delta elapsed rx rx_preamble rx_payload rx_loop rx_frame io_read
three-Serves =
    more 0 three three_1 1 three_2 refl (omega arith)
      (last 2 three_1 1 three_2 refl (omega arith) (omega arith))

get_array-Serves_example :
    largeblob_get_array toy wide three ≡ (ok (read_array toy (10 ∷ 11 ∷ 12 ∷ []) 1), three_2)
unfolding get_chunklen
get_array-Serves_example =
    get_array-Serves toy wide (10 ∷ 11 ∷ 12 ∷ []) three 1 three_2 toy-IsPlain (omega arith)
      (omega arith) three-Serves

-- The array ends at the end of a full fragment, and the device then has nothing left.
abbrev two : World
two = answering (fragment (10 ∷ 11 ∷ []) ∷ fragment [] ∷ [])

exact_multiple : (largeblob_get_array toy wide two).0 ≡ ok (err err_internal)
unfolding largeblob_get_array get_chunks get_chunklen fido_blob_append get_chunk largeblob_get_tx
    largeblob_get_rx parse_largeblob_reply cbor_build_frame cbor_build_uint cbor_flatten_vector
    flatten_from cbor_parse_reply cbor_map_iter map_loop cbor_bytestring_copy fido_tx fido_rx tx
    tx_preamble tx_loop tx_frame send_pkt tx_pkt io_write time_now time_delta elapsed rx rx_preamble
    rx_payload rx_loop rx_frame io_read
exact_multiple = refl

checked_array-stored_example :
    checked_array toy (stored (5 ∷ []) (replicate 32 7)) ≡ some (entry_other (6 ∷ []) ∷ [])
checked_array-stored_example =
    checked_array-stored toy (5 ∷ []) (replicate 32 7) (entry_other (6 ∷ []) ∷ []) (omega arith)
      refl refl refl

set_array-Ends_example :
    Ends
      (OnRet AnyCode (λ u v. Stored toy wide (definite_array []) v))
      (largeblob_set_array toy wide (definite_array []) (some (1 ∷ [])) three)
set_array-Ends_example =
    set_array-Ends toy wide ctap-IsPlain (definite_array []) (some (1 ∷ [])) three

abbrev body : List ℕ
body = 1 ∷ 2 ∷ []

abbrev text : List ℕ
text = replicate 16 3 ++ body

body-IsSealable :
    IsSealable toy (replicate 32 5) body text (replicate 12 4) (text ++ replicate 16 9) three three
unfolding fido_compress rfc1951_deflate
body-IsSealable = record {
  key_size = refl;
  compressed = refl;
  random = refl;
  nonce_size = refl;
  long = omega arith;
  short = omega arith;
  seal = refl;
  tag = refl;
  opened = refl;
}

stored_blob-Findable_example :
    let item = entry_of (text ++ replicate 16 9) (replicate 12 4) 2 in
    (largeblob_encode toy body (replicate 32 5) three ≡ (ok (val item), three))
    × Findable toy (replicate 32 5) (entry_other (6 ∷ []) ∷ []) item (text, 2)
    × (fido_uncompress toy.zlib text 2 ≡ val body)
stored_blob-Findable_example =
    stored_blob-Findable toy (replicate 32 5) body text (replicate 12 4) (text ++ replicate 16 9)
      (entry_other (6 ∷ []) ∷ []) three three body-IsSealable
      (record { size = omega arith; text_size = omega arith; not_wrapped = refl; inflates = refl })
      (omega arith)
