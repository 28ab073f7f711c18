-- ===== src/Ctap/Samples.antt =====
-- Devices and calls for the tests of the commands of src/pin.c and src/credman.c.
use fido2_manage.Prelude.{
  ℕ, refl, true, false, List, [], ◌∷◌, Option, none, some, length, map, pos, arith, replicate,
}
use fido2_manage.Platform.{World, ok}
use fido2_manage.Time.Budget.{at}
use fido2_manage.Device.{Dev}
use fido2_manage.Cbor.{Item, definite_map, uint}
use fido2_manage.Cbor.Encode.{Es256Pk, es256_pk_encode}
use fido2_manage.Ctap.{Calls}
use fido2_manage.Ctap.Total.{IsPlain}

-- A device of PIN protocol 2 that has no PIN.
abbrev pub fresh : Dev
fresh = record {
  nonce = 0;
  attr = record { nonce = 0; cid = 0; protocol = 0; major = 0; minor = 0; build = 0; flags = 4 };
  cid = 0x11223344;
  io_handle = true;
  io_own = false;
  rx_len = 64;
  tx_len = 64;
  flags = 0x22;
  maxmsgsize = 1200;
  timeout_ms = pos 1000;
}

abbrev pub pk : Es256Pk
pk = record { x = replicate 32 1; y = replicate 32 2 }

-- The device's key.
abbrev pub item_of : List ℕ → Option Item
item_of [] = none
item_of (b ∷ bs) = some (definite_map ((uint 1 1, es256_pk_encode pk true) ∷ []))

-- Hashes and secrets are 32 bytes; the cipher leaves the text; the encoding of an item is a byte.
abbrev pub toy : Calls
toy = record {
  driver = record { has_read = true; has_write = true; transport_tx = none; transport_rx = none };
  cbor = record { load = item_of; serialize = λ item. 0xa0 ∷ [] };
  get_random = λ n w. (ok (replicate n 5), w);
  sha256 = λ bs. some (replicate 32 7);
  hmac_sha256 = λ key bs. some (replicate 32 8);
  hkdf_sha256 = λ info bs. some (replicate 32 9);
  aes256_cbc = λ encrypt key iv bs. some bs;
  new_key = λ w. (ok (replicate 32 3, pk), w);
  derive = λ sk pk. some (replicate 32 4);
}

pub toy-IsPlain : IsPlain toy fresh
toy-IsPlain = record {
  transport_tx = refl;
  transport_rx = refl;
  rx_len = omega arith;
  get_random = λ n w. record { ends = λ e. cc; value = λ a e. tt };
  new_key = λ w. record { ends = λ e. cc; value = λ a e. tt };
}

-- A message of CBOR of two bytes.
abbrev pub frame : ℕ → ℕ → List ℕ
frame a b = 0x44 ∷ 0x33 ∷ 0x22 ∷ 0x11 ∷ 0x90 ∷ 0 ∷ 2 ∷ a ∷ b ∷ replicate 55 0

abbrev pub answering : List (List ℕ) → World
answering frames = record {
  sent = [];
  accepts = λ s p. some (length p);
  incoming = map some frames;
  clock = λ n. some (at 5 0);
  ticks = 0;
  ms = pos 1000;
}
