-- ===== src/Nfc.antt =====
-- src/nfc.c: CTAP messages over ISO 7816 APDUs. A long command is sent as a chain of short APDUs, and
-- a long answer is fetched part by part.
pub mod Chain
pub mod Answer
mod Tests
use fido2_manage.Prelude.{
  bytes_eq, ℕ, zero, suc, ◌+◌, ◌-◌, ◌*◌, ◌/◌, ◌%◌, le32, replicate, bit_and, bit_or, Bool, true,
  false, not, ◌&&◌, ◌||◌, List, [], ◌∷◌, ◌++◌, Option, none, some, length, take, drop, get_or, ltb,
  ◌==◌, if◌then◌else◌,
}
use fido2_manage.Platform.{
  World, Result, ok, fail, hang, M, ◌>>=◌, ◌>>◌, return, failure, of_option, io_write, io_read,
}
use fido2_manage.Time.{time_now, time_delta}
use fido2_manage.Device.{Dev, CtapInfo, uint16_max}
use fido2_manage.Buf.{Cursor, fido_buf_read, fido_buf_write}
use fido2_manage.Apdu.{iso7816_new, iso7816_add, apdu_bytes}

abbrev pub tx_chunk_size : ℕ
tx_chunk_size = 240

-- The status words of src/fido/param.h.
abbrev pub sw_no_error : ℕ
sw_no_error = 0x9000

abbrev pub sw1_more_data : ℕ
sw1_more_data = 0x61

-- The answer to every APDU of a chain but the last.
unfoldable pub read_status : M (Unit {0})
read_status = do
  r ← io_read 2
  sw ← of_option r
  if length sw == 2 && get_or sw 0 0 * 256 + get_or sw 1 0 == sw_no_error
      then return tt
      else failure

-- The bytes of a short APDU. `h` is the seven bytes of an `iso7816_header_t`, of which four are used.
abbrev pub short_apdu : List ℕ → List ℕ → ℕ → List ℕ
short_apdu h payload cla_flags =
    bit_or (get_or h 0 0) cla_flags
    ∷ get_or h 1 0
    ∷ get_or h 2 0
    ∷ get_or h 3 0
    ∷ length payload
    ∷ (payload ++ (0 ∷ []))

-- `payload` holds `payload_len` bytes, at most 255.
unfoldable pub tx_short_apdu : List ℕ → List ℕ → ℕ → M (Unit {0})
tx_short_apdu h payload cla_flags = do
  n ← io_write (short_apdu h payload cla_flags)
  _ ← of_option n
  if bit_and cla_flags 0x10 == 0 then return tt else read_status

-- The loop of `nfc_do_tx` and the last APDU; `payload` is what `apdu_ptr` points to. A round takes
-- 240 bytes, so as many rounds as there are bytes are enough.
unfoldable pub tx_chain : ℕ → List ℕ → List ℕ → M (Unit {0})
tx_chain zero h payload w = (hang, w)
tx_chain (suc fuel) h payload w = elim (ltb tx_chunk_size (length payload)) [
  | true ↦
      (tx_short_apdu h (take tx_chunk_size payload) 0x10
          >> tx_chain fuel h (drop tx_chunk_size payload))
        w
  | false ↦ tx_short_apdu h (take (length payload % 256) payload) 0 w
]

unfoldable pub nfc_do_tx : List ℕ → M (Unit {0})
nfc_do_tx apdu = do
  (h, rest) ← of_option (fido_buf_read apdu 7)
  if ltb (length rest) 2 then failure else return tt
  tx_chain (suc (length rest)) h (take (length rest - 2) rest)

abbrev pub aid : List ℕ
aid = 0xa0 ∷ 0x00 ∷ 0x00 ∷ 0x06 ∷ 0x47 ∷ 0x2f ∷ 0x00 ∷ 0x01 ∷ []

abbrev pub cmd_msg : ℕ
cmd_msg = 0x03

abbrev pub cmd_init : ℕ
cmd_init = 0x06

abbrev pub cmd_cbor : ℕ
cmd_cbor = 0x10

unfoldable pub fido_nfc_tx : Dev → ℕ → List ℕ → M (Unit {0})
fido_nfc_tx d cmd buf =
    if cmd == cmd_init
    then (do
      a ← of_option (iso7816_add (iso7816_new 0 0xa4 0x04 (length aid)) aid)
      nfc_do_tx (apdu_bytes a))
    else if cmd == cmd_cbor
    then if ltb uint16_max (length buf) then failure else (do
      a ← of_option (iso7816_add (iso7816_new 0x80 0x10 0x00 (length buf)) buf)
      nfc_do_tx (apdu_bytes a))
    else if cmd == cmd_msg
    then nfc_do_tx buf
    else failure

unfoldable pub tx_get_response : ℕ → Bool → M (Unit {0})
tx_get_response count cbor = do
  n ← io_write ((if cbor then 0x80 else 0x00) ∷ 0xc0 ∷ 0 ∷ 0 ∷ count ∷ [])
  _ ← of_option n
  return tt

-- The value is `sw` and the caller's cursor.
unfoldable pub rx_apdu : Cursor → M (ℕ × ℕ × Cursor)
rx_apdu c = do
  ts ← time_now
  r ← io_read 258
  f ← of_option r
  if ltb (length f) 2 then failure else return tt
  time_delta ts
  let n = length f
  c' ← of_option (fido_buf_write c (take (n - 2) f))
  return (get_or f (n - 2) 0, get_or f (n - 1) 0, c')

-- The loop of `rx_msg`. Each round takes an outcome of the driver's reads.
unfoldable pub rx_more : ℕ → Bool → ℕ × ℕ × Cursor → M (ℕ × ℕ × Cursor)
rx_more zero cbor s w = (hang, w)
rx_more (suc fuel) cbor s w = elim (s.0 == sw1_more_data) [
  | false ↦ (ok s, w)
  | true ↦ (tx_get_response s.1 cbor >> (rx_apdu s.2 >>= rx_more fuel cbor)) w
]

abbrev pub int_max : ℕ
int_max = 2147483647

-- The value is what the caller's buffer of `count` bytes holds; its length is returned.
unfoldable pub rx_msg : ℕ → Bool → M (List ℕ)
rx_msg count cbor w =
    (do
      s ← rx_apdu (record { written = []; room = count })
      (sw1, sw2, c) ← rx_more (suc (length w.incoming)) cbor s
      c' ← of_option (fido_buf_write c (sw1 ∷ sw2 ∷ []))
      if ltb int_max (count - c'.room) then failure else return (c'.written))
      w

unfoldable pub rx_cbor : ℕ → M (List ℕ)
rx_cbor count = do
  m ← rx_msg count true
  if ltb (length m) 2 then failure else return (take (length m - 2) m)

-- "U2F_V2" and "FIDO_2_0"
abbrev pub v_u2f : List ℕ
v_u2f = 0x55 ∷ 0x32 ∷ 0x46 ∷ 0x5f ∷ 0x56 ∷ 0x32 ∷ []

abbrev pub v_fido : List ℕ
v_fido = 0x46 ∷ 0x49 ∷ 0x44 ∷ 0x4f ∷ 0x5f ∷ 0x32 ∷ 0x5f ∷ 0x30 ∷ []

-- The memory of a zeroed `fido_ctap_info_t`, of 17 bytes, with its nonce and flags set.
abbrev pub attr_bytes : ℕ → ℕ → List ℕ
attr_bytes nonce flags =
    le32 nonce ++ (le32 (nonce / 4294967296) ++ (replicate 8 0 ++ (flags ∷ [])))

-- The card's version string decides the flags: FIDO_CAP_CBOR, and FIDO_CAP_NMSG.
unfoldable pub rx_init : Dev → ℕ → M (List ℕ)
rx_init d count = if not (count == 17) then failure else do
  m ← rx_msg 64 false
  let n = length m
  if ltb n 2 || not (get_or m (n - 2) 0 * 256 + get_or m (n - 1) 0 == sw_no_error)
      then failure
      else return tt
  let f = take (n - 2) m
  if bytes_eq f v_u2f
      then return (attr_bytes d.nonce 0x04)
      else if bytes_eq f v_fido
      then return (attr_bytes d.nonce 0x0c)
      else failure

unfoldable pub fido_nfc_rx : Dev → ℕ → ℕ → M (List ℕ)
fido_nfc_rx d cmd count =
    if cmd == cmd_init
    then rx_init d count
    else if cmd == cmd_cbor
    then rx_cbor count
    else if cmd == cmd_msg
    then rx_msg count false
    else failure
