-- ===== src/Io.antt =====
-- src/io.c: CTAPHID messages as fixed-size reports. A message starts with one initialization frame
-- and goes on in numbered continuation frames.
pub mod Frame
pub mod Receive
pub mod Message
pub mod RoundTrip
pub mod Bounds
pub mod Send
pub mod Total
pub mod Tests
use fido2_manage.Prelude.{
  ℤ, pos, negsuc, ℕ, zero, suc, ◌+◌, ◌-◌, ◌/◌, ◌%◌, ◌*◌, min, bit_and, bit_or, Bool, true, false,
  not, ◌&&◌, ◌||◌, List, [], ◌∷◌, ◌++◌, Option, none, some, length, take, drop, replicate, get_or,
  le32, rd_le32, ltb, ◌==◌, if◌then◌else◌,
}
use fido2_manage.Err.{err_rx}
use fido2_manage.Platform.{
  World, Result, ok, fail, hang, M, ◌>>=◌, ◌>>◌, return, failure, of_option, attempt, io_write,
  io_read,
}
use fido2_manage.Time.{time_now, time_delta}
use fido2_manage.Device.{Dev, Driver, uint16_max, add_size, sub_size}

-- The sizes of src/fido/param.h, and those of `struct frame`.
abbrev pub ctap_init_header_len : ℕ
ctap_init_header_len = 7

abbrev pub ctap_cont_header_len : ℕ
ctap_cont_header_len = 5

abbrev pub frame_size : ℕ
frame_size = 64

abbrev pub init_data_size : ℕ
init_data_size = 57

abbrev pub cont_data_size : ℕ
cont_data_size = 59

abbrev pub ctap_frame_init : ℕ
ctap_frame_init = 0x80

abbrev pub ctap_keepalive : ℕ
ctap_keepalive = 0x3b

-- The fields of a frame in memory.
abbrev pub frame_cid : List ℕ → ℕ
frame_cid f = rd_le32 f

abbrev pub frame_type : List ℕ → ℕ
frame_type f = get_or f 4 0

abbrev pub init_bcnth : List ℕ → ℕ
init_bcnth f = get_or f 5 0

abbrev pub init_bcntl : List ℕ → ℕ
init_bcntl f = get_or f 6 0

-- The bytes of a zeroed 64-byte frame after its head was written.
abbrev pub pad_frame : List ℕ → List ℕ
pad_frame bs = bs ++ replicate (frame_size - length bs) 0

-- `pkt` is a report number, 0, and the frame.
abbrev pub init_pkt : Dev → ℕ → ℕ → List ℕ → List ℕ
init_pkt d cmd count body =
    0
    ∷ pad_frame
        (le32 d.cid ++ (bit_or ctap_frame_init cmd ∷ count / 256 % 256 ∷ count % 256 ∷ body))

abbrev pub cont_pkt : Dev → ℕ → List ℕ → List ℕ
cont_pkt d seq body = 0 ∷ pad_frame (le32 d.cid ++ (seq ∷ body))

unfoldable pub tx_pkt : List ℕ → M ℕ
tx_pkt pkt = do ts ← time_now; n ← io_write pkt; time_delta ts; of_option n

-- `len > sizeof(pkt) || (n = tx_pkt(d, pkt, len, ms)) < 0 || (size_t)n != len`
unfoldable pub send_pkt : Dev → List ℕ → M (Unit {0})
send_pkt d pkt =
    let len = add_size d.tx_len 1 in
    if ltb (frame_size + 1) len
    then failure
    else do n ← tx_pkt (take len pkt); if n == len then return tt else failure

unfoldable pub tx_empty : Dev → ℕ → M (Unit {0})
tx_empty d cmd = send_pkt d (0 ∷ pad_frame (le32 d.cid ++ (bit_or ctap_frame_init cmd ∷ [])))

-- `return (0)` on failure, else `return (count)`.
abbrev pub count_or_zero : ℕ → Option (Unit {0}) → ℕ
count_or_zero count none = 0
count_or_zero count (some _) = count

-- `buf` holds `count` bytes.
unfoldable pub tx_preamble : Dev → ℕ → List ℕ → M ℕ
tx_preamble d cmd buf =
    let room = sub_size d.tx_len ctap_init_header_len in
    let count = min (length buf) room in
    if ltb init_data_size room then return 0 else do
      s ← attempt (send_pkt d (init_pkt d cmd (length buf) (take count buf)))
      return (count_or_zero count s)

unfoldable pub tx_frame : Dev → ℕ → List ℕ → M ℕ
tx_frame d seq buf =
    let room = sub_size d.tx_len ctap_cont_header_len in
    let count = min (length buf) room in
    if ltb cont_data_size room then return 0 else do
      s ← attempt (send_pkt d (cont_pkt d seq (take count buf)))
      return (count_or_zero count s)

-- The loop of `tx`; `rest` is what `buf + sent` points to. `seq` grows by 1 in each round and the
-- loop ends at 128, so 129 rounds are enough.
unfoldable pub tx_loop : ℕ → Dev → ℕ → List ℕ → M (Unit {0})
tx_loop zero d seq rest w = (hang, w)
tx_loop (suc fuel) d seq rest w = elim (length rest == 0) [
  | true ↦ (ok tt, w)
  | false ↦ elim (bit_and seq 0x80 == 0) [
    | false ↦ (fail, w)
    | true ↦
        (do
          n ← tx_frame d seq rest
          if n == 0 then failure else tx_loop fuel d ((seq + 1) % 256) (drop n rest))
          w
  ]
]

unfoldable pub tx : Dev → ℕ → List ℕ → M (Unit {0})
tx d cmd buf = do
  sent ← tx_preamble d cmd buf
  if sent == 0 then failure else tx_loop 129 d 0 (drop sent buf)

-- `d->transport.tx`, charged to the budget.
unfoldable pub fido_tx : Driver → Dev → ℕ → List ℕ → M (Unit {0})
fido_tx io d cmd buf = elim io.transport_tx [
  | some f ↦ do ts ← time_now; n ← attempt (f d cmd buf); time_delta ts; of_option n
  | none ↦
      if not d.io_handle || not io.has_write || ltb uint16_max (length buf)
      then failure
      else if length buf == 0
      then tx_empty d cmd
      else tx d cmd buf
]

-- A frame is zeroed and then filled by the driver.
unfoldable pub rx_frame : Dev → M (List ℕ)
rx_frame d = do
  ts ← time_now
  if ltb frame_size d.rx_len then failure else return tt
  r ← io_read d.rx_len
  bs ← of_option r
  if length bs == d.rx_len then return tt else failure
  time_delta ts
  return (pad_frame bs)

-- Frames of other channels and keep-alives are skipped.
abbrev pub is_skipped : Dev → List ℕ → Bool
is_skipped d fp =
    not (frame_cid fp == d.cid)
    || (frame_cid fp == d.cid && frame_type fp == bit_or ctap_frame_init ctap_keepalive)

-- What follows the loop of `rx_preamble`.
abbrev pub check_preamble : Dev → ℕ → List ℕ → M (List ℕ)
check_preamble d cmd fp =
    if ltb frame_size d.rx_len
    then failure
    else if not (frame_cid fp == d.cid) || not (frame_type fp == bit_or ctap_frame_init cmd)
    then failure
    else return fp

-- Each round reads a frame, and a read fails when no outcome is left.
unfoldable pub rx_preamble : ℕ → Dev → ℕ → M (List ℕ)
rx_preamble zero d cmd w = (hang, w)
rx_preamble (suc fuel) d cmd w =
    (do
      fp ← rx_frame d
      if is_skipped d fp then rx_preamble fuel d cmd else check_preamble d cmd fp)
      w

-- The loop of `rx`. `got` is what `buf` holds, `r` bytes. A round stores a byte at least.
unfoldable pub rx_loop : ℕ → Dev → ℕ → ℕ → List ℕ → M (List ℕ)
rx_loop zero d seq payload_len got w = (hang, w)
rx_loop (suc fuel) d seq payload_len got w =
    let r = length got in
    let cont_data_len = d.rx_len - ctap_cont_header_len in
    let n = if ltb cont_data_len (payload_len - r) then cont_data_len else payload_len - r in
    elim (ltb r payload_len) [
      | false ↦ (ok got, w)
      | true ↦
          (do
            fp ← rx_frame d
            let next =
                rx_loop fuel d (seq + 1) payload_len (got ++ take n (drop ctap_cont_header_len fp))
            if not (frame_cid fp == d.cid) || not (frame_type fp == seq) then failure else next)
            w
    ]

-- The value is what was stored in the caller's buffer of `count` bytes; its length is returned.
unfoldable pub rx_payload : Dev → ℕ → List ℕ → M (List ℕ)
rx_payload d count f =
    let init_data_len = d.rx_len - ctap_init_header_len in
    let payload_len = init_bcnth f * 256 + init_bcntl f in
    let body = drop ctap_init_header_len f in
    if ltb count payload_len
    then failure
    else if ltb payload_len init_data_len
    then return (take payload_len body)
    else rx_loop (suc payload_len) d 0 payload_len (take init_data_len body)

unfoldable pub rx : Dev → ℕ → ℕ → M (List ℕ)
rx d cmd count w =
    if not (ltb ctap_init_header_len d.rx_len) || not (ltb ctap_cont_header_len d.rx_len)
    then (fail, w)
    else if ltb init_data_size (d.rx_len - ctap_init_header_len)
        || ltb cont_data_size (d.rx_len - ctap_cont_header_len)
    then (fail, w)
    else (do f ← rx_preamble (suc (length w.incoming)) d cmd; rx_payload d count f) w

unfoldable pub fido_rx : Driver → Dev → ℕ → ℕ → M (List ℕ)
fido_rx io d cmd count = elim io.transport_rx [
  | some f ↦ do ts ← time_now; r ← attempt (f d cmd count); time_delta ts; of_option r
  | none ↦
      if not d.io_handle || not io.has_read || ltb uint16_max count then failure else rx d cmd count
]

-- The status byte of a message, if one came.
abbrev pub status_of : Option (List ℕ) → M ℤ
status_of none = return err_rx
status_of (some []) = return err_rx
status_of (some (status ∷ rest)) = return (pos status)

-- FIDO_MAXMSG is 2048.
unfoldable pub fido_rx_cbor_status : Driver → Dev → M ℤ
fido_rx_cbor_status io d = do r ← attempt (fido_rx io d 0x10 2048); status_of r
