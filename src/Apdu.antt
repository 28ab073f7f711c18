-- ===== src/Apdu.antt =====
-- src/iso7816.c: a command APDU of extended length that is filled from the front. Allocation is
-- taken to succeed.
pub mod Layout
use fido2_manage.Prelude.{
  ℕ, ◌+◌, ◌-◌, ◌/◌, ◌%◌, ◌^◌, Bool, ◌||◌, List, [], ◌∷◌, ◌++◌, Option, none, some, length, take,
  drop, replicate, ltb, if◌then◌else◌,
}
use fido2_manage.Device.{uint16_max}

-- `iso7816_header_t`
pub record Header : Type 0 where
  pub cla : ℕ
  pub ins : ℕ
  pub p1 : ℕ
  pub p2 : ℕ
  pub lc1 : ℕ
  pub lc2 : ℕ
  pub lc3 : ℕ

abbrev pub header_bytes : Header → List ℕ
header_bytes h = h.cla ∷ h.ins ∷ h.p1 ∷ h.p2 ∷ h.lc1 ∷ h.lc2 ∷ h.lc3 ∷ []

-- `iso7816_apdu_t`: `payload` is the memory behind the header, and `offset` is where `payload_ptr`
-- points in it.
pub record Apdu : Type 0 where
  pub alloc_len : ℕ
  pub payload_len : ℕ
  pub offset : ℕ
  pub header : Header
  pub payload : List ℕ

-- The layout of the struct on a 64-bit target.
abbrev pub sizeof_apdu : ℕ
sizeof_apdu = 32

abbrev pub offsetof_header : ℕ
offsetof_header = 24

abbrev pub offsetof_payload : ℕ
offsetof_payload = 31

unfoldable pub iso7816_new : ℕ → ℕ → ℕ → ℕ → Apdu
iso7816_new cla ins p1 payload_len = record {
  alloc_len = sizeof_apdu + payload_len + 2;
  payload_len = payload_len;
  offset = 0;
  header = record {
    cla = cla;
    ins = ins;
    p1 = p1;
    p2 = 0;
    lc1 = 0;
    lc2 = payload_len / 256 % 256;
    lc3 = payload_len % 256;
  };
  payload = replicate (sizeof_apdu + payload_len + 2 - offsetof_payload) 0;
}

-- `none` is the C value -1.
unfoldable pub iso7816_add : Apdu → List ℕ → Option Apdu
iso7816_add a buf =
    let cnt = length buf in
    if ltb a.payload_len cnt || ltb uint16_max cnt
    then none
    else some (record a {
      payload = take a.offset a.payload ++ (buf ++ drop (a.offset + cnt) a.payload);
      offset = a.offset + cnt;
      payload_len = (a.payload_len - cnt) % 2 ^ 16;
    })

unfoldable pub iso7816_len : Apdu → ℕ
iso7816_len a = a.alloc_len - offsetof_header - (sizeof_apdu - offsetof_payload)

-- The bytes that `iso7816_ptr` points to, as many as `iso7816_len` says.
unfoldable pub apdu_bytes : Apdu → List ℕ
unfolding iso7816_len
apdu_bytes a = take (iso7816_len a) (header_bytes a.header ++ a.payload)
