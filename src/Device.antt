-- ===== src/Device.antt =====
-- The device handle, `struct fido_dev` and `struct fido_ctap_info` of src/fido/types.h, and the
-- function pointers that it holds.
use fido2_manage.Prelude.{ℕ, ◌^◌, ◌+◌, ◌-◌, ◌%◌, Bool, List, Option, ℤ}
use fido2_manage.Platform.{M}

-- `fido_ctap_info_t`, what a device answers to CTAPHID_INIT.
pub record CtapInfo : Type 0 where
  pub nonce : ℕ
  pub cid : ℕ
  pub protocol : ℕ
  pub major : ℕ
  pub minor : ℕ
  pub build : ℕ
  pub flags : ℕ

-- `fido_dev_t` without its function pointers, which `Driver` holds, and without its path.
-- `io_handle` says whether the handle is set; `flags` are the FIDO_DEV_* bits.
pub record Dev : Type 0 where
  pub nonce : ℕ
  pub attr : CtapInfo
  pub cid : ℕ
  pub io_handle : Bool
  pub io_own : Bool
  pub rx_len : ℕ
  pub tx_len : ℕ
  pub flags : ℕ
  pub maxmsgsize : ℕ
  pub timeout_ms : ℤ

-- `dev->io` and `dev->transport`: whether read and write are set, and the transport functions.
-- `transport.rx` takes the size of the caller's buffer and gives the bytes stored in it.
pub record Driver : Type 0 where
  pub has_read : Bool
  pub has_write : Bool
  pub transport_tx : Option (Dev → ℕ → List ℕ → M (Unit {0}))
  pub transport_rx : Option (Dev → ℕ → ℕ → M (List ℕ))

abbrev pub uint16_max : ℕ
uint16_max = 2 ^ 16 - 1

-- size_t arithmetic.
abbrev pub add_size : ℕ → ℕ → ℕ
add_size a b = (a + b) % 2 ^ 64

abbrev pub sub_size : ℕ → ℕ → ℕ
sub_size a b = (a + 2 ^ 64 - b) % 2 ^ 64
