-- ===== src/Credman/Rp.antt =====
-- src/credman.c: the relying parties that a device stores credentials for.
use mathlib.Core.Option
use fido2_manage.Prelude.{ℕ, none, some, ◌==◌, if◌then◌else◌, true, false}
use fido2_manage.Try.{Try, ◌>>◌}
use fido2_manage.Device.{Dev}
use fido2_manage.Blob.{Blob}
use fido2_manage.Cbor.{Parser, cbor_bytestring_copy}
use fido2_manage.Cbor.Encode.{Chars, Rp}
use fido2_manage.Cbor.Decode.{by_number, cbor_decode_rp_entity}
use fido2_manage.Ctap.{Calls, with_timeout}
use fido2_manage.Credman.{no_body, credman_tx, cmd_rp_begin, cmd_rp_next}
use fido2_manage.Listing.{Listing, empty_list, Kind, rx_first, rx_next, rx_all, parse_count, entry}

-- `struct fido_credman_single_rp`
pub record SingleRp : Type 0 where
  pub rp_entity : Rp
  pub rp_id_hash : Blob

abbrev pub blank_single : SingleRp
blank_single = record { rp_entity = record { id = none; name = none }; rp_id_hash = none }

unfoldable pub credman_parse_rp : Parser SingleRp
credman_parse_rp = by_number λ n v rp.
    if n == 3
    then Option.map (λ e. record rp { rp_entity = e }) (cbor_decode_rp_entity v rp.rp_entity)
    else if n == 4
    then Option.map (λ b. record rp { rp_id_hash = b }) (cbor_bytestring_copy v rp.rp_id_hash)
    else some rp

unfoldable pub credman_parse_rp_count : Parser (Listing SingleRp)
credman_parse_rp_count = parse_count 5 blank_single

abbrev pub rps : Kind SingleRp
rps = record {
  blank = blank_single;
  start = empty_list;
  count = credman_parse_rp_count;
  parse = credman_parse_rp;
  ask = λ c d. credman_tx c d cmd_rp_next no_body none none false;
}

unfoldable pub credman_rx_rp : Calls → Dev → Try (Listing SingleRp)
credman_rx_rp = rx_first rps

unfoldable pub credman_rx_next_rp : Calls → Dev → Listing SingleRp → Try (Listing SingleRp)
credman_rx_next_rp = rx_next rps

unfoldable pub fido_credman_get_dev_rp : Calls → Dev → Chars → Try (Listing SingleRp)
fido_credman_get_dev_rp c d pin =
    with_timeout d (do credman_tx c d cmd_rp_begin no_body pin none true; rx_all rps c d)

abbrev pub fido_credman_rp_count : Listing SingleRp → ℕ
fido_credman_rp_count rp = rp.n_rx

unfoldable pub fido_credman_rp_id : Listing SingleRp → ℕ → Chars
fido_credman_rp_id rp idx = elim (entry rps rp idx) [ none ↦ none | some e ↦ e.rp_entity.id ]

unfoldable pub fido_credman_rp_name : Listing SingleRp → ℕ → Chars
fido_credman_rp_name rp idx = elim (entry rps rp idx) [ none ↦ none | some e ↦ e.rp_entity.name ]

unfoldable pub fido_credman_rp_id_hash : Listing SingleRp → ℕ → Blob
fido_credman_rp_id_hash rp idx = elim (entry rps rp idx) [ none ↦ none | some e ↦ e.rp_id_hash ]
