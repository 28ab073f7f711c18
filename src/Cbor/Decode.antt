-- ===== src/Cbor/Decode.antt =====
-- src/cbor.c: the parts of a reply. What is there already is refused, and what is not known is
-- passed over.
use mathlib.Core.Option
use Prim.Native.String.{String}
use fido2_manage.Prelude.{
  ℕ, Bool, ◌||◌, List, [], ◌∷◌, Option, none, some, ◌==◌, bytes_eq, codes, if◌then◌else◌,
}
use fido2_manage.Blob.{Blob}
use fido2_manage.Cbor.{
  Value, uint, negint, string, map_of, boolean, pairs_of, Parser, cbor_map_iter,
  cbor_bytestring_copy,
}
use fido2_manage.Cbor.Encode.{Chars, Rp, User}

-- What a function of string.h sees: the bytes before the first zero.
abbrev pub c_string : List ℕ → List ℕ
c_string [] = []
c_string (b ∷ bs) = if b == 0 then [] else b ∷ c_string bs

unfoldable pub cbor_string_copy : Value → Chars → Option Chars
cbor_string_copy (string bs) none = some (some (c_string bs))
cbor_string_copy v chars = none

-- The copy of a key into a fresh pointer.
abbrev pub key_name : Value → Option (List ℕ)
key_name (string bs) = some (c_string bs)
key_name v = none

-- `strcmp(name, literal) == 0`
abbrev pub named : List ℕ → String → Bool
named name literal = bytes_eq name (codes literal)

-- A parser by the name of the key, which ignores keys that are no strings.
abbrev pub by_name : {S : Type 0} → (List ℕ → Value → S → Option S) → Parser S
by_name f key v s = elim (key_name key) [ none ↦ some s | some name ↦ f name v s ]

-- `cbor_isa_uint(key) && cbor_int_get_width(key) == CBOR_INT_8`
abbrev pub key_number : Value → Option ℕ
key_number (uint w n) = if w == 1 then some n else none
key_number v = none

-- `cbor_isa_negint(key) && cbor_int_get_width(key) == CBOR_INT_8`
abbrev pub key_negative : Value → Option ℕ
key_negative (negint w n) = if w == 1 then some n else none
key_negative v = none

abbrev pub number_step : {S : Type 0} → (ℕ → Value → S → Option S) → Option ℕ → Value → S → Option S
number_step f none v s = some s
number_step f (some n) v s = f n v s

-- A parser by the number of the key, which ignores keys that are no small numbers.
abbrev pub by_number : {S : Type 0} → (ℕ → Value → S → Option S) → Parser S
by_number f key v s = number_step f (key_number key) v s

-- A definite map, read by a parser.
abbrev pub iter_map : {S : Type 0} → Parser S → Value → S → Option S
iter_map f (map_of fs) s = cbor_map_iter f (pairs_of fs) s
iter_map f v s = none

unfoldable pub cbor_array_iter : {S : Type 0} → (Value → S → Option S) → List Value → S → Option S
cbor_array_iter f [] s = some s
cbor_array_iter f (v ∷ vs) s = elim (f v s) [ none ↦ none | some s' ↦ cbor_array_iter f vs s' ]

unfoldable pub cbor_decode_bool : Value → Option Bool
cbor_decode_bool (boolean b) = some b
cbor_decode_bool v = none

unfoldable pub cbor_decode_uint64 : Value → Option ℕ
cbor_decode_uint64 (uint w n) = some n
cbor_decode_uint64 v = none

unfoldable pub decode_cred_id_entry : Parser Blob
decode_cred_id_entry =
    by_name λ name v id. if named name "id" then cbor_bytestring_copy v id else some id

unfoldable pub cbor_decode_cred_id : Value → Blob → Option Blob
cbor_decode_cred_id = iter_map decode_cred_id_entry

unfoldable pub decode_user_entry : Parser User
decode_user_entry = by_name λ name v user.
    if named name "icon"
    then Option.map (λ s. record user { icon = s }) (cbor_string_copy v user.icon)
    else if named name "name"
    then Option.map (λ s. record user { name = s }) (cbor_string_copy v user.name)
    else if named name "displayName"
    then Option.map (λ s. record user { display_name = s }) (cbor_string_copy v user.display_name)
    else if named name "id"
    then Option.map (λ b. record user { id = b }) (cbor_bytestring_copy v user.id)
    else some user

unfoldable pub cbor_decode_user : Value → User → Option User
cbor_decode_user = iter_map decode_user_entry

unfoldable pub decode_rp_entity_entry : Parser Rp
decode_rp_entity_entry = by_name λ name v rp.
    if named name "id"
    then Option.map (λ s. record rp { id = s }) (cbor_string_copy v rp.id)
    else if named name "name"
    then Option.map (λ s. record rp { name = s }) (cbor_string_copy v rp.name)
    else some rp

unfoldable pub cbor_decode_rp_entity : Value → Rp → Option Rp
cbor_decode_rp_entity = iter_map decode_rp_entity_entry

-- One of the four formats of an attestation.
unfoldable pub cbor_decode_fmt : Value → Option (List ℕ)
cbor_decode_fmt v = elim (key_name v) [
  | none ↦ none
  | some type ↦
      if named type "packed" || named type "fido-u2f" || named type "none" || named type "tpm"
      then some type
      else none
]
