-- ===== src/Cbor.antt =====
-- src/cbor.c: replies and commands as CBOR maps, over the items of libcbor.
pub mod Encode
pub mod Auth
pub mod Decode
pub mod Keys
pub mod Canonical
pub mod Distinct
pub mod Invariant
pub mod RoundTrip
mod Tests
use fido2_manage.Prelude.{
  ℕ, suc, Bool, true, false, ◌&&◌, ◌||◌, List, [], ◌∷◌, ◌++◌, Option, none, some, length, take,
  drop, ltb, leb, ◌==◌, pos, if◌then◌else◌, ◌^◌,
}
use fido2_manage.Err.{err_rx, err_rx_not_cbor, err_rx_invalid_cbor}
use fido2_manage.Blob.{Blob}
use fido2_manage.Try.{Ret, val, err}

-- What stands in a map or an array, as far as it is told apart: integers with their width in bytes,
-- definite strings, arrays and maps, texts of indefinite length as the list of their chunks,
-- Booleans, and others.
mutual
  pub data Value : Type 0 where
    uint : ℕ → ℕ → Value
    negint : ℕ → ℕ → Value
    bytestring : List ℕ → Value
    string : List ℕ → Value
    indefinite_string : List (List ℕ) → Value
    array_of : Values → Value
    map_of : Fields → Value
    boolean : Bool → Value
    other : Value

  pub data Values : Type 0 where
    end_array : Values
    element : Value → Values → Values

  pub data Fields : Type 0 where
    end_map : Fields
    field : Value → Value → Fields → Fields

abbrev pub Pairs : Type 0
Pairs = List (Value × Value)

abbrev pub pairs_of : Fields → Pairs
pairs_of end_map = []
pairs_of (field key value fs) = (key, value) ∷ pairs_of fs

abbrev pub fields_of : Pairs → Fields
fields_of [] = end_map
fields_of ((key, value) ∷ pairs) = field key value (fields_of pairs)

abbrev pub elements_of : Values → List Value
elements_of end_array = []
elements_of (element v vs) = v ∷ elements_of vs

abbrev pub values_of : List Value → Values
values_of [] = end_array
values_of (v ∷ vs) = element v (values_of vs)

-- What stands in an array of blobs: a definite map, or another item, which is its encoding here.
pub data Entry : Type 0 where
  entry_map : Pairs → Entry
  entry_other : List ℕ → Entry

-- The items of a message: a definite map, a definite array, or another.
pub data Item : Type 0 where
  definite_map : Pairs → Item
  definite_array : List Entry → Item
  other_item : Item

-- libcbor: the item at the head of some bytes, and the encoding of an item (empty if it fails).
pub record Libcbor : Type 0 where
  pub load : List ℕ → Option Item
  pub serialize : Item → List ℕ

-- The integers of the types in libcbor's enumeration.
abbrev type_of : Value → ℕ
type_of (uint w n) = 0
type_of (negint w n) = 1
type_of (bytestring bs) = 2
type_of (string bs) = 3
type_of (indefinite_string chunks) = 3
type_of (array_of vs) = 4
type_of (map_of fs) = 5
type_of (boolean b) = 7
type_of other = 7

unfoldable pub check_key_type : Value → Bool
check_key_type (uint w n) = true
check_key_type (negint w n) = true
check_key_type (bytestring bs) = false
check_key_type (string bs) = true
check_key_type (indefinite_string chunks) = true
check_key_type (array_of vs) = false
check_key_type (map_of fs) = false
check_key_type (boolean b) = false
check_key_type other = false

-- `memcmp(a, b, len) < 0` on strings of the same length.
unfoldable pub before : List ℕ → List ℕ → Bool
before [] bs = false
before (a ∷ xs) [] = false
before (a ∷ xs) (b ∷ ys) = let rest = before xs ys in if a == b then rest else ltb a b

abbrev sorted_ints : ℕ → ℕ → ℕ → ℕ → Bool
sorted_ints w n w' n' = leb w w' && ltb n n'

abbrev pub sorted_strings : List ℕ → List ℕ → Bool
sorted_strings a b = ltb (length a) (length b) || (length a == length b && before a b)

-- Two keys of a permitted type, in the order of CTAP2's canonical encoding. libcbor gives 0 as the
-- length of an indefinite text, whose bytes are then not compared.
unfoldable pub ctap_check_cbor : Value → Value → Bool
ctap_check_cbor (uint w n) (uint w' n') = sorted_ints w n w' n'
ctap_check_cbor (negint w n) (negint w' n') = sorted_ints w n w' n'
ctap_check_cbor (string a) (string b) = sorted_strings a b
ctap_check_cbor (string a) (indefinite_string b) = sorted_strings a []
ctap_check_cbor (indefinite_string a) (string b) = sorted_strings [] b
ctap_check_cbor (indefinite_string a) (indefinite_string b) = sorted_strings [] []
ctap_check_cbor prev curr =
    check_key_type prev && check_key_type curr && ltb (type_of prev) (type_of curr)

-- A parser of one pair changes what `arg` points to. `none` is the C value -1.
abbrev pub Parser : Type 0 → Type 0
Parser S = Value → Value → S → Option S

abbrev pub in_order : Option Value → Value → Bool
in_order none curr = true
in_order (some prev) curr = ctap_check_cbor prev curr

-- The loop of `cbor_map_iter`; `prev` is the key before.
unfoldable pub map_loop : {S : Type 0} → Parser S → Option Value → Pairs → S → Option S
map_loop f prev [] s = some s
map_loop f prev ((key, value) ∷ pairs) s = elim (in_order prev key) [
  | false ↦ none
  | true ↦ elim (f key value s) [ none ↦ none | some s' ↦ map_loop f (some key) pairs s' ]
]

unfoldable pub cbor_map_iter : {S : Type 0} → Parser S → Pairs → S → Option S
cbor_map_iter f pairs s = map_loop f none pairs s

abbrev pub parse_pairs : {S : Type 0} → Option S → Ret S
parse_pairs none = err err_rx_invalid_cbor
parse_pairs (some s) = val s

abbrev pub parse_item : {S : Type 0} → Parser S → S → Option Item → Ret S
parse_item f s none = err err_rx_not_cbor
parse_item f s (some (definite_map pairs)) = parse_pairs (cbor_map_iter f pairs s)
parse_item f s (some (definite_array items)) = err err_rx_invalid_cbor
parse_item f s (some other_item) = err err_rx_invalid_cbor

-- A status byte, and then a map. What the parser left in `arg` is not used after a failure.
unfoldable pub cbor_parse_reply : {S : Type 0} → Libcbor → List ℕ → Parser S → S → Ret S
cbor_parse_reply l [] f s = err err_rx
cbor_parse_reply l (status ∷ rest) f s =
    if status == 0 then parse_item f s (l.load rest) else err (pos status)

-- A destination that is in use is refused.
unfoldable pub cbor_bytestring_copy : Value → Blob → Option Blob
cbor_bytestring_copy (bytestring bs) none = some (some bs)
cbor_bytestring_copy v b = none

unfoldable pub cbor_build_uint : ℕ → Value
cbor_build_uint n =
    if ltb n (2 ^ 8)
    then uint 1 n
    else if ltb n (2 ^ 16)
    then uint 2 n
    else if ltb n (2 ^ 32)
    then uint 4 n
    else uint 8 n

-- The arguments are numbered from 1, and a missing one leaves out its number.
unfoldable pub flatten_from : ℕ → List (Option Value) → Pairs
flatten_from i [] = []
flatten_from i (none ∷ argv) = flatten_from (suc i) argv
flatten_from i (some arg ∷ argv) = (uint 1 i, arg) ∷ flatten_from (suc i) argv

unfoldable pub cbor_flatten_vector : List (Option Value) → Option Pairs
cbor_flatten_vector argv = if ltb 254 (length argv) then none else some (flatten_from 1 argv)

abbrev frame_of : ℕ → List ℕ → Option (List ℕ)
frame_of cmd [] = none
frame_of cmd (b ∷ bs) = some (cmd ∷ b ∷ bs)

unfoldable pub cbor_build_frame : Libcbor → ℕ → List (Option Value) → Option (List ℕ)
cbor_build_frame l cmd argv = elim (cbor_flatten_vector argv) [
  | none ↦ none
  | some pairs ↦ frame_of cmd (l.serialize (definite_map pairs))
]

unfoldable pub cbor_array_append : List Entry → Entry → List Entry
cbor_array_append array item = array ++ (item ∷ [])

-- `none` if there is no such element.
unfoldable pub cbor_array_drop : List Entry → ℕ → Option (List Entry)
cbor_array_drop array idx =
    if leb (length array) idx then none else some (take idx array ++ drop (suc idx) array)
