-- ===== src/Listing.antt =====
-- src/credman.c and src/assert.c: a list that a device announces with its first entry and gives one entry at a time.
pub mod Partial
pub mod Meaning
pub mod Whole
use fido2_manage.Prelude.{
  ℕ, zero, suc, ◌+◌, ◌-◌, true, false, ◌||◌, List, [], ◌++◌, Option, none, some, replicate, get_or,
  get_elem?, set, ltb, leb, ◌==◌, if◌then◌else◌,
}
use fido2_manage.Platform.{hang}
use fido2_manage.Err.{err_internal}
use fido2_manage.Try.{Try, ◌>>=◌, ◌>>◌, give, throw}
use fido2_manage.Device.{Dev}
use fido2_manage.Cbor.{Value, Parser, cbor_parse_reply}
use fido2_manage.Cbor.Decode.{by_number, cbor_decode_uint64}
use fido2_manage.Ctap.{Calls, receive, give_ret}

-- `fido_credman_rk_t` and `fido_credman_rp_t`: as many entries as `n_alloc`.
pub record Listing (A : Type 0) : Type 0 where
  pub ptr : List A
  pub n_alloc : ℕ
  pub n_rx : ℕ

abbrev pub empty_list : {A : Type 0} → Listing A
empty_list = record { ptr = []; n_alloc = 0; n_rx = 0 }

-- New entries are zeroed. Memory is found for any number of entries.
unfoldable pub credman_grow_array : {A : Type 0} → A → Listing A → ℕ → Option (Listing A)
credman_grow_array blank l n =
    if ltb n l.n_alloc
    then some l
    else if ltb 0 l.n_rx || ltb l.n_alloc l.n_rx || ltb n l.n_alloc
    then none
    else some (record l { ptr = l.ptr ++ replicate (n - l.n_alloc) blank; n_alloc = n })

abbrev pub grow? : {A : Type 0} → A → Listing A → Option ℕ → Option (Listing A)
grow? blank l none = none
grow? blank l (some n) = credman_grow_array blank l n

abbrev pub count_step : {A : Type 0} → ℕ → A → ℕ → Value → Listing A → Option (Listing A)
count_step key blank n v l = if n == key then grow? blank l (cbor_decode_uint64 v) else some l

-- The number of entries stands under a key of its own.
unfoldable pub parse_count : {A : Type 0} → ℕ → A → Parser (Listing A)
parse_count key blank = by_number (count_step key blank)

-- What one kind of list is: its blank entry, the list before the first message, the parser of the
-- count, the parser of an entry, and the request for the next one.
pub record Kind (A : Type 0) : Type 0 where
  pub blank : A
  pub start : Listing A
  pub count : Parser (Listing A)
  pub parse : Parser A
  pub ask : Calls → Dev → Try (Unit {0})

module _ {A : Type 0} (k : Kind A) where
  -- The entry at an index is replaced by what the message makes of it.
  unfoldable pub parse_entry : Calls → List ℕ → Listing A → ℕ → Try (Listing A)
  parse_entry c msg l i = do
    e ← give_ret (cbor_parse_reply c.cbor msg k.parse (get_or l.ptr i k.blank))
    give (record l { ptr = set l.ptr i e })

  abbrev pub first_parsed : Calls → List ℕ → Listing A → Try (Listing A)
  first_parsed c msg l = do l' ← parse_entry c msg l 0; give (record l' { n_rx = 1 })

  abbrev pub first_entry : Calls → List ℕ → Listing A → Try (Listing A)
  first_entry c msg l = if l.n_alloc == 0 then give l else first_parsed c msg l

  -- `credman_rx_rk` and `credman_rx_rp`, from a list that was reset.
  unfoldable pub rx_first : Calls → Dev → Try (Listing A)
  rx_first c d = do
    msg ← receive c d
    l ← give_ret (cbor_parse_reply c.cbor msg k.count k.start)
    first_entry c msg l

  -- `credman_rx_next_rk` and `credman_rx_next_rp`.
  unfoldable pub rx_next : Calls → Dev → Listing A → Try (Listing A)
  rx_next c d l = do
    msg ← receive c d
    (if leb l.n_alloc l.n_rx then throw err_internal else give tt)
    parse_entry c msg l l.n_rx

  abbrev pub one_more : Calls → Dev → Listing A → Try (Listing A)
  one_more c d l = do k.ask c d; l' ← rx_next c d l; give (record l' { n_rx = l'.n_rx + 1 })

  -- The loops of `credman_get_rk_wait` and `credman_get_rp_wait`; a round takes an entry.
  unfoldable pub rx_rest : ℕ → Calls → Dev → Listing A → Try (Listing A)
  rx_rest zero c d l w = (hang, w)
  rx_rest (suc fuel) c d l w = elim (ltb l.n_rx l.n_alloc) [
    | false ↦ give l w
    | true ↦ (do l' ← one_more c d l; rx_rest fuel c d l') w
  ]

  unfoldable pub rx_all : Calls → Dev → Try (Listing A)
  rx_all c d = do l ← rx_first c d; rx_rest (suc l.n_alloc) c d l

  -- The entry of an accessor.
  abbrev pub entry : Listing A → ℕ → Option A
  entry l idx = if leb l.n_alloc idx then none else get_elem? l.ptr idx
