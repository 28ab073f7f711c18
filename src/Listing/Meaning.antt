-- ===== src/Listing/Meaning.antt =====
-- src/credman.c and src/assert.c: how a list comes from the messages of a device.
use fido2_manage.Prelude.{ℕ, ◌≡◌, List, [], ◌∷◌, ◌++◌, length}
use fido2_manage.Platform.{World, ok}
use fido2_manage.Try.{val}
use fido2_manage.Device.{Dev}
use fido2_manage.Cbor.{cbor_parse_reply}
use fido2_manage.Ctap.{Calls, receive}
use fido2_manage.Listing.{Listing, Kind}
use fido2_manage.Listing.Partial.{EachParsed}

-- The number of entries that a message announces.
pub record Counted {A : Type 0} (c : Calls) (k : Kind A) (msg : List ℕ) (n : ℕ) : Type 0 where
  pub list : Listing A
  pub counted : cbor_parse_reply c.cbor msg k.count k.start ≡ val list
  pub n_alloc : list.n_alloc ≡ n

-- The exchanges that fetch a list from a world on: the messages that the device gave, of which the
-- first announced the number of entries, and each further one answered a request.
pub data Fetched {A : Type 0} (c : Calls) (d : Dev) (k : Kind A) (w : World) (n : ℕ)
    : List (List ℕ) → World → Type 0 where
  first :
      (msg : List ℕ) (v : World)
      → receive c d w ≡ (ok (val msg), v)
      → Counted c k msg n
      → Fetched c d k w n (msg ∷ []) v
  more :
      (msgs : List (List ℕ)) (msg : List ℕ) (v v1 v2 : World)
      → Fetched c d k w n msgs v
      → k.ask c d v ≡ (ok (val tt), v1)
      → receive c d v1 ≡ (ok (val msg), v2)
      → Fetched c d k w n (msgs ++ (msg ∷ [])) v2

-- A list that was fetched: an empty one was announced as such, and any other has as many entries as
-- were announced, all of them received, and each parsed from its message.
pub data IsListed {A : Type 0} (c : Calls) (d : Dev) (k : Kind A) (w : World) (l : Listing A)
    (v : World) : Type 0 where
  nothing :
      (msg : List ℕ)
      → receive c d w ≡ (ok (val msg), v)
      → Counted c k msg 0
      → l.n_alloc ≡ 0
      → l.n_rx ≡ 0
      → IsListed c d k w l v
  whole :
      (n : ℕ) (msgs : List (List ℕ))
      → Fetched c d k w n msgs v
      → EachParsed c k msgs l.ptr
      → l.n_alloc ≡ n
      → l.n_rx ≡ n
      → length l.ptr ≡ n
      → IsListed c d k w l v
