-- ===== src/Blob.antt =====
-- src/blob.c: byte strings on the heap.
use fido2_manage.Prelude.{
  ℕ, ◌-◌, ◌^◌, Bool, true, false, List, [], ◌∷◌, ◌++◌, Option, none, some, length, ltb,
  if◌then◌else◌,
}

-- `none` is a blob whose pointer is NULL; its length is 0 then.
abbrev pub Blob : Type 0
Blob = Option (List ℕ)

abbrev pub size_max : ℕ
size_max = 2 ^ 64 - 1

abbrev pub fido_blob_is_empty : Blob → Bool
fido_blob_is_empty none = true
fido_blob_is_empty (some []) = true
fido_blob_is_empty (some (x ∷ xs)) = false

-- Whether the C value is 0, and the blob then. An empty argument fails and leaves no bytes.
abbrev pub fido_blob_set : Option (List ℕ) → Bool × Blob
fido_blob_set none = (false, none)
fido_blob_set (some []) = (false, none)
fido_blob_set (some (x ∷ xs)) = (true, some (x ∷ xs))

abbrev pub blob_bytes : Blob → List ℕ
blob_bytes none = []
blob_bytes (some bs) = bs

unfoldable pub fido_blob_append : Blob → Option (List ℕ) → Bool × Blob
fido_blob_append b none = (false, b)
fido_blob_append b (some []) = (false, b)
fido_blob_append b (some (x ∷ xs)) =
    if ltb (size_max - length (blob_bytes b)) (length (x ∷ xs))
    then (false, b)
    else (true, some (blob_bytes b ++ (x ∷ xs)))
