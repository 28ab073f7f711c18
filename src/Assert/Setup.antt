-- ===== src/Assert/Setup.antt =====
-- src/assert.c: the functions that set the parameters of an assertion.
use fido2_manage.Prelude.{
  some_equal, ℕ, ◌≡◌, ◌≢◌, refl, sym, ap, ◌∙◌, Bool-cases, Bool, true, false, not, ◌&&◌, inl, inr,
  List, [], ◌∷◌, ◌++◌, Option, none, some, length, bit_and, bit_or, ◌==◌, ℤ, if◌then◌else◌, arith,
}
use fido2_manage.Err.{fido_ok, err_invalid_argument, err_internal}
use fido2_manage.Blob.{Blob, size_max, fido_blob_is_empty, fido_blob_set}
use fido2_manage.Assert.{Assert, Crypto, opt_false, opt_true}

-- FIDO_EXT_ASSERT_MASK of src/fido/param.h.
abbrev ext_assert_mask : ℕ
ext_assert_mask = 0x0d

-- `fido_sha256(&assert->cdh, data, data_len)`, after the client data were stored.
abbrev hash_clientdata : Assert → Option (List ℕ) → ℤ × Assert
hash_clientdata a none = (err_internal, record a { cd = none })
hash_clientdata a (some h) = (fido_ok, record a { cdh = some h })

abbrev store_clientdata : Crypto → Assert → List ℕ → Bool × Blob → ℤ × Assert
store_clientdata c a bytes (false, b) = (err_invalid_argument, record a { cd = b })
store_clientdata c a bytes (true, b) = hash_clientdata (record a { cd = b }) (c.sha256 bytes)

unfoldable pub fido_assert_set_clientdata : Crypto → Assert → List ℕ → ℤ × Assert
fido_assert_set_clientdata c a bytes =
    if not (fido_blob_is_empty a.cdh)
    then (err_invalid_argument, a)
    else store_clientdata c a bytes (fido_blob_set (some bytes))

abbrev store_hash : Assert → Bool × Blob → ℤ × Assert
store_hash a (false, b) = (err_invalid_argument, record a { cdh = b })
store_hash a (true, b) = (fido_ok, record a { cdh = b })

unfoldable pub fido_assert_set_clientdata_hash : Assert → List ℕ → ℤ × Assert
fido_assert_set_clientdata_hash a hash =
    if not (fido_blob_is_empty a.cd)
    then (err_invalid_argument, a)
    else store_hash a (fido_blob_set (some hash))

abbrev store_salt : Assert → Bool × Blob → ℤ × Assert
store_salt a (false, b) = (err_invalid_argument, record a { hmac_salt = b })
store_salt a (true, b) = (fido_ok, record a { hmac_salt = b })

unfoldable pub fido_assert_set_hmac_salt : Assert → List ℕ → ℤ × Assert
fido_assert_set_hmac_salt a salt =
    if not (length salt == 32) && not (length salt == 64)
    then (err_invalid_argument, a)
    else store_salt a (fido_blob_set (some salt))

-- The old name is dropped first.
unfoldable pub fido_assert_set_rp : Assert → Option (List ℕ) → ℤ × Assert
fido_assert_set_rp a none = (err_invalid_argument, record a { rp_id = none })
fido_assert_set_rp a (some id) = (fido_ok, record a { rp_id = some id })

abbrev add_allowed : Assert → Bool × Blob → ℤ × Assert
add_allowed a (false, b) = (err_invalid_argument, a)
add_allowed a (true, b) = (fido_ok, record a { allow_list = a.allow_list ++ (b ∷ []) })

unfoldable pub fido_assert_allow_cred : Assert → Option (List ℕ) → ℤ × Assert
fido_assert_allow_cred a id =
    if length a.allow_list == size_max
    then (err_invalid_argument, a)
    else add_allowed a (fido_blob_set id)

unfoldable pub fido_assert_empty_allow_list : Assert → ℤ × Assert
fido_assert_empty_allow_list a = (fido_ok, record a { allow_list = [] })

unfoldable pub fido_assert_set_extensions : Assert → ℕ → ℤ × Assert
fido_assert_set_extensions a ext =
    if ext == 0
    then (fido_ok, record a { ext_mask = 0 })
    else if not (bit_and ext ext_assert_mask == ext)
    then (err_invalid_argument, a)
    else (fido_ok, record a { ext_mask = bit_or a.ext_mask ext })

unfoldable pub fido_assert_set_options : Assert → Bool → Bool → ℤ × Assert
fido_assert_set_options a up uv = (
  fido_ok,
  record a { up = if up then opt_true else opt_false; uv = if uv then opt_true else opt_false },
)

-- A call of one of these functions, with its arguments.
pub data Call : Type 0 where
  set_clientdata : List ℕ → Call
  set_clientdata_hash : List ℕ → Call
  set_hmac_salt : List ℕ → Call
  set_rp : Option (List ℕ) → Call
  allow_cred : Option (List ℕ) → Call
  empty_allow_list : Call
  set_extensions : ℕ → Call
  set_options : Bool → Bool → Call

abbrev pub call : Crypto → Assert → Call → ℤ × Assert
call c a (set_clientdata bytes) = fido_assert_set_clientdata c a bytes
call c a (set_clientdata_hash hash) = fido_assert_set_clientdata_hash a hash
call c a (set_hmac_salt salt) = fido_assert_set_hmac_salt a salt
call c a (set_rp id) = fido_assert_set_rp a id
call c a (allow_cred id) = fido_assert_allow_cred a id
call c a empty_allow_list = fido_assert_empty_allow_list a
call c a (set_extensions ext) = fido_assert_set_extensions a ext
call c a (set_options up uv) = fido_assert_set_options a up uv

abbrev pub calls : Crypto → Assert → List Call → Assert
calls c a [] = a
calls c a (x ∷ xs) = calls c (call c a x).1 xs

-- Client data that are stored are not empty, and the stored hash is theirs.
abbrev pub IsPaired : Crypto → Blob → Blob → Type 0
IsPaired c cd cdh = (d : List ℕ) → cd ≡ some d → (d ≢ []) × (cdh ≡ c.sha256 d)

none-IsPaired : (c : Crypto) (cdh : Blob) → IsPaired c none cdh
none-IsPaired c cdh d e = absurd (ground (arith, e))

hash_clientdata-IsPaired :
    (c : Crypto) (a : Assert) (x : ℕ) (xs : List ℕ) (h : Option (List ℕ))
    → a.cd ≡ some (x ∷ xs)
    → c.sha256 (x ∷ xs) ≡ h
    → IsPaired c (hash_clientdata a h).1.cd (hash_clientdata a h).1.cdh
hash_clientdata-IsPaired c a x xs none e is d same = none-IsPaired c a.cdh d same
hash_clientdata-IsPaired c a x xs (some h) e is d same =
    let stored : x ∷ xs ≡ d = some_equal (sym e ∙ same) in
    ((λ empty. absurd (ground (arith, stored, empty))), sym is ∙ ap (λ y. c.sha256 y) stored)

set_clientdata-IsPaired :
    (c : Crypto) (a : Assert) (bytes : List ℕ)
    → IsPaired c a.cd a.cdh
    → IsPaired c
        (fido_assert_set_clientdata c a bytes).1.cd
        (fido_assert_set_clientdata c a bytes).1.cdh
unfolding fido_assert_set_clientdata
set_clientdata-IsPaired c a bytes h = elim (Bool-cases (fido_blob_is_empty a.cdh)) [
  | inr set ↦ rw (set, fido_assert_set_clientdata) h
  | inl free ↦ rw (free, fido_assert_set_clientdata) (stored bytes)
]
  where
    stored :
        (bytes : List ℕ)
        → IsPaired c
            (store_clientdata c a bytes (fido_blob_set (some bytes))).1.cd
            (store_clientdata c a bytes (fido_blob_set (some bytes))).1.cdh
    stored [] = none-IsPaired c a.cdh
    stored (x ∷ xs) =
        hash_clientdata-IsPaired c (record a { cd = some (x ∷ xs) }) x xs (c.sha256 (x ∷ xs)) refl
          refl

empty_bytes : (b : Blob) (d : List ℕ) → fido_blob_is_empty b ≡ true → b ≡ some d → d ≡ []
empty_bytes none d h e = cc
empty_bytes (some []) d h e = cc
empty_bytes (some (x ∷ xs)) d h e = cc

set_clientdata_hash-IsPaired :
    (c : Crypto) (a : Assert) (hash : List ℕ)
    → IsPaired c a.cd a.cdh
    → IsPaired c
        (fido_assert_set_clientdata_hash a hash).1.cd
        (fido_assert_set_clientdata_hash a hash).1.cdh
unfolding fido_assert_set_clientdata_hash
set_clientdata_hash-IsPaired c a hash h = elim (Bool-cases (fido_blob_is_empty a.cd)) [
  | inr set ↦ rw (set, fido_assert_set_clientdata_hash) h
  | inl free ↦ rw (free, fido_assert_set_clientdata_hash) (stored free (fido_blob_set (some hash)))
]
  where
    stored :
        fido_blob_is_empty a.cd ≡ true
        → (r : Bool × Blob) → IsPaired c (store_hash a r).1.cd (store_hash a r).1.cdh
    stored free (false, b) d e = absurd ((h d e).0 (empty_bytes a.cd d free e))
    stored free (true, b) d e = absurd ((h d e).0 (empty_bytes a.cd d free e))

others-keep :
    (a : Assert) (r : Bool × Blob)
    → ((store_salt a r).1.cd ≡ a.cd)
      × ((store_salt a r).1.cdh ≡ a.cdh)
      × ((add_allowed a r).1.cd ≡ a.cd)
      × ((add_allowed a r).1.cdh ≡ a.cdh)
others-keep a (true, b) = (refl, refl, refl, refl)
others-keep a (false, b) = (refl, refl, refl, refl)

-- Each call that sets a parameter, whatever its outcome, keeps the stored client data and the
-- stored hash paired.
pub call-IsPaired :
    (c : Crypto) (a : Assert) (x : Call)
    → IsPaired c a.cd a.cdh
    → IsPaired c (call c a x).1.cd (call c a x).1.cdh
unfolding fido_assert_set_hmac_salt fido_assert_set_rp fido_assert_allow_cred
    fido_assert_empty_allow_list fido_assert_set_extensions fido_assert_set_options
call-IsPaired c a (set_clientdata bytes) h = set_clientdata-IsPaired c a bytes h
call-IsPaired c a (set_clientdata_hash hash) h = set_clientdata_hash-IsPaired c a hash h
call-IsPaired c a (set_hmac_salt salt) h =
    let k = others-keep a (fido_blob_set (some salt)) in λ d e. ground (arith, h d, k, e)
call-IsPaired c a (set_rp none) h = h
call-IsPaired c a (set_rp (some id)) h = h
call-IsPaired c a (allow_cred id) h =
    let k = others-keep a (fido_blob_set id) in λ d e. ground (arith, h d, k, e)
call-IsPaired c a empty_allow_list h = h
call-IsPaired c a (set_extensions ext) h = λ d e. ground (arith, h d, e)
call-IsPaired c a (set_options up uv) h = h

-- Any sequence of calls that set parameters, whatever their outcomes, keeps this: if client data are
-- stored, they are not empty, and the stored hash is theirs.
pub calls-IsPaired :
    (c : Crypto) (a : Assert) (xs : List Call)
    → IsPaired c a.cd a.cdh
    → IsPaired c (calls c a xs).cd (calls c a xs).cdh
calls-IsPaired c a [] h = h
calls-IsPaired c a (x ∷ xs) h = calls-IsPaired c (call c a x).1 xs (call-IsPaired c a x h)
