-- ===== src/GetAssert/Secrets.antt =====
-- src/assert.c: what decrypting the secrets of the statements makes of them.
use fido2_manage.Prelude.{ℕ, ◌≡◌, refl, sym, subst, List, [], ◌∷◌, Option, none, some, some_equal}
use fido2_manage.Device.{Dev}
use fido2_manage.Ctap.{Calls, aes256_cbc_dec}
use fido2_manage.GetAssert.Reply.{Statement}
use fido2_manage.GetAssert.{with_secret, decrypt_one, cons?, decrypt_hmac_secrets}
use fido2_manage.GetAssert.Total.{no_value}

-- A statement whose secret is decrypted, if it has one.
pub data IsDecrypted (c : Calls) (d : Dev) (key : List ℕ) (s s' : Statement) : Type 0 where
  kept : s.ext.hmac_secret_enc ≡ none → s' ≡ s → IsDecrypted c d key s s'
  opened :
      (enc secret : List ℕ)
      → s.ext.hmac_secret_enc ≡ some enc
      → aes256_cbc_dec c d key enc ≡ some secret
      → s' ≡ record s { hmac_secret = some secret }
      → IsDecrypted c d key s s'

abbrev pub AreDecrypted : Calls → Dev → List ℕ → List Statement → List Statement → Type 0
AreDecrypted c d key [] [] = Unit
AreDecrypted c d key [] (s' ∷ ss') = ⊥
AreDecrypted c d key (s ∷ ss) [] = ⊥
AreDecrypted c d key (s ∷ ss) (s' ∷ ss') = IsDecrypted c d key s s' × AreDecrypted c d key ss ss'

module _ (c : Calls) (d : Dev) (key : List ℕ) where
  secret-IsDecrypted :
      (s s' : Statement) (enc : List ℕ) (o : Option (List ℕ))
      → s.ext.hmac_secret_enc ≡ some enc
      → aes256_cbc_dec c d key enc ≡ o
      → with_secret s o ≡ some s'
      → IsDecrypted c d key s s'
  secret-IsDecrypted s s' enc none e a h = absurd (no_value h)
  secret-IsDecrypted s s' enc (some secret) e a h = opened enc secret e a (sym (some_equal h))

  one-IsDecrypted :
      (s s' : Statement) (o : Option (List ℕ))
      → s.ext.hmac_secret_enc ≡ o
      → decrypt_one c d key s o ≡ some s'
      → IsDecrypted c d key s s'
  one-IsDecrypted s s' none e h = kept e (sym (some_equal h))
  one-IsDecrypted s s' (some enc) e h =
      secret-IsDecrypted s s' enc (aes256_cbc_dec c d key enc) e refl h

  cons_inv :
      (o : Option Statement) (os : Option (List Statement)) (out : List Statement)
      → cons? o os ≡ some out
      → (s' : Statement) × (ss' : List Statement) × (o ≡ some s')
        × (os ≡ some ss')
        × (out ≡ s' ∷ ss')
  cons_inv none os out h = absurd (no_value h)
  cons_inv (some s) none out h = absurd (no_value h)
  cons_inv (some s) (some ss) out h = (s, ss, refl, refl, sym (some_equal h))

  pub secrets-AreDecrypted :
      (ss out : List Statement)
      → decrypt_hmac_secrets c d key ss ≡ some out
      → AreDecrypted c d key ss out
  unfolding decrypt_hmac_secrets
  secrets-AreDecrypted [] out h = subst (AreDecrypted c d key []) (some_equal h) tt
  secrets-AreDecrypted (s ∷ ss) out h =
      let p = cons_inv _ _ out h in
      subst (AreDecrypted c d key (s ∷ ss)) (sym p.4)
        (one-IsDecrypted s p.0 s.ext.hmac_secret_enc refl p.2, secrets-AreDecrypted ss p.1 p.3)
