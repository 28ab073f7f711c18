-- ===== src/Flags/Meaning.antt =====
-- src/dev.c: which answers of the device each flag stands for.
use fido2_manage.Prelude.{
  ℕ, ◌≡◌, refl, Bool, false, ◌&&◌, ◌||◌, List, [], ◌∷◌, bit_or, ◌==◌, bytes_eq, bytes_eq-other,
  bit_and-bit_or, bit_and_zero, if◌then◌else◌, arith,
}
use fido2_manage.Device.{Dev}
use fido2_manage.Flags.{
  CborInfo, has, option_flags, client_pin, cred_mgmt, credential_mgmt_preview, uv,
  pin_uv_auth_token, cred_protect, dev_pin_set, dev_pin_unset, dev_credman, dev_credman_pre,
  dev_uv_set, dev_uv_unset, dev_token_perms, dev_bio_set, dev_bio_unset, dev_cred_prot,
  dev_pin_protocol1, dev_pin_protocol2, option_loop, extension_loop, protocol_loop, set_flags,
  set_extension_flags, set_option_flags, set_protocol_flags, fido_dev_has_pin,
  fido_dev_supports_pin, fido_dev_has_uv, fido_dev_supports_uv, fido_dev_supports_credman,
  fido_dev_supports_permissions, fido_dev_supports_cred_prot, fido_dev_get_pin_protocol,
}

has-bit_or : (q f m : ℕ) → has q (bit_or f m) ≡ (has q f || has q m)
has-bit_or q f m = ground (arith, bit_and-bit_or f m q)

-- Some option of the list passes the test.
abbrev pub any_option : (List ℕ → Bool → Bool) → List (List ℕ × Bool) → Bool
any_option p [] = false
any_option p ((n, v) ∷ opts) = p n v || any_option p opts

abbrev pub any : {A : Type 0} → (A → Bool) → List A → Bool
any p [] = false
any p (x ∷ xs) = p x || any p xs

abbrev option_mask : List ℕ → Bool → ℕ
option_mask n v = option_flags n v 0

one_option :
    (q f : ℕ) (n : List ℕ) (v : Bool)
    → has q (option_flags n v f) ≡ (has q f || has q (option_mask n v))
one_option q f n v = ground (
  arith,
  bit_and_zero q,
  has-bit_or q f dev_pin_set,
  has-bit_or q 0 dev_pin_set,
  has-bit_or q f dev_pin_unset,
  has-bit_or q 0 dev_pin_unset,
  has-bit_or q f dev_credman,
  has-bit_or q 0 dev_credman,
  has-bit_or q f dev_credman_pre,
  has-bit_or q 0 dev_credman_pre,
  has-bit_or q f dev_uv_set,
  has-bit_or q 0 dev_uv_set,
  has-bit_or q f dev_uv_unset,
  has-bit_or q 0 dev_uv_unset,
  has-bit_or q f dev_token_perms,
  has-bit_or q 0 dev_token_perms,
  has-bit_or q f dev_bio_set,
  has-bit_or q 0 dev_bio_set,
  has-bit_or q f dev_bio_unset,
  has-bit_or q 0 dev_bio_unset,
)

options_lem :
    (q : ℕ) (p : List ℕ → Bool → Bool)
    → ((n : List ℕ) (v : Bool) → has q (option_mask n v) ≡ p n v)
    → (opts : List (List ℕ × Bool)) (f : ℕ)
    → has q (option_loop opts f) ≡ (has q f || any_option p opts)
options_lem q p h [] f = ground arith
options_lem q p h ((n, v) ∷ opts) f =
    ground (arith, options_lem q p h opts (option_flags n v f), one_option q f n v, h n v)

-- The flags of the extensions and the protocols do not meet those of the options.
no_option :
    (p : List ℕ → Bool → Bool)
    → ((n : List ℕ) (v : Bool) → p n v ≡ false)
    → (opts : List (List ℕ × Bool)) → any_option p opts ≡ false
no_option p h [] = refl
no_option p h ((n, v) ∷ opts) = ground (arith, h n v, no_option p h opts)

extensions_lem :
    (q : ℕ) (ns : List (List ℕ)) (f : ℕ)
    → has q (extension_loop ns f)
      ≡ (has q f || (has q dev_cred_prot && any (λ n. bytes_eq n cred_protect) ns))
extensions_lem q [] f = ground arith
extensions_lem q (n ∷ ns) f = ground (
  arith,
  has-bit_or q f dev_cred_prot,
  extensions_lem q ns f,
  extensions_lem q ns (bit_or f dev_cred_prot),
)

protocols_lem :
    (q : ℕ) (ps : List ℕ) (f : ℕ)
    → has q (protocol_loop ps f) ≡ (
        has q f
        || ((has q dev_pin_protocol1 && any (λ p. p == 1) ps)
            || (has q dev_pin_protocol2 && any (λ p. p == 2) ps)))
protocols_lem q [] f = ground arith
protocols_lem q (p ∷ ps) f = ground (
  arith,
  has-bit_or q f dev_pin_protocol1,
  has-bit_or q f dev_pin_protocol2,
  protocols_lem q ps f,
  protocols_lem q ps (bit_or f dev_pin_protocol1),
  protocols_lem q ps (bit_or f dev_pin_protocol2),
)

-- What all three loops leave of a mask.
flags_lem :
    (q : ℕ) (p : List ℕ → Bool → Bool)
    → ((n : List ℕ) (v : Bool) → has q (option_mask n v) ≡ p n v)
    → (d : Dev) (info : CborInfo) → d.flags ≡ 0
    → has q (set_flags d info).flags ≡ (
        (has q dev_cred_prot && any (λ n. bytes_eq n cred_protect) info.extensions)
        || (any_option p info.options
            || ((has q dev_pin_protocol1 && any (λ x. x == 1) info.protocols)
                || (has q dev_pin_protocol2 && any (λ x. x == 2) info.protocols))))
unfolding set_flags set_extension_flags set_option_flags set_protocol_flags
flags_lem q p h d info z =
    let e : ℕ = extension_loop info.extensions d.flags in
    ground (
      arith,
      z,
      bit_and_zero q,
      extensions_lem q info.extensions d.flags,
      options_lem q p h info.options e,
      protocols_lem q info.protocols (option_loop info.options e),
    )

-- What the getters of dev.c say of a device whose flags were set from `info`.
pub record Flagged (info : CborInfo) (d : Dev) : Type 0 where
  pub has_pin : fido_dev_has_pin d ≡ any_option (λ n v. bytes_eq n client_pin && v) info.options
  pub supports_pin :
      fido_dev_supports_pin d ≡ any_option (λ n v. bytes_eq n client_pin) info.options
  pub has_uv : fido_dev_has_uv d ≡ any_option (λ n v. bytes_eq n uv && v) info.options
  pub supports_uv : fido_dev_supports_uv d ≡ any_option (λ n v. bytes_eq n uv) info.options
  pub supports_credman :
      fido_dev_supports_credman d
      ≡ any_option
          (λ n v. (bytes_eq n cred_mgmt || bytes_eq n credential_mgmt_preview) && v)
          info.options
  pub supports_permissions :
      fido_dev_supports_permissions d
      ≡ any_option (λ n v. bytes_eq n pin_uv_auth_token && v) info.options
  pub supports_cred_prot :
      fido_dev_supports_cred_prot d ≡ any (λ n. bytes_eq n cred_protect) info.extensions
  pub pin_protocol : fido_dev_get_pin_protocol d ≡ (
      if any (λ p. p == 2) info.protocols
      then 2
      else if any (λ p. p == 1) info.protocols
      then 1
      else 0)

pin_protocol_lem :
    (d : Dev) (info : CborInfo)
    → d.flags ≡ 0
    → fido_dev_get_pin_protocol (set_flags d info) ≡ (
        if any (λ p. p == 2) info.protocols
        then 2
        else if any (λ p. p == 1) info.protocols
        then 1
        else 0)
unfolding fido_dev_get_pin_protocol
pin_protocol_lem d info z =
    let silent : List ℕ → Bool → Bool = λ n v. false in
    ground (
      arith,
      no_option silent (λ n v. refl) info.options,
      flags_lem dev_pin_protocol1 silent (λ n v. ground arith) d info z,
      flags_lem dev_pin_protocol2 silent (λ n v. ground arith) d info z,
    )

-- On a device whose flags are clear, `fido_dev_set_flags` makes every getter report exactly what
-- the device answered: a PIN or user verification is set if an option says so, and supported if
-- one names it, and the preferred PIN protocol is the greater one of those listed.
pub set_flags-Flagged : (d : Dev) (info : CborInfo) → d.flags ≡ 0 → Flagged info (set_flags d info)
unfolding fido_dev_has_pin fido_dev_supports_pin fido_dev_has_uv fido_dev_supports_uv
    fido_dev_supports_credman fido_dev_supports_permissions fido_dev_supports_cred_prot
set_flags-Flagged d info z = record {
  has_pin = ground (
    arith,
    flags_lem dev_pin_set (λ n v. bytes_eq n client_pin && v) (λ n v. ground arith) d info z,
  );
  supports_pin = ground (
    arith,
    flags_lem (bit_or dev_pin_set dev_pin_unset) (λ n v. bytes_eq n client_pin)
        (λ n v. ground arith) d info z,
  );
  has_uv = ground (
    arith,
    flags_lem dev_uv_set (λ n v. bytes_eq n uv && v)
        (λ n v. ground (
          arith,
          bytes_eq-other n uv client_pin refl,
          bytes_eq-other n uv cred_mgmt refl,
          bytes_eq-other n uv credential_mgmt_preview refl,
        ))
        d info z,
  );
  supports_uv = ground (
    arith,
    flags_lem (bit_or dev_uv_set dev_uv_unset) (λ n v. bytes_eq n uv)
        (λ n v. ground (
          arith,
          bytes_eq-other n uv client_pin refl,
          bytes_eq-other n uv cred_mgmt refl,
          bytes_eq-other n uv credential_mgmt_preview refl,
        ))
        d info z,
  );
  supports_credman = ground (
    arith,
    flags_lem (bit_or dev_credman dev_credman_pre)
        (λ n v. (bytes_eq n cred_mgmt || bytes_eq n credential_mgmt_preview) && v)
        (λ n v. ground (
          arith,
          bytes_eq-other n cred_mgmt client_pin refl,
          bytes_eq-other n credential_mgmt_preview client_pin refl,
        ))
        d info z,
  );
  supports_permissions = ground (
    arith,
    flags_lem dev_token_perms (λ n v. bytes_eq n pin_uv_auth_token && v)
        (λ n v. ground (
          arith,
          bytes_eq-other n pin_uv_auth_token client_pin refl,
          bytes_eq-other n pin_uv_auth_token cred_mgmt refl,
          bytes_eq-other n pin_uv_auth_token credential_mgmt_preview refl,
          bytes_eq-other n pin_uv_auth_token uv refl,
        ))
        d info z,
  );
  supports_cred_prot = ground (
    arith,
    no_option (λ n v. false) (λ n v. refl) info.options,
    flags_lem dev_cred_prot (λ n v. false) (λ n v. ground arith) d info z,
  );
  pin_protocol = pin_protocol_lem d info z;
}
