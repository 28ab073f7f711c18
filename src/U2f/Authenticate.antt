-- ===== src/U2f/Authenticate.antt =====
-- src/u2f.c: an assertion over U2F. Each allowed credential is looked up, and those that the device
-- knows give the statements, one after the other.
use fido2_manage.Prelude.{
  ℕ, ◌+◌, Bool, true, false, ◌||◌, List, [], ◌∷◌, Option, none, some, length, get_elem?, ◌==◌, ℤ,
  eqb_ℤ, if◌then◌else◌,
}
use fido2_manage.Platform.{M, ◌>>=◌, return}
use fido2_manage.Err.{
  fido_ok, err_internal, err_user_presence_required, err_credential_excluded,
  err_unsupported_option, err_no_credentials,
}
use fido2_manage.Try.{Ret, val, err}
use fido2_manage.Device.{Dev}
use fido2_manage.Blob.{Blob, fido_blob_set}
use fido2_manage.Assert.{Assert, Stmt, Opt, opt_omit, opt_false, opt_true, is_true}
use fido2_manage.Assert.Stmts.{
  put_stmt, fido_assert_set_authdata, fido_assert_set_sig, fido_assert_set_count,
}
use fido2_manage.U2f.{Calls, key_lookup, do_auth}

abbrev pub is_false : Opt → Bool
is_false opt_omit = false
is_false opt_false = true
is_false opt_true = false

-- `fido_assert_set_authdata(...) != FIDO_OK || fido_assert_set_sig(...) != FIDO_OK`
abbrev pub signed : ℤ × Assert → ℤ × Assert
signed (r, fa) = (if eqb_ℤ r fido_ok then fido_ok else err_internal, fa)

abbrev pub then_sig : ℕ → List ℕ → ℤ × Assert → ℤ × Assert
then_sig idx sig (r, fa) =
    if eqb_ℤ r fido_ok then signed (fido_assert_set_sig fa idx (some sig)) else (err_internal, fa)

abbrev pub set_signed : Calls → Assert → ℕ → Ret (List ℕ × List ℕ) → ℤ × Assert
set_signed c fa idx (err r) = (r, fa)
set_signed c fa idx (val (sig, ad)) =
    then_sig idx sig (fido_assert_set_authdata c.decoder fa idx (some ad))

-- `fa->stmt[idx].id`, where the statement is allocated.
abbrev pub put_id : Assert → ℕ → Blob → Option Stmt → Assert
put_id fa idx id none = fa
put_id fa idx id (some st) = put_stmt fa idx (record st { id = id })

abbrev pub with_id : Calls → Dev → Blob → Assert → ℕ → Bool → M (ℤ × Assert)
with_id c d key_id fa idx false = return (err_internal, fa)
with_id c d key_id fa idx true =
    if is_false fa.up
    then return (err_user_presence_required, fa)
    else do r ← do_auth c d fa.cdh fa.rp_id key_id; return (set_signed c fa idx r)

abbrev pub after_lookup : Calls → Dev → Blob → Assert → ℕ → Ret Bool → M (ℤ × Assert)
after_lookup c d key_id fa idx (err r) = return (r, fa)
after_lookup c d key_id fa idx (val false) = return (err_credential_excluded, fa)
after_lookup c d key_id fa idx (val true) =
    let (set, id) = fido_blob_set key_id in
    with_id c d key_id (put_id fa idx id (get_elem? fa.stmt idx)) idx set

unfoldable pub u2f_authenticate_single : Calls → Dev → Blob → Assert → ℕ → M (ℤ × Assert)
u2f_authenticate_single c d key_id fa idx = do
  r ← key_lookup c d fa.rp_id key_id
  after_lookup c d key_id fa idx r

-- Past the loop.
abbrev pub authenticated : ℕ → ℕ → Assert → ℤ × Assert
authenticated nfound nauth_ok fa = (
  if nfound == 0
      then err_no_credentials
      else if nauth_ok == 0
      then err_user_presence_required
      else fido_ok,
  record fa { stmt_len = nfound },
)

-- The switch in the loop: `next` is the rest of it, with what the loop counts.
abbrev pub count_single : (ℕ → ℕ → Assert → M (ℤ × Assert)) → ℕ → ℕ → ℤ × Assert → M (ℤ × Assert)
count_single next nfound nauth_ok (r, fa) =
    if eqb_ℤ r fido_ok
    then next (nfound + 1) (nauth_ok + 1) fa
    else if eqb_ℤ r err_user_presence_required
    then next (nfound + 1) nauth_ok fa
    else if eqb_ℤ r err_credential_excluded
    then next nfound nauth_ok fa
    else return (r, fa)

unfoldable pub authenticate_loop : Calls → Dev → List Blob → ℕ → ℕ → Assert → M (ℤ × Assert)
authenticate_loop c d [] nfound nauth_ok fa = return (authenticated nfound nauth_ok fa)
authenticate_loop c d (key_id ∷ keys) nfound nauth_ok fa =
    u2f_authenticate_single c d key_id fa nfound
    >>= count_single (authenticate_loop c d keys) nfound nauth_ok

-- A list of no blobs is a NULL pointer.
abbrev pub no_keys : List Blob → Bool
no_keys [] = true
no_keys (key ∷ keys) = false

abbrev pub counted : Calls → Dev → ℤ × Assert → M (ℤ × Assert)
counted c d (r, fa) =
    if eqb_ℤ r fido_ok then authenticate_loop c d fa.allow_list 0 0 fa else return (r, fa)

unfoldable pub u2f_authenticate : Calls → Dev → Assert → M (ℤ × Assert)
u2f_authenticate c d fa =
    if is_true fa.uv || no_keys fa.allow_list
    then return (err_unsupported_option, fa)
    else counted c d (fido_assert_set_count fa (length fa.allow_list))
