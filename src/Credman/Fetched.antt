-- ===== src/Credman/Fetched.antt =====
-- src/credman.c: what the two functions give that list what a device stores.
use fido2_manage.Prelude.{false, ℕ, List, ◌≡◌, none, some, true}
use fido2_manage.Platform.{World, ok}
use fido2_manage.Err.{err_internal}
use fido2_manage.Try.{Ret, val, err, OnRet, then-Ends, option-Ends, ◌>>◌}
use fido2_manage.Ends.{Ends, weaken-Ends}
use fido2_manage.Device.{Dev}
use fido2_manage.Session.{start_budget}
use fido2_manage.Cbor.Encode.{Chars}
use fido2_manage.Ctap.{Calls}
use fido2_manage.Ctap.Total.{IsPlain, AnyCode, outcome-Ends}
use fido2_manage.Credman.{Body, no_body, rp_hash, credman_tx, cmd_rk_begin, cmd_rp_begin}
use fido2_manage.Credman.Total.{credman_tx-Ends}
use fido2_manage.Credman.Rk.{credman_parse_rk_count, StoredCred, rks, fido_credman_get_dev_rk}
use fido2_manage.Credman.Rp.{credman_parse_rp_count, rps, fido_credman_get_dev_rp}
use fido2_manage.Listing.Whole.{IsKind, rx_all-IsListed}
use fido2_manage.Listing.Partial.{first-IsFresh}
use fido2_manage.Credman.{cmd_rk_next, cmd_rp_next}
use fido2_manage.Listing.Meaning.{IsListed}
use fido2_manage.Listing.{Kind, Listing, rx_all}

-- The list that a call gave was fetched after a subcommand that the device was sent.
pub record ListedAfter {A : Type 0} (c : Calls) (d : Dev) (k : Kind A) (subcmd : ℕ) (body : Body)
    (pin rp_id : Chars) (w : World) (l : Listing A) (v : World) : Type 0 where
  pub begun : World
  pub sent : credman_tx c d subcmd body pin rp_id true w ≡ (ok (val tt), begun)
  pub listed : IsListed c d k begun l v

module _ (c : Calls) (d : Dev) (plain : IsPlain c d) where
  rks_kind : IsKind c d rks
  unfolding credman_parse_rk_count
  rks_kind = record {
    ask = λ v. credman_tx-Ends c d plain cmd_rk_next no_body none none false v;
    fresh = λ msg l h. first-IsFresh c rks 9 msg l h;
  }

  rps_kind : IsKind c d rps
  unfolding credman_parse_rp_count
  rps_kind = record {
    ask = λ v. credman_tx-Ends c d plain cmd_rp_next no_body none none false v;
    fresh = λ msg l h. first-IsFresh c rps 5 msg l h;
  }

  listed-Ends :
      {A : Type 0} (k : Kind A) (kind : IsKind c d k) (subcmd : ℕ) (body : Body) (pin rp_id : Chars)
      (w : World)
      → Ends
          (OnRet AnyCode (ListedAfter c d k subcmd body pin rp_id w))
          ((credman_tx c d subcmd body pin rp_id true >> rx_all k c d) w)
  listed-Ends {A = A} k kind subcmd body pin rp_id w =
      then-Ends AnyCode _ _
        (outcome-Ends (credman_tx c d subcmd body pin rp_id true w)
          (credman_tx-Ends c d plain subcmd body pin rp_id true w))
        λ u w1 sent.
          weaken-Ends (rx_all k c d w1) (rx_all-IsListed c d plain k kind w1) (after w1 sent)
    where
      after :
          (w1 : World)
          → credman_tx c d subcmd body pin rp_id true w ≡ (ok (val tt), w1)
          → (r : Ret (Listing A)) (v : World) → OnRet AnyCode (λ l v. IsListed c d k w1 l v) r v
          → OnRet AnyCode (ListedAfter c d k subcmd body pin rp_id w) r v
      after w1 sent (val l) v h = record { begun = w1; sent = sent; listed = h }
      after w1 sent (err code) v h = tt

  -- Without transport functions and with reports of at least 8 bytes, listing the credentials of a
  -- relying party, and listing the relying parties, end in every world, however many entries the
  -- device announces. A list that is given was fetched after the subcommand for it was sent, which
  -- for credentials names the hash of the relying party: it has as many entries as the device's
  -- first message announced, all of them received, and, unless there are none, each is what is
  -- parsed from one of the device's messages in turn, the first one and the answers to the requests
  -- for the next.
  pub lists-IsListed :
      (rp_id : List ℕ) (pin : Chars) (w : World)
      → Ends
          (OnRet AnyCode (λ l v.
            (dgst : List ℕ) × (c.sha256 rp_id ≡ some dgst)
            × ListedAfter c d rks cmd_rk_begin
                (rp_hash (some dgst))
                pin
                (some rp_id)
                (start_budget d w)
                l
                v))
          (fido_credman_get_dev_rk c d rp_id pin w)
        × Ends
            (OnRet AnyCode (ListedAfter c d rps cmd_rp_begin no_body pin none (start_budget d w)))
            (fido_credman_get_dev_rp c d pin w)
  unfolding fido_credman_get_dev_rk fido_credman_get_dev_rp
  lists-IsListed rp_id pin w = (
    option-Ends AnyCode err_internal (c.sha256 rp_id) _ (start_budget d w) tt λ dgst e.
        weaken-Ends
          ((credman_tx c d cmd_rk_begin (rp_hash (some dgst)) pin (some rp_id) true
              >> rx_all rks c d)
            (start_budget d w))
          (listed-Ends rks rks_kind cmd_rk_begin (rp_hash (some dgst)) pin (some rp_id)
            (start_budget d w))
          (with_hash dgst e),
    listed-Ends rps rps_kind cmd_rp_begin no_body pin none (start_budget d w),
  )
    where
      with_hash :
          (dgst : List ℕ)
          → c.sha256 rp_id ≡ some dgst
          → (r : Ret (Listing StoredCred)) (v : World)
          → OnRet AnyCode
              (ListedAfter c d rks cmd_rk_begin
                (rp_hash (some dgst))
                pin
                (some rp_id)
                (start_budget d w))
              r
              v
          → OnRet AnyCode
              (λ l v.
                (dgst : List ℕ) × (c.sha256 rp_id ≡ some dgst)
                × ListedAfter c d rks cmd_rk_begin
                    (rp_hash (some dgst))
                    pin
                    (some rp_id)
                    (start_budget d w)
                    l
                    v)
              r
              v
      with_hash dgst e (val l) v h = (dgst, e, h)
      with_hash dgst e (err code) v h = tt
