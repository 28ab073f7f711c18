-- ===== src/Session/Transmit.antt =====
-- src/dev.c: the first half of opening a device, up to the request on the broadcast channel.
use fido2_manage.Prelude.{
  ℕ, suc, ◌≤◌, ◌≡◌, refl, Bool, true, false, not, ◌||◌, ◌⊎◌, inl, inr, Option, none, some, ℤ, eqb_ℤ,
  ◌==◌, le64, Bool-cases, arith,
}
use fido2_manage.Err.{fido_ok, err_tx, err_rx}
use fido2_manage.Platform.{World, attempt}
use fido2_manage.Device.{Dev}
use fido2_manage.Ends.{Ends, continue-Ends, return-Ends}
use fido2_manage.Io.{fido_tx}
use fido2_manage.Io.Total.{Stops, attempt-Stops, fido_tx-Stops}
use fido2_manage.Session.{
  Host, Session, cid_broadcast, fail_open, set_report_lens, invalid_report_len, sent_init,
  opened_tx, got_handle, open_handle, with_nonce, fido_dev_open_tx, cmd_init,
}

-- What dev.c calls ends, whatever its outcome.
pub record Lively (host : Host) : Type 0 where
  pub io_open : (w : World) → Stops (host.io_open w)
  pub io_close : (w : World) → Stops (host.io_close w)
  pub get_random : (w : World) → Stops (host.get_random w)
  pub get_cbor_info : (d : Dev) (w : World) → Stops (host.get_cbor_info d w)
  pub transport_tx : host.driver.transport_tx ≡ none
  pub transport_rx : host.driver.transport_rx ≡ none

-- Reports are between 8 and 64 bytes long.
pub record IsHalfOpen (handles : ℕ) (s : Session) : Type 0 where
  pub handle : s.dev.io_handle ≡ true
  pub taken : s.handles ≡ suc handles
  pub rx_min : 8 ≤ s.dev.rx_len
  pub rx_max : s.dev.rx_len ≤ 64
  pub tx_min : 8 ≤ s.dev.tx_len
  pub tx_max : s.dev.tx_len ≤ 64

-- The device echoed the nonce, and its channel is in use.
pub record IsOpen (handles : ℕ) (s : Session) : Type 0 where
  pub half : IsHalfOpen handles s
  pub nonce : s.dev.attr.nonce ≡ s.dev.nonce
  pub cid : s.dev.cid ≡ s.dev.attr.cid

-- No handle is left, and unless the fallback to U2F is disabled the device can be opened again.
pub record IsClosed (host : Host) (handles : ℕ) (s : Session) : Type 0 where
  pub handle : s.dev.io_handle ≡ false
  pub given_back : s.handles ≡ handles
  pub reopens : host.no_fallback ≡ false → s.dev.cid ≡ cid_broadcast

-- Either the code is FIDO_OK, or the handle is closed.
abbrev pub Outcome : Host → ℕ → (Session → Type 0) → ℤ × Session → Type 0
Outcome host handles P (r, s) =
    ((eqb_ℤ r fido_ok ≡ true) × P s) ⊎ ((eqb_ℤ r fido_ok ≡ false) × IsClosed host handles s)

pub fail_open-Ends :
    (host : Host) (P : Session → Type 0) (handles : ℕ) (r : ℤ) (s : Session) (w : World)
    → Lively host
    → eqb_ℤ r fido_ok ≡ false
    → s.handles ≡ suc handles
    → (host.no_fallback ≡ false → s.dev.cid ≡ cid_broadcast)
    → Ends (λ a v. Outcome host handles P a) (fail_open host r s w)
unfolding fail_open
fail_open-Ends host P handles r s w live bad taken cid =
    continue-Ends _ (host.io_close w) (live.io_close w) λ u w1 _.
      return-Ends _ w1
        (inr (bad, record { handle = refl; given_back = omega (arith, taken); reopens = cid }))

sized : (n : ℕ) → invalid_report_len n ≡ false → (8 ≤ n) × (n ≤ 64)
sized n h = (ground (arith, h), ground (arith, h))

set_report_lens-keeps :
    (host : Host) (d : Dev)
    → ((set_report_lens host d).io_handle ≡ d.io_handle) × ((set_report_lens host d).cid ≡ d.cid)
unfolding set_report_lens
set_report_lens-keeps host d = (ground arith, ground arith)

-- The state between the two halves.
abbrev pub IsReady : ℕ → Session → Type 0
IsReady handles s = IsHalfOpen handles s × (s.dev.cid ≡ cid_broadcast)

sent_init-Ends :
    (host : Host) (handles : ℕ) (s : Session) (t : Option (Unit {0})) (w : World)
    → Lively host
    → IsReady handles s
    → Ends (λ a v. Outcome host handles (IsReady handles) a) (sent_init host s t w)
sent_init-Ends host handles s none w live ready =
    fail_open-Ends host (IsReady handles) handles err_tx s w live refl ready.0.taken (λ _. ready.1)
sent_init-Ends host handles s (some u) w live ready = return-Ends _ w (inl (refl, ready))

opened_tx-Ends :
    (host : Host) (handles : ℕ) (s : Session) (w : World)
    → Lively host
    → s.dev.io_handle ≡ true
    → s.handles ≡ suc handles
    → s.dev.cid ≡ cid_broadcast
    → Ends (λ a v. Outcome host handles (IsReady handles) a) (opened_tx host s w)
unfolding opened_tx
opened_tx-Ends host handles s w live handle taken cid =
    let d = set_report_lens host s.dev in
    let s' : Session = record s { dev = d } in
    let keeps = set_report_lens-keeps host s.dev in
    let cid' : d.cid ≡ cid_broadcast = ground (arith, keeps.1, cid) in
    elim (Bool-cases (invalid_report_len d.rx_len)) [
      | inl bad ↦
          rw bad
            (fail_open-Ends host (IsReady handles) handles err_rx s' w live refl taken (λ _. cid'))
      | inr good ↦ elim (Bool-cases (invalid_report_len d.tx_len)) [
        | inl bad ↦
            rw (good, bad)
              (fail_open-Ends host (IsReady handles) handles err_tx s' w live refl taken
                (λ _. cid'))
        | inr fits ↦
            let ready : IsReady handles s' = (
              record {
                handle = ground (arith, keeps.0, handle);
                taken = taken;
                rx_min = (sized d.rx_len good).0;
                rx_max = (sized d.rx_len good).1;
                tx_min = (sized d.tx_len fits).0;
                tx_max = (sized d.tx_len fits).1;
              },
              cid',
            ) in
            rw (good, fits)
              (continue-Ends (sent_init host s')
                (attempt (fido_tx host.driver d cmd_init (le64 d.nonce)) w)
                (attempt-Stops _
                  (fido_tx-Stops host.driver d cmd_init (le64 d.nonce) w live.transport_tx))
                (λ t v _. sent_init-Ends host handles s' t v live ready))
      ]
    ]

got_handle-Ends :
    (host : Host) (s : Session) (h : Bool) (w : World)
    → Lively host
    → s.dev.io_handle ≡ false
    → s.dev.cid ≡ cid_broadcast
    → Ends (λ a v. Outcome host s.handles (IsReady s.handles) a) (got_handle host s h w)
got_handle-Ends host s false w live handle cid =
    return-Ends _ w (inr (refl, record { handle = handle; given_back = refl; reopens = λ _. cid }))
got_handle-Ends host s true w live handle cid =
    opened_tx-Ends host s.handles _ w live refl (omega arith) cid

open_handle-Ends :
    (host : Host) (s : Session) (w : World)
    → Lively host
    → s.dev.io_handle ≡ false
    → s.dev.cid ≡ cid_broadcast
    → Ends (λ a v. Outcome host s.handles (IsReady s.handles) a) (open_handle host s w)
unfolding open_handle
open_handle-Ends host s w live handle cid =
    continue-Ends (got_handle host s) (host.io_open w) (live.io_open w)
      λ h v _. got_handle-Ends host s h v live handle cid

with_nonce-Ends :
    (host : Host) (s : Session) (n : Option ℕ) (w : World)
    → Lively host
    → s.dev.io_handle ≡ false
    → s.dev.cid ≡ cid_broadcast
    → Ends (λ a v. Outcome host s.handles (IsReady s.handles) a) (with_nonce host s n w)
with_nonce-Ends host s none w live handle cid =
    return-Ends _ w (inr (refl, record { handle = handle; given_back = refl; reopens = λ _. cid }))
with_nonce-Ends host s (some n) w live handle cid =
    open_handle-Ends host (record s { dev = record s.dev { nonce = n } }) w live handle cid

pub open_tx-Ends :
    (host : Host) (s : Session) (w : World)
    → Lively host
    → s.dev.io_handle ≡ false
    → s.dev.cid ≡ cid_broadcast
    → Ends (λ a v. Outcome host s.handles (IsReady s.handles) a) (fido_dev_open_tx host s w)
unfolding fido_dev_open_tx
open_tx-Ends host s w live handle cid =
    let fresh : (s.dev.cid == cid_broadcast) ≡ true = rw cid refl in
    let closed : IsClosed host s.handles s = record {
      handle = handle;
      given_back = refl;
      reopens = λ _. cid;
    } in
    elim (Bool-cases (not host.has_open || not host.has_close)) [
      | inl missing ↦ simp (handle, missing) (return-Ends _ w (inr (refl, closed)))
      | inr there ↦
          simp (handle, there, fresh)
            (continue-Ends (with_nonce host s) (host.get_random w) (live.get_random w)
              λ n v _. with_nonce-Ends host s n v live handle cid)
    ]
