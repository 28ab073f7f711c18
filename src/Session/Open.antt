-- ===== src/Session/Open.antt =====
-- src/dev.c: what a call of `fido_dev_open` leaves behind, on every path.
use fido2_manage.Prelude.{
  subst, ◌-◌, ℕ, ◌≡◌, refl, true, false, not, ◌||◌, inl, inr, List, ◌++◌, Option, none, some,
  length, drop, ℤ, eqb_ℤ, ◌==◌, Bool-cases, arith,
}
use fido2_manage.Err.{fido_ok, err_rx}
use fido2_manage.Platform.{World, attempt}
use fido2_manage.Ends.{Ends, continue-Ends, return-Ends, weaken-Ends}
use fido2_manage.Io.{fido_rx}
use fido2_manage.Io.Total.{attempt-Stops, fido_rx-Ends}
use fido2_manage.Flags.{
  CborInfo, set_flags, set_extension_flags, set_option_flags, set_protocol_flags,
}
use fido2_manage.Session.{
  Host, Session, cid_broadcast, fido_dev_open_tx, set_maxmsgsize, use_info, use_channel, set_attr,
  received_init, fido_dev_open_rx, then_receive, fido_dev_open_wait, fido_dev_open, start_budget,
  fido_dev_is_fido2, fido_dev_force_u2f, attr_of, attr_bytes, cmd_init,
}
use fido2_manage.Session.Close.{fido_dev_close}
use fido2_manage.Session.Transmit.{
  Lively, IsHalfOpen, IsOpen, Outcome, IsReady, fail_open-Ends, open_tx-Ends,
}

-- What follows the channel changes nothing that an open session rests on.
set_flags-IsOpen :
    (handles : ℕ) (s : Session) (info : CborInfo)
    → IsOpen handles s
    → IsOpen handles (record s { dev = set_flags s.dev info })
unfolding set_flags set_extension_flags set_option_flags set_protocol_flags
set_flags-IsOpen handles s info h = record {
  half = record {
    handle = h.half.handle;
    taken = h.half.taken;
    rx_min = h.half.rx_min;
    rx_max = h.half.rx_max;
    tx_min = h.half.tx_min;
    tx_max = h.half.tx_max;
  };
  nonce = h.nonce;
  cid = h.cid;
}

force_u2f-IsOpen :
    (handles : ℕ) (s : Session)
    → IsOpen handles s
    → IsOpen handles (record s { dev = fido_dev_force_u2f s.dev })
unfolding fido_dev_force_u2f
force_u2f-IsOpen handles s h = record {
  half = record {
    handle = h.half.handle;
    taken = h.half.taken;
    rx_min = h.half.rx_min;
    rx_max = h.half.rx_max;
    tx_min = h.half.tx_min;
    tx_max = h.half.tx_max;
  };
  nonce = h.nonce;
  cid = h.cid;
}

set_maxmsgsize-IsOpen :
    (handles : ℕ) (info : CborInfo) (s : Session)
    → IsOpen handles s
    → IsOpen handles (set_maxmsgsize info s)
set_maxmsgsize-IsOpen handles info s h = elim (Bool-cases (fido_dev_is_fido2 s.dev)) [
  | inl cbor ↦ rw cbor (record {
    half = record {
      handle = h.half.handle;
      taken = h.half.taken;
      rx_min = h.half.rx_min;
      rx_max = h.half.rx_max;
      tx_min = h.half.tx_min;
      tx_max = h.half.tx_max;
    };
    nonce = h.nonce;
    cid = h.cid;
  })
  | inr u2f ↦ rw u2f h
]

use_info-Ends :
    (host : Host) (handles : ℕ) (s : Session) (a : ℤ × CborInfo) (w : World)
    → Lively host
    → IsOpen handles s
    → Ends (λ a v. Outcome host handles (IsOpen handles) a) (use_info host s a w)
use_info-Ends host handles s (r, info) w live h = elim (Bool-cases (eqb_ℤ r fido_ok)) [
  | inl good ↦ rw good (
      return-Ends _ w
        (inl (refl, set_maxmsgsize-IsOpen handles info _ (set_flags-IsOpen handles s info h))))
  | inr bad ↦ elim (Bool-cases host.no_fallback) [
    | inl strict ↦
        simp (bad, strict)
          (fail_open-Ends host (IsOpen handles) handles r s w live bad h.half.taken
            (λ lax. absurd (ground (arith, strict, lax))))
    | inr lax ↦
        simp (bad, lax)
          (return-Ends _ w
            (inl (refl, set_maxmsgsize-IsOpen handles info _ (force_u2f-IsOpen handles s h))))
  ]
]

use_channel-Ends :
    (host : Host) (handles : ℕ) (s : Session) (w : World)
    → Lively host
    → IsHalfOpen handles s
    → s.dev.attr.nonce ≡ s.dev.nonce
    → Ends (λ a v. Outcome host handles (IsOpen handles) a) (use_channel host s w)
unfolding use_channel
use_channel-Ends host handles s w live h nonce =
    let s' : Session = record s { dev = record s.dev { flags = 0; cid = s.dev.attr.cid } } in
    let open' : IsOpen handles s' = record {
      half = record {
        handle = h.handle;
        taken = h.taken;
        rx_min = h.rx_min;
        rx_max = h.rx_max;
        tx_min = h.tx_min;
        tx_max = h.tx_max;
      };
      nonce = nonce;
      cid = refl;
    } in
    elim (Bool-cases (fido_dev_is_fido2 s'.dev)) [
      | inl cbor ↦ rw cbor (
          continue-Ends (use_info host s') (host.get_cbor_info s'.dev w)
            (live.get_cbor_info s'.dev w) (λ a v _. use_info-Ends host handles s' a v live open'))
      | inr u2f ↦ rw u2f (return-Ends _ w (inl (refl, open')))
    ]

received_init-Ends :
    (host : Host) (handles : ℕ) (s : Session) (r : Option (List ℕ)) (w : World)
    → Lively host
    → IsReady handles s
    → Ends (λ a v. Outcome host handles (IsOpen handles) a) (received_init host s r w)
received_init-Ends host handles s none w live h =
    fail_open-Ends host (IsOpen handles) handles err_rx _ w live refl h.0.taken (λ _. h.1)
received_init-Ends host handles s (some bs) w live h =
    let s' : Session = set_attr s (attr_of (bs ++ drop (length bs) (attr_bytes s.dev.attr))) in
    elim (Bool-cases (not (length bs == 17) || not (s'.dev.attr.nonce == s'.dev.nonce))) [
      | inl bad ↦
          rw bad (
            fail_open-Ends host (IsOpen handles) handles err_rx s' w live refl h.0.taken (λ _. h.1))
      | inr good ↦ rw good (
          use_channel-Ends host handles s' w live
            (record {
              handle = h.0.handle;
              taken = h.0.taken;
              rx_min = h.0.rx_min;
              rx_max = h.0.rx_max;
              tx_min = h.0.tx_min;
              tx_max = h.0.tx_max;
            })
            (ground (arith, good)))
    ]

then_receive-Ends :
    (host : Host) (handles : ℕ) (a : ℤ × Session) (w : World)
    → Lively host
    → Outcome host handles (IsReady handles) a
    → Ends (λ a v. Outcome host handles (IsOpen handles) a) (then_receive host a w)
unfolding fido_dev_open_rx
then_receive-Ends host handles (r, s) w live (inl (good, h)) =
    let stops =
      weaken-Ends (fido_rx host.driver s.dev cmd_init 17 w)
        (fido_rx-Ends host.driver s.dev cmd_init 17 w live.transport_rx h.0.rx_min) (λ a v p. tt) in
    rw good (
      continue-Ends (received_init host s) (attempt (fido_rx host.driver s.dev cmd_init 17) w)
        (attempt-Stops _ stops) (λ x v _. received_init-Ends host handles s x v live h))
then_receive-Ends host handles (r, s) w live (inr (bad, h)) =
    rw bad (return-Ends _ w (inr (bad, h)))

-- Without transport functions, `fido_dev_open` of a closed device on the broadcast channel ends on
-- every path, if the driver's open and close, the random numbers and the request for the device's
-- features end. If its code is FIDO_OK, the device has one handle more, its reports are between 8
-- and 64 bytes long, the nonce of its answer is the one that was issued, and the channel is the one
-- that it assigned. Otherwise no handle is left, and unless the fallback to U2F is disabled the
-- device is on the broadcast channel, so that it can be opened again.
pub fido_dev_open-Outcome :
    (host : Host) (s : Session) (w : World)
    → Lively host
    → s.dev.io_handle ≡ false
    → s.dev.cid ≡ cid_broadcast
    → Ends (λ a v. Outcome host s.handles (IsOpen s.handles) a) (fido_dev_open host s w)
unfolding fido_dev_open fido_dev_open_wait
fido_dev_open-Outcome host s w live handle cid =
    continue-Ends (then_receive host) (fido_dev_open_tx host s (start_budget s.dev w))
      (open_tx-Ends host s (start_budget s.dev w) live handle cid)
      λ a v h. then_receive-Ends host s.handles a v live h

-- A device that can be closed, which gives its handle back, and then opened again, to the same effect.
abbrev pub Reopens : Host → ℕ → World → Session → Type 0
Reopens host handles w s =
    Ends
      (λ a v.
        (a.0 ≡ fido_ok)
        × (a.1.handles ≡ handles)
        × Ends (λ b v1. Outcome host handles (IsOpen handles) b) (fido_dev_open host a.1 v))
      (fido_dev_close host s w)

IsOpen-Reopens :
    (host : Host) (handles : ℕ) (s : Session) (w : World)
    → Lively host
    → host.has_close ≡ true
    → IsOpen handles s
    → Reopens host handles w s
unfolding fido_dev_close
IsOpen-Reopens host handles s w live has h =
    let closed : Session = record {
      dev = record s.dev { io_handle = false; cid = cid_broadcast };
      handles = s.handles - 1;
    } in
    let back : closed.handles ≡ handles = omega (arith, h.half.taken) in
    simp (h.half.handle, has)
      (continue-Ends _ (host.io_close w) (live.io_close w) λ u v _. return-Ends _ v (
        refl,
        back,
        subst (λ n. Ends (λ b v1. Outcome host n (IsOpen n) b) (fido_dev_open host closed v)) back
            (fido_dev_open-Outcome host closed v live refl refl),
      ))

-- Under the same conditions, with a driver that has a close function, opening a device leaves it
-- closed, or with FIDO_OK so that closing it succeeds, gives back the handle that opening took, and
-- leaves a device that can be opened again in whatever world there is then.
pub fido_dev_open-Reopens :
    (host : Host) (s : Session) (w : World)
    → Lively host
    → host.has_close ≡ true
    → s.dev.io_handle ≡ false
    → s.dev.cid ≡ cid_broadcast
    → Ends (λ a v. Outcome host s.handles (Reopens host s.handles v) a) (fido_dev_open host s w)
fido_dev_open-Reopens host s w live has handle cid =
    weaken-Ends (fido_dev_open host s w) (fido_dev_open-Outcome host s w live handle cid) each
  where
    each :
        (a : ℤ × Session) (v : World)
        → Outcome host s.handles (IsOpen s.handles) a
        → Outcome host s.handles (Reopens host s.handles v) a
    each (r, s') v (inl (good, h)) = inl (good, IsOpen-Reopens host s.handles s' v live has h)
    each (r, s') v (inr failed) = inr failed
