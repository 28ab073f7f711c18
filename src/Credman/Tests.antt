-- ===== src/Credman/Tests.antt =====
-- src/credman.c: a theorem at a concrete input.
use fido2_manage.Prelude.{ℕ, ◌≡◌, List, [], ◌∷◌, some, none, codes}
use fido2_manage.Platform.{World}
use fido2_manage.Try.{OnRet}
use fido2_manage.Ends.{Ends}
use fido2_manage.Session.{start_budget}
use fido2_manage.Ctap.Samples.{fresh, toy, toy-IsPlain, frame, answering}
use fido2_manage.Ctap.Total.{AnyCode}
use fido2_manage.Credman.{no_body, rp_hash, cmd_rk_begin, cmd_rp_begin}
use fido2_manage.Credman.Rk.{rks, fido_credman_get_dev_rk}
use fido2_manage.Credman.Rp.{rps, fido_credman_get_dev_rp}
use fido2_manage.Credman.Fetched.{ListedAfter, lists-IsListed}

-- The device gives its key and answers the commands.
abbrev talking : World
talking = answering (frame 0 1 ∷ frame 0 0 ∷ frame 0 0 ∷ [])

abbrev site : List ℕ
site = codes "example.org"

lists-IsListed_example :
    Ends
      (OnRet AnyCode (λ l v.
        (dgst : List ℕ) × (toy.sha256 site ≡ some dgst)
        × ListedAfter toy fresh rks cmd_rk_begin
            (rp_hash (some dgst))
            none
            (some site)
            (start_budget fresh talking)
            l
            v))
      (fido_credman_get_dev_rk toy fresh site none talking)
    × Ends
        (OnRet AnyCode
          (ListedAfter toy fresh rps cmd_rp_begin no_body none none (start_budget fresh talking)))
        (fido_credman_get_dev_rp toy fresh none talking)
lists-IsListed_example = lists-IsListed toy fresh toy-IsPlain site none talking
