-- ===== src/Nfc/Tests.antt =====
-- Runs of the chaining, and its theorems at concrete commands and answers.
use fido2_manage.Prelude.{ℕ, ◌≡◌, refl, true, List, [], ◌∷◌, replicate, none, some, length, arith}
use fido2_manage.Platform.{World}
use fido2_manage.Time.{elapsed}
use fido2_manage.Time.Budget.{at}
use fido2_manage.Time.Steady.{SteadyClock}
use fido2_manage.Io.Tests.{small, idle}
use fido2_manage.Nfc.{fido_nfc_tx, rx_msg}
use fido2_manage.Nfc.Chain.{Chains, collect, IsChain, ok_status, nfc_tx-cbor}
use fido2_manage.Nfc.Answer.{Answers, rx_msg-Answers}

-- 500 bytes go in three APDUs, of which the card acknowledges two.
abbrev command : List ℕ
command = replicate 500 7

abbrev card : World
card = record idle { incoming = ok_status ∷ ok_status ∷ none ∷ [] }

nfc_tx-cbor_example :
    (ps : List (List ℕ)) × Chains card ps (none ∷ []) (fido_nfc_tx small 0x10 command card)
    × (collect ps ≡ command)
    × IsChain 0x80 ps
nfc_tx-cbor_example =
    nfc_tx-cbor small command card (none ∷ []) (omega arith) (λ s p. (length p, refl)) refl

-- An answer in two parts.
abbrev answering : World
answering = record idle { incoming = some (1 ∷ 2 ∷ 0x61 ∷ 1 ∷ []) ∷ some (3 ∷ 0x90 ∷ 0 ∷ []) ∷ [] }

idle_clock : SteadyClock (λ n. some (at 5 0))
unfolding elapsed
idle_clock = λ n. (at 5 0, 0, refl, refl)

rx_msg-Answers_example :
    Answers answering
      ((0x80 ∷ 0xc0 ∷ 0 ∷ 0 ∷ 1 ∷ []) ∷ [])
      []
      (1 ∷ 2 ∷ 3 ∷ 0x90 ∷ 0 ∷ [])
      (rx_msg 2048 true answering)
rx_msg-Answers_example =
    rx_msg-Answers ((1 ∷ 2 ∷ [], 1) ∷ []) (3 ∷ []) 0x90 0 2048 true [] answering idle_clock
      (λ s p. (length p, refl)) (omega arith) (omega arith) (omega arith) (omega arith)
      (omega arith) refl
