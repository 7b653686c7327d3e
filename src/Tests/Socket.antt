-- ===== src/Tests/Socket.antt =====
-- Transfers of five bytes in two parts, the second attempt after a timeout.
use emeralddb_src.Base.{List, [], ◌∷◌, arith, false, inr}
use emeralddb_src.Memory.{Mem}
use emeralddb_src.Socket.{
  Attempt, Received, Taken, bytes, interrupted, takes, refused, time_over, interrupts, is_set,
  pmd_recv, pmd_send,
}
use emeralddb_src.Socket.Recv.{stream, IsReceived}
use emeralddb_src.Socket.Send.{IsSent}
use emeralddb_src.Socket.Transfer.{Transfers, pmd_recv-Transfers, pmd_send-Transfers}

abbrev memory : Mem
memory x = x

abbrev parts : List Received
parts = bytes (10 ∷ 20 ∷ []) ∷ interrupted ∷ bytes (30 ∷ 40 ∷ 50 ∷ []) ∷ []

abbrev receptions : List (Attempt Received)
receptions =
    record { is_forced = false; selects = interrupts ∷ time_over ∷ []; answers = parts }
    ∷ record { is_forced = false; selects = is_set ∷ []; answers = parts }
    ∷ []

abbrev sendings : List (Attempt Taken)
sendings =
    record { is_forced = false; selects = time_over ∷ []; answers = refused ∷ [] }
    ∷ record { is_forced = false; selects = is_set ∷ []; answers = takes 2 ∷ takes 3 ∷ [] }
    ∷ []

pmd_recv-Transfers_example :
    Transfers receptions memory
      (λ t. IsReceived (stream t.answers) memory 100 5)
      (pmd_recv receptions memory 100 5)
pmd_recv-Transfers_example =
    pmd_recv-Transfers memory 100 5 (omega arith) (omega arith) receptions (
      (tt, inr (omega arith, omega arith, inr (inr (inr (omega arith, omega arith, omega arith))))),
      (
        (
          tt,
          inr (omega arith, omega arith, inr (inr (inr (omega arith, omega arith, omega arith)))),
        ),
        tt,
      ),
    )

pmd_send-Transfers_example :
    Transfers sendings [] (λ t. IsSent memory 100 5) (pmd_send sendings memory 100 5)
pmd_send-Transfers_example = pmd_send-Transfers memory 100 5 (omega arith) (omega arith) sendings (
  (tt, tt),
  ((tt, inr (omega arith, omega arith, inr (omega arith, omega arith, omega arith))), tt),
)
