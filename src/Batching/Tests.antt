-- ===== src/Batching/Tests.antt =====
-- The batcher of symbols at concrete calls.
use ground_core.Common.Tests.{ℕ, List, [], ◌∷◌, arith}
use ground_core.Bitemporal.Timestamp.{BiTemporal}
use ground_core.Batching.{DemodulatorBatcher}
use ground_core.Batching.Delivery.{Call, adds, flushes, run, Delivers, run-Delivers}

abbrev symbol : ℕ → BiTemporal ℕ
symbol n = record { value = n; event_time = 1; reception_time = 2 }

abbrev batcher : DemodulatorBatcher
batcher = record { pending_symbols = symbol 9 ∷ []; batch_size = 2; sequence = 5 }

abbrev calls : List Call
calls = adds (symbol 8) ∷ flushes "u" ∷ flushes "v" ∷ adds (symbol 7) ∷ []

run-Delivers_example : Delivers calls batcher (run calls batcher)
run-Delivers_example = run-Delivers calls batcher (omega arith)
