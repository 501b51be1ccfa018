-- ===== src/RfLayer/Demodulator/Output.antt =====
-- rf-layer/src/demodulator.rs: the output of the demodulator, which batches the decoded symbols.
use Prim.Native.String.{String}
use ground_core.Common.Tests.{ℕ, Bool, Option}
use ground_core.Batching
use ground_core.Batching.{DemodulatorBatch, DemodulatorBatcher}
use ground_core.Bitemporal.Timestamp
use ground_core.RfLayer.Sdr.{Sample}

pub record DemodulatorOutput : Type 0 where
  pub batcher : DemodulatorBatcher

unfoldable pub new_output : ℕ → DemodulatorOutput
new_output batch_size = record { batcher = Batching.new batch_size }

unfoldable pub output_symbol :
    {F32 : Type 0} → ℕ → Sample F32 → DemodulatorOutput → DemodulatorOutput
output_symbol symbol x o = record {
  batcher = Batching.add_symbol (Timestamp.new symbol x.event_time x.reception_time) o.batcher;
}

unfoldable pub output_is_ready : DemodulatorOutput → Bool
output_is_ready o = Batching.is_ready o.batcher

unfoldable pub flush_output :
    String → DemodulatorOutput → Option DemodulatorBatch × DemodulatorOutput
flush_output uuid o =
    let (batch, batcher) = Batching.flush uuid o.batcher in (batch, record { batcher = batcher })

unfoldable pub force_flush_output :
    String → DemodulatorOutput → Option DemodulatorBatch × DemodulatorOutput
force_flush_output uuid o =
    let (batch, batcher) = Batching.force_flush uuid o.batcher in
    (batch, record { batcher = batcher })
