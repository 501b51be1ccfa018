-- ===== src/Batching/Delivery.antt =====
-- What the batches of symbols deliver.
use Prim.Native.String.{String}
use ground_core.Common.Tests.{
  ℕ, ◌+◌, ◌%◌, ◌<◌, List, [], ◌∷◌, ◌++◌, Option, none, some, ◌≡◌, refl, sym, ap, ◌∙◌, subst, inl,
  inr, ◌⊎◌, arith, u64_mod,
}
use mathlib.Core.List.{append_assoc, append-nil}
use native.Mathlib.Nat.{mod-eq_of_lt}
use ground_core.Common.Lists.{length}
use ground_core.Bitemporal.Timestamp.{BiTemporal}
use ground_core.Batching.{DemodulatorBatch, DemodulatorBatcher, add_symbol, flush}

pub data Call : Type 0 where
  adds : BiTemporal ℕ → Call
  flushes : String → Call

-- The batches that the calls yield, and the batcher after them.
abbrev pub with_batch : Option DemodulatorBatch → List DemodulatorBatch → List DemodulatorBatch
with_batch none batches = batches
with_batch (some batch) batches = batch ∷ batches

unfoldable pub run : List Call → DemodulatorBatcher → List DemodulatorBatch × DemodulatorBatcher
run [] b = ([], b)
run (adds symbol ∷ cs) b = run cs (add_symbol symbol b)
run (flushes uuid ∷ cs) b =
    let (batch, b') = flush uuid b in
    let (batches, b'') = run cs b' in (with_batch batch batches, b'')

abbrev pub added : List Call → List (BiTemporal ℕ)
added [] = []
added (adds symbol ∷ cs) = symbol ∷ added cs
added (flushes uuid ∷ cs) = added cs

abbrev pub delivered : List DemodulatorBatch → List (BiTemporal ℕ)
delivered [] = []
delivered (batch ∷ batches) = batch.symbols ++ delivered batches

-- Numbered one after the other, from `n` on, and none of them empty.
abbrev pub Numbered : ℕ → List DemodulatorBatch → Type 0
Numbered n [] = Unit
Numbered n (batch ∷ batches) =
    (batch.sequence ≡ n) × (0 < length batch.symbols) × Numbered (n + 1) batches

-- What the calls from `b` on deliver.
abbrev pub Delivers :
    List Call → DemodulatorBatcher → List DemodulatorBatch × DemodulatorBatcher → Type 0
Delivers cs b (batches, b') =
    (delivered batches ++ b'.pending_symbols ≡ b.pending_symbols ++ added cs)
    × Numbered b.sequence batches

-- A flush delivers what is pending, or there is nothing.
abbrev batch_of : String → DemodulatorBatcher → DemodulatorBatch
batch_of uuid b = record { batch_id = uuid; symbols = b.pending_symbols; sequence = b.sequence }

abbrev emptied : DemodulatorBatcher → DemodulatorBatcher
emptied b = record b { pending_symbols = []; sequence = (b.sequence + 1) % u64_mod }

flush-cases :
    (uuid : String) (b : DemodulatorBatcher)
    → (flush uuid b ≡ (none, b))
      ⊎ ((flush uuid b ≡ (some (batch_of uuid b), emptied b)) × (0 < length b.pending_symbols))
unfolding flush
flush-cases uuid b = split b.pending_symbols refl
  where
    split :
        (pending : List (BiTemporal ℕ))
        → b.pending_symbols ≡ pending
        → (flush uuid b ≡ (none, b))
          ⊎ ((flush uuid b ≡ (some (batch_of uuid b), emptied b)) × (0 < length b.pending_symbols))
    split [] e = inl (rw (e, flush) (ap (λ p. (none, record b { pending_symbols = p })) e))
    split (x ∷ xs) e = inr (rw (e, flush) refl, rw e (omega arith))

-- Whatever symbols are added and whenever the batcher is flushed: the symbols of the batches, in
-- their order, and those that are pending at the end are the symbols that were pending and then
-- those that were added, each once; no batch is empty, and the batches are numbered one after the
-- other from the batcher's number on, if that number does not reach 2^64 within the calls.
pub run-Delivers :
    (cs : List Call) (b : DemodulatorBatcher)
    → b.sequence + length cs < u64_mod
    → Delivers cs b (run cs b)
unfolding run add_symbol
run-Delivers [] b h = (sym (append-nil b.pending_symbols), tt)
run-Delivers (adds symbol ∷ cs) b h =
    let ih = run-Delivers cs (add_symbol symbol b) (omega (arith, h)) in
    (ih.0 ∙ append_assoc b.pending_symbols (symbol ∷ []) (added cs), ih.1)
run-Delivers (flushes uuid ∷ cs) b h = elim (flush-cases uuid b) [
  | inl e ↦ rw (e, run) (run-Delivers cs b (omega (arith, h)))
  | inr (e, some_pending) ↦
      let next : (b.sequence + 1) % u64_mod ≡ b.sequence + 1 =
        mod-eq_of_lt {n = b.sequence + 1} {m = u64_mod} (omega (arith, h)) in
      let ih = run-Delivers cs (emptied b) (omega (arith, h, next)) in
      rw (e, run)
        (
          append_assoc b.pending_symbols (delivered (run cs (emptied b)).0)
                (run cs (emptied b)).1.pending_symbols
              ∙ ap (λ ys. b.pending_symbols ++ ys) ih.0,
          (refl, some_pending, subst (λ n. Numbered n (run cs (emptied b)).0) next ih.1),
        )
]
