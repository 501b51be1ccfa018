-- ===== src/RfLayer/Sdr/Ring.antt =====
-- The ring buffer of samples against the bounded queue of what it holds.
use native.Mathlib.Nat.{mod-eq_of_lt}
use ground_core.Common.Tests.{
  ℕ, ◌+◌, ◌-◌, ◌≤◌, ◌<◌, true, false, min, ltb, List, [], ◌∷◌, ◌++◌, ◌≡◌, refl, sym, ap, ap₂, ◌∙◌,
  arith, sub_u64, u64_mod, Bool-cases, inl, inr,
}
use ground_core.Common.Lists.{length, take}
use ground_core.Common.Result.{Result, ok, err}
use ground_core.Common.Ring.{
  drop, span, length-span, take-span, drop-span, write_all, write_loop_lem, read_loop_lem,
  length-write_all, span-write_all, take-all,
}
use ground_core.Common.Fifo.{
  Call, puts, gets, Answer, wrote, overflows, got, Queue, run, step, strict, run-simulates,
}
use ground_core.RfLayer.Sdr.{SampleRingBuffer, RfError, ring_buffer_overflow, write, read}

module _ {A : Type 0} (d : A) where
  -- The ring buffer as a queue.
  abbrev answer_write : Result RfError ℕ → Answer A
  answer_write (ok n) = wrote n
  answer_write (err e) = overflows

  abbrev pub ring : Queue A
  ring = record {
    State = SampleRingBuffer A;
    put = λ xs r. let (a, r') = write xs r in (answer_write a, r');
    get = λ n r. let (xs, r') = read d n r in (got xs, r');
  }

  -- What the calls write in all.
  abbrev pub total : List (Call A) → ℕ
  total [] = 0
  total (puts xs ∷ cs) = length xs + total cs
  total (gets n ∷ cs) = total cs

  -- The counters are apart by what the buffer holds.
  pub record IsValid (r : SampleRingBuffer A) : Type 0 where
    pub storage : r.capacity ≤ length r.buffer
    pub behind : r.tail ≤ r.head
    pub within : r.head ≤ r.tail + r.capacity
    pub small : r.capacity < u64_mod
    pub counts : r.head < u64_mod

  abbrev pub held : SampleRingBuffer A → List A
  held r = span d r.capacity r.buffer r.tail (r.head - r.tail)

  -- The difference of the counters does not wrap.
  sub_counts : (r : SampleRingBuffer A) → IsValid r → sub_u64 r.head r.tail ≡ r.head - r.tail
  sub_counts r v = omega (arith, v.behind, v.counts)

  free_lem :
      (r : SampleRingBuffer A)
      → IsValid r
      → sub_u64 r.capacity (sub_u64 r.head r.tail) ≡ r.capacity - (r.head - r.tail)
  free_lem r v = omega (arith, sub_counts r v, v.within, v.small)

  abbrev written : List A → SampleRingBuffer A → SampleRingBuffer A
  written xs r = record r {
    buffer = write_all r.capacity r.buffer r.head xs;
    head = r.head + length xs;
  }

  module _ (xs : List A) (r : SampleRingBuffer A) (v : IsValid r) where
    write_over :
        r.capacity - (r.head - r.tail) < length xs → write xs r ≡ (err ring_buffer_overflow, r)
    unfolding write
    write_over h =
        let over : ltb (r.capacity - (r.head - r.tail)) (length xs) ≡ true = ground arith in
        rw (free_lem r v, over) refl

    write_fits :
        length xs ≤ r.capacity - (r.head - r.tail)
        → r.head + length xs < u64_mod
        → write xs r ≡ (ok (length xs), written xs r)
    unfolding write
    write_fits h b =
        let fits : ltb (r.capacity - (r.head - r.tail)) (length xs) ≡ false = ground arith in
        let all : min (length xs) (r.capacity - (r.head - r.tail)) ≡ length xs = omega (arith, h) in
        rw
          (
            free_lem r v,
            fits,
            all,
            take-all (length xs) xs (omega arith),
            write_loop_lem r.capacity r.buffer r.head xs b,
            mod-eq_of_lt {n = r.head + length xs} {m = u64_mod} b,
          )
          refl

    written-IsValid :
        length xs ≤ r.capacity - (r.head - r.tail)
        → r.head + length xs < u64_mod
        → IsValid (written xs r)
    written-IsValid h b = record {
      storage = omega (arith, v.storage, length-write_all r.capacity r.buffer r.head xs);
      behind = omega (arith, v.behind);
      within = omega (arith, v.within, v.behind);
      small = v.small;
      counts = b;
    }

    held-written : length xs ≤ r.capacity - (r.head - r.tail) → held (written xs r) ≡ held r ++ xs
    held-written h =
        ap₂ (λ p n. span d r.capacity (write_all r.capacity r.buffer p xs) r.tail n)
          (omega (arith, v.behind)) (omega (arith, v.behind))
        ∙ span-write_all d r.capacity r.buffer r.tail (r.head - r.tail) xs v.storage
            (omega (arith, v.within, v.behind))

  module _ (n : ℕ) (r : SampleRingBuffer A) (v : IsValid r) where
    abbrev taken : ℕ
    taken = min n (r.head - r.tail)

    read_eq :
        read d n r ≡ (span d r.capacity r.buffer r.tail taken, record r { tail = r.tail + taken })
    unfolding read
    read_eq =
        rw
          (
            sub_counts r v,
            read_loop_lem d r.capacity r.buffer r.tail taken (omega (arith, v.behind, v.counts)),
            mod-eq_of_lt {n = r.tail + taken} {m = u64_mod} (omega (arith, v.behind, v.counts)),
          )
          refl

    read-IsValid : IsValid (record r { tail = r.tail + taken })
    read-IsValid = record {
      storage = v.storage;
      behind = omega (arith, v.behind);
      within = omega (arith, v.within);
      small = v.small;
      counts = v.counts;
    }

    -- Taking `n` or all there is.
    take-held : span d r.capacity r.buffer r.tail taken ≡ take n (held r)
    take-held = sym (take-span d r.capacity r.buffer r.tail n (r.head - r.tail))

    drop-held : held (record r { tail = r.tail + taken }) ≡ drop n (held r)
    drop-held =
        ap (λ m. span d r.capacity r.buffer (r.tail + taken) m) (omega arith)
        ∙ sym (drop-span d r.capacity r.buffer r.tail n (r.head - r.tail))

  held-length : (r : SampleRingBuffer A) → IsValid r → length (held r) ≡ r.head - r.tail
  held-length r v = length-span d r.capacity r.buffer r.tail (r.head - r.tail)

  abbrev Related : ℕ → List (Call A) → SampleRingBuffer A → List A → Type 0
  Related cap cs r q = IsValid r × (r.capacity ≡ cap) × (held r ≡ q) × (r.head + total cs < u64_mod)

  put-Related :
      (cap : ℕ) (xs : List A) (cs : List (Call A)) (r : SampleRingBuffer A) (q : List A)
      → Related cap (puts xs ∷ cs) r q
      → ((step ring (puts xs) r).0 ≡ (step (strict cap) (puts xs) q).0)
        × Related cap cs (step ring (puts xs) r).1 (step (strict cap) (puts xs) q).1
  put-Related cap xs cs r q (v, c, e, b) = elim (Bool-cases (ltb (cap - length q) (length xs))) [
    | inl over ↦
        rw (over, write_over xs r v (ground (arith, held-length r v, c, e)))
          (refl, (v, c, e, omega (arith, b)))
    | inr fits ↦
        let small : length xs ≤ r.capacity - (r.head - r.tail) =
          ground (arith, held-length r v, c, e) in
        let bound : r.head + length xs < u64_mod = omega (arith, b) in
        rw (fits, write_fits xs r v small bound)
          (
            refl,
            (
              written-IsValid xs r v small bound,
              c,
              held-written xs r v small ∙ ap (λ ys. ys ++ xs) e,
              omega (arith, b),
            ),
          )
  ]

  get-Related :
      (cap n : ℕ) (cs : List (Call A)) (r : SampleRingBuffer A) (q : List A)
      → Related cap (gets n ∷ cs) r q
      → ((step ring (gets n) r).0 ≡ (step (strict cap) (gets n) q).0)
        × Related cap cs (step ring (gets n) r).1 (step (strict cap) (gets n) q).1
  get-Related cap n cs r q (v, c, e, b) = rw (read_eq n r v) (
    ap got (take-held n r v ∙ ap (λ ys. take n ys) e),
    (read-IsValid n r v, c, drop-held n r v ∙ ap (λ ys. drop n ys) e, b),
  )

  call-Related :
      (cap : ℕ) (c : Call A) (cs : List (Call A)) (r : SampleRingBuffer A) (q : List A)
      → Related cap (c ∷ cs) r q
      → ((step ring c r).0 ≡ (step (strict cap) c q).0)
        × Related cap cs (step ring c r).1 (step (strict cap) c q).1
  call-Related cap (puts xs) = put-Related cap xs
  call-Related cap (gets n) = get-Related cap n

  -- A ring buffer in which the counters are apart by at most the capacity answers every sequence
  -- of writes and reads as the bounded first-in first-out queue of what it holds does, a write
  -- that does not fit as a whole being refused, if the counter of written samples does not reach
  -- 2^64.
  pub run-strict :
      (cs : List (Call A)) (r : SampleRingBuffer A)
      → IsValid r
      → r.head + total cs < u64_mod
      → run ring cs r ≡ run (strict r.capacity) cs (held r)
  run-strict cs r v b =
      run-simulates ring (strict r.capacity) (Related r.capacity) (call-Related r.capacity) cs r
        (held r) (v, refl, refl, b)
