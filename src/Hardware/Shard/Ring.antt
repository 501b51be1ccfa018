-- ===== src/Hardware/Shard/Ring.antt =====
-- The ring buffer of a shard against the bounded queue of what it holds.
use native.Mathlib.Nat.{mod-lt, mod-mod, mod-eq_of_lt}
use ground_core.Common.Tests.{
  ℕ, suc, ◌+◌, ◌-◌, ◌%◌, ◌^◌, ◌≤◌, ◌<◌, min, leb, List, ◌∷◌, ◌++◌, ◌≡◌, refl, sym, ap, ap₂, ◌∙◌,
  arith, ◌⊎◌, inl, inr, dec_le, le→leb, lt→leb_false, if◌then◌else◌,
}
use ground_core.Common.Lists.{length, take}
use ground_core.Common.Ring.{
  drop, span, length-span, take-span, drop-span, span_cong, write_all, write_loop_lem,
  read_loop_lem, length-write_all, span-write_all, write_all_cong, length-take, mod-cases,
}
use ground_core.Common.Fifo.{Call, puts, gets, wrote, got, Queue, run, step, lenient, run-simulates}
use ground_core.Hardware.Shard.{RingBuffer, write, read, available, used}

-- How many places the tail is behind the head.
abbrev pub gap : ℕ → ℕ → ℕ → ℕ
gap cap head tail = if leb tail head then head - tail else cap - (tail - head)

gap-cases :
    (cap head tail : ℕ)
    → ((tail ≤ head) × (gap cap head tail ≡ head - tail))
      ⊎ ((head < tail) × (gap cap head tail ≡ cap - (tail - head)))
gap-cases cap head tail = elim (dec_le tail head) [
  | yes p ↦ inl (p, rw (le→leb tail head p) refl)
  | no p ↦ inr (omega arith, rw (lt→leb_false head tail (omega arith)) refl)
]

module _ (cap head tail n : ℕ) (h : head < cap) (t : tail < cap) where
  gap-place : (tail + gap cap head tail) % cap ≡ head
  gap-place = ground (arith, gap-cases cap head tail, mod-cases (tail + gap cap head tail) cap)

  gap-head :
      n ≤ cap - 1 - gap cap head tail → gap cap ((head + n) % cap) tail ≡ gap cap head tail + n
  gap-head b = ground (
    arith,
    gap-cases cap head tail,
    gap-cases cap ((head + n) % cap) tail,
    mod-cases (head + n) cap,
  )

  gap-tail : n ≤ gap cap head tail → gap cap head ((tail + n) % cap) ≡ gap cap head tail - n
  gap-tail b = ground (
    arith,
    gap-cases cap head tail,
    gap-cases cap head ((tail + n) % cap),
    mod-cases (tail + n) cap,
  )

module _ {A : Type 0} (d : A) where
  -- The ring buffer as a queue.
  abbrev pub ring : Queue A
  ring = record {
    State = RingBuffer A;
    put = λ xs r. let (n, r') = write xs r in (wrote n, r');
    get = λ n r. let (xs, r') = read d n r in (got xs, r');
  }

  pub record IsValid (r : RingBuffer A) : Type 0 where
    pub storage : r.capacity ≤ length r.buffer
    pub small : r.capacity < 2 ^ 63
    pub head_in : r.head < r.capacity
    pub tail_in : r.tail < r.capacity

  -- How many elements it holds.
  abbrev pub fill : RingBuffer A → ℕ
  fill r = gap r.capacity r.head r.tail

  abbrev pub held : RingBuffer A → List A
  held r = span d r.capacity r.buffer r.tail (fill r)

  used_lem : (r : RingBuffer A) → IsValid r → used r ≡ fill r
  unfolding used
  used_lem r v = ground (arith, v.small, v.head_in, v.tail_in)

  -- One place stays free.
  available_lem : (r : RingBuffer A) → IsValid r → available r ≡ r.capacity - 1 - fill r
  unfolding available
  available_lem r v = ground (arith, v.small, v.head_in, v.tail_in)

  fill-bound : (r : RingBuffer A) → IsValid r → fill r < r.capacity
  fill-bound r v = ground (arith, v.head_in, v.tail_in)

  module _ (xs : List A) (r : RingBuffer A) (v : IsValid r) where
    abbrev count : ℕ
    count = min (length xs) (r.capacity - 1 - fill r)

    abbrev written : RingBuffer A
    written = record r {
      buffer = write_all r.capacity r.buffer r.head (take count xs);
      head = (r.head + count) % r.capacity;
    }

    write_eq : write xs r ≡ (count, written)
    unfolding write
    write_eq =
        rw
          (
            available_lem r v,
            write_loop_lem r.capacity r.buffer r.head (take count xs)
                (omega (arith, length-take count xs (omega arith), v.small, v.head_in)),
          )
          refl

    written-IsValid : IsValid written
    written-IsValid = record {
      storage =
          omega (arith, v.storage, length-write_all r.capacity r.buffer r.head (take count xs));
      small = v.small;
      head_in = mod-lt (r.head + count) (omega (arith, v.head_in));
      tail_in = v.tail_in;
    }

    fill-written : fill written ≡ fill r + count
    fill-written = gap-head r.capacity r.head r.tail count v.head_in v.tail_in (omega arith)

    held-written : held written ≡ held r ++ take count xs
    held-written =
        let n = length (take count xs) in
        let size : n ≡ count = length-take count xs (omega arith) in
        let at : r.head % r.capacity ≡ (r.tail + fill r) % r.capacity =
          mod-eq_of_lt v.head_in ∙ sym (gap-place r.capacity r.head r.tail 0 v.head_in v.tail_in) in
        ap₂ (λ buf m. span d r.capacity buf r.tail m)
          (write_all_cong r.capacity r.buffer r.head (r.tail + fill r) (take count xs) at)
          (fill-written ∙ ap (λ m. fill r + m) (sym size))
        ∙ span-write_all d r.capacity r.buffer r.tail (fill r) (take count xs) v.storage
            (omega (arith, size, fill-bound r v))

  module _ (n : ℕ) (r : RingBuffer A) (v : IsValid r) where
    abbrev taken : ℕ
    taken = min n (fill r)

    abbrev left : RingBuffer A
    left = record r { tail = (r.tail + taken) % r.capacity }

    read_eq : read d n r ≡ (span d r.capacity r.buffer r.tail taken, left)
    unfolding read
    read_eq =
        rw
          (
            used_lem r v,
            read_loop_lem d r.capacity r.buffer r.tail taken
                (omega (arith, fill-bound r v, v.small, v.tail_in)),
          )
          refl

    left-IsValid : IsValid left
    left-IsValid = record {
      storage = v.storage;
      small = v.small;
      head_in = v.head_in;
      tail_in = mod-lt (r.tail + taken) (omega (arith, v.tail_in));
    }

    fill-left : fill left ≡ fill r - taken
    fill-left = gap-tail r.capacity r.head r.tail taken v.head_in v.tail_in (omega arith)

    held-left : held left ≡ drop n (held r)
    held-left =
        span_cong d r.capacity r.buffer ((r.tail + taken) % r.capacity) (r.tail + taken) (fill left)
          (mod-mod (r.tail + taken) r.capacity)
        ∙ ap (λ m. span d r.capacity r.buffer (r.tail + taken) m) fill-left
        ∙ sym (drop-span d r.capacity r.buffer r.tail n (fill r))

  held-length : (r : RingBuffer A) → length (held r) ≡ fill r
  held-length r = length-span d r.capacity r.buffer r.tail (fill r)

  abbrev Related : ℕ → List (Call A) → RingBuffer A → List A → Type 0
  Related cap cs r q = IsValid r × (r.capacity ≡ suc cap) × (held r ≡ q)

  call-Related :
      (cap : ℕ) (c : Call A) (cs : List (Call A)) (r : RingBuffer A) (q : List A)
      → Related cap (c ∷ cs) r q
      → ((step ring c r).0 ≡ (step (lenient cap) c q).0)
        × Related cap cs (step ring c r).1 (step (lenient cap) c q).1
  call-Related cap (puts xs) cs r q (v, c, e) =
      let room : cap - length q ≡ r.capacity - 1 - fill r =
        omega (arith, c, sym (ap length e) ∙ held-length r) in
      rw (write_eq xs r v, room)
        (
          refl,
          (
            written-IsValid xs r v,
            c,
            held-written xs r v ∙ ap (λ ys. ys ++ take (count xs r v) xs) e,
          ),
        )
  call-Related cap (gets n) cs r q (v, c, e) = rw (read_eq n r v) (
    ap got (sym (take-span d r.capacity r.buffer r.tail n (fill r)) ∙ ap (λ ys. take n ys) e),
    (left-IsValid n r v, c, held-left n r v ∙ ap (λ ys. drop n ys) e),
  )

  -- A ring buffer of `cap + 1` places with both indices in range answers every sequence of writes
  -- and reads as the bounded first-in first-out queue of `cap` places that starts with what the
  -- buffer holds and takes as much of each write as fits.
  pub run-lenient :
      (cap : ℕ) (cs : List (Call A)) (r : RingBuffer A)
      → IsValid r
      → r.capacity ≡ suc cap
      → run ring cs r ≡ run (lenient cap) cs (held r)
  run-lenient cap cs r v c =
      run-simulates ring (lenient cap) (Related cap) (call-Related cap) cs r (held r) (v, c, refl)
