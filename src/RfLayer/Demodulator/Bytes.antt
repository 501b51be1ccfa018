-- ===== src/RfLayer/Demodulator/Bytes.antt =====
-- The bytes that a stream of samples yields, against the bits that are decided.
use ground_core.Common.Tests.{
  ℕ, zero, suc, ◌+◌, ◌<◌, ◌≤◌, true, false, List, [], ◌∷◌, ◌++◌, Option, none, some, if◌then◌else◌,
  ◌≡◌, refl, sym, ap, ◌∙◌, arith, Bool-cases, inl, inr, lt→leb_false, le→leb, subst, ℕ_discrete,
}
use mathlib.Core.List.{append_assoc, append-nil}
use ground_core.Common.Lists.{length, All, All-append, length-append}
use ground_core.Common.Ring.{drop, take-all}
use ground_core.RfLayer.Floats.{Floats}
use ground_core.RfLayer.Sdr.{Sample}
use ground_core.RfLayer.Demodulator.Digits.{bytes_of, left_over, short_bytes, eight_bits}
use ground_core.RfLayer.Demodulator.{
  DemodState, process_sample, take_byte, decide, hard_decision, tracked, at_boundary, baseband_i,
  assemble, advance_clock, costas,
}

drop-all : (n : ℕ) (xs : List ℕ) → length xs ≤ n → drop n xs ≡ []
drop-all zero [] h = refl
drop-all zero (x ∷ xs) h = absurd (omega (arith, h))
drop-all (suc n) [] h = refl
drop-all (suc n) (x ∷ xs) h = drop-all n xs (omega (arith, h))

module _ (fl : Floats) where
  -- The bytes that a stream of samples yields, and the state after it.
  abbrev pub with_byte : Option ℕ → List ℕ → List ℕ
  with_byte none bytes = bytes
  with_byte (some byte) bytes = byte ∷ bytes

  unfoldable pub receive : List (Sample fl.F32) → DemodState fl → List ℕ × DemodState fl
  receive [] s = ([], s)
  receive (x ∷ xs) s =
      let (byte, s') = process_sample fl x s in
      let (bytes, s'') = receive xs s' in (with_byte byte bytes, s'')

  -- The bits that the code decides, one at each boundary of a symbol.
  unfoldable pub decided : List (Sample fl.F32) → DemodState fl → List ℕ
  decided [] s = []
  decided (x ∷ xs) s =
      let rest = decided xs (process_sample fl x s).1 in
      if at_boundary fl (tracked fl x s) then hard_decision fl (baseband_i fl x s) ∷ rest else rest

  -- Fewer than eight bits wait.
  pub record IsValid (s : DemodState fl) : Type 0 where
    pub bits : All (λ b. b ≤ 1) s.bit_buffer
    pub few : length s.bit_buffer < 8

  bits-IsValid :
      (s : DemodState fl) (bits : List ℕ)
      → s.bit_buffer ≡ bits
      → All (λ b. b ≤ 1) bits
      → length bits < 8
      → IsValid s
  bits-IsValid s bits e v h = record {
    bits = subst (λ bs. All (λ b. b ≤ 1) bs) (sym e) v;
    few = omega (arith, ap length e, h);
  }

  hard_decision_le : (y : fl.F64) → hard_decision fl y ≤ 1
  unfolding hard_decision
  hard_decision_le y = ground arith

  -- The bit buffer is touched by the decision and the byte only.
  tracked-bit_buffer :
      (x : Sample fl.F32) (s : DemodState fl) → (tracked fl x s).bit_buffer ≡ s.bit_buffer
  unfolding tracked advance_clock costas
  tracked-bit_buffer x s = refl

  take_few : (s : DemodState fl) → length s.bit_buffer < 8 → take_byte fl s ≡ (none, s)
  unfolding take_byte
  take_few s h = rw (lt→leb_false (length s.bit_buffer) 8 h) refl

  take_eight :
      (s : DemodState fl)
      → length s.bit_buffer ≡ 8
      → take_byte fl s ≡ (some (assemble 0 s.bit_buffer), record s { bit_buffer = [] })
  unfolding take_byte
  take_eight s h =
      rw
        (
          le→leb 8 (length s.bit_buffer) (omega (arith, h)),
          take-all 8 s.bit_buffer (omega (arith, h)),
          drop-all 8 s.bit_buffer (omega (arith, h)),
        )
        refl

  module _ (x : Sample fl.F32) (s : DemodState fl) where
    abbrev bit : ℕ
    bit = hard_decision fl (baseband_i fl x s)

    abbrev next_bits : List ℕ
    next_bits = s.bit_buffer ++ (bit ∷ [])

    abbrev decided_state : DemodState fl
    decided_state = decide fl (baseband_i fl x s) (tracked fl x s)

    decided_state-bit_buffer : decided_state.bit_buffer ≡ next_bits
    unfolding decide
    decided_state-bit_buffer = ap (λ bits. bits ++ (bit ∷ [])) (tracked-bit_buffer x s)

    process_inside :
        at_boundary fl (tracked fl x s) ≡ false → process_sample fl x s ≡ (none, tracked fl x s)
    unfolding process_sample
    process_inside e = rw e refl

    process_bit :
        at_boundary fl (tracked fl x s) ≡ true
        → length next_bits < 8
        → process_sample fl x s ≡ (none, decided_state)
    unfolding process_sample
    process_bit e h =
        rw e (take_few decided_state (omega (arith, h, ap length decided_state-bit_buffer)))

    process_byte :
        at_boundary fl (tracked fl x s) ≡ true
        → length next_bits ≡ 8
        → process_sample fl x s
          ≡ (some (assemble 0 next_bits), record decided_state { bit_buffer = [] })
    unfolding process_sample
    process_byte e h = rw e (
        take_eight decided_state (ap length decided_state-bit_buffer ∙ h)
        ∙ ap (λ bits. (some (assemble 0 bits), record decided_state { bit_buffer = [] }))
            decided_state-bit_buffer)

    length-next_bits : length next_bits ≡ length s.bit_buffer + 1
    length-next_bits = omega (arith, length-append s.bit_buffer (bit ∷ []))

    next_bits-All : All (λ b. b ≤ 1) s.bit_buffer → All (λ b. b ≤ 1) next_bits
    next_bits-All v =
        All-append (λ b. b ≤ 1) s.bit_buffer (bit ∷ []) v (hard_decision_le (baseband_i fl x s), tt)

  -- What a stream yields, from the bits that wait and those that are decided.
  abbrev pub Yields : List ℕ → List ℕ × DemodState fl → Type 0
  Yields bits (bytes, s) = (bytes ≡ bytes_of bits) × (s.bit_buffer ≡ left_over bits) × IsValid s

  -- From a state in which fewer than eight bits wait, a stream of samples yields the bytes whose
  -- binary digits are, eight by eight and the highest first, the bits that wait and then the bits
  -- that the code decides at the boundaries of symbols; the bits that are left over wait, again
  -- fewer than eight.
  pub receive_lem :
      (xs : List (Sample fl.F32)) (s : DemodState fl)
      → IsValid s
      → Yields (s.bit_buffer ++ decided xs s) (receive xs s)
  unfolding receive decided
  receive_lem [] s v =
      let short = short_bytes s.bit_buffer v.few in
      rw (append-nil s.bit_buffer) (sym short.0, sym short.1, v)
  receive_lem (x ∷ xs) s v = elim (Bool-cases (at_boundary fl (tracked fl x s))) [
    | inr inside ↦
        let s' = tracked fl x s in
        let e = tracked-bit_buffer x s in
        rw (inside, process_inside x s inside)
          (subst (λ bits. Yields (bits ++ decided xs s') (receive xs s')) e
            (receive_lem xs s' (bits-IsValid s' s.bit_buffer e v.bits v.few)))
    | inl there ↦ elim (ℕ_discrete (length (next_bits x s)) 8) [
      | no n ↦
          let few : length (next_bits x s) < 8 = omega (arith, n, v.few, length-next_bits x s) in
          let s' = decided_state x s in
          let e = decided_state-bit_buffer x s in
          rw (there, process_bit x s there few)
            (subst (λ bits. Yields bits (receive xs s'))
              (append_assoc s.bit_buffer (bit x s ∷ []) (decided xs s'))
              (subst (λ bits. Yields (bits ++ decided xs s') (receive xs s')) e
                (receive_lem xs s'
                  (bits-IsValid s' (next_bits x s) e (next_bits-All x s v.bits) few))))
      | yes eight ↦
          let s' : DemodState fl = record (decided_state x s) { bit_buffer = [] } in
          let ih = receive_lem xs s' (record { bits = tt; few = omega arith }) in
          let full = eight_bits (next_bits x s) (decided xs s') (next_bits-All x s v.bits) eight in
          rw (there, process_byte x s there eight)
            (subst
              (λ bits.
                Yields bits (assemble 0 (next_bits x s) ∷ (receive xs s').0, (receive xs s').1))
              (append_assoc s.bit_buffer (bit x s ∷ []) (decided xs s'))
              (
                ap (λ bytes. assemble 0 (next_bits x s) ∷ bytes) ih.0 ∙ sym full.0,
                ih.1 ∙ sym full.1,
                ih.2,
              ))
    ]
  ]
