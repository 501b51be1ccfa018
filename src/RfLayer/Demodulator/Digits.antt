-- ===== src/RfLayer/Demodulator/Digits.antt =====
-- Bytes as eight binary digits, and the assembly of a byte in the code.
use ground_core.Common.Tests.{
  ℕ, zero, suc, ◌+◌, ◌*◌, ◌/◌, ◌<◌, ◌≤◌, ◌==◌, Bool, true, ◌&&◌, List, [], ◌∷◌, ◌++◌, ◌≡◌, refl,
  sym, ap, arith,
}
use ground_core.Common.Lists.{length, All}
use ground_core.RfLayer.Demodulator.{shift_in, assemble}

-- The number with these binary digits, the first being the highest.
abbrev pub number : ℕ → List ℕ → ℕ
number n [] = n
number n (b ∷ bits) = number (2 * n + b) bits

-- One byte for each eight bits, and the bits that are left.
abbrev pub bytes_of : List ℕ → List ℕ
bytes_of (a ∷ b ∷ c ∷ d ∷ e ∷ f ∷ g ∷ h ∷ bits) =
    number 0 (a ∷ b ∷ c ∷ d ∷ e ∷ f ∷ g ∷ h ∷ []) ∷ bytes_of bits
bytes_of _ = []

abbrev pub left_over : List ℕ → List ℕ
left_over (a ∷ b ∷ c ∷ d ∷ e ∷ f ∷ g ∷ h ∷ bits) = left_over bits
left_over bits = bits

pub short_bytes : (bits : List ℕ) → length bits < 8 → (bytes_of bits ≡ []) × (left_over bits ≡ bits)
short_bytes [] h = (refl, refl)
short_bytes (a ∷ []) h = (refl, refl)
short_bytes (a ∷ b ∷ []) h = (refl, refl)
short_bytes (a ∷ b ∷ c ∷ []) h = (refl, refl)
short_bytes (a ∷ b ∷ c ∷ d ∷ []) h = (refl, refl)
short_bytes (a ∷ b ∷ c ∷ d ∷ e ∷ []) h = (refl, refl)
short_bytes (a ∷ b ∷ c ∷ d ∷ e ∷ f ∷ []) h = (refl, refl)
short_bytes (a ∷ b ∷ c ∷ d ∷ e ∷ f ∷ g ∷ []) h = (refl, refl)
short_bytes (a ∷ b ∷ c ∷ d ∷ e ∷ f ∷ g ∷ i ∷ bits) h = absurd (omega (arith, h))

-- A check of every value below a bound.
all_below : ℕ → (ℕ → Bool) → Bool
all_below zero p = true
all_below (suc n) p = p n && all_below n p

all_below-get : (n : ℕ) (p : ℕ → Bool) (x : ℕ) → all_below n p ≡ true → x < n → p x ≡ true
unfolding all_below
all_below-get zero p x h lt = absurd (omega arith)
all_below-get (suc n) p x h lt = ground (arith, all_below-get n p x)

shift_table : all_below 128 (λ m. shift_in m 0 == 2 * m && shift_in m 1 == 2 * m + 1) ≡ true
unfolding all_below shift_in
shift_table = refl

shift_in_lem : (acc b : ℕ) → acc < 128 → b ≤ 1 → shift_in acc b ≡ 2 * acc + b
shift_in_lem acc zero h k = ground (
  arith,
  all_below-get 128 (λ m. shift_in m 0 == 2 * m && shift_in m 1 == 2 * m + 1) acc shift_table h,
)
shift_in_lem acc (suc zero) h k = ground (
  arith,
  all_below-get 128 (λ m. shift_in m 0 == 2 * m && shift_in m 1 == 2 * m + 1) acc shift_table h,
)
shift_in_lem acc (suc (suc b)) h k = absurd (omega arith)

-- The numbers that these further bits do not make overflow.
abbrev room : List ℕ → ℕ
room [] = 256
room (b ∷ bits) = room bits / 2

room_le : (bits : List ℕ) → room bits ≤ 256
room_le [] = omega arith
room_le (b ∷ bits) = omega (arith, room_le bits)

assemble-number :
    (acc : ℕ) (bits : List ℕ)
    → All (λ b. b ≤ 1) bits
    → acc < room bits
    → assemble acc bits ≡ number acc bits
unfolding assemble
assemble-number acc [] v h = refl
assemble-number acc (b ∷ bits) v h =
    rw (shift_in_lem acc b (omega (arith, room_le bits, h)) v.0)
      (assemble-number (2 * acc + b) bits v.1 (omega (arith, h, v.0)))

-- Eight bits make one byte, in the specification and in the code.
pub eight_bits :
    (bits rest : List ℕ)
    → All (λ b. b ≤ 1) bits
    → length bits ≡ 8
    → (bytes_of (bits ++ rest) ≡ assemble 0 bits ∷ bytes_of rest)
      × (left_over (bits ++ rest) ≡ left_over rest)
eight_bits (a ∷ b ∷ c ∷ d ∷ e ∷ f ∷ g ∷ i ∷ []) rest v h = (
  ap (λ n. n ∷ bytes_of rest)
      (sym (assemble-number 0 (a ∷ b ∷ c ∷ d ∷ e ∷ f ∷ g ∷ i ∷ []) v (omega arith))),
  refl,
)
eight_bits [] rest v h = absurd (omega (arith, h))
eight_bits (a ∷ []) rest v h = absurd (omega (arith, h))
eight_bits (a ∷ b ∷ []) rest v h = absurd (omega (arith, h))
eight_bits (a ∷ b ∷ c ∷ []) rest v h = absurd (omega (arith, h))
eight_bits (a ∷ b ∷ c ∷ d ∷ []) rest v h = absurd (omega (arith, h))
eight_bits (a ∷ b ∷ c ∷ d ∷ e ∷ []) rest v h = absurd (omega (arith, h))
eight_bits (a ∷ b ∷ c ∷ d ∷ e ∷ f ∷ []) rest v h = absurd (omega (arith, h))
eight_bits (a ∷ b ∷ c ∷ d ∷ e ∷ f ∷ g ∷ []) rest v h = absurd (omega (arith, h))
eight_bits (a ∷ b ∷ c ∷ d ∷ e ∷ f ∷ g ∷ i ∷ j ∷ bits) rest v h = absurd (omega (arith, h))
