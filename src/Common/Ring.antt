-- ===== src/Common/Ring.antt =====
-- Storage that is used round and round, and the loops of the two ring buffers on it: what stands on `n` places from a position on, and a loop
-- that writes a list there. A position is counted on for ever; its place is the remainder.
use native.Mathlib.Nat.{mod-lt, mod-add-mod, mod-eq_of_lt, mod-eq-sub-mod}
use mathlib.Core.List.{append-nil, append_assoc}
use ground_core.Common.Tests.{
  ℕ, zero, suc, ◌+◌, ◌-◌, ◌%◌, ◌≤◌, ◌<◌, min, ◌≡◌, ◌≢◌, refl, ap, ◌∙◌, List, [], ◌∷◌, ◌++◌, arith,
  sym, dec_lt, ap₂, ◌⊎◌, inl, inr, u64_mod,
}
use ground_core.Common.Lists.{length, take}

module _ {ℓ} {A : Type ℓ} where
  -- An index out of range yields the last argument; the theorems on rings rule it out.
  abbrev pub get_or : List A → ℕ → A → A
  get_or [] i d = d
  get_or (x ∷ xs) zero d = x
  get_or (x ∷ xs) (suc i) d = get_or xs i d

  abbrev pub set : List A → ℕ → A → List A
  set [] i v = []
  set (x ∷ xs) zero v = v ∷ xs
  set (x ∷ xs) (suc i) v = x ∷ set xs i v

  abbrev pub drop : ℕ → List A → List A
  drop zero xs = xs
  drop (suc n) [] = []
  drop (suc n) (x ∷ xs) = drop n xs

  pub length-set : (xs : List A) (i : ℕ) (v : A) → length (set xs i v) ≡ length xs
  length-set [] i v = refl
  length-set (x ∷ xs) zero v = refl
  length-set (x ∷ xs) (suc i) v = ap suc (length-set xs i v)

  get_or-set_same : (xs : List A) (i : ℕ) (v d : A) → i < length xs → get_or (set xs i v) i d ≡ v
  get_or-set_same [] i v d h = absurd (omega arith)
  get_or-set_same (x ∷ xs) zero v d h = refl
  get_or-set_same (x ∷ xs) (suc i) v d h = get_or-set_same xs i v d (omega arith)

  get_or-set_other :
      (xs : List A) (i j : ℕ) (v d : A) → i ≢ j → get_or (set xs i v) j d ≡ get_or xs j d
  get_or-set_other [] i j v d h = refl
  get_or-set_other (x ∷ xs) zero zero v d h = absurd (h refl)
  get_or-set_other (x ∷ xs) zero (suc j) v d h = refl
  get_or-set_other (x ∷ xs) (suc i) zero v d h = refl
  get_or-set_other (x ∷ xs) (suc i) (suc j) v d h = get_or-set_other xs i j v d (λ e. h (ap suc e))

  pub length-take : (n : ℕ) (xs : List A) → n ≤ length xs → length (take n xs) ≡ n
  length-take zero xs h = refl
  length-take (suc n) [] h = absurd (omega arith)
  length-take (suc n) (x ∷ xs) h = ap suc (length-take n xs (omega arith))

  pub take-all : (n : ℕ) (xs : List A) → length xs ≤ n → take n xs ≡ xs
  take-all zero [] h = refl
  take-all zero (x ∷ xs) h = absurd (omega arith)
  take-all (suc n) [] h = refl
  take-all (suc n) (x ∷ xs) h = ap (λ ys. x ∷ ys) (take-all n xs (omega arith))

  module _ (d : A) (cap : ℕ) where
    -- What stands on the `n` places from a position on.
    unfoldable pub span : List A → ℕ → ℕ → List A
    span buf at zero = []
    span buf at (suc n) = get_or buf (at % cap) d ∷ span buf (at + 1) n

    pub length-span : (buf : List A) (at n : ℕ) → length (span buf at n) ≡ n
    unfolding span
    length-span buf at zero = refl
    length-span buf at (suc n) = ap suc (length-span buf (at + 1) n)

    pub take-span : (buf : List A) (at k n : ℕ) → take k (span buf at n) ≡ span buf at (min k n)
    unfolding span
    take-span buf at zero n = ap (λ m. span buf at m) {x = 0} (omega arith)
    take-span buf at (suc k) zero = ap (λ m. span buf at m) {x = 0} (omega arith)
    take-span buf at (suc k) (suc n) =
        ap (λ xs. get_or buf (at % cap) d ∷ xs) (take-span buf (at + 1) k n)
        ∙ ap (λ m. span buf at m) {x = suc (min k n)} (omega arith)

    pub drop-span :
        (buf : List A) (at k n : ℕ) → drop k (span buf at n) ≡ span buf (at + min k n) (n - min k n)
    unfolding span
    drop-span buf at zero n = ap₂ (λ a m. span buf a m) {x = at} {u = n} (omega arith) (omega arith)
    drop-span buf at (suc k) zero =
        ap₂ (λ a m. span buf a m) {x = at} {u = 0} (omega arith) (omega arith)
    drop-span buf at (suc k) (suc n) =
        drop-span buf (at + 1) k n ∙ ap₂ (λ a m. span buf a m) (omega arith) (omega arith)

    -- Positions with the same place have the same places after them.
    pub span_cong : (buf : List A) (a b n : ℕ) → a % cap ≡ b % cap → span buf a n ≡ span buf b n
    unfolding span
    span_cong buf a b zero h = refl
    span_cong buf a b (suc n) h =
        ap₂ (λ i xs. get_or buf i d ∷ xs) h
          (span_cong buf (a + 1) (b + 1) n
            (sym (mod-add-mod a cap 1) ∙ ap (λ r. (r + 1) % cap) h ∙ mod-add-mod b cap 1))

    -- Fewer than `cap` positions on stands another place.
    place-ne : (at k : ℕ) → 0 < k → k < cap → (at + k) % cap ≢ at % cap
    place-ne at k hk hc e = around (at % cap) (mod-lt at (omega arith)) (mod-add-mod at cap k ∙ e)
      where
        around : (r : ℕ) → r < cap → (r + k) % cap ≢ r
        around r hr e = elim (dec_lt (r + k) cap) [
          | yes p ↦ omega (arith, mod-eq_of_lt p, e)
          | no p ↦ omega (
            arith,
            e,
            mod-eq-sub-mod {n = r + k} {m = cap} (omega arith),
            mod-eq_of_lt {n = r + k - cap} {m = cap} (omega arith),
          )
        ]

    span-set :
        (buf : List A) (at n i : ℕ) (x : A)
        → cap ≤ length buf
        → n < cap
        → i ≡ (at + n) % cap
        → span (set buf i x) at (suc n) ≡ span buf at n ++ (x ∷ [])
    unfolding span
    span-set buf at zero i x hb hn e =
        ap (λ y. y ∷ [])
          (ap (λ j. get_or (set buf i x) j d) (ap (λ a. a % cap) (omega arith) ∙ sym e)
            ∙ get_or-set_same buf i x d (omega (arith, e, mod-lt (at + 0) {m = cap} (omega arith))))
    span-set buf at (suc n) i x hb hn e =
        ap₂ ◌∷◌
          (get_or-set_other buf i (at % cap) x d
            (λ h. place-ne at (suc n) (omega arith) hn (sym e ∙ h)))
          (span-set buf (at + 1) n i x hb (omega arith) (e ∙ ap (λ a. a % cap) (omega arith)))

  -- A loop that writes the list to the places from a position on.
  unfoldable pub write_all : ℕ → List A → ℕ → List A → List A
  write_all cap buf at [] = buf
  write_all cap buf at (x ∷ xs) = write_all cap (set buf (at % cap) x) (at + 1) xs

  pub length-write_all :
      (cap : ℕ) (buf : List A) (at : ℕ) (xs : List A)
      → length (write_all cap buf at xs) ≡ length buf
  unfolding write_all
  length-write_all cap buf at [] = refl
  length-write_all cap buf at (x ∷ xs) =
      length-write_all cap (set buf (at % cap) x) (at + 1) xs ∙ length-set buf (at % cap) x

  -- The loop adds its list behind the `n` elements that stand before it, if there is room.
  pub span-write_all :
      (d : A) (cap : ℕ) (buf : List A) (at n : ℕ) (xs : List A)
      → cap ≤ length buf
      → n + length xs ≤ cap
      → span d cap (write_all cap buf (at + n) xs) at (n + length xs) ≡ span d cap buf at n ++ xs
  unfolding write_all
  span-write_all d cap buf at n [] hb h =
      ap (λ m. span d cap buf at m) (omega arith) ∙ sym (append-nil (span d cap buf at n))
  span-write_all d cap buf at n (x ∷ xs) hb h =
      let buf' = set buf ((at + n) % cap) x in
      ap₂ (λ p m. span d cap (write_all cap buf' p xs) at m) (omega arith) (omega arith)
      ∙ span-write_all d cap buf' at (suc n) xs (omega (arith, length-set buf ((at + n) % cap) x))
          (omega arith)
      ∙ ap (λ ys. ys ++ xs) (span-set d cap buf at n ((at + n) % cap) x hb (omega arith) refl)
      ∙ append_assoc (span d cap buf at n) (x ∷ []) xs

module _ {ℓ} {A : Type ℓ} (cap : ℕ) where
  -- The loop goes by the places only.
  pub write_all_cong :
      (buf : List A) (a b : ℕ) (xs : List A)
      → a % cap ≡ b % cap
      → write_all cap buf a xs ≡ write_all cap buf b xs
  unfolding write_all
  write_all_cong buf a b [] h = refl
  write_all_cong buf a b (x ∷ xs) h =
      write_all_cong (set buf (a % cap) x) (a + 1) (b + 1) xs
        (sym (mod-add-mod a cap 1) ∙ ap (λ r. (r + 1) % cap) h ∙ mod-add-mod b cap 1)
      ∙ ap (λ i. write_all cap (set buf i x) (b + 1) xs) h

-- A remainder once round at most.
pub mod-cases : (x m : ℕ) → x < m + m → ((x < m) × (x % m ≡ x)) ⊎ ((m ≤ x) × (x % m ≡ x - m))
mod-cases x m h = elim (dec_lt x m) [
  | yes p ↦ inl (p, mod-eq_of_lt p)
  | no p ↦ inr (
    omega arith,
    mod-eq-sub-mod {n = x} {m = m} (omega arith) ∙ mod-eq_of_lt {n = x - m} {m = m} (omega arith),
  )
]

-- `((position + i) % capacity) as usize`, where the sum wraps.
abbrev pub place : ℕ → ℕ → ℕ
place capacity position = position % u64_mod % capacity

module _ {ℓ} {A : Type ℓ} where
  -- The loop of `write` from position `at` on.
  unfoldable pub write_loop : ℕ → List A → ℕ → List A → List A
  write_loop capacity buffer at [] = buffer
  write_loop capacity buffer at (x ∷ xs) =
      write_loop capacity (set buffer (place capacity at) x) (at + 1) xs

  -- The loop of `read`, which puts `count` samples in front of the caller's buffer. The first
  -- argument is what a read out of range would yield.
  unfoldable pub read_loop : A → ℕ → List A → ℕ → ℕ → List A
  read_loop d capacity buffer at zero = []
  read_loop d capacity buffer at (suc n) =
      get_or buffer (place capacity at) d ∷ read_loop d capacity buffer (at + 1) n

  pub write_loop_lem :
      (cap : ℕ) (buf : List A) (at : ℕ) (xs : List A)
      → at + length xs < u64_mod
      → write_loop cap buf at xs ≡ write_all cap buf at xs
  unfolding write_loop write_all
  write_loop_lem cap buf at [] h = refl
  write_loop_lem cap buf at (x ∷ xs) h =
      rw (mod-eq_of_lt {n = at} {m = u64_mod} (omega arith))
        (write_loop_lem cap (set buf (at % cap) x) (at + 1) xs (omega arith))

  pub read_loop_lem :
      (d : A) (cap : ℕ) (buf : List A) (at n : ℕ)
      → at + n < u64_mod
      → read_loop d cap buf at n ≡ span d cap buf at n
  unfolding read_loop span
  read_loop_lem d cap buf at zero h = refl
  read_loop_lem d cap buf at (suc n) h =
      rw (mod-eq_of_lt {n = at} {m = u64_mod} (omega arith))
        (ap (λ xs. get_or buf (at % cap) d ∷ xs) (read_loop_lem d cap buf (at + 1) n (omega arith)))
