-- ===== src/Common/Fifo.antt =====
-- Queues that take and give several elements in one call: the calls and their answers, the bounded
-- queue as a list, and what it takes to tell two queues apart.
use ground_core.Common.Tests.{ℕ, ◌-◌, min, ltb, List, [], ◌∷◌, ◌++◌, if◌then◌else◌, ◌≡◌, refl, ap₂}
use ground_core.Common.Lists.{length, take}
use ground_core.Common.Ring.{drop}

pub data Call {ℓ} (A : Type ℓ) : Type ℓ where
  puts : List A → Call A
  gets : ℕ → Call A

pub data Answer {ℓ} (A : Type ℓ) : Type ℓ where
  wrote : ℕ → Answer A
  overflows : Answer A
  got : List A → Answer A

pub record Queue {ℓ} (A : Type ℓ) : Type (ℓ + 1) where
  pub State : Type ℓ
  pub put : List A → State → Answer A × State
  pub get : ℕ → State → Answer A × State

module _ {ℓ} {A : Type ℓ} where
  abbrev pub step : (q : Queue A) → Call A → q.State → Answer A × q.State
  step q (puts xs) s = q.put xs s
  step q (gets n) s = q.get n s

  unfoldable pub run : (q : Queue A) → List (Call A) → q.State → List (Answer A)
  run q [] s = []
  run q (c ∷ cs) s = let (a, s') = step q c s in a ∷ run q cs s'

  -- The list of at most `cap` elements that takes a list as a whole or not at all.
  abbrev pub strict : ℕ → Queue A
  strict cap = record {
    State = List A;
    put = λ xs q.
        if ltb (cap - length q) (length xs) then (overflows, q) else (wrote (length xs), q ++ xs);
    get = λ n q. (got (take n q), drop n q);
  }

  -- The list of at most `cap` elements that takes as many as fit.
  abbrev pub lenient : ℕ → Queue A
  lenient cap = record {
    State = List A;
    put = λ xs q. let n = min (length xs) (cap - length q) in (wrote n, q ++ take n xs);
    get = λ n q. (got (take n q), drop n q);
  }

  -- A relation of the states, before given calls, that each call keeps while it gives the same
  -- answer, makes the runs equal.
  pub run-simulates {κ} :
      (p q : Queue A) (R : List (Call A) → p.State → q.State → Type κ)
      → ((c : Call A) (cs : List (Call A)) (s : p.State) (t : q.State)
          → R (c ∷ cs) s t
          → ((step p c s).0 ≡ (step q c t).0) × R cs (step p c s).1 (step q c t).1)
      → (cs : List (Call A)) (s : p.State) (t : q.State) → R cs s t
      → run p cs s ≡ run q cs t
  unfolding run
  run-simulates p q R keeps [] s t r = refl
  run-simulates p q R keeps (c ∷ cs) s t r =
      let (same, r') = keeps c cs s t r in
      ap₂ ◌∷◌ same (run-simulates p q R keeps cs (step p c s).1 (step q c t).1 r')
