-- ===== src/Uplink/Command/Valid.antt =====
-- Which commands validate, and which verdicts a validation result can hold.
use Prim.Native.String.{String}
use ground_core.Common.Tests.{
  ◌≤◌, ◌<◌, true, false, List, [], ◌∷◌, ◌++◌, ◌≡◌, ◌≢◌, ◌↔◌, ◌⊎◌, inl, inr, refl, arith,
  String_discrete, Bool-cases,
}
use ground_core.Common.Lists.{length, All, contains}
use ground_core.Common.Result.{ok, err}
use ground_core.Uplink.Command.{
  Command, ValidationResult, check_capabilities, validate, lacks_capability, new_result, add_error,
  add_warning,
}

-- What validation demands.
abbrev pub IsValid : List String → Command → Type 0
IsValid caps c =
    All (λ r. contains String_discrete caps r ≡ true) c.required_capabilities
    × (0 < length c.payload)
    × (length c.payload ≤ 65536)
    × (0 < length c.auth_token)

check_capabilities-cases :
    (caps required : List String)
    → ((check_capabilities caps required ≡ ok tt)
        × All (λ r. contains String_discrete caps r ≡ true) required)
      ⊎ ((r : String) × (check_capabilities caps required ≡ err (lacks_capability r))
          × (contains String_discrete required r ≡ true)
          × (contains String_discrete caps r ≡ false)
          × (¬ All (λ r. contains String_discrete caps r ≡ true) required))
unfolding check_capabilities
check_capabilities-cases caps [] = inl (refl, tt)
check_capabilities-cases caps (x ∷ xs) = elim (Bool-cases (contains String_discrete caps x)) [
  | inl y ↦ elim (check_capabilities-cases caps xs) [
    | inl (e, a) ↦ inl (ground arith, (y, a))
    | inr (r, e, i, n, m) ↦ inr (r, ground arith, ground arith, n, λ a. m a.1)
  ]
  | inr n ↦ inr (x, ground arith, ground arith, n, λ a. ground arith)
]

-- The checks behind the loop, on the two byte strings.
validate-cases :
    (caps : List String) (c : Command)
    → check_capabilities caps c.required_capabilities ≡ ok tt
    → (validate caps c ≡ ok tt)
      ↔ ((0 < length c.payload) × (length c.payload ≤ 65536) × (0 < length c.auth_token))
unfolding validate
validate-cases caps c e = (λ h. ground arith, λ h. ground arith)

-- `validate` accepts a command exactly if the satellite has every capability that the command
-- requires, the payload has between 1 and 65536 bytes, and the token is not empty; and it names a
-- capability as lacking only if the command requires it and the satellite lacks it.
validate_ok_iff :
    (caps : List String) (c : Command)
    → ((validate caps c ≡ ok tt) ↔ IsValid caps c)
      × ((r : String)
          → validate caps c ≡ err (lacks_capability r)
          → (contains String_discrete c.required_capabilities r ≡ true)
            × (contains String_discrete caps r ≡ false))
validate_ok_iff caps c = elim (check_capabilities-cases caps c.required_capabilities) [
  | inl (e, a) ↦
      let (to, from) = validate-cases caps c e in
      (
        (λ h. let (x, y, z) = to h in (a, x, y, z), λ v. from (v.1, v.2, v.3)),
        λ r h. absurd (unfold validate in ground arith),
      )
  | inr (r, e, i, n, m) ↦ (
    (λ h. absurd (unfold validate in ground arith), λ v. absurd (m v.0)),
    λ s h. unfold validate in ground arith,
  )
]

-- What can be done to a validation result.
pub data Note : Type 0 where
  error warning : String → Note

unfoldable pub note : Note → ValidationResult → ValidationResult
note (error s) r = add_error s r
note (warning s) r = add_warning s r

-- The latest at the head.
unfoldable pub noted : List Note → ValidationResult
noted [] = new_result
noted (n ∷ ns) = note n (noted ns)

append_ne_nil : (xs : List String) (x : String) → xs ++ x ∷ [] ≢ []
append_ne_nil [] x = λ h. cc
append_ne_nil (y ∷ ys) x = λ h. cc

-- However errors and warnings are added to a new validation result, it says valid exactly if it
-- holds no error.
noted_valid_iff : (ns : List Note) → ((noted ns).is_valid ≡ true) ↔ ((noted ns).errors ≡ [])
unfolding noted note add_error add_warning new_result
noted_valid_iff [] = (λ h. refl, λ h. refl)
noted_valid_iff (error s ∷ ns) = (λ h. cc, λ h. absurd (append_ne_nil (noted ns).errors s h))
noted_valid_iff (warning s ∷ ns) = noted_valid_iff ns
