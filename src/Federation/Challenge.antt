-- ===== src/Federation/Challenge.antt =====
-- federation/src/verification.rs: the schedule of challenge passes, and the records in it.
use Prim.Native.String.{String}
use ground_core.Common.Tests.{ℕ, ltb, Bool, not, List, [], ◌∷◌, ◌++◌, Option, ◌&&◌}
use ground_core.Common.Lists.{filter}
use ground_core.Federation.Floats.{Floats}

module _ (fl : Floats) where
  pub record AttestationVerification : Type 0 where
    pub pass_id : String
    pub local_capture : Option String
    pub peer_capture : String
    pub bytewise_match_rate : fl.F64
    pub bitemporal_consistency : Bool
    pub passed : Bool
    pub details : String

  pub record ChallengeResult : Type 0 where
    pub peer_id : String
    pub verification : AttestationVerification
    pub trust_delta : fl.F64

  pub record ChallengePass : Type 0 where
    pub pass_id : String
    pub satellite_id : String
    pub scheduled_time : ℕ
    pub peers_to_verify : List String
    pub completed : Bool
    pub results : List ChallengeResult

  pub record ChallengeSchedule : Type 0 where
    pub challenges : List ChallengePass
    pub interval_hours : ℕ

  unfoldable pub new_schedule : ChallengeSchedule
  new_schedule = record { challenges = []; interval_hours = 24 }

  unfoldable pub add_challenge : ChallengePass → ChallengeSchedule → ChallengeSchedule
  add_challenge challenge s = record s { challenges = s.challenges ++ (challenge ∷ []) }

  -- `now` stands for the readings of the clock.
  unfoldable pub pending_challenges : ℕ → ChallengeSchedule → List ChallengePass
  pending_challenges now s = filter (λ c. not c.completed && ltb now c.scheduled_time) s.challenges

  unfoldable pub overdue_challenges : ℕ → ChallengeSchedule → List ChallengePass
  overdue_challenges now s = filter (λ c. not c.completed && ltb c.scheduled_time now) s.challenges
