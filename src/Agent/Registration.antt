-- ===== src/Agent/Registration.antt =====
-- crates/node-agent/src/registration.rs: the loop that keeps a node registered. One round takes the
-- outcome of the POST to the gateway; the payload and the sleeping itself are left out.
use infer_platform.Base.{ℕ, ◌*◌, ◌≤◌, min, Bool, true, false, List, [], ◌∷◌, arith}

pub data Attempt : Type 0 where
  accepted rejected failed : Attempt

-- What the loop carries: the next wait after a failure, and what `/health` reports.
pub record Loop : Type 0 where
  pub backoff_secs : ℕ
  pub registration_ok : Bool

abbrev pub started : Loop
started = record { backoff_secs = 2; registration_ok = false }

abbrev pub failure : Loop → Loop × ℕ
failure loop = (
  record { backoff_secs = min (loop.backoff_secs * 2) 120; registration_ok = false },
  loop.backoff_secs,
)

-- The state after a round and the seconds that the round sleeps.
unfoldable pub round : Loop → Attempt → Loop × ℕ
round loop accepted = (record { backoff_secs = 2; registration_ok = true }, 30)
round loop rejected = failure loop
round loop failed = failure loop

unfoldable pub rounds : Loop → List Attempt → Loop
unfolding round
rounds loop [] = loop
rounds loop (a ∷ more) = rounds (round loop a).0 more

abbrev pub IsBounded : Loop → Type 0
IsBounded loop = (2 ≤ loop.backoff_secs) × (loop.backoff_secs ≤ 120)

round-IsBounded : (loop : Loop) (a : Attempt) → IsBounded loop → IsBounded (round loop a).0
unfolding round
round-IsBounded loop accepted h = (omega arith, omega arith)
round-IsBounded loop rejected h = ground (arith, h.0, h.1)
round-IsBounded loop failed h = ground (arith, h.0, h.1)

-- Whatever the outcomes, a wait between 2 and 120 seconds stays in these bounds; the loop starts
-- with 2.
pub rounds-IsBounded :
    (attempts : List Attempt) (loop : Loop) → IsBounded loop → IsBounded (rounds loop attempts)
unfolding rounds
rounds-IsBounded [] loop h = h
rounds-IsBounded (a ∷ more) loop h =
    rounds-IsBounded more (round loop a).0 (round-IsBounded loop a h)
