-- ===== src/Auth/Window.antt =====
-- The fixed window of the rate limiter, and which requests the middleware lets through.
use infer_platform.Base.{
  ℕ, suc, ◌+◌, ◌-◌, ◌^◌, ◌<◌, ◌≡◌, Bool, true, false, List, [], ◌∷◌, Text, Result, ok, err, ℤ,
}
use infer_platform.Auth.{Redis, check_and_increment}

-- The largest count that Redis holds.
abbrev pub max_count : ℕ
max_count = 2 ^ 63 - 1

module _ {S E : Type 0} (redis : Redis S E) (count : S → Text → ℕ) where
  -- `INCR` on a Redis that answers, below the largest count.
  abbrev pub IncrCounts : Type 0
  IncrCounts =
      (s : S) (key : Text)
      → count s key < max_count
      → (after : S) × (redis.incr s key ≡ (ok (suc (count s key)), after))
        × (count after key ≡ suc (count s key))

  -- `EXPIRE` on a Redis that answers: the count is there until the time has passed.
  abbrev pub ExpireKeeps : Type 0
  ExpireKeeps =
      (s : S) (key : Text) (seconds : ℕ)
      → (after : S) × (redis.expire s key seconds ≡ (ok tt, after))
        × (count after key ≡ count s key)

  abbrev one_if_ok : Result E Bool → ℕ
  one_if_ok (ok true) = 1
  one_if_ok (ok false) = 0
  one_if_ok (err e) = 0

  -- How many of the calls at the given times are allowed.
  unfoldable pub allowed : (times : List ℕ) → S → Text → ℤ → ℕ
  allowed [] s key_id rpm = 0
  allowed (now ∷ times) s key_id rpm =
      let (result, after) = check_and_increment redis now s key_id rpm in
      one_if_ok result + allowed times after key_id rpm
