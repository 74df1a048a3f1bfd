-- ===== src/Service/Queue.antt =====
-- `MessageQueue` of shared/messagequeue/messagequeue.go over a Redis stream. Redis is what it answers:
-- the claim of messages that are idle, and the read of new ones.
use platform_relayer.Common.{ℕ, ◌-◌, List, [], ◌++◌, Option, none, some, leb, length, if◌then◌else◌}
use platform_relayer.Errors.{Result, ok, err}

-- What Redis answers for a count; a read that meets its block time has no answer.
pub record Redis (M : Type 0) : Type 0 where
  pub auto_claim : ℕ → Result (List M)
  pub read_group : ℕ → Result (Option (List M))

-- `Claim`
abbrev pub claim : {M : Type 0} → Redis M → ℕ → Result (List M)
claim redis count = redis.auto_claim count

-- `Pop` after the read.
unfoldable pub appended : {M : Type 0} → List M → Result (Option (List M)) → Result (List M)
appended messages (ok (some new)) = ok (messages ++ new)
appended messages (ok none) = ok []
appended messages (err e) = err e

-- `Pop` after the claim.
unfoldable pub filled : {M : Type 0} → Redis M → ℕ → Result (List M) → Result (List M)
unfolding appended
filled redis count (err e) = err e
filled redis count (ok messages) =
    if leb count (length messages)
    then ok messages
    else appended messages (redis.read_group (count - length messages))

-- `Pop`
unfoldable pub pop : {M : Type 0} → Redis M → ℕ → Result (List M)
unfolding filled
pop redis count = filled redis count (claim redis count)
