-- ===== src/Async.antt =====
-- src/async_lifecycle.rs: the identifiers of asynchronous requests and the one request that a tab
-- waits for. The cancellation token is an atomic flag, that is set and never cleared.
pub mod Requests
use zorya.Common.{
  ℕ, Bool, true, false, not, Option, none, some, ◌==◌, ◌&&◌, is_some, checked_add, if◌then◌else◌,
  Call, ◌>>=◌, ◌>>◌, pure, raise, gets, modify, raise_if,
}

pub record AsyncTarget : Type 0 where
  pub request : ℕ
  pub window : ℕ
  pub tab : ℕ

pub data AsyncLifecycleError : Type 0 where
  request_id_exhausted : AsyncLifecycleError
  request_already_pending : (current attempted : AsyncTarget) → AsyncLifecycleError

-- `next` is 0 once the identifiers are used up.
pub record AsyncRequestSequence : Type 0 where
  pub next : ℕ

unfoldable pub new : AsyncRequestSequence
new = record { next = 1 }

abbrev pub unwrap_or_zero : Option ℕ → ℕ
unwrap_or_zero none = 0
unwrap_or_zero (some n) = n

unfoldable pub allocate : ℕ → ℕ → Call AsyncRequestSequence AsyncLifecycleError AsyncTarget
allocate window tab = do
  request ← gets (λ s. s.next)
  raise_if (request == 0) request_id_exhausted
  modify (λ s. record { next = unwrap_or_zero (checked_add request 1) })
  pure (record { request = request; window = window; tab = tab })

pub record PendingRequest : Type 0 where
  pub current : Option AsyncTarget

-- The derived `==` on targets.
abbrev pub same_target : AsyncTarget → AsyncTarget → Bool
same_target a b = a.request == b.request && (a.window == b.window && a.tab == b.tab)

unfoldable pub is_pending : PendingRequest → Bool
is_pending p = is_some p.current

abbrev pub is_target : Option AsyncTarget → AsyncTarget → Bool
is_target none target = false
is_target (some current) target = same_target current target

unfoldable pub is_current : PendingRequest → AsyncTarget → Bool
is_current p target = is_target p.current target

abbrev pub reject_current :
    AsyncTarget → Option AsyncTarget → Call PendingRequest AsyncLifecycleError (Unit {0})
reject_current target none = pure tt
reject_current target (some current) = raise (request_already_pending current target)

unfoldable pub begin : AsyncTarget → Call PendingRequest AsyncLifecycleError (Unit {0})
begin target = do
  current ← gets (λ p. p.current)
  reject_current target current
  modify (λ p. record { current = some target })

unfoldable pub complete_if_current : PendingRequest → AsyncTarget → Bool × PendingRequest
unfolding is_current
complete_if_current p target =
    if is_current p target then (true, record { current = none }) else (false, p)

unfoldable pub invalidate : PendingRequest → PendingRequest
invalidate p = record { current = none }
