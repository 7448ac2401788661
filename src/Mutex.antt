-- ===== src/Mutex.antt =====
-- src/utils/mutex.ts: the mutex that hands the lock to the next waiter. A waiter is the number of its
-- promise, and to call its `resolve` is to list it among those resolved.
pub mod Order
mod Examples
use p2party_js.Base.{
  ℕ, ◌+◌, Bool, true, false, not, ◌&&◌, ◌==◌, Option, none, some, List, [], ◌∷◌, ◌++◌, length,
  if◌then◌else◌,
}

pub record AsyncMutex : Type 0 where
  pub queue : List ℕ
  pub locked : Bool
  pub idle_waiters : List ℕ

abbrev pub new_mutex : AsyncMutex
new_mutex = record { queue = []; locked = false; idle_waiters = [] }

-- The promises that a call resolves at once, or later than those before.
unfoldable pub acquire : ℕ → AsyncMutex → AsyncMutex × List ℕ
acquire waiter m =
    if not m.locked
    then (record m { locked = true }, waiter ∷ [])
    else (record m { queue = m.queue ++ waiter ∷ [] }, [])

unfoldable pub release : AsyncMutex → AsyncMutex × List ℕ
release m = elim m.queue [
  | next ∷ queue ↦ (record m { queue = queue }, next ∷ [])
  | [] ↦ (record m { locked = false; idle_waiters = [] }, m.idle_waiters)
]

unfoldable pub is_idle : AsyncMutex → Bool
is_idle m = not m.locked && length m.queue == 0

unfoldable pub when_idle : ℕ → AsyncMutex → AsyncMutex × List ℕ
unfolding is_idle
when_idle waiter m =
    if is_idle m
    then (m, waiter ∷ [])
    else (record m { idle_waiters = m.idle_waiters ++ waiter ∷ [] }, [])
