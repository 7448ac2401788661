-- ===== src/Mutex/Examples.antt =====
-- Three clients of a mutex.
use p2party_js.Base.{refl, true, [], ◌∷◌}
use p2party_js.Mutex.Order.{acquires, releases, waits, Run, run, IsFair, run-IsFair}

-- The second client has the lock, and the third and the observer wait.
abbrev midway : Run
midway = record {
  mutex = record { queue = 3 ∷ []; locked = true; idle_waiters = 9 ∷ [] };
  requested = 1 ∷ 2 ∷ 3 ∷ [];
  granted = 1 ∷ 2 ∷ [];
  released = 1;
  waiting = 9 ∷ [];
  told = [];
}

run-IsFair_example : IsFair midway
unfolding run
run-IsFair_example =
    run-IsFair (acquires 1 ∷ acquires 2 ∷ waits 9 ∷ releases ∷ acquires 3 ∷ []) midway refl
