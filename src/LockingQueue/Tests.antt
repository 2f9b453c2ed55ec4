-- ===== src/LockingQueue/Tests.antt =====
-- The lock of src/services/ldap/lockingQueue.js with three clients.
use schulcloud.Base.{ℕ, ◌≡◌, refl, true, List, [], ◌∷◌, ◌++◌, map}
use schulcloud.LockingQueue.{
  new_queue, get_lock, release_lock, release, Event, ask, give_back, step, run, holds,
}
use schulcloud.LockingQueue.Fifo.{
  nobody, spec_run, is_first, is_taken, waiting_of, run-line, holds_unique, run_in_turn,
}

abbrev three_ask : List Event
three_ask = ask ∷ ask ∷ ask ∷ []

first_waits : (run new_queue three_ask).queue ≡ 1 ∷ 2 ∷ []
unfolding step get_lock
first_waits = refl

-- A client that gives its lock back twice does not take the lock from the next one.
twice : (run new_queue (three_ask ++ give_back 0 ∷ give_back 0 ∷ [])).queue ≡ 2 ∷ []
unfolding step get_lock release release_lock
twice = refl

-- The method of the class has no such guard: the first client still has its release object, and now
-- the second one holds the lock too.
unguarded_first : holds (release_lock (run new_queue three_ask)) 0 ≡ true
unfolding step get_lock release_lock
unguarded_first = refl

unguarded_second : holds (release_lock (run new_queue three_ask)) 1 ≡ true
unfolding step get_lock release_lock
unguarded_second = refl

run-line_example :
    (holds (run new_queue three_ask) 0 ≡ is_first ((spec_run nobody three_ask).line) 0)
    × ((run new_queue three_ask).locked ≡ is_taken ((spec_run nobody three_ask).line))
    × ((run new_queue three_ask).queue ≡ waiting_of ((spec_run nobody three_ask).line))
run-line_example = run-line three_ask 0

first_holds : holds (run new_queue three_ask) 0 ≡ true
unfolding step get_lock
first_holds = refl

holds_unique_example : ◌≡◌ {A = ℕ} 0 0
holds_unique_example = holds_unique three_ask 0 0 first_holds first_holds

run_in_turn_example : holds (run new_queue (three_ask ++ map give_back (0 ∷ 1 ∷ []))) 2 ≡ true
run_in_turn_example = run_in_turn three_ask (0 ∷ 1 ∷ []) [] 2 refl
