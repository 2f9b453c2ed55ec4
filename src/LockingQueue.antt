-- ===== src/LockingQueue.antt =====
-- src/services/ldap/lockingQueue.js: the lock that the searches of a directory take turns with.
mod Fifo
mod Tests
use schulcloud.Base.{ℕ, suc, Bool, true, false, not, List, [], ◌∷◌, ◌++◌, nat_eq, if◌then◌else◌}

-- A lock with its clients: the n-th call of `getLock` returns the n-th promise, whose payload is
-- the n-th release object. `resolved` and `released` are the states of these promises and objects,
-- and the queue holds the promises that wait.
pub record LockingQueue : Type 0 where
  pub locked : Bool
  pub queue : List ℕ
  pub calls : ℕ
  pub resolved : ℕ → Bool
  pub released : ℕ → Bool

abbrev pub new_queue : LockingQueue
new_queue = record {
  locked = false;
  queue = [];
  calls = 0;
  resolved = λ n. false;
  released = λ n. false;
}

abbrev pub mark : ℕ → (ℕ → Bool) → ℕ → Bool
mark n flags m = if nat_eq n m then true else flags m

unfoldable pub get_lock : LockingQueue → LockingQueue
get_lock q =
    if not q.locked
    then record q { locked = true; calls = suc q.calls; resolved = mark q.calls q.resolved }
    else record q { queue = q.queue ++ q.calls ∷ []; calls = suc q.calls }

-- `queue.shift().resolve()`, or the lock is free where the queue is empty.
abbrev pub hand_over : LockingQueue → List ℕ → LockingQueue
hand_over q [] = record q { locked = false }
hand_over q (n ∷ rest) = record q { queue = rest; resolved = mark n q.resolved }

-- The method of the class.
unfoldable pub release_lock : LockingQueue → LockingQueue
release_lock q = hand_over q q.queue

-- The method of the n-th release object.
unfoldable pub release : ℕ → LockingQueue → LockingQueue
release n q =
    if not (q.released n) then release_lock (record q { released = mark n q.released }) else q

-- What a client does: it asks for the lock, or calls the release object that its promise gave it.
pub data Event : Type 0 where
  ask : Event
  give_back : ℕ → Event

-- A client has no release object before its promise is resolved.
unfoldable pub step : Event → LockingQueue → LockingQueue
step Event.ask q = get_lock q
step (Event.give_back n) q = if q.resolved n then release n q else q

abbrev pub run : LockingQueue → List Event → LockingQueue
run q [] = q
run q (e ∷ events) = run (step e q) events

abbrev pub holds : LockingQueue → ℕ → Bool
holds q n = if q.resolved n then not (q.released n) else false
