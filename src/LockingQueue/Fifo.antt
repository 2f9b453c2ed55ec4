-- ===== src/LockingQueue/Fifo.antt =====
-- The lock is a queue of clients, the first of which has it.
use schulcloud.Base.{
  ℕ, suc, ◌≤◌, ◌<◌, ◌≡◌, ◌≢◌, refl, ap, sym, ◌∙◌, inl, inr, Bool, true, false, List, [], ◌∷◌, ◌++◌,
  map, nat_eq, if◌then◌else◌, All, All-map, arith, Bool-cases,
}
use schulcloud.LockingQueue.{
  LockingQueue, new_queue, mark, get_lock, release_lock, release, Event, ask, give_back, step, run,
  holds,
}

-- The clients that have or want the lock, in the order of their calls, and the number of the next
-- call.
pub record Clients : Type 0 where
  pub line : List ℕ
  pub next : ℕ

abbrev pub nobody : Clients
nobody = record { line = []; next = 0 }

abbrev drop_first : ℕ → List ℕ → List ℕ
drop_first n [] = []
drop_first n (m ∷ rest) = if nat_eq m n then rest else m ∷ rest

-- Who asks goes to the end of the line, and only who is at its head leaves it.
abbrev pub spec_step : Event → Clients → Clients
spec_step ask c = record { line = c.line ++ c.next ∷ []; next = suc c.next }
spec_step (give_back n) c = record c { line = drop_first n c.line }

abbrev pub spec_run : Clients → List Event → Clients
spec_run c [] = c
spec_run c (e ∷ events) = spec_run (spec_step e c) events

abbrev pub is_first : List ℕ → ℕ → Bool
is_first [] n = false
is_first (m ∷ rest) n = nat_eq m n

abbrev pub is_taken : List ℕ → Bool
is_taken [] = false
is_taken (n ∷ rest) = true

abbrev pub waiting_of : List ℕ → List ℕ
waiting_of [] = []
waiting_of (n ∷ rest) = rest

abbrev Distinct : List ℕ → Type 0
Distinct [] = Unit
Distinct (n ∷ rest) = All (λ m. n ≢ m) rest × Distinct rest

-- A promise that is not resolved yet, and whose object nobody called.
abbrev Unused : LockingQueue → ℕ → Type 0
Unused q n = (q.resolved n ≡ false) × (q.released n ≡ false)

record Implements (q : LockingQueue) (c : Clients) : Type 0 where
  locked_eq : q.locked ≡ is_taken c.line
  queue_eq : q.queue ≡ waiting_of c.line
  calls_eq : q.calls ≡ c.next
  held : (n : ℕ) → holds q n ≡ is_first c.line n
  waiting : All (Unused q) (waiting_of c.line)
  fresh : (n : ℕ) → q.calls ≤ n → Unused q n
  below : All (λ n. n < c.next) c.line
  distinct : Distinct c.line

All-snoc : (P : ℕ → Type 0) (xs : List ℕ) (n : ℕ) → All P xs → P n → All P (xs ++ n ∷ [])
All-snoc P [] n h p = (p, tt)
All-snoc P (x ∷ xs) n (h, hs) p = (h, All-snoc P xs n hs p)

Distinct-snoc : (xs : List ℕ) (n : ℕ) → All (λ m. m < n) xs → Distinct xs → Distinct (xs ++ n ∷ [])
Distinct-snoc [] n h d = (tt, tt)
Distinct-snoc (x ∷ xs) n (h, hs) (d, ds) =
    (All-snoc (λ m. x ≢ m) xs n d (λ e. omega arith), Distinct-snoc xs n hs ds)

below-step : (n : ℕ) (xs : List ℕ) → All (λ m. m < n) xs → All (λ m. m < suc n) (xs ++ n ∷ [])
below-step n xs h =
    All-snoc (λ m. m < suc n) xs n (All-map _ _ (λ m p. omega arith) xs h) (omega arith)

-- Two promises that wait stay so when another one is resolved or released.
Unused-mark :
    (q : LockingQueue) (h k : ℕ) (rest : List ℕ)
    → All (Unused q) rest
    → All (λ m. h ≢ m) rest
    → All (λ m. k ≢ m) rest
    → All (Unused (record q { resolved = mark k q.resolved; released = mark h q.released })) rest
Unused-mark q h k [] u a b = tt
Unused-mark q h k (n ∷ rest) (u, us) (a, as') (b, bs) =
    ((ground arith, ground arith), Unused-mark q h k rest us as' bs)

get_lock-Implements :
    (q : LockingQueue) (line : List ℕ) (next : ℕ)
    → Implements q (record { line = line; next = next })
    → Implements (get_lock q) (record { line = line ++ next ∷ []; next = suc next })
unfolding get_lock
get_lock-Implements q [] next i = rw (i.locked_eq) (record {
  locked_eq = refl;
  queue_eq = i.queue_eq;
  calls_eq = ap suc i.calls_eq;
  held = λ n. ground (arith, i.held n, i.calls_eq, i.fresh n);
  waiting = tt;
  fresh = λ n h. ground (arith, i.fresh n);
  below = (omega arith, tt);
  distinct = (tt, tt);
})
get_lock-Implements q (x ∷ xs) next i = rw (i.locked_eq) (record {
  locked_eq = refl;
  queue_eq = rw (i.queue_eq, i.calls_eq);
  calls_eq = ap suc i.calls_eq;
  held = λ n. i.held n;
  waiting = All-snoc _ xs next i.waiting (i.fresh next (omega (arith, i.calls_eq)));
  fresh = λ n h. i.fresh n (omega arith);
  below = below-step next (x ∷ xs) i.below;
  distinct = Distinct-snoc (x ∷ xs) next i.below i.distinct;
})

-- The client at the head of the line gives the lock to the next one.
release_lock-Implements :
    (q : LockingQueue) (x : ℕ) (xs : List ℕ) (next : ℕ)
    → Implements q (record { line = x ∷ xs; next = next })
    → Implements
        (release_lock (record q { released = mark x q.released }))
        (record { line = xs; next = next })
unfolding release_lock
release_lock-Implements q x [] next i = rw (i.queue_eq) (record {
  locked_eq = refl;
  queue_eq = refl;
  calls_eq = i.calls_eq;
  held = λ n. ground (arith, i.held n);
  waiting = tt;
  fresh = λ n h. ground (arith, i.fresh n, i.calls_eq, i.below);
  below = tt;
  distinct = tt;
})
release_lock-Implements q x (k ∷ rest) next i =
    let (d, ds) = i.distinct in
    let (w, ws) = i.waiting in
    let (b, bs) = i.below in
    rw (i.queue_eq) (record {
      locked_eq = i.locked_eq;
      queue_eq = refl;
      calls_eq = i.calls_eq;
      held = λ n. ground (arith, i.held n);
      waiting = Unused-mark q x k rest ws d.1 ds.0;
      fresh = λ n h. ground (arith, i.fresh n, i.calls_eq);
      below = bs;
      distinct = ds;
    })

release-Implements :
    (q : LockingQueue) (n : ℕ) (line : List ℕ) (next : ℕ)
    → Implements q (record { line = line; next = next })
    → q.resolved n ≡ true
    → Implements (release n q) (record { line = drop_first n line; next = next })
unfolding release
release-Implements q n [] next i r =
    let again : q.released n ≡ true = ground (arith, i.held n) in rw again i
release-Implements q n (x ∷ xs) next i r = elim (Bool-cases (q.released n)) [
  | inl again ↦ let other : nat_eq x n ≡ false = ground (arith, i.held n) in rw (again, other) i
  | inr first ↦
      let same : x ≡ n = ground (arith, i.held n) in
      let self : nat_eq x x ≡ true = ground arith in
      rw (first, ← same, self) (release_lock-Implements q x xs next i)
]

drop_first-other : (n : ℕ) (line : List ℕ) → is_first line n ≡ false → drop_first n line ≡ line
drop_first-other n [] h = refl
drop_first-other n (x ∷ xs) h = ground arith

step-Implements :
    (q : LockingQueue) (c : Clients) (e : Event)
    → Implements q c
    → Implements (step e q) (spec_step e c)
unfolding step
step-Implements q c ask i = get_lock-Implements q c.line c.next i
step-Implements q c (give_back n) i = elim (Bool-cases (q.resolved n)) [
  | inl r ↦ rw r (release-Implements q n c.line c.next i r)
  | inr r ↦ let other = drop_first-other n c.line (ground (arith, i.held n)) in rw (r, other) i
]

run-Implements :
    (q : LockingQueue) (c : Clients) (events : List Event)
    → Implements q c
    → Implements (run q events) (spec_run c events)
run-Implements q c [] i = i
run-Implements q c (e ∷ events) i =
    run-Implements (step e q) (spec_step e c) events (step-Implements q c e i)

new_queue-Implements : Implements new_queue nobody
new_queue-Implements = record {
  locked_eq = refl;
  queue_eq = refl;
  calls_eq = refl;
  held = λ n. refl;
  waiting = tt;
  fresh = λ n h. (refl, refl);
  below = tt;
  distinct = tt;
}

-- Whatever the clients do, in any order: the lock is held by exactly the client that is first in the
-- line of those who asked and were not done, it is locked exactly if there is such a client, and the
-- promises that wait are the rest of the line, in its order.
pub run-line :
    (events : List Event) (n : ℕ)
    → (holds (run new_queue events) n ≡ is_first ((spec_run nobody events).line) n)
      × ((run new_queue events).locked ≡ is_taken ((spec_run nobody events).line))
      × ((run new_queue events).queue ≡ waiting_of ((spec_run nobody events).line))
run-line events n =
    let i = run-Implements new_queue nobody events new_queue-Implements in
    (i.held n, i.locked_eq, i.queue_eq)

is_first_unique :
    (line : List ℕ) (m n : ℕ) → is_first line m ≡ true → is_first line n ≡ true → m ≡ n
is_first_unique [] m n h k = cc
is_first_unique (x ∷ xs) m n h k = ground arith

-- No two clients hold the lock at once.
pub holds_unique :
    (events : List Event) (m n : ℕ)
    → holds (run new_queue events) m ≡ true
    → holds (run new_queue events) n ≡ true
    → m ≡ n
holds_unique events m n h k =
    is_first_unique ((spec_run nobody events).line) m n (sym ((run-line events m).0) ∙ h)
      (sym ((run-line events n).0) ∙ k)

spec_run-append :
    (c : Clients) (xs ys : List Event) → spec_run c (xs ++ ys) ≡ spec_run (spec_run c xs) ys
spec_run-append c [] ys = refl
spec_run-append c (x ∷ xs) ys = spec_run-append (spec_step x c) xs ys

spec_run_back :
    (c : Clients) (before after : List ℕ) (n : ℕ)
    → c.line ≡ before ++ n ∷ after
    → is_first ((spec_run c (map give_back before)).line) n ≡ true
spec_run_back c [] after n h = rw h (ground arith)
spec_run_back c (b ∷ before) after n h =
    let self : nat_eq b b ≡ true = ground arith in
    spec_run_back (spec_step (give_back b) c) before after n (rw (h, self))

-- Where a client stands in the line, it holds the lock once those before it gave it back in turn.
pub run_in_turn :
    (events : List Event) (before after : List ℕ) (n : ℕ)
    → (spec_run nobody events).line ≡ before ++ n ∷ after
    → holds (run new_queue (events ++ map give_back before)) n ≡ true
run_in_turn events before after n h =
    let back = map give_back before in
    (run-line (events ++ back) n).0
    ∙ (rw (spec_run-append nobody events back)
        (spec_run_back (spec_run nobody events) before after n h))
