-- ===== src/LogBudget/Queue.antt =====
-- The checks of `_record` in src/eng_platform_api/services/log_budget.py on a changed queue.
use gcp_engineering_platform.Base.{
  ℕ, zero, suc, ◌≤◌, String, true, false, List, [], ◌∷◌, ◌++◌, elem, none, ◌≡◌, refl, arith,
  Bool-cases, inl, inr,
}
use gcp_engineering_platform.Python.Raise.{ok, >>-ok}
use gcp_engineering_platform.LogBudget.Record.{
  Waiter, is_participant, check_waiter, check_waiters, is_alive, alive,
}
use gcp_engineering_platform.LogBudget.Permits.{index_of, touch, new_waiter}

-- Who is neither pending nor seen before is neither afterwards.
abbrev pub Freer : List String → List String → List String → List String → Type 0
Freer pending seen pending' seen' =
    (t : String)
    → elem t pending ≡ false
    → elem t seen ≡ false
    → (elem t pending' ≡ false) × (elem t seen' ≡ false)

Freer-cons :
    (u : String) (pending seen pending' seen' : List String)
    → Freer pending seen pending' seen'
    → Freer pending (u ∷ seen) pending' (u ∷ seen')
Freer-cons u pending seen pending' seen' f t h k =
    (ground (arith, h, k, f t), ground (arith, h, k, f t))

Freer-more :
    (u : String) (pending seen pending' seen' : List String)
    → Freer pending seen pending' seen'
    → Freer pending (u ∷ seen) pending' seen'
Freer-more u pending seen pending' seen' f t h k =
    (ground (arith, h, k, f t), ground (arith, h, k, f t))

check_waiter-later :
    (now now' : ℕ) (pending seen pending' seen' : List String) (previous previous' : ℕ) (w : Waiter)
    → now ≤ now'
    → previous' ≤ previous
    → Freer pending seen pending' seen'
    → check_waiter now pending seen previous w ≡ ok tt
    → check_waiter now' pending' seen' previous' w ≡ ok tt
unfolding check_waiter
check_waiter-later now now' pending seen pending' seen' previous previous' w later earlier f h =
    ground (arith, h, f w.participant)

in_order :
    (now : ℕ) (pending seen : List String) (previous : ℕ) (w : Waiter)
    → check_waiter now pending seen previous w ≡ ok tt
    → (previous ≤ w.enqueued_at) × (w.enqueued_at ≤ now)
unfolding check_waiter
in_order now pending seen previous w h = (ground (arith, h), ground (arith, h))

-- Waiters that were accepted are accepted later, and among fewer others.
pub check_waiters-later :
    (now now' : ℕ) (pending seen pending' seen' : List String) (previous previous' : ℕ)
    (ws : List Waiter)
    → now ≤ now'
    → previous' ≤ previous
    → Freer pending seen pending' seen'
    → check_waiters now pending seen previous ws ≡ ok tt
    → check_waiters now' pending' seen' previous' ws ≡ ok tt
unfolding check_waiters
check_waiters-later now now' pending seen pending' seen' previous previous' [] later earlier f h =
    refl
check_waiters-later now now' pending seen pending' seen' previous previous' (w ∷ ws) later earlier f
      h =
    let (first, rest) = >>-ok (check_waiter now pending seen previous w) _ h in
    rw
      (check_waiter-later now now' pending seen pending' seen' previous previous' w later earlier f
        first)
      (check_waiters-later now now' pending (w.participant ∷ seen) pending' (w.participant ∷ seen')
        w.enqueued_at w.enqueued_at ws later (omega arith)
        (Freer-cons w.participant pending seen pending' seen' f) rest)

-- So are those of them that are alive.
pub check_waiters-alive :
    (now at : ℕ) (pending seen pending' seen' : List String) (previous previous' : ℕ)
    (ws : List Waiter)
    → previous' ≤ previous
    → Freer pending seen pending' seen'
    → check_waiters now pending seen previous ws ≡ ok tt
    → check_waiters now pending' seen' previous' (alive at ws) ≡ ok tt
unfolding check_waiters alive
check_waiters-alive now at pending seen pending' seen' previous previous' [] earlier f h = refl
check_waiters-alive now at pending seen pending' seen' previous previous' (w ∷ ws) earlier f h =
    let (first, rest) = >>-ok (check_waiter now pending seen previous w) _ h in
    elim (Bool-cases (is_alive at w)) [
      | inl kept ↦
          rw
            (
              kept,
              check_waiter-later now now pending seen pending' seen' previous previous' w
                  (omega arith) earlier f first,
            )
            (check_waiters-alive now at pending (w.participant ∷ seen) pending'
              (w.participant ∷ seen') w.enqueued_at w.enqueued_at ws (omega arith)
              (Freer-cons w.participant pending seen pending' seen' f) rest)
      | inr dropped ↦ rw dropped (
          check_waiters-alive now at pending (w.participant ∷ seen) pending' seen' w.enqueued_at
            previous' ws (omega (arith, (in_order now pending seen previous w first).0, earlier))
            (Freer-more w.participant pending seen pending' seen' f) rest)
    ]

check_touched :
    (now : ℕ) (pending seen : List String) (previous : ℕ) (w : Waiter)
    → check_waiter now pending seen previous w ≡ ok tt
    → check_waiter now pending seen previous (record w { last_seen_at = now }) ≡ ok tt
unfolding check_waiter
check_touched now pending seen previous w h = ground (arith, h)

-- A waiter that polls.
pub check_waiters-touch :
    (now : ℕ) (pending seen : List String) (previous i : ℕ) (ws : List Waiter)
    → check_waiters now pending seen previous ws ≡ ok tt
    → check_waiters now pending seen previous (touch now i ws) ≡ ok tt
unfolding check_waiters touch
check_waiters-touch now pending seen previous i [] h = refl
check_waiters-touch now pending seen previous zero (w ∷ ws) h =
    let (first, rest) = >>-ok (check_waiter now pending seen previous w) _ h in
    rw (check_touched now pending seen previous w first) rest
check_waiters-touch now pending seen previous (suc i) (w ∷ ws) h =
    let (first, rest) = >>-ok (check_waiter now pending seen previous w) _ h in
    rw first (check_waiters-touch now pending (w.participant ∷ seen) w.enqueued_at i ws rest)

check_joined :
    (now : ℕ) (pending seen : List String) (previous : ℕ) (who : String)
    → previous ≤ now
    → is_participant who ≡ true
    → elem who seen ≡ false
    → elem who pending ≡ false
    → check_waiter now pending seen previous (new_waiter now who) ≡ ok tt
unfolding check_waiter
check_joined now pending seen previous who earlier valid unseen free = ground arith

-- A waiter that joins.
pub check_waiters-join :
    (now : ℕ) (pending seen : List String) (previous : ℕ) (ws : List Waiter) (who : String)
    → previous ≤ now
    → is_participant who ≡ true
    → index_of who ws ≡ none
    → elem who seen ≡ false
    → elem who pending ≡ false
    → check_waiters now pending seen previous ws ≡ ok tt
    → check_waiters now pending seen previous (ws ++ new_waiter now who ∷ []) ≡ ok tt
unfolding check_waiters index_of
check_waiters-join now pending seen previous [] who earlier valid absent unseen free h =
    rw (check_joined now pending seen previous who earlier valid unseen free) refl
check_waiters-join now pending seen previous (w ∷ ws) who earlier valid absent unseen free h =
    let (first, rest) = >>-ok (check_waiter now pending seen previous w) _ h in
    rw first (
      check_waiters-join now pending (w.participant ∷ seen) w.enqueued_at ws who
        (in_order now pending seen previous w first).1 valid (absent_later w ws absent)
        (ground (arith, absent, unseen)) free rest)
  where
    absent_later :
        (w : Waiter) (ws : List Waiter) → index_of who (w ∷ ws) ≡ none → index_of who ws ≡ none
    absent_later w ws absent = ground (arith, absent)

-- The first waiter leaves the queue and becomes pending.
pub check_waiters-tail :
    (now : ℕ) (pending : List String) (w : Waiter) (ws : List Waiter)
    → check_waiters now pending [] 0 (w ∷ ws) ≡ ok tt
    → check_waiters now (w.participant ∷ pending) [] 0 ws ≡ ok tt
unfolding check_waiters
check_waiters-tail now pending w ws h =
    let (first, rest) = >>-ok (check_waiter now pending [] 0 w) _ h in
    check_waiters-later now now pending (w.participant ∷ []) (w.participant ∷ pending) []
      w.enqueued_at 0 ws (omega arith) (omega arith)
      (λ t free unseen. (ground (arith, free, unseen), refl)) rest
