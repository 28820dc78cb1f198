-- ===== src/LogBudget/Invariant.antt =====
-- Sound documents: lemmas on `_record` of src/eng_platform_api/services/log_budget.py.
use gcp_engineering_platform.Base.{
  ℕ, zero, suc, ◌+◌, ◌≤◌, String, true, ◌||◌, not, List, [], ◌∷◌, ◌++◌, ◌==◌, ltb, nat_eq, ◌≡◌,
  refl, arith, eq_refl,
}
use gcp_engineering_platform.Python.Raise.{Result, ok, >>-ok, bind-ok, passes}
use gcp_engineering_platform.LogBudget.Record.{
  Permit, Waiter, Budget, Stored, missing, malformed, stored, length, max_attempts, max_waiters,
  schema_version, check_permits, check_waiters, charged, alive, initial, check_budget, read_record,
}
use gcp_engineering_platform.LogBudget.Permits.{touch, complete_at}
use gcp_engineering_platform.LogBudget.Valid.{charged-Accepted, later-Accepted}
use gcp_engineering_platform.LogBudget.Queue.{check_waiters-later, check_waiters-alive}

length-charged : (now : ℕ) (ps : List Permit) → length (charged now ps) ≤ length ps
unfolding charged
length-charged now [] = omega arith
length-charged now (p ∷ ps) = ground (arith, length-charged now ps)

length-alive : (now : ℕ) (ws : List Waiter) → length (alive now ws) ≤ length ws
unfolding alive
length-alive now [] = omega arith
length-alive now (w ∷ ws) = ground (arith, length-alive now ws)

pub length-touch : (now i : ℕ) (ws : List Waiter) → length (touch now i ws) ≡ length ws
unfolding touch
length-touch now i [] = refl
length-touch now zero (w ∷ ws) = refl
length-touch now (suc i) (w ∷ ws) = omega (arith, length-touch now i ws)

pub length-append {ℓ} : {A : Type ℓ} (xs ys : List A) → length (xs ++ ys) ≡ length xs + length ys
length-append [] ys = omega arith
length-append (x ∷ xs) ys = omega (arith, length-append xs ys)

pub length-complete_at :
    (now : ℕ) (token : String) (ps : List Permit) → length (complete_at now token ps) ≡ length ps
unfolding complete_at
length-complete_at now token [] = refl
length-complete_at now token (p ∷ ps) = ground (arith, length-complete_at now token ps)

-- Permits and waiters that pass the checks at a time, within their limits.
pub record IsSound (now : ℕ) (attempts : List Permit) (waiters : List Waiter) : Type 0 where
  pub permits : length attempts ≤ max_attempts
  pub queue : length waiters ≤ max_waiters
  pub pending : List String
  pub checked : check_permits now [] [] attempts ≡ ok pending
  pub waiting : check_waiters now pending [] 0 waiters ≡ ok tt

-- The record of this schema and project.
abbrev pub IsOurs : String → Budget → Type 0
IsOurs project b = (b.version ≡ schema_version) × (b.quota_project_id == project ≡ true)

-- Such a budget is accepted by every later read.
pub IsSound-check_budget :
    (now now' : ℕ) (project : String) (b : Budget)
    → now ≤ now'
    → b.updated_at ≤ now
    → IsOurs project b
    → IsSound now b.attempts b.waiters
    → check_budget now' project b ≡ ok tt
unfolding check_budget
IsSound-check_budget now now' project b later updated ours s =
    let (q, checked, fewer) =
      later-Accepted now now' [] [] [] [] b.attempts s.pending later (λ t e. e) (λ t e. e)
        s.checked in
    let waiting =
      check_waiters-later now now' s.pending [] q [] 0 0 b.waiters later (omega arith)
        (λ t free unseen. (fewer t free, unseen)) s.waiting in
    ground (arith, checked, waiting, ours.0, ours.1, s.permits, s.queue)

-- What the checks of a budget show.
pub check_budget-IsSound :
    (now : ℕ) (project : String) (b : Budget)
    → check_budget now project b ≡ ok tt
    → IsOurs project b × IsSound now b.attempts b.waiters
unfolding check_budget
check_budget-IsSound now project b h =
    let (ours, h1) =
      passes (not (nat_eq b.version schema_version) || not (b.quota_project_id == project)) _ _ h in
    let (recent, h2) = passes (ltb now b.updated_at) _ _ h1 in
    let (short, h3) =
      passes (ltb max_attempts (length b.attempts) || ltb max_waiters (length b.waiters)) _ _ h2 in
    let (q, checked, waiting) =
      bind-ok (check_permits now [] [] b.attempts) (λ q. check_waiters now q [] 0 b.waiters) h3 in
    (
      (ground (arith, ours), ground (arith, ours)),
      record {
        permits = ground (arith, short);
        queue = ground (arith, short);
        pending = q;
        checked = checked;
        waiting = waiting;
      },
    )

-- What is left of it at the time of a read.
kept-IsSound :
    (now : ℕ) (ps : List Permit) (ws : List Waiter)
    → IsSound now ps ws
    → IsSound now (charged now ps) (alive now ws)
kept-IsSound now ps ws s =
    let (q, checked, fewer) =
      charged-Accepted now now now [] [] [] [] ps s.pending (omega arith) (λ t e. e) (λ t e. e)
        s.checked in
    record {
      permits = omega (arith, length-charged now ps, s.permits);
      queue = omega (arith, length-alive now ws, s.queue);
      pending = q;
      checked = checked;
      waiting =
          check_waiters-alive now now s.pending [] q [] 0 0 ws (omega arith)
            (λ t free unseen. (fewer t free, unseen)) s.waiting;
    }

pub same_view :
    {A B C : Type 0} {a a' : A} {b b' : B} {c c' : C}
    → ◌≡◌ {A = Result (A × B × C)} (ok (a, b, c)) (ok (a', b', c'))
    → (a ≡ a') × (b ≡ b') × (c ≡ c')
same_view h = (cc, cc, cc)

none-IsSound : (now : ℕ) → IsSound now [] []
unfolding check_permits check_waiters
none-IsSound now = record {
  permits = omega arith;
  queue = omega arith;
  pending = [];
  checked = refl;
  waiting = refl;
}

-- What a read hands to the call is sound, and of this schema and project.
pub read-IsSound :
    (now : ℕ) (project : String) (d : Stored) (r : Budget) (attempts : List Permit)
    (waiters : List Waiter)
    → read_record now project d ≡ ok (r, attempts, waiters)
    → IsOurs project r × IsSound now attempts waiters
unfolding read_record
read-IsSound now project missing r attempts waiters h =
    let (same, same', same'') = same_view h in
    (
      rw (← same) (unfold initial in (refl, eq_refl project)),
      rw (← same', ← same'') (none-IsSound now),
    )
read-IsSound now project malformed r attempts waiters h = cc
read-IsSound now project (stored b) r attempts waiters h =
    let (checks, view) = >>-ok (check_budget now project b) _ h in
    let (same, same', same'') = same_view view in
    let (ours, sound) = check_budget-IsSound now project b checks in
    (rw (← same) ours, rw (← same', ← same'') (kept-IsSound now b.attempts b.waiters sound))
