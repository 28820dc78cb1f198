-- ===== src/LogBudget/Grants.antt =====
-- The times of the permits that `reserve` of src/eng_platform_api/services/log_budget.py grants.
use gcp_engineering_platform.Base.{
  ℕ, ◌+◌, ◌*◌, ◌≤◌, String, true, List, [], ◌∷◌, ◌++◌, leb, Option, none, some, ◌≡◌, refl, sym, ap,
  ◌∙◌, arith, Bool-cases, Option-cases, inl, inr,
}
use gcp_engineering_platform.Python.Raise.{Result, ok, raise, ◌>>=◌}
use gcp_engineering_platform.LogBudget.Record.{
  Permit, Waiter, Budget, Stored, stored, length, second, cadence_seconds, max_waiters, charged,
  check_budget, read_record,
}
use gcp_engineering_platform.LogBudget.Permits.{
  Reservation, has_pending, index_of, touch, new_waiter, with_grant, settle, acquire, granted,
}
use gcp_engineering_platform.LogBudget.Swap.{Cell, decide, written, acquiring}
use gcp_engineering_platform.LogBudget.Atomic.{apply, atomic}
use gcp_engineering_platform.LogBudget.Turn.{settle_allowed}
use gcp_engineering_platform.LogBudget.History.{
  Op, run, all_ops, run-Stores, DueFrom, DueFrom-Kept, checks-cases,
}

settle_grant :
    (now : ℕ) (who token : String) (r : Budget) (attempts : List Permit) (waiters : List Waiter)
    (index : ℕ)
    → (settle now who token r attempts waiters index).0.allowed ≡ true
    → (settle now who token r attempts waiters index
        ≡ (granted now token, some (with_grant now who token r attempts waiters)))
      × (r.next_due ≤ now)
unfolding settle
settle_grant now who token r attempts waiters index h =
    let turn = rw (settle_allowed now who token r attempts waiters index) at h in
    (rw turn refl, ground (arith, turn))

-- What a granted call writes.
Granted : ℕ → String → String → Budget → List Permit → Option Budget → Type 0
Granted now who token r attempts o =
    (r.next_due ≤ now)
    × ((waiters : List Waiter) × (o ≡ some (with_grant now who token r attempts waiters)))

acquire-Granted :
    (now : ℕ) (who token : String) (r : Budget) (attempts : List Permit) (waiters : List Waiter)
    → (acquire now who token r attempts waiters).0.allowed ≡ true
    → Granted now who token r attempts (acquire now who token r attempts waiters).1
unfolding acquire Granted
acquire-Granted now who token r attempts waiters h = elim (Bool-cases (has_pending who attempts)) [
  | inl held ↦ absurd (cc (rw held at h))
  | inr free ↦ elim (Option-cases (index_of who waiters)) [
    | inl absent ↦ elim (Bool-cases (leb max_waiters (length waiters))) [
      | inl full ↦ absurd (cc (rw (free, absent, acquire, full) at h))
      | inr room ↦
          let ws = waiters ++ new_waiter now who ∷ [] in
          let (grant, past) =
            settle_grant now who token r attempts ws (length waiters)
              (rw (free, absent, acquire, room) at h) in
          rw (free, absent, acquire, room) (past, (ws, ap (λ x. x.1) grant))
    ]
    | inr (i, standing) ↦
        let ws = touch now i waiters in
        let (grant, past) =
          settle_grant now who token r attempts ws i (rw (free, standing, acquire) at h) in
        rw (free, standing, acquire) (past, (ws, ap (λ x. x.1) grant))
  ]
]

-- An atomic call that is granted.
pub record Grant (now : ℕ) (project who token : String) (c c' : Cell) : Type 0 where
  pub found : Budget
  pub attempts : List Permit
  pub waiters : List Waiter
  pub queue : List Waiter
  pub agreed : read_record now project c.document ≡ ok (found, attempts, waiters)
  pub past : found.next_due ≤ now
  pub wrote : c' ≡ written (with_grant now who token found attempts queue) c

answered-Grant :
    (now : ℕ) (project who token : String) (c : Cell) (a : Reservation) (r : Budget)
    (attempts : List Permit) (waiters : List Waiter) (x : Reservation) (o : Option Budget)
    → read_record now project c.document ≡ ok (r, attempts, waiters)
    → acquire now who token r attempts waiters ≡ (x, o)
    → (apply c (ok (x, o))).0 ≡ ok a
    → a.allowed ≡ true
    → Grant now project who token c (apply c (ok (x, o))).1
unfolding Granted
answered-Grant now project who token c a r attempts waiters x none read same h allowed =
    let (_, (ws, absurd_write)) =
      acquire-Granted now who token r attempts waiters (cc (same, h, allowed)) in
    absurd (cc (same, absurd_write))
answered-Grant now project who token c a r attempts waiters x (some b) read same h allowed =
    let (past, (ws, wrote)) =
      acquire-Granted now who token r attempts waiters (cc (same, h, allowed)) in
    let grants : b ≡ with_grant now who token r attempts ws = cc (same, wrote) in
    record {
      found = r;
      attempts = attempts;
      waiters = waiters;
      queue = ws;
      agreed = read;
      past = past;
      wrote = rw grants refl;
    }

read-Grant :
    (now : ℕ) (project who token : String) (c : Cell) (a : Reservation)
    (m : Result (Budget × List Permit × List Waiter))
    → read_record now project c.document ≡ m
    → (apply c (m >>= λ v. ok (acquire now who token v.0 v.1 v.2))).0 ≡ ok a
    → a.allowed ≡ true
    → Grant now project who token c (apply c (m >>= λ v. ok (acquire now who token v.0 v.1 v.2))).1
read-Grant now project who token c a (raise e) read h allowed = cc
read-Grant now project who token c a (ok (r, attempts, waiters)) read h allowed =
    answered-Grant now project who token c a r attempts waiters
      (acquire now who token r attempts waiters).0 (acquire now who token r attempts waiters).1 read
      refl h allowed

pub atomic-Grant :
    (now : ℕ) (project who token : String) (c : Cell) (a : Reservation)
    → (atomic (acquiring who token) project now c).0 ≡ ok a
    → a.allowed ≡ true
    → Grant now project who token c (atomic (acquiring who token) project now c).1
unfolding atomic decide
atomic-Grant now project who token c a h allowed =
    read-Grant now project who token c a (read_record now project c.document) refl h allowed

-- What a read of a budget hands over.
pub found_budget :
    (now : ℕ) (project : String) (d : Stored) (b r : Budget) (attempts : List Permit)
    (waiters : List Waiter)
    → d ≡ stored b
    → read_record now project d ≡ ok (r, attempts, waiters)
    → (b ≡ r) × (charged now b.attempts ≡ attempts)
unfolding read_record
found_budget now project d b r attempts waiters held found =
    let h : read_record now project (stored b) ≡ ok (r, attempts, waiters) =
      ap (read_record now project) (sym held) ∙ found in
    elim (checks-cases (check_budget now project b)) [
      | inl passed ↦ (cc (rw passed at h), cc (rw passed at h))
      | inr (e, refused) ↦ absurd (cc (rw refused at h))
    ]

any_op : (history : List (ℕ × Op)) → all_ops (λ op. true) history ≡ true
unfolding all_ops
any_op [] = refl
any_op (op ∷ rest) = any_op rest

-- Two permits, whoever is granted them and whatever calls stand between, are granted at server times
-- at least 5 seconds apart.
pub grants_spaced :
    (now now' : ℕ) (project who who' token token' : String) (history : List (ℕ × Op)) (c : Cell)
    (a a' : Reservation)
    → (atomic (acquiring who token) project now c).0 ≡ ok a
    → a.allowed ≡ true
    → (atomic
        (acquiring who' token')
        project
        now'
        (run project history (atomic (acquiring who token) project now c).1)).0
      ≡ ok a'
    → a'.allowed ≡ true
    → now + cadence_seconds * second ≤ now'
unfolding with_grant
grants_spaced now now' project who who' token token' history c a a' h allowed h' allowed' =
    let g = atomic-Grant now project who token c a h allowed in
    let u = (atomic (acquiring who token) project now c).1 in
    let n = now + cadence_seconds * second in
    let (b, held, due) =
      run-Stores (DueFrom n) (λ op. true) (DueFrom-Kept n) project history u (any_op history)
        (with_grant now who token g.found g.attempts g.queue, rw g.wrote refl, omega arith) in
    let g' = atomic-Grant now' project who' token' (run project history u) a' h' allowed' in
    let (same, _) =
      found_budget now' project (run project history u).document b g'.found g'.attempts g'.waiters
        held g'.agreed in
    omega (arith, due, g'.past, ap (λ x. x.next_due) same)
