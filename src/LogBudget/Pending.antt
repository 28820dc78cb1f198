-- ===== src/LogBudget/Pending.antt =====
-- A permit whose call never finishes, in src/eng_platform_api/services/log_budget.py.
use gcp_engineering_platform.Base.{
  ℕ, String, Bool, true, false, ◌&&◌, ◌||◌, not, List, [], ◌∷◌, ◌++◌, ◌==◌, none, some, ◌≡◌, inl,
  inr, refl, arith, eq_iff, eq_refl, Bool-cases,
}
use gcp_engineering_platform.Python.Raise.{Result, ok, raise, ◌>>=◌}
use gcp_engineering_platform.LogBudget.Record.{
  Permit, Waiter, Budget, stored, is_pending, is_charged, charged, alive, read_record,
}
use gcp_engineering_platform.LogBudget.Permits.{
  Reservation, has_pending, new_permit, with_grant, acquire, complete_at, deferred, settle,
}
use gcp_engineering_platform.LogBudget.Swap.{Cell, decide, acquiring}
use gcp_engineering_platform.LogBudget.Atomic.{apply, atomic}
use gcp_engineering_platform.LogBudget.Writes.{settle_cases, completed_budget}
use gcp_engineering_platform.LogBudget.History.{
  Op, op_reserve, op_finish, run, all_ops, Kept, run-Stores, acquire_cases,
}
use gcp_engineering_platform.LogBudget.Grants.{atomic-Grant, found_budget}

-- A pending permit of the participant with the token.
unfoldable pub holds : String → String → List Permit → Bool
holds who token [] = false
holds who token (p ∷ ps) =
    (p.token == token && (p.participant == who && is_pending p)) || holds who token ps

holds-charged :
    (who token : String) (now : ℕ) (ps : List Permit)
    → holds who token ps ≡ true
    → holds who token (charged now ps) ≡ true
unfolding holds charged is_charged
holds-charged who token now [] h = cc
holds-charged who token now (p ∷ ps) h = elim (Bool-cases (holds who token ps)) [
  | inl later ↦ ground (arith, later, holds-charged who token now ps later)
  | inr last ↦ ground (arith, h, last)
]

holds-append :
    (who token : String) (ps qs : List Permit)
    → holds who token ps ≡ true
    → holds who token (ps ++ qs) ≡ true
unfolding holds
holds-append who token [] qs h = cc
holds-append who token (p ∷ ps) qs h =
    elim (Bool-cases (p.token == token && (p.participant == who && is_pending p))) [
      | inl this ↦ rw this refl
      | inr other ↦ rw other (holds-append who token ps qs (rw other at h))
    ]

holds-new :
    (who token : String) (now : ℕ) (ps : List Permit)
    → holds who token (ps ++ new_permit now who token ∷ []) ≡ true
unfolding holds
holds-new who token now [] = rw (eq_refl token, eq_refl who) refl
holds-new who token now (p ∷ ps) = ground (arith, holds-new who token now ps)

-- The completion of another token's permit.
holds-complete_at :
    (who token other : String) (now : ℕ) (ps : List Permit)
    → other == token ≡ false
    → holds who token ps ≡ true
    → holds who token (complete_at now other ps) ≡ true
unfolding holds complete_at
holds-complete_at who token other now [] d h = cc
holds-complete_at who token other now (p ∷ ps) d h = elim (Bool-cases (p.token == other)) [
  | inl this ↦
      let same : p.token ≡ other = (eq_iff p.token other).0 this in
      let apart : p.token == token ≡ false = rw same d in rw (this, apart) (rw apart at h)
  | inr differs ↦ elim (Bool-cases (holds who token ps)) [
    | inl later ↦ ground (arith, differs, later, holds-complete_at who token other now ps d later)
    | inr last ↦ ground (arith, h, last, differs)
  ]
]

holds-has_pending :
    (who token : String) (ps : List Permit) → holds who token ps ≡ true → has_pending who ps ≡ true
unfolding holds has_pending
holds-has_pending who token [] h = cc
holds-has_pending who token (p ∷ ps) h = elim (Bool-cases (holds who token ps)) [
  | inl later ↦ ground (arith, holds-has_pending who token ps later)
  | inr last ↦ ground (arith, h, last)
]

-- Such a permit in the budget.
abbrev Holds : String → String → Budget → Type 0
Holds who token b = holds who token b.attempts ≡ true

-- The call is not a `finish` of the token.
unfoldable pub spares : String → Op → Bool
spares token (op_reserve who other) = true
spares token (op_finish who other) = not (other == token)

settle-Holds :
    (who token who' token' : String) (now : ℕ) (r : Budget) (attempts : List Permit)
    (waiters : List Waiter) (index : ℕ) (a : Reservation) (b : Budget)
    → holds who token attempts ≡ true
    → settle now who' token' r attempts waiters index ≡ (a, some b)
    → Holds who token b
unfolding with_grant
settle-Holds who token who' token' now r attempts waiters index a b held h =
    elim (settle_cases now who' token' r attempts waiters index a b h) [
      | inl (wrote, _, _, _, _) ↦
          rw wrote (holds-append who token attempts (new_permit now who' token' ∷ []) held)
      | inr (wrote, _) ↦ rw wrote held
    ]

Holds-Kept : (who token : String) → Kept (Holds who token) (spares token)
unfolding spares
Holds-Kept who token = record {
  reserves = λ now who' token' r a b within held h.
      let rest = holds-charged who token now r.attempts held in
      acquire_cases (Holds who token) now who' token' r (charged now r.attempts)
        (alive now r.waiters) a b
        (λ ws i settled.
          settle-Holds who token who' token' now r (charged now r.attempts) ws i a b rest settled)
        h;
  finishes = λ now who' token' r b within held h.
      let rest = holds-charged who token now r.attempts held in
      rw (completed_budget now who' token' r (charged now r.attempts) (alive now r.waiters) b h) (
        holds-complete_at who token token' now (charged now r.attempts) (ground (arith, within))
          rest);
}

pending-acquire :
    (now : ℕ) (who token : String) (r : Budget) (attempts : List Permit) (waiters : List Waiter)
    → has_pending who attempts ≡ true
    → acquire now who token r attempts waiters ≡ (deferred now false "pending", none)
unfolding acquire
pending-acquire now who token r attempts waiters h = rw h refl

read-deferred :
    (now : ℕ) (project who token token' : String) (c : Cell) (b : Budget) (a : Reservation)
    (m : Result (Budget × List Permit × List Waiter))
    → c.document ≡ stored b
    → Holds who token b
    → read_record now project c.document ≡ m
    → (apply c (m >>= λ v. ok (acquire now who token' v.0 v.1 v.2))).0 ≡ ok a
    → a ≡ deferred now false "pending"
read-deferred now project who token token' c b a (raise e) kept held read h = cc
read-deferred now project who token token' c b a (ok (r, attempts, waiters)) kept held read h =
    let (_, same) = found_budget now project c.document b r attempts waiters kept read in
    let pending : has_pending who attempts ≡ true =
      holds-has_pending who token attempts
        (rw (← same) (holds-charged who token now b.attempts held)) in
    let answer = pending-acquire now who token' r attempts waiters pending in cc (rw answer at h)

-- After a permit was granted to a participant, and as long as no call finishes its token, every
-- `reserve` of that participant that answers, at any time and after any calls of any participants,
-- is deferred with the reason "pending": the permit does not expire.
pub pending_kept :
    (now now' : ℕ) (project who token token' : String) (history : List (ℕ × Op)) (c : Cell)
    (a a' : Reservation)
    → (atomic (acquiring who token) project now c).0 ≡ ok a
    → a.allowed ≡ true
    → all_ops (spares token) history ≡ true
    → (atomic
        (acquiring who token')
        project
        now'
        (run project history (atomic (acquiring who token) project now c).1)).0
      ≡ ok a'
    → a' ≡ deferred now' false "pending"
unfolding with_grant atomic decide
pending_kept now now' project who token token' history c a a' h allowed within h' =
    let g = atomic-Grant now project who token c a h allowed in
    let u = (atomic (acquiring who token) project now c).1 in
    let (b, kept, held) =
      run-Stores (Holds who token) (spares token) (Holds-Kept who token) project history u within (
        with_grant now who token g.found g.attempts g.queue,
        rw g.wrote refl,
        holds-new who token now g.attempts,
      ) in
    let x = run project history u in
    read-deferred now' project who token token' x b a' (read_record now' project x.document) kept
      held refl h'
