-- ===== src/LogBudget/History.antt =====
-- Histories of atomic calls of `reserve` and `finish`: what holds of a permit from its grant on.
use gcp_engineering_platform.Base.{
  ℕ, ◌≤◌, String, Bool, true, ◌&&◌, List, [], ◌∷◌, ◌++◌, leb, Option, none, some, ◌≡◌, ◌⊎◌, inl,
  inr, refl, ap, ◌∙◌, arith, and_true, Bool-cases, Option-cases,
}
use gcp_engineering_platform.Python.Raise.{Error, Result, ok, raise}
use gcp_engineering_platform.LogBudget.Record.{
  Permit, Waiter, Budget, stored, length, charged, alive, check_budget, read_record, max_waiters,
}
use gcp_engineering_platform.LogBudget.Permits.{
  Reservation, has_pending, index_of, touch, new_waiter, with_grant, settle, acquire, complete,
}
use gcp_engineering_platform.LogBudget.Swap.{
  Cell, Transform, decide, written, acquiring, completing,
}
use gcp_engineering_platform.LogBudget.Atomic.{apply, atomic}
use gcp_engineering_platform.LogBudget.Writes.{settle_cases, completed_budget}

pub data Op : Type 0 where
  op_reserve : String → String → Op
  op_finish : String → String → Op

-- The cell after an atomic call at a server time.
unfoldable pub step : String → ℕ → Op → Cell → Cell
step project now (op_reserve who token) c = (atomic (acquiring who token) project now c).1
step project now (op_finish who token) c = (atomic (completing who token) project now c).1

unfoldable pub run : String → List (ℕ × Op) → Cell → Cell
run project [] c = c
run project ((now, op) ∷ rest) c = run project rest (step project now op c)

-- A property of the budget in a cell.
abbrev pub Stores : (Budget → Type 0) → Cell → Type 0
Stores Q c = (b : Budget) × (c.document ≡ stored b) × Q b

-- A property that the writes of both calls keep, where the record that was read had it before its
-- charged permits and live waiters were picked, holds after a history.
pub record Kept (Q : Budget → Type 0) (allowed : Op → Bool) : Type 0 where
  pub reserves :
      (now : ℕ) (who token : String) (r : Budget) (a : Reservation) (b : Budget)
      → allowed (op_reserve who token) ≡ true
      → Q r
      → acquire now who token r (charged now r.attempts) (alive now r.waiters) ≡ (a, some b)
      → Q b
  pub finishes :
      (now : ℕ) (who token : String) (r : Budget) (b : Budget)
      → allowed (op_finish who token) ≡ true
      → Q r
      → complete now who token r (charged now r.attempts) (alive now r.waiters) ≡ ok (tt, some b)
      → Q b

pub checks-cases : (m : Result (Unit {0})) → (m ≡ ok tt) ⊎ ((e : Error) × (m ≡ raise e))
checks-cases (ok tt) = inl refl
checks-cases (raise e) = inr (e, refl)

module _ {A : Type 0} where
  -- The decision on a budget.
  unfoldable pub decision : Transform A → ℕ → Budget → Result (A × Option Budget)
  decision f now b = f now b (charged now b.attempts) (alive now b.waiters)

  -- What one atomic step does to a cell with a budget.
  abbrev Stepped : Transform A → ℕ → Budget → Cell → Cell → Type 0
  Stepped f now b c c' =
      (c' ≡ c)
      ⊎ ((a : A) × (b' : Budget) × (decision f now b ≡ ok (a, some b')) × (c' ≡ written b' c))

  apply-Stepped :
      (f : Transform A) (now : ℕ) (b : Budget) (c : Cell) (d : Result (A × Option Budget))
      → decision f now b ≡ d
      → Stepped f now b c (apply c d).1
  apply-Stepped f now b c (raise e) h = inl refl
  apply-Stepped f now b c (ok (a, none)) h = inl refl
  apply-Stepped f now b c (ok (a, some b')) h = inr (a, b', h, refl)

  pub decide-stored :
      (f : Transform A) (now : ℕ) (project : String) (b : Budget)
      → check_budget now project b ≡ ok tt
      → decide f now project (stored b) ≡ decision f now b
  unfolding decide read_record decision
  decide-stored f now project b h = rw h refl

  pub decide-refused :
      (f : Transform A) (now : ℕ) (project : String) (b : Budget) (e : Error)
      → check_budget now project b ≡ raise e
      → decide f now project (stored b) ≡ raise e
  unfolding decide read_record
  decide-refused f now project b e h = rw h refl

  atomic-Stepped :
      (f : Transform A) (project : String) (now : ℕ) (c : Cell) (b : Budget)
      → c.document ≡ stored b
      → Stepped f now b c (atomic f project now c).1
  unfolding atomic
  atomic-Stepped f project now c b h = elim (checks-cases (check_budget now project b)) [
    | inl passed ↦
        let decided = ap (decide f now project) h ∙ decide-stored f now project b passed in
        rw decided (apply-Stepped f now b c (decision f now b) refl)
    | inr (e, refused) ↦
        let decided = ap (decide f now project) h ∙ decide-refused f now project b e refused in
        rw decided (inl refl)
  ]

Op-Stores :
    (Q : Budget → Type 0) (allowed : Op → Bool)
    → Kept Q allowed
    → (project : String) (now : ℕ) (op : Op) (c : Cell) → allowed op ≡ true
    → Stores Q c
    → Stores Q (step project now op c)
unfolding step decision
Op-Stores Q allowed kept project now (op_reserve who token) c within (b, h, q) =
    elim (atomic-Stepped (acquiring who token) project now c b h) [
      | inl same ↦ rw same (b, h, q)
      | inr (a, b', decided, wrote) ↦
          rw wrote (b', refl, kept.reserves now who token b a b' within q (cc decided))
    ]
Op-Stores Q allowed kept project now (op_finish who token) c within (b, h, q) =
    elim (atomic-Stepped (completing who token) project now c b h) [
      | inl same ↦ rw same (b, h, q)
      | inr (_, b', decided, wrote) ↦
          rw wrote (b', refl, kept.finishes now who token b b' within q decided)
    ]

-- Every call of a history passes the test.
unfoldable pub all_ops : (Op → Bool) → List (ℕ × Op) → Bool
all_ops allowed [] = true
all_ops allowed ((_, op) ∷ rest) = allowed op && all_ops allowed rest

pub run-Stores :
    (Q : Budget → Type 0) (allowed : Op → Bool)
    → Kept Q allowed
    → (project : String) (history : List (ℕ × Op)) (c : Cell) → all_ops allowed history ≡ true
    → Stores Q c
    → Stores Q (run project history c)
unfolding run all_ops
run-Stores Q allowed kept project [] c within s = s
run-Stores Q allowed kept project ((now, op) ∷ rest) c within s =
    let (first, later) = and_true (allowed op) (all_ops allowed rest) within in
    run-Stores Q allowed kept project rest (step project now op c) later
      (Op-Stores Q allowed kept project now op c first s)

-- The next permit is due at a time or later.
abbrev pub DueFrom : ℕ → Budget → Type 0
DueFrom n b = n ≤ b.next_due

settle-DueFrom :
    (n now : ℕ) (who token : String) (r : Budget) (attempts : List Permit) (waiters : List Waiter)
    (index : ℕ) (a : Reservation) (b : Budget)
    → DueFrom n r
    → settle now who token r attempts waiters index ≡ (a, some b)
    → DueFrom n b
unfolding with_grant
settle-DueFrom n now who token r attempts waiters index a b due h =
    elim (settle_cases now who token r attempts waiters index a b h) [
      | inl (wrote, _, _, past, _) ↦ rw wrote (omega (arith, due, past))
      | inr (wrote, _) ↦ rw wrote due
    ]

-- A property that the two ways to settle keep, the writes of `reserve` keep.
pub acquire_cases :
    (Q : Budget → Type 0) (now : ℕ) (who token : String) (r : Budget) (attempts : List Permit)
    (waiters : List Waiter) (a : Reservation) (b : Budget)
    → ((waiters' : List Waiter) (index : ℕ)
        → settle now who token r attempts waiters' index ≡ (a, some b)
        → Q b)
    → acquire now who token r attempts waiters ≡ (a, some b)
    → Q b
unfolding acquire
acquire_cases Q now who token r attempts waiters a b settled h =
    elim (Bool-cases (has_pending who attempts)) [
      | inl held ↦ absurd (cc (rw held at h))
      | inr free ↦ elim (Option-cases (index_of who waiters)) [
        | inl absent ↦ elim (Bool-cases (leb max_waiters (length waiters))) [
          | inl full ↦ absurd (cc (rw (free, absent, acquire, full) at h))
          | inr room ↦
              settled (waiters ++ new_waiter now who ∷ []) (length waiters)
                (rw (free, absent, acquire, room) at h)
        ]
        | inr (i, standing) ↦ settled (touch now i waiters) i (rw (free, standing, acquire) at h)
      ]
    ]

pub DueFrom-Kept : (n : ℕ) → Kept (DueFrom n) (λ op. true)
DueFrom-Kept n = record {
  reserves = λ now who token r a b within due h.
      acquire_cases (DueFrom n) now who token r (charged now r.attempts) (alive now r.waiters) a b
        (λ ws i settled.
          settle-DueFrom n now who token r (charged now r.attempts) ws i a b due settled)
        h;
  finishes = λ now who token r b within due h.
      rw (completed_budget now who token r (charged now r.attempts) (alive now r.waiters) b h) due;
}
