-- ===== src/LogBudget/Writes.antt =====
-- What `reserve` and `finish` write in place of the record that they read.
use gcp_engineering_platform.Base.{
  ℕ, ◌≤◌, ◌<◌, String, true, false, ◌&&◌, not, List, [], ◌∷◌, ◌++◌, ◌==◌, ltb, leb, nat_eq, none,
  some, ◌≡◌, ◌⊎◌, inl, inr, refl, arith, eq_iff, Bool-cases, Option-cases,
}
use gcp_engineering_platform.Python.Raise.{ok}
use gcp_engineering_platform.LogBudget.Record.{
  Permit, Waiter, Budget, Stored, stored, length, max_attempts, max_waiters, is_token,
  is_participant, charged, alive, read_record, is_pending,
}
use gcp_engineering_platform.LogBudget.Permits.{
  Reservation, has_pending, index_of, touch, new_waiter, new_permit, tail, refreshed, with_grant,
  settle, acquire, find_permit, complete_at, complete, queued, granted, same_budget,
}
use gcp_engineering_platform.LogBudget.Valid.{
  has_token, append-Accepted, complete-Accepted, not_pending,
}
use gcp_engineering_platform.LogBudget.Queue.{
  check_waiters-later, check_waiters-touch, check_waiters-join, check_waiters-tail,
}
use gcp_engineering_platform.LogBudget.Invariant.{
  IsSound, IsOurs, read-IsSound, IsSound-check_budget, length-append, length-touch,
  length-complete_at,
}

-- The two ways in which a waiting participant's call ends that replaces the record.
pub settle_cases :
    (now : ℕ) (who token : String) (r : Budget) (attempts : List Permit) (waiters : List Waiter)
    (index : ℕ) (a : Reservation) (b : Budget)
    → settle now who token r attempts waiters index ≡ (a, some b)
    → ((b ≡ with_grant now who token r attempts waiters)
        × (a ≡ granted now token)
        × (index ≡ 0)
        × (r.next_due ≤ now)
        × (length attempts < max_attempts))
      ⊎ ((b ≡ refreshed now r attempts waiters) × (a.allowed ≡ false))
unfolding settle queued
settle_cases now who token r attempts waiters index a b h =
    elim (Bool-cases
      (nat_eq index 0 && (leb r.next_due now && ltb (length attempts) max_attempts))) [
        | inl turn ↦ inl (
          cc (rw turn at h),
          cc (rw turn at h),
          ground (arith, turn),
          ground (arith, turn),
          ground (arith, turn),
        )
        | inr waits ↦ elim (Bool-cases (same_budget (refreshed now r attempts waiters) r)) [
          | inl same ↦ absurd (cc (rw (waits, same) at h))
          | inr changed ↦
              inr (cc (rw (waits, changed) at h), ground (arith, rw (waits, changed) at h))
        ]
      ]

-- The first waiter's permit.
grant-IsSound :
    (now : ℕ) (who token : String) (attempts : List Permit) (w : Waiter) (ws : List Waiter)
    → IsSound now attempts (w ∷ ws)
    → w.participant ≡ who
    → length attempts < max_attempts
    → is_token token ≡ true
    → is_participant who ≡ true
    → has_token token attempts ≡ false
    → has_pending who attempts ≡ false
    → IsSound now (attempts ++ new_permit now who token ∷ []) ws
grant-IsSound now who token attempts w ws s same short valid valid' fresh free = record {
  permits = omega (arith, length-append {0} attempts (new_permit now who token ∷ []), short);
  queue = omega (arith, s.queue);
  pending = who ∷ s.pending;
  checked =
      append-Accepted now now [] [] attempts s.pending who token (omega arith) valid valid' fresh
        refl (not_pending now [] [] who attempts s.pending free refl s.checked) s.checked;
  waiting = rw (← same) (check_waiters-tail now s.pending w ws s.waiting);
}

-- The queue in which the participant waits at an index, with the participant first at 0.
abbrev Stands : String → List Waiter → ℕ → Type 0
Stands who waiters index =
    index ≡ 0 → (w : Waiter) × (ws : List Waiter) × (waiters ≡ w ∷ ws) × (w.participant ≡ who)

-- A budget that every later read accepts.
abbrev Lasting : ℕ → String → Budget → Type 0
Lasting now project b = (b.updated_at ≤ now) × IsOurs project b × IsSound now b.attempts b.waiters

settle-Lasting :
    (now : ℕ) (project who token : String) (r : Budget) (attempts : List Permit)
    (waiters : List Waiter) (index : ℕ) (a : Reservation) (b : Budget)
    → IsOurs project r
    → IsSound now attempts waiters
    → Stands who waiters index
    → is_token token ≡ true
    → is_participant who ≡ true
    → has_token token attempts ≡ false
    → has_pending who attempts ≡ false
    → settle now who token r attempts waiters index ≡ (a, some b)
    → Lasting now project b
unfolding with_grant tail
settle-Lasting now project who token r attempts waiters index a b ours s stands valid valid' fresh
      free h =
    elim (settle_cases now who token r attempts waiters index a b h) [
      | inl (written, _, first, _, short) ↦
          let (w, ws, queue, same) = stands first in
          rw written (
            omega arith,
            ours,
            rw queue (
                grant-IsSound now who token attempts w ws (rw queue at s) same short valid valid'
                  fresh free),
          )
      | inr (written, _) ↦ rw written (omega arith, ours, s)
    ]

touch-IsSound :
    (now i : ℕ) (attempts : List Permit) (waiters : List Waiter)
    → IsSound now attempts waiters
    → IsSound now attempts (touch now i waiters)
touch-IsSound now i attempts waiters s = record {
  permits = s.permits;
  queue = omega (arith, length-touch now i waiters, s.queue);
  pending = s.pending;
  checked = s.checked;
  waiting = check_waiters-touch now s.pending [] 0 i waiters s.waiting;
}

join-IsSound :
    (now : ℕ) (who : String) (attempts : List Permit) (waiters : List Waiter)
    → IsSound now attempts waiters
    → is_participant who ≡ true
    → index_of who waiters ≡ none
    → has_pending who attempts ≡ false
    → length waiters < max_waiters
    → IsSound now attempts (waiters ++ new_waiter now who ∷ [])
join-IsSound now who attempts waiters s valid absent free room = record {
  permits = s.permits;
  queue = omega (arith, length-append {0} waiters (new_waiter now who ∷ []), room);
  pending = s.pending;
  checked = s.checked;
  waiting =
      check_waiters-join now s.pending [] 0 waiters who (omega arith) valid absent refl
        (not_pending now [] [] who attempts s.pending free refl s.checked) s.waiting;
}

touch-Stands :
    (now i : ℕ) (who : String) (waiters : List Waiter)
    → index_of who waiters ≡ some i
    → Stands who (touch now i waiters) i
unfolding index_of touch
touch-Stands now i who [] h first = cc
touch-Stands now i who (w ∷ ws) h first = (
  record w { last_seen_at = now },
  ws,
  rw first refl,
  elim (Bool-cases (w.participant == who)) [
    | inl same ↦ (eq_iff w.participant who).0 same
    | inr other ↦ absurd (ground (arith, h, first, other))
  ],
)

join-Stands :
    (now : ℕ) (who : String) (waiters : List Waiter)
    → Stands who (waiters ++ new_waiter now who ∷ []) (length waiters)
join-Stands now who [] first = (new_waiter now who, [], refl, refl)
join-Stands now who (w ∷ ws) first = absurd (omega (arith, first))

acquire-Lasting :
    (now : ℕ) (project who token : String) (r : Budget) (attempts : List Permit)
    (waiters : List Waiter) (a : Reservation) (b : Budget)
    → IsOurs project r
    → IsSound now attempts waiters
    → is_token token ≡ true
    → is_participant who ≡ true
    → has_token token attempts ≡ false
    → acquire now who token r attempts waiters ≡ (a, some b)
    → Lasting now project b
unfolding acquire
acquire-Lasting now project who token r attempts waiters a b ours s valid valid' fresh h =
    elim (Bool-cases (has_pending who attempts)) [
      | inl held ↦ absurd (cc (rw held at h))
      | inr free ↦ elim (Option-cases (index_of who waiters)) [
        | inl absent ↦ elim (Bool-cases (leb max_waiters (length waiters))) [
          | inl full ↦ absurd (cc (rw (free, absent, acquire, full) at h))
          | inr room ↦
              settle-Lasting now project who token r attempts (waiters ++ new_waiter now who ∷ [])
                (length waiters) a b ours
                (join-IsSound now who attempts waiters s valid' absent free (ground (arith, room)))
                (join-Stands now who waiters) valid valid' fresh free
                (rw (free, absent, acquire, room) at h)
        ]
        | inr (i, standing) ↦
            settle-Lasting now project who token r attempts (touch now i waiters) i a b ours
              (touch-IsSound now i attempts waiters s) (touch-Stands now i who waiters standing)
              valid valid' fresh free (rw (free, standing, acquire) at h)
      ]
    ]

pub completed_budget :
    (now : ℕ) (who token : String) (r : Budget) (attempts : List Permit) (waiters : List Waiter)
    (b : Budget)
    → complete now who token r attempts waiters ≡ ok (tt, some b)
    → b ≡ refreshed now r (complete_at now token attempts) waiters
unfolding complete
completed_budget now who token r attempts waiters b h =
    elim (Option-cases (find_permit token attempts)) [
      | inl absent ↦ absurd (cc (rw (absent, complete) at h))
      | inr (p, found) ↦ elim (Bool-cases (not (p.participant == who))) [
        | inl stranger ↦ absurd (cc (rw (found, complete, stranger) at h))
        | inr owner ↦ elim (Bool-cases (is_pending p)) [
          | inl open_permit ↦ cc (rw (found, complete, owner, open_permit) at h)
          | inr closed ↦ absurd (cc (rw (found, complete, owner, closed) at h))
        ]
      ]
    ]

complete-Lasting :
    (now : ℕ) (project who token : String) (r : Budget) (attempts : List Permit)
    (waiters : List Waiter) (b : Budget)
    → IsOurs project r
    → IsSound now attempts waiters
    → complete now who token r attempts waiters ≡ ok (tt, some b)
    → Lasting now project b
complete-Lasting now project who token r attempts waiters b ours s h =
    let (q, checked, fewer) =
      complete-Accepted now [] [] [] token attempts s.pending (λ t e. e) s.checked in
    rw (completed_budget now who token r attempts waiters b h) (
      omega arith,
      ours,
      record {
        permits = omega (arith, length-complete_at now token attempts, s.permits);
        queue = s.queue;
        pending = q;
        checked = checked;
        waiting =
            check_waiters-later now now s.pending [] q [] 0 0 waiters (omega arith) (omega arith)
              (λ t free unseen. (fewer t free, unseen)) s.waiting;
      },
    )

-- A budget that `reserve` writes, with a valid token that no charged permit has, is accepted by
-- every read at the same time or later: neither its own checks nor those of another process refuse
-- a record of this program.
pub reserve_writes_valid :
    (now now' : ℕ) (project who token : String) (d : Stored) (r b : Budget) (attempts : List Permit)
    (waiters : List Waiter) (a : Reservation)
    → read_record now project d ≡ ok (r, attempts, waiters)
    → acquire now who token r attempts waiters ≡ (a, some b)
    → is_token token ≡ true
    → is_participant who ≡ true
    → has_token token attempts ≡ false
    → now ≤ now'
    → read_record now' project (stored b) ≡ ok (b, charged now' b.attempts, alive now' b.waiters)
unfolding read_record
reserve_writes_valid now now' project who token d r b attempts waiters a read h valid valid' fresh
      later =
    let (ours, s) = read-IsSound now project d r attempts waiters read in
    let (updated, ours', s') =
      acquire-Lasting now project who token r attempts waiters a b ours s valid valid' fresh h in
    rw (IsSound-check_budget now now' project b later updated ours' s') refl

-- A budget that `finish` writes is accepted by every read at the same time or later.
pub finish_writes_valid :
    (now now' : ℕ) (project who token : String) (d : Stored) (r b : Budget) (attempts : List Permit)
    (waiters : List Waiter)
    → read_record now project d ≡ ok (r, attempts, waiters)
    → complete now who token r attempts waiters ≡ ok (tt, some b)
    → now ≤ now'
    → read_record now' project (stored b) ≡ ok (b, charged now' b.attempts, alive now' b.waiters)
unfolding read_record
finish_writes_valid now now' project who token d r b attempts waiters read h later =
    let (ours, s) = read-IsSound now project d r attempts waiters read in
    let (updated, ours', s') =
      complete-Lasting now project who token r attempts waiters b ours s h in
    rw (IsSound-check_budget now now' project b later updated ours' s') refl
