-- ===== src/LogBudget/Turn.antt =====
-- When `reserve` grants a permit, and what it answers otherwise.
use gcp_engineering_platform.Base.{
  ℕ, suc, ◌+◌, ◌≤◌, ◌<◌, String, Bool, true, false, ◌&&◌, not, List, [], ◌∷◌, ◌++◌, ◌==◌, ltb, leb,
  nat_eq, Option, none, some, ◌≡◌, ◌↔◌, inl, inr, refl, arith, eq_iff, eq_refl, Bool-cases,
  Option-cases,
}
use gcp_engineering_platform.LogBudget.Record.{
  Permit, Waiter, Budget, length, max_attempts, max_waiters, cadence_seconds,
}
use gcp_engineering_platform.LogBudget.Permits.{
  Reservation, min, max, has_pending, index_of, touch, new_waiter, settle, acquire, queued,
  wait_seconds,
}

-- The participant is the first waiter, or would be.
abbrev pub IsFirst : String → List Waiter → Type 0
IsFirst who [] = Unit
IsFirst who (w ∷ ws) = w.participant ≡ who

-- It is the participant's turn.
abbrev pub IsTurn : ℕ → String → Budget → List Permit → List Waiter → Type 0
IsTurn now who r attempts waiters =
    (has_pending who attempts ≡ false)
    × IsFirst who waiters
    × (r.next_due ≤ now)
    × (length attempts < max_attempts)

pub settle_allowed :
    (now : ℕ) (who token : String) (r : Budget) (attempts : List Permit) (waiters : List Waiter)
    (index : ℕ)
    → (settle now who token r attempts waiters index).0.allowed
      ≡ (nat_eq index 0 && (leb r.next_due now && ltb (length attempts) max_attempts))
unfolding settle queued
settle_allowed now who token r attempts waiters index = ground arith

-- The answer of a call of a participant without a pending permit.
answer : ℕ → Budget → List Permit → List Waiter → Option ℕ → Bool
answer now r attempts waiters (some i) =
    nat_eq i 0 && (leb r.next_due now && ltb (length attempts) max_attempts)
answer now r attempts waiters none =
    not (leb max_waiters (length waiters))
    && (nat_eq (length waiters) 0 && (leb r.next_due now && ltb (length attempts) max_attempts))

acquire_allowed :
    (now : ℕ) (who token : String) (r : Budget) (attempts : List Permit) (waiters : List Waiter)
    → (acquire now who token r attempts waiters).0.allowed
      ≡ (not (has_pending who attempts) && answer now r attempts waiters (index_of who waiters))
unfolding acquire answer
acquire_allowed now who token r attempts waiters = elim (Bool-cases (has_pending who attempts)) [
  | inl held ↦ rw held
  | inr free ↦ elim (Option-cases (index_of who waiters)) [
    | inl absent ↦ elim (Bool-cases (leb max_waiters (length waiters))) [
      | inl full ↦ rw (free, absent, full) refl
      | inr room ↦
          rw (free, absent, room)
            (settle_allowed now who token r attempts (waiters ++ new_waiter now who ∷ [])
              (length waiters))
    ]
    | inr (i, standing) ↦
        rw (free, standing) (settle_allowed now who token r attempts (touch now i waiters) i)
  ]
]

answer-IsFirst :
    (now : ℕ) (who : String) (r : Budget) (attempts : List Permit) (waiters : List Waiter)
    → answer now r attempts waiters (index_of who waiters) ≡ true
    → IsFirst who waiters × (r.next_due ≤ now) × (length attempts < max_attempts)
unfolding answer index_of
answer-IsFirst now who r attempts [] h = (tt, ground (arith, h), ground (arith, h))
answer-IsFirst now who r attempts (w ∷ ws) h = elim (Bool-cases (w.participant == who)) [
  | inl same ↦ (
    (eq_iff w.participant who).0 same,
    ground (arith, rw same at h),
    ground (arith, rw same at h),
  )
  | inr other ↦ absurd (later (index_of who ws) (rw other at h))
]
  where
    later :
        (o : Option ℕ)
        → answer now r attempts (w ∷ ws) (elim o [ none ↦ none | some i ↦ some (suc i) ]) ≡ true
        → ⊥
    later none h = ground (arith, h)
    later (some i) h = ground (arith, h)

IsFirst-answer :
    (now : ℕ) (who : String) (r : Budget) (attempts : List Permit) (waiters : List Waiter)
    → IsFirst who waiters
    → r.next_due ≤ now
    → length attempts < max_attempts
    → answer now r attempts waiters (index_of who waiters) ≡ true
unfolding answer index_of
IsFirst-answer now who r attempts [] first past short = ground (arith, past, short)
IsFirst-answer now who r attempts (w ∷ ws) first past short =
    rw (first, eq_refl) (ground (arith, past, short))

-- A call of `reserve` is granted a permit exactly when its participant has no pending permit, is the
-- first of the waiters that are alive or finds none, the next permit is due, and fewer than 12 are
-- charged. So no one overtakes the first waiter, and the first waiter is not refused its turn.
pub grants_in_order :
    (now : ℕ) (who token : String) (r : Budget) (attempts : List Permit) (waiters : List Waiter)
    → ((acquire now who token r attempts waiters).0.allowed ≡ true)
      ↔ IsTurn now who r attempts waiters
grants_in_order now who token r attempts waiters = (
  λ h.
      let both = rw (acquire_allowed now who token r attempts waiters) at h in
      let (first, past, short) = answer-IsFirst now who r attempts waiters (ground (arith, both)) in
      (ground (arith, both), first, past, short),
  λ turn.
      let yes_answer = IsFirst-answer now who r attempts waiters turn.1 turn.2 turn.3 in
      rw (acquire_allowed now who token r attempts waiters, turn.0, yes_answer) refl,
)

-- The answer to a participant that waits at a position.
abbrev pub Told : ℕ → Budget → List Permit → Reservation → ℕ → Type 0
Told now r attempts a position =
    (1 ≤ position)
    × (position ≤ max_waiters)
    × (cadence_seconds ≤ a.next_poll_seconds)
    × (a.next_poll_seconds ≤ 10)
    × (a.queue_wait_seconds ≡ some (wait_seconds now r.next_due attempts position))

polls_between :
    (wait : ℕ)
    → (cadence_seconds ≤ max cadence_seconds (min 10 wait))
      × (max cadence_seconds (min 10 wait) ≤ 10)
polls_between wait = (ground arith, ground arith)

settle-Told :
    (now : ℕ) (who token : String) (r : Budget) (attempts : List Permit) (waiters : List Waiter)
    (index position : ℕ)
    → index < max_waiters
    → (settle now who token r attempts waiters index).0.queue_position ≡ some position
    → Told now r attempts (settle now who token r attempts waiters index).0 position
unfolding settle queued
settle-Told now who token r attempts waiters index position room h =
    elim (Bool-cases
      (nat_eq index 0 && (leb r.next_due now && ltb (length attempts) max_attempts))) [
        | inl turn ↦ absurd (cc (rw turn at h))
        | inr waits ↦
            let same : index + 1 ≡ position = cc (rw waits at h) in
            rw (waits, ← same)
              (
                omega arith,
                omega (arith, room),
                (polls_between (wait_seconds now r.next_due attempts (index + 1))).0,
                (polls_between (wait_seconds now r.next_due attempts (index + 1))).1,
                refl,
              )
      ]

index_of-lt-length :
    (who : String) (waiters : List Waiter) (i : ℕ)
    → index_of who waiters ≡ some i
    → i < length waiters
unfolding index_of
index_of-lt-length who [] i h = cc
index_of-lt-length who (w ∷ ws) i h = elim (Option-cases (index_of who ws)) [
  | inl absent ↦ ground (arith, h, absent)
  | inr (k, standing) ↦ ground (arith, h, standing, index_of-lt-length who ws k standing)
]

-- A participant that is told a position in the queue is told one between 1 and the limit of waiters,
-- to poll again after 5 to 10 seconds, and the seconds that `_wait_seconds` computes for it.
pub queue_answer :
    (now : ℕ) (who token : String) (r : Budget) (attempts : List Permit) (waiters : List Waiter)
    (position : ℕ)
    → length waiters ≤ max_waiters
    → (acquire now who token r attempts waiters).0.queue_position ≡ some position
    → Told now r attempts (acquire now who token r attempts waiters).0 position
unfolding acquire
queue_answer now who token r attempts waiters position within h =
    elim (Bool-cases (has_pending who attempts)) [
      | inl held ↦ absurd (cc (rw held at h))
      | inr free ↦ elim (Option-cases (index_of who waiters)) [
        | inl absent ↦ elim (Bool-cases (leb max_waiters (length waiters))) [
          | inl full ↦ absurd (cc (rw (free, absent, acquire, full) at h))
          | inr room ↦
              rw (free, absent, acquire, room)
                (settle-Told now who token r attempts (waiters ++ new_waiter now who ∷ [])
                  (length waiters) position (ground (arith, room))
                  (rw (free, absent, acquire, room) at h))
        ]
        | inr (i, standing) ↦
            rw (free, standing, acquire)
              (settle-Told now who token r attempts (touch now i waiters) i position
                (omega (arith, index_of-lt-length who waiters i standing, within))
                (rw (free, standing, acquire) at h))
      ]
    ]
