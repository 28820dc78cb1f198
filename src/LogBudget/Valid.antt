-- ===== src/LogBudget/Valid.antt =====
-- The checks of `_record` in src/eng_platform_api/services/log_budget.py on permits that are kept,
-- appended and completed.
use gcp_engineering_platform.Base.{
  ℕ, ◌≤◌, String, Bool, true, false, ◌||◌, List, [], ◌∷◌, ◌++◌, ◌==◌, elem, if◌then◌else◌, some,
  ◌≡◌, inl, inr, refl, arith, Bool-cases, Option-cases,
}
use gcp_engineering_platform.Python.Raise.{ok, >>-ok}
use gcp_engineering_platform.LogBudget.Record.{
  Permit, is_token, is_participant, check_completion, check_permit, check_permits, is_pending,
  is_charged, charged,
}
use gcp_engineering_platform.LogBudget.Permits.{has_pending, new_permit, complete_at}

-- What the first list does not hold, the second does not hold.
abbrev pub Fewer : List String → List String → Type 0
Fewer xs ys = (t : String) → elem t xs ≡ false → elem t ys ≡ false

Fewer-cons : (u : String) (xs ys : List String) → Fewer xs ys → Fewer (u ∷ xs) (u ∷ ys)
Fewer-cons u xs ys f t h = ground (arith, h, f t)

Fewer-more : (u : String) (xs ys : List String) → Fewer xs ys → Fewer (u ∷ xs) ys
Fewer-more u xs ys f t h = ground (arith, h, f t)

-- A permit that was accepted is accepted later, and among fewer others.
check_permit-later :
    (now now' : ℕ) (seen seen' pending pending' : List String) (p : Permit)
    → now ≤ now'
    → Fewer seen seen'
    → Fewer pending pending'
    → check_permit now seen pending p ≡ ok tt
    → check_permit now' seen' pending' p ≡ ok tt
unfolding check_permit check_completion
check_permit-later now now' seen seen' pending pending' p later fewer fewer' h =
    elim (Option-cases p.completed_at) [
      | inl open_permit ↦
          rw open_permit (ground (arith, rw open_permit at h, fewer p.token, fewer' p.participant))
      | inr (t, closed) ↦ rw closed (ground (arith, rw closed at h, fewer p.token))
    ]

-- `pending` after a permit.
abbrev pub pending_after : Permit → List String → List String
pending_after p pending = if is_pending p then p.participant ∷ pending else pending

Fewer-pending_after :
    (p : Permit) (xs ys : List String)
    → Fewer xs ys
    → Fewer (pending_after p xs) (pending_after p ys)
Fewer-pending_after p xs ys f = elim (Bool-cases (is_pending p)) [
  | inl open_permit ↦ rw open_permit (Fewer-cons p.participant xs ys f)
  | inr closed ↦ rw closed f
]

-- The checks of a list of permits succeed, and leave no more than the given pending participants.
abbrev pub Accepted : ℕ → List String → List String → List Permit → List String → Type 0
Accepted now seen pending ps q =
    (q' : List String) × (check_permits now seen pending ps ≡ ok q') × Fewer q q'

Accepted-cons :
    (now : ℕ) (seen pending : List String) (p : Permit) (ps : List Permit) (q : List String)
    → check_permit now seen pending p ≡ ok tt
    → Accepted now (p.token ∷ seen) (pending_after p pending) ps q
    → Accepted now seen pending (p ∷ ps) q
unfolding check_permits
Accepted-cons now seen pending p ps q h (q', rest, fewer) = (q', rw (h, rest) refl, fewer)

not_charged : (at : ℕ) (p : Permit) → is_charged at p ≡ false → is_pending p ≡ false
unfolding is_charged
not_charged at p h = ground (arith, h)

-- What is still charged of accepted permits is accepted later.
pub charged-Accepted :
    (now now' at : ℕ) (seen seen' pending pending' : List String) (ps : List Permit)
    (q : List String)
    → now ≤ now'
    → Fewer seen seen'
    → Fewer pending pending'
    → check_permits now seen pending ps ≡ ok q
    → Accepted now' seen' pending' (charged at ps) q
unfolding check_permits charged
charged-Accepted now now' at seen seen' pending pending' [] q later fewer fewer' h =
    (pending', refl, λ t e. fewer' t (ground (arith, h, e)))
charged-Accepted now now' at seen seen' pending pending' (p ∷ ps) q later fewer fewer' h =
    let (first, rest) = >>-ok (check_permit now seen pending p) _ h in
    elim (Bool-cases (is_charged at p)) [
      | inl kept ↦ rw kept (
          Accepted-cons now' seen' pending' p (charged at ps) q
            (check_permit-later now now' seen seen' pending pending' p later fewer fewer' first)
            (charged-Accepted now now' at (p.token ∷ seen) (p.token ∷ seen')
              (pending_after p pending) (pending_after p pending') ps q later
              (Fewer-cons p.token seen seen' fewer) (Fewer-pending_after p pending pending' fewer')
              rest))
      | inr dropped ↦ rw dropped (
          charged-Accepted now now' at (p.token ∷ seen) seen' pending pending' ps q later
            (Fewer-more p.token seen seen' fewer) fewer' (rw (not_charged at p dropped) at rest))
    ]

-- A permit appended to accepted ones.
unfoldable pub has_token : String → List Permit → Bool
has_token token [] = false
has_token token (p ∷ ps) = (p.token == token) || has_token token ps

check_new :
    (now now' : ℕ) (seen q : List String) (who token : String)
    → now ≤ now'
    → is_token token ≡ true
    → is_participant who ≡ true
    → elem token seen ≡ false
    → elem who q ≡ false
    → check_permit now' seen q (new_permit now who token) ≡ ok tt
unfolding check_permit check_completion
check_new now now' seen q who token later valid valid' fresh free = ground arith

pub append-Accepted :
    (now now' : ℕ) (seen pending : List String) (ps : List Permit) (q : List String)
    (who token : String)
    → now ≤ now'
    → is_token token ≡ true
    → is_participant who ≡ true
    → has_token token ps ≡ false
    → elem token seen ≡ false
    → elem who q ≡ false
    → check_permits now' seen pending ps ≡ ok q
    → check_permits now' seen pending (ps ++ new_permit now who token ∷ []) ≡ ok (who ∷ q)
unfolding check_permits has_token
append-Accepted now now' seen pending [] q who token later valid valid' fresh unseen free h =
    let same : pending ≡ q = cc h in
    rw (same, check_new now now' seen q who token later valid valid' unseen free) refl
append-Accepted now now' seen pending (p ∷ ps) q who token later valid valid' fresh unseen free h =
    let (first, rest) = >>-ok (check_permit now' seen pending p) _ h in
    rw first (
      append-Accepted now now' (p.token ∷ seen) (pending_after p pending) ps q who token later valid
        valid' (ground (arith, fresh)) (ground (arith, fresh, unseen)) free rest)

-- Accepted permits are accepted later and among fewer others.
pub later-Accepted :
    (now now' : ℕ) (seen seen' pending pending' : List String) (ps : List Permit) (q : List String)
    → now ≤ now'
    → Fewer seen seen'
    → Fewer pending pending'
    → check_permits now seen pending ps ≡ ok q
    → Accepted now' seen' pending' ps q
unfolding check_permits
later-Accepted now now' seen seen' pending pending' [] q later fewer fewer' h =
    (pending', refl, λ t e. fewer' t (ground (arith, h, e)))
later-Accepted now now' seen seen' pending pending' (p ∷ ps) q later fewer fewer' h =
    let (first, rest) = >>-ok (check_permit now seen pending p) _ h in
    Accepted-cons now' seen' pending' p ps q
      (check_permit-later now now' seen seen' pending pending' p later fewer fewer' first)
      (later-Accepted now now' (p.token ∷ seen) (p.token ∷ seen') (pending_after p pending)
        (pending_after p pending') ps q later (Fewer-cons p.token seen seen' fewer)
        (Fewer-pending_after p pending pending' fewer') rest)

check_completed :
    (now : ℕ) (seen pending pending' : List String) (p : Permit)
    → check_permit now seen pending p ≡ ok tt
    → check_permit now seen pending' (record p { completed_at = some now }) ≡ ok tt
unfolding check_permit check_completion
check_completed now seen pending pending' p h = ground arith

Fewer-after : (p : Permit) (xs ys : List String) → Fewer xs ys → Fewer (pending_after p xs) ys
Fewer-after p xs ys f = elim (Bool-cases (is_pending p)) [
  | inl open_permit ↦ rw open_permit (Fewer-more p.participant xs ys f)
  | inr closed ↦ rw closed f
]

-- Completing a permit keeps the rest accepted.
pub complete-Accepted :
    (now : ℕ) (seen pending pending' : List String) (token : String) (ps : List Permit)
    (q : List String)
    → Fewer pending pending'
    → check_permits now seen pending ps ≡ ok q
    → Accepted now seen pending' (complete_at now token ps) q
unfolding check_permits complete_at
complete-Accepted now seen pending pending' token [] q fewer h =
    (pending', refl, λ t e. fewer t (ground (arith, h, e)))
complete-Accepted now seen pending pending' token (p ∷ ps) q fewer h =
    let (first, rest) = >>-ok (check_permit now seen pending p) _ h in
    elim (Bool-cases (p.token == token)) [
      | inl here ↦ rw here (
          Accepted-cons now seen pending' (record p { completed_at = some now }) ps q
            (check_completed now seen pending pending' p first)
            (later-Accepted now now (p.token ∷ seen) (p.token ∷ seen) (pending_after p pending)
              pending' ps q (omega arith) (λ t e. e) (Fewer-after p pending pending' fewer) rest))
      | inr other ↦ rw other (
          Accepted-cons now seen pending' p (complete_at now token ps) q
            (check_permit-later now now seen seen pending pending' p (omega arith) (λ t e. e) fewer
              first)
            (complete-Accepted now (p.token ∷ seen) (pending_after p pending)
              (pending_after p pending') token ps q (Fewer-pending_after p pending pending' fewer)
              rest))
    ]

-- A participant without a pending permit is not among those that the checks leave pending.
pub not_pending :
    (now : ℕ) (seen pending : List String) (who : String) (ps : List Permit) (q : List String)
    → has_pending who ps ≡ false
    → elem who pending ≡ false
    → check_permits now seen pending ps ≡ ok q
    → elem who q ≡ false
unfolding has_pending check_permits
not_pending now seen pending who [] q none_pending free h = ground (arith, h, free)
not_pending now seen pending who (p ∷ ps) q none_pending free h =
    let (first, rest) = >>-ok (check_permit now seen pending p) _ h in
    not_pending now (p.token ∷ seen) (pending_after p pending) who ps q
      (ground (arith, none_pending)) (ground (arith, none_pending, free)) rest
