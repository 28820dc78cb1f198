-- ===== src/LogBudget/Atomic.antt =====
-- `_compare_and_swap` of src/eng_platform_api/services/log_budget.py beside one atomic step.
use gcp_engineering_platform.Base.{
  ℕ, String, Bool, true, false, ◌||◌, List, [], ◌∷◌, Option, none, some, ◌≡◌, inl, inr, refl, sym,
  ap, arith, Bool-cases,
}
use gcp_engineering_platform.Python.Raise.{Result, ok, raise}
use gcp_engineering_platform.LogBudget.Record.{Budget, Stored, missing, malformed, stored}
use gcp_engineering_platform.LogBudget.Swap.{
  Cell, Transform, deciding, writing, reading, recording, replying, Reply, replied, lost,
  lost_after_write, Round, is_late, is_missing, accepts, written, Outcome, done, conflict, decide,
  finish_write, decided_round, resume, round, swap_rounds, compare_and_swap,
}

-- A move of other clients: a write changes the revision.
abbrev pub Honest : (Cell → Cell) → Type 0
Honest m = (c : Cell) → (m c).revision ≡ c.revision → m c ≡ c

-- Other clients keep a property of the document.
pub record Rely (P : Cell → Type 0) (T : ℕ → Type 0) (r : Round) : Type 0 where
  pub before_keeps : (c : Cell) → P c → P (r.before c)
  pub between_keeps : (c : Cell) → P c → P (r.between c)
  pub between_honest : Honest r.between
  pub timely : T r.now

abbrev pub RelyAll : (Cell → Type 0) → (ℕ → Type 0) → List Round → Type 0
RelyAll P T [] = Unit
RelyAll P T (r ∷ rs) = Rely P T r × RelyAll P T rs

-- An accepted write finds the document that was read.
both_missing : (s t : Stored) → is_missing s ≡ true → is_missing t ≡ true → t ≡ s
both_missing missing missing h k = refl
both_missing malformed _ h k = cc
both_missing (stored b) _ h k = cc
both_missing missing malformed h k = cc
both_missing missing (stored b) h k = cc

accepts-same :
    (m : Cell → Cell) (c : Cell) → Honest m → accepts c (m c) ≡ true → (m c).document ≡ c.document
unfolding accepts
accepts-same m c honest h = elim (Bool-cases (is_missing c.document)) [
  | inl none_read ↦ both_missing c.document (m c).document none_read (ground (arith, h, none_read))
  | inr some_read ↦ ap (λ x. x.document) (honest c (ground (arith, h, some_read)))
]

module _ {A : Type 0} where
  abbrev pub apply : Cell → Result (A × Option Budget) → Result A × Cell
  apply c (raise error) = (raise error, c)
  apply c (ok (a, none)) = (ok a, c)
  apply c (ok (a, some b)) = (ok a, written b c)

  -- The abstract specification: read, decide and write in one step.
  unfoldable pub atomic : Transform A → String → ℕ → Cell → Result A × Cell
  unfolding decide
  atomic f project now c = apply c (decide f now project c.document)

  abbrev pub IsError : Result A → Type 0
  IsError (ok a) = ⊥
  IsError (raise error) = Unit

  -- An outcome of a call is that of one atomic step on a document with the property: the step was
  -- made and answered, or it was made and the call raised, or the call raised and wrote nothing.
  pub data Linear (P : Cell → Type 0) (T : ℕ → Type 0) (f : Transform A) (project : String)
      (r : Result A × Cell) : Type 0 where
    answered :
        (x : Cell) (now : ℕ) → P x → T now → r ≡ atomic f project now x → Linear P T f project r
    interrupted :
        (x : Cell) (now : ℕ)
        → P x
        → T now
        → IsError r.0
        → r.1 ≡ (atomic f project now x).1
        → Linear P T f project r
    untouched : P r.1 → IsError r.0 → Linear P T f project r

  Ends : (Cell → Type 0) → (ℕ → Type 0) → Transform A → String → Outcome A × Cell → Type 0
  Ends P T f project (done a, c) = Linear P T f project (a, c)
  Ends P T f project (conflict, c) = P c

  -- The step was made on a cell with the document that was read.
  applied :
      (f : Transform A) (project : String) (now : ℕ) (c x : Cell) (a : A) (b : Budget)
      → x.document ≡ c.document
      → decide f now project c.document ≡ ok (a, some b)
      → atomic f project now x ≡ (ok a, written b x)
  unfolding atomic
  applied f project now c x a b same d = rw (same, d) refl

  finish_write-Ends :
      (P : Cell → Type 0) (T : ℕ → Type 0) (f : Transform A) (project : String) (now : ℕ)
      (reply : Reply) (accepted late : Bool) (x : Cell) (a : A) (b : Budget)
      → P x
      → T now
      → (accepted ≡ true → atomic f project now x ≡ (ok a, written b x))
      → Ends P T f project (finish_write reply accepted late x a b)
  unfolding finish_write Ends
  finish_write-Ends P T f project now replied true false x a b h t step =
      answered x now h t (sym (step refl))
  finish_write-Ends P T f project now replied true true x a b h t step =
      interrupted x now h t tt (ap (λ r. r.1) (sym (step refl)))
  finish_write-Ends P T f project now replied false _ x a b h t step = h
  finish_write-Ends P T f project now lost true _ x a b h t step = untouched h tt
  finish_write-Ends P T f project now lost false _ x a b h t step = untouched h tt
  finish_write-Ends P T f project now lost_after_write true _ x a b h t step =
      interrupted x now h t tt (ap (λ r. r.1) (sym (step refl)))
  finish_write-Ends P T f project now lost_after_write false _ x a b h t step = untouched h tt

  decided_round-Ends :
      (P : Cell → Type 0) (T : ℕ → Type 0) (f : Transform A) (project : String) (r : Round)
      (c : Cell) (d : Result (A × Option Budget))
      → Rely P T r
      → P c
      → decide f r.now project c.document ≡ d
      → Ends P T f project (decided_round r c d)
  unfolding decided_round Ends atomic
  decided_round-Ends P T f project r c (raise error) rely h e =
      answered c r.now h rely.timely (rw e refl)
  decided_round-Ends P T f project r c (ok (a, none)) rely h e =
      elim (Bool-cases (is_late deciding r.late)) [
        | inl expired ↦ rw expired (untouched h tt)
        | inr in_time ↦ rw in_time (answered c r.now h rely.timely (rw e refl))
      ]
  decided_round-Ends P T f project r c (ok (a, some b)) rely h e =
      elim (Bool-cases (is_late deciding r.late || is_late writing r.late)) [
        | inl expired ↦ rw expired (untouched h tt)
        | inr in_time ↦ rw in_time (
            finish_write-Ends P T f project r.now r.reply (accepts c (r.between c))
              (is_late replying r.late) (r.between c) a b (rely.between_keeps c h) rely.timely
              (λ accepted.
                applied f project r.now c (r.between c) a b
                  (accepts-same r.between c rely.between_honest accepted) e))
      ]

  round-Ends :
      (P : Cell → Type 0) (T : ℕ → Type 0) (f : Transform A) (project : String) (r : Round)
      (c : Cell)
      → Rely P T r
      → P c
      → Ends P T f project (round f project r c)
  unfolding round Ends
  round-Ends P T f project r c rely h =
      elim (Bool-cases (is_late reading r.late || is_late recording r.late)) [
        | inl expired ↦ rw expired (untouched (rely.before_keeps c h) tt)
        | inr in_time ↦
            rw in_time
              (decided_round-Ends P T f project r (r.before c) _ rely (rely.before_keeps c h) refl)
      ]

  resume-Linear :
      (P : Cell → Type 0) (T : ℕ → Type 0) (f : Transform A) (project : String)
      (rest : Cell → Result A × Cell) (o : Outcome A × Cell)
      → ((x : Cell) → P x → Linear P T f project (rest x))
      → Ends P T f project o
      → Linear P T f project (resume rest o)
  unfolding resume Ends
  resume-Linear P T f project rest (done a, c) later e = e
  resume-Linear P T f project rest (conflict, c) later e = later c e

  swap_rounds-Linear :
      (P : Cell → Type 0) (T : ℕ → Type 0) (f : Transform A) (project : String) (rs : List Round)
      (c : Cell)
      → RelyAll P T rs
      → P c
      → Linear P T f project (swap_rounds f project rs c)
  unfolding swap_rounds
  swap_rounds-Linear P T f project [] c rely h = untouched h tt
  swap_rounds-Linear P T f project (r ∷ rs) c rely h =
      resume-Linear P T f project (swap_rounds f project rs) (round f project r c)
        (λ x k. swap_rounds-Linear P T f project rs x rely.1 k)
        (round-Ends P T f project r c rely.0 h)

-- Whatever other clients write meanwhile, as long as their writes keep a property of the document
-- and change its revision, and wherever a call is interrupted, a call of the compare-and-swap loop
-- that answers has made one atomic step, at a server time of its rounds, on a document with the
-- property; and a call that raises has
-- made one such step or has written nothing.
pub swap_is_atomic :
    {A : Type 0} (P : Cell → Type 0) (T : ℕ → Type 0) (f : Transform A) (project : String)
    (r r' r'' : Round) (c : Cell)
    → Rely P T r
    → Rely P T r'
    → Rely P T r''
    → P c
    → Linear P T f project (compare_and_swap f project r r' r'' c)
unfolding compare_and_swap
swap_is_atomic P T f project r r' r'' c rely rely' rely'' h =
    swap_rounds-Linear P T f project (r ∷ r' ∷ r'' ∷ []) c (rely, (rely', (rely'', tt))) h
