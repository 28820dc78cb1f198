-- ===== src/Base.antt =====
-- Names of the libraries that every module uses, the tests on numbers and texts, and facts about
-- Boolean conditions.
pub use Prim.Native.Nat.{ℕ, zero, suc, ◌+◌, ◌-◌, ◌*◌, ◌/◌, ◌%◌, ◌^◌, ◌≤◌, ◌<◌}
pub use Prim.Native.String.{String}
pub use mathlib.Core.Path.{◌≡◌, refl, sym, ap, ◌∙◌}
pub use mathlib.Core.Logic.{◌≢◌, ◌↔◌, ◌⊎◌, inl, inr}
pub use mathlib.Core.Bool.{Bool, true, false, ◌&&◌, ◌||◌, not}
pub use mathlib.Core.Option.{Option, none, some}
pub use mathlib.Core.List.{List, [], ◌∷◌, ◌++◌, map}
pub use native.Mathlib.Omega.{arith}
pub use text.Mathlib.Text.{◌==◌, starts_with}
pub use text.Mathlib.TextEquality.{eq_iff}
pub use text.Mathlib.TextPositions.{eq_refl}
use Prim.Native.Nat.{compare, Ordering}
use mathlib.Core.Bool.{false≢true}

abbrev pub leb : ℕ → ℕ → Bool
leb a b = elim (compare a b) [ Ordering.gt ↦ false | _ ↦ true ]

abbrev pub ltb : ℕ → ℕ → Bool
ltb a b = elim (compare a b) [ Ordering.lt ↦ true | _ ↦ false ]

abbrev pub nat_eq : ℕ → ℕ → Bool
nat_eq a b = elim (compare a b) [ Ordering.eq ↦ true | _ ↦ false ]

infix 1 if◌then◌else◌
abbrev pub if◌then◌else◌ {ℓ} : {A : Type ℓ} → Bool → A → A → A
if true then x else _ = x
if false then _ else y = y

pub Bool-cases : (b : Bool) → (b ≡ true) ⊎ (b ≡ false)
Bool-cases true = inl refl
Bool-cases false = inr refl

pub Option-cases {ℓ} : {A : Type ℓ} (o : Option A) → (o ≡ none) ⊎ ((a : A) × (o ≡ some a))
Option-cases none = inl refl
Option-cases (some a) = inr (a, refl)

pub or_false : (a b : Bool) → (a || b) ≡ false → (a ≡ false) × (b ≡ false)
or_false true b h = (h, elim b as (λ c. c ≡ false) [ true ↦ h | false ↦ refl ])
or_false false b h = (refl, h)

pub and_true : (a b : Bool) → (a && b) ≡ true → (a ≡ true) × (b ≡ true)
and_true true b h = (refl, h)
and_true false b h = (h, elim b as (λ c. c ≡ true) [ true ↦ refl | false ↦ h ])

pub suc-not_zero : (n : ℕ) → nat_eq (suc n) 0 ≡ false
suc-not_zero n = ground arith

-- Membership of a text in a Python set or tuple of texts.
abbrev pub elem : String → List String → Bool
elem s [] = false
elem s (t ∷ ts) = (t == s) || elem s ts

abbrev pub all_elem : List String → List String → Bool
all_elem [] ts = true
all_elem (s ∷ ss) ts = elem s ts && all_elem ss ts

abbrev pub no_elem : List String → List String → Bool
no_elem [] ts = true
no_elem (s ∷ ss) ts = not (elem s ts) && no_elem ss ts

abbrev pub AllOf : (String → Type 0) → List String → Type 0
AllOf P [] = Unit
AllOf P (t ∷ ts) = P t × AllOf P ts

-- What holds of every listed text holds of a member.
pub elem_all :
    (P : String → Type 0) (t : String) (ts : List String) → AllOf P ts → elem t ts ≡ true → P t
elem_all P t [] h e = absurd (false≢true e)
elem_all P t (u ∷ ts) h e = elim (Bool-cases (u == t)) [
  | inl here ↦ rw (← (eq_iff u t).0 here) h.0
  | inr later ↦ elem_all P t ts h.1 (ground arith)
]
