-- ===== src/Python/Store.antt =====
-- A collection of documents, by document id: the module's `_memory` dict and the Firestore
-- collection alike. The process-wide lock and the serialisable Firestore transaction both make one
-- call of an operation one atomic step: read the document, check it, and update that version.
pub mod Lift
use gcp_engineering_platform.Base.{
  String, Bool, true, false, ◌||◌, Option, none, some, List, [], ◌∷◌, ◌≡◌, refl, arith, ◌==◌,
  eq_iff, if◌then◌else◌,
}
use gcp_engineering_platform.Python.Value.{Fields}
use gcp_engineering_platform.Python.Dict.{update}
use gcp_engineering_platform.Python.Raise.{Error, key_error, Result, ok, raise}

abbrev pub Store : Type 0
Store = List (String × Fields)

unfoldable pub lookup : String → Store → Option Fields
lookup k [] = none
lookup k ((j, d) ∷ s) = if j == k then some d else lookup k s

unfoldable pub insert : String → Fields → Store → Store
insert k d [] = (k, d) ∷ []
insert k d ((j, e) ∷ s) = if j == k then (k, d) ∷ s else (j, e) ∷ insert k d s

pub lookup-insert :
    (k j : String) (d : Fields) (s : Store)
    → lookup j (insert k d s) ≡ (if k == j then some d else lookup j s)
unfolding lookup insert
lookup-insert k j d [] = refl
lookup-insert k j d ((i, e) ∷ s) =
    ground (arith, eq_iff k j, eq_iff i k, eq_iff i j, lookup-insert k j d s)

-- An operation on one document: the changes to write (none of them leaves it alone) and the
-- result, or an exception.
abbrev pub Change : Type 0 → Type 0
Change A = Fields → Result (Fields × A)

-- A call on the whole collection: what was written before a raise stays written.
abbrev pub Exec : Type 0 → Type 0
Exec A = Store → Result A × Store

module _ {A : Type 0} where
  unfoldable pub commit : String → Fields → Result (Fields × A) → Exec A
  commit id current (ok (changes, a)) s = (ok a, insert id (update current changes) s)
  commit id current (raise e) s = (raise e, s)

  -- `current = _memory.get(id)`, KeyError where it is None, then the operation.
  unfoldable pub with_document : String → Change A → Exec A
  unfolding commit
  with_document id f s = elim (lookup id s) [
    | none ↦ (raise (key_error id), s)
    | some current ↦ commit id current (f current) s
  ]
