-- ===== src/Python/Store/Lift.antt =====
-- What a call does to every document of a collection, from what its operation does to one: the
-- rules by which an invariant of documents becomes one of whole collections.
use gcp_engineering_platform.Base.{
  String, true, some, ◌≡◌, refl, ◌==◌, eq_iff, eq_refl, Option-cases, inl, inr, Bool-cases,
}
use gcp_engineering_platform.Python.Value.{Value, dict, truthy, Fields, empty, entry}
use gcp_engineering_platform.Python.Dict.{put, update}
use gcp_engineering_platform.Python.Raise.{Error, Result, ok, raise}
use gcp_engineering_platform.Python.Store.{
  Store, Change, lookup, insert, lookup-insert, commit, with_document,
}

-- Whatever the operation writes to a document is related to it by `R`.
abbrev pub Writes : {A : Type 0} → (Fields → Fields → Type 0) → Change A → Type 0
Writes {A} R f = (d c : Fields) (a : A) → f d ≡ ok (c, a) → R d (update d c)

-- `j` names a document that is not empty.
abbrev pub Holds : String → Store → Fields → Type 0
Holds j s d = (lookup j s ≡ some d) × (truthy (dict d) ≡ true)

-- From `s` to `t` no document is lost, and each is related by `R` to what it becomes.
pub record Evolves (R : Fields → Fields → Type 0) (s t : Store) : Type 0 where
  pub becomes : (j : String) (d : Fields) → Holds j s d → (d' : Fields) × Holds j t d' × R d d'

pub put-nonempty : (k : String) (v : Value) (d : Fields) → truthy (dict (put k v d)) ≡ true
unfolding put
put-nonempty k v empty = refl
put-nonempty k v (entry j w d) = elim (Bool-cases (j == k)) [ inl h ↦ rw h | inr h ↦ rw h ]

pub update-nonempty : (d c : Fields) → truthy (dict d) ≡ true → truthy (dict (update d c)) ≡ true
unfolding update
update-nonempty d empty h = h
update-nonempty d (entry k v c) h = put-nonempty k v (update d c)

-- Writing something leaves no document empty.
pub written-nonempty : (d c : Fields) → truthy (dict c) ≡ true → truthy (dict (update d c)) ≡ true
unfolding update
written-nonempty d empty h = cc
written-nonempty d (entry k v c) h = put-nonempty k v (update d c)

module _ {R : Fields → Fields → Type 0} (reflexive : (d : Fields) → R d d) where
  pub Evolves-refl : (s : Store) → Evolves R s s
  Evolves-refl s = record { becomes = λ j d h. (d, h, reflexive d) }

  -- Writing one related document.
  pub Evolves-insert :
      (s : Store) (id : String) (d d' : Fields)
      → lookup id s ≡ some d
      → (truthy (dict d) ≡ true → truthy (dict d') ≡ true)
      → R d d'
      → Evolves R s (insert id d' s)
  Evolves-insert s id d d' found keeps related = record {
    becomes = λ j x h. elim (Bool-cases (id == j)) [
      | inl same ↦
          let e : d ≡ x = cc (found, (eq_iff id j).0 same, h.0) in
          (d', (rw (lookup-insert, same) refl, keeps (rw e h.1)), rw (← e) related)
      | inr other ↦ (x, (rw (lookup-insert, other) h.0, h.1), reflexive x)
    ];
  }

  -- Writing a document under an id that named none, or an empty one.
  pub Evolves-insert_fresh :
      (s : Store) (id : String) (d' : Fields)
      → ((d : Fields) → ¬ (Holds id s d))
      → Evolves R s (insert id d' s)
  Evolves-insert_fresh s id d' fresh = record {
    becomes = λ j x h. elim (Bool-cases (id == j)) [
      | inl same ↦ absurd (fresh x (rw ((eq_iff id j).0 same) h))
      | inr other ↦ (x, (rw (lookup-insert, other) h.0, h.1), reflexive x)
    ];
  }

  pub Evolves-commit :
      {A : Type 0} (id : String) (d : Fields) (s : Store) (r : Result (Fields × A))
      → lookup id s ≡ some d
      → ((c : Fields) (a : A) → r ≡ ok (c, a) → R d (update d c))
      → Evolves R s (commit id d r s).1
  unfolding commit
  Evolves-commit id d s (ok (c, a)) found w =
      Evolves-insert s id d (update d c) found (update-nonempty d c) (w c a refl)
  Evolves-commit id d s (raise error) found w = Evolves-refl s

  pub Evolves-with_document :
      {A : Type 0} (id : String) (f : Change A) (s : Store)
      → Writes R f
      → Evolves R s (with_document id f s).1
  unfolding with_document
  Evolves-with_document id f s w = elim (Option-cases (lookup id s)) [
    | inl missing ↦ rw (missing, with_document) (Evolves-refl s)
    | inr (d, found) ↦ rw (found, with_document) (Evolves-commit id d s (f d) found (w d))
  ]

-- What a call that returned `a` did: it found a document and wrote the changes.
pub record Wrote {A : Type 0} (id : String) (f : Change A) (a : A) (s t : Store) : Type 0 where
  pub found : Fields
  pub changes : Fields
  pub held : lookup id s ≡ some found
  pub agreed : f found ≡ ok (changes, a)
  pub written : t ≡ insert id (update found changes) s

module _ {A : Type 0} where
  pub commit-Wrote :
      (id : String) (f : Change A) (d : Fields) (a : A) (s : Store) (r : Result (Fields × A))
      → lookup id s ≡ some d
      → f d ≡ r
      → (commit id d r s).0 ≡ ok a
      → Wrote id f a s (commit id d r s).1
  unfolding commit
  commit-Wrote id f d a s (ok (c, b)) held p h = record {
    found = d;
    changes = c;
    held = held;
    agreed = rw p (same b a h);
    written = refl;
  }
    where
      same : (b a : A) → ok b ≡ ok a → ◌≡◌ {A = Result (Fields × A)} (ok (c, b)) (ok (c, a))
      same b a h = cc
  commit-Wrote id f d a s (raise error) held p h = cc

  pub with_document-Wrote :
      (id : String) (f : Change A) (a : A) (s : Store)
      → (with_document id f s).0 ≡ ok a
      → Wrote id f a s (with_document id f s).1
  unfolding with_document
  with_document-Wrote id f a s h = elim (Option-cases (lookup id s)) [
    | inl missing ↦ cc (rw (missing, with_document) at h)
    | inr (d, held) ↦
        rw (held, with_document)
          (commit-Wrote id f d a s (f d) held refl (rw (held, with_document) at h))
  ]

  -- The same call on the store that it left, and on any store where the id holds that document.
  pub with_document_at :
      (id : String) (f : Change A) (s : Store) (d : Fields)
      → lookup id s ≡ some d
      → with_document id f s ≡ commit id d (f d) s
  unfolding with_document
  with_document_at id f s d held = rw (held, with_document) refl

pub lookup-insert_self : (id : String) (d : Fields) (s : Store) → lookup id (insert id d s) ≡ some d
lookup-insert_self id d s = rw (lookup-insert, eq_refl) refl

-- The result of a call, from what its operation answers on the document that the id names.
pub with_document-result :
    {A : Type 0} (id : String) (f : Change A) (s : Store) (d c : Fields) (a : A)
    → lookup id s ≡ some d
    → f d ≡ ok (c, a)
    → with_document id f s ≡ (ok a, insert id (update d c) s)
unfolding with_document
with_document-result id f s d c a held p = rw (held, with_document) (rw (p, commit))

pub with_document-error :
    {A : Type 0} (id : String) (f : Change A) (s : Store) (d : Fields) (error : Error)
    → lookup id s ≡ some d
    → f d ≡ raise error
    → with_document id f s ≡ (raise error, s)
unfolding with_document
with_document-error id f s d error held p = rw (held, with_document) (rw (p, commit))
