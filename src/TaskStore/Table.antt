-- ===== src/TaskStore/Table.antt =====
-- What the statements do to the row of one id.
use mathlib.Core.Path.{subst}
use polarisagi_harness.Prelude.{
  ℕ, zero, suc, ◌≡◌, ◌≢◌, ◌<◌, refl, sym, ap, ◌∙◌, inl, inr, Bool, true, false, Option, none, some,
  List, [], ◌∷◌, String, All, Bool-cases, arith, str_eq, str_eq_iff, if◌then◌else◌,
}
use polarisagi_harness.TaskStore.Rows.{
  Row, RowStatus, pending, claimed, running, suspended, compensating, done, failed,
  row_status_index, in_status, has_id, update_where, rows_affected, find, insert_or_ignore,
  delete_where,
}

-- The primary key: no two rows have the same id.
abbrev pub Unique : List Row → Type 0
Unique [] = Unit
Unique (r ∷ rs) = All (λ (x : Row). x.task_id ≢ r.task_id) rs × Unique rs

abbrev pub KeepsId : (Row → Row) → Type 0
KeepsId f = (r : Row) → (f r).task_id ≡ r.task_id

status_at : ℕ → RowStatus
status_at zero = pending
status_at (suc zero) = claimed
status_at (suc (suc zero)) = running
status_at (suc (suc (suc zero))) = suspended
status_at (suc (suc (suc (suc zero)))) = compensating
status_at (suc (suc (suc (suc (suc zero))))) = done
status_at _ = failed

status_at_index : (s : RowStatus) → status_at (row_status_index s) ≡ s
unfolding status_at
status_at_index pending = refl
status_at_index claimed = refl
status_at_index running = refl
status_at_index suspended = refl
status_at_index compensating = refl
status_at_index done = refl
status_at_index failed = refl

-- What the test of a status says.
pub in_status_eq : (s : RowStatus) (r : Row) → in_status s r ≡ true → r.status ≡ s
in_status_eq s r e =
    sym (status_at_index r.status) ∙ ap status_at (ground (arith, e)) ∙ status_at_index s

pub in_status_ne : (s : RowStatus) (r : Row) → in_status s r ≡ false → r.status ≢ s
in_status_ne s r e q = ground (arith, ap row_status_index q, e)

abbrev pub changed : (Row → Bool) → (Row → Row) → Option Row → Option Row
changed test f none = none
changed test f (some r) = some (if test r then f r else r)

module _ (test : Row → Bool) (f : Row → Row) (keeps : KeepsId f) where
  updated_id : (r : Row) → (if test r then f r else r).task_id ≡ r.task_id
  updated_id r = elim (Bool-cases (test r)) [ inl t ↦ rw t (keeps r) | inr n ↦ rw n ]

  pub find-update_where :
      (id : String) (rs : List Row) → find id (update_where test f rs) ≡ changed test f (find id rs)
  unfolding find update_where
  find-update_where id [] = refl
  find-update_where id (r ∷ rs) =
      ap
        (λ (x : String).
          if str_eq x id
          then some (if test r then f r else r)
          else find id (update_where test f rs))
        (updated_id r)
      ∙ ground (arith, find-update_where id rs)

  update_where-ids :
      (id : String) (rs : List Row)
      → All (λ (x : Row). x.task_id ≢ id) rs
      → All (λ (x : Row). x.task_id ≢ id) (update_where test f rs)
  unfolding update_where
  update_where-ids id [] a = tt
  update_where-ids id (r ∷ rs) (n, a) = (λ e. n (sym (updated_id r) ∙ e), update_where-ids id rs a)

  pub update_where-Unique : (rs : List Row) → Unique rs → Unique (update_where test f rs)
  unfolding update_where
  update_where-Unique [] u = tt
  update_where-Unique (r ∷ rs) (a, u) =
      (rw (updated_id r) (update_where-ids r.task_id rs a), update_where-Unique rs u)

pub find-id : (id : String) (rs : List Row) (r : Row) → find id rs ≡ some r → r.task_id ≡ id
unfolding find
find-id id [] r e = ground arith
find-id id (x ∷ rs) r e = elim (Bool-cases (has_id id x)) [
  | inl t ↦ ground (arith, t, str_eq_iff x.task_id id)
  | inr n ↦ find-id id rs r (rw n at e)
]

pub find-none :
    (id : String) (rs : List Row) → All (λ (x : Row). x.task_id ≢ id) rs → find id rs ≡ none
unfolding find
find-none id [] a = refl
find-none id (r ∷ rs) (n, a) = ground (arith, n, str_eq_iff r.task_id id, find-none id rs a)

abbrev pub inserted : Row → String → Option Row → Option Row
inserted new id none = if has_id id new then some new else none
inserted new id (some r) = some r

-- A row of another id is inserted beside this one.
inserted-other :
    (new : Row) (id : String) (o : Option Row) → new.task_id ≢ id → inserted new id o ≡ o
inserted-other new id none n = ground (arith, n, str_eq_iff new.task_id id)
inserted-other new id (some r) n = refl

pub find-insert :
    (new : Row) (id : String) (rs : List Row)
    → find id (insert_or_ignore new rs) ≡ inserted new id (find id rs)
unfolding find insert_or_ignore
find-insert new id [] = refl
find-insert new id (r ∷ rs) = elim (Bool-cases (has_id new.task_id r)) [
  | inl same ↦ elim (Bool-cases (has_id id r)) [
    | inl t ↦ rw (same, t)
    | inr n ↦
        rw (same, n)
          (sym (
            inserted-other new id (find id rs) (λ e.
              ground
                (arith, e, n, same, str_eq_iff r.task_id new.task_id, str_eq_iff r.task_id id))))
  ]
  | inr other ↦ elim (Bool-cases (has_id id r)) [
    | inl t ↦ rw (other, t)
    | inr n ↦ rw (other, n) (find-insert new id rs)
  ]
]

insert-ids :
    (new : Row) (id : String) (rs : List Row)
    → new.task_id ≢ id
    → All (λ (x : Row). x.task_id ≢ id) rs
    → All (λ (x : Row). x.task_id ≢ id) (insert_or_ignore new rs)
unfolding insert_or_ignore
insert-ids new id [] n a = (n, tt)
insert-ids new id (r ∷ rs) n (m, a) = elim (Bool-cases (has_id new.task_id r)) [
  | inl same ↦ rw same (m, a)
  | inr other ↦ rw other (m, insert-ids new id rs n a)
]

pub insert-Unique : (new : Row) (rs : List Row) → Unique rs → Unique (insert_or_ignore new rs)
unfolding insert_or_ignore
insert-Unique new [] u = (tt, tt)
insert-Unique new (r ∷ rs) (a, u) = elim (Bool-cases (has_id new.task_id r)) [
  | inl same ↦ rw same (a, u)
  | inr other ↦ rw other (
    insert-ids new r.task_id rs (λ e. ground (arith, e, other, str_eq_iff r.task_id new.task_id)) a,
    insert-Unique new rs u,
  )
]

abbrev pub remaining : (Row → Bool) → Option Row → Option Row
remaining test none = none
remaining test (some r) = if test r then none else some r

delete-ids :
    (test : Row → Bool) (id : String) (rs : List Row)
    → All (λ (x : Row). x.task_id ≢ id) rs
    → All (λ (x : Row). x.task_id ≢ id) (delete_where test rs)
unfolding delete_where
delete-ids test id [] a = tt
delete-ids test id (r ∷ rs) (n, a) = elim (Bool-cases (test r)) [
  | inl t ↦ rw t (delete-ids test id rs a)
  | inr f ↦ rw f (n, delete-ids test id rs a)
]

pub find-delete_where :
    (test : Row → Bool) (id : String) (rs : List Row)
    → Unique rs
    → find id (delete_where test rs) ≡ remaining test (find id rs)
unfolding find delete_where
find-delete_where test id [] u = refl
find-delete_where test id (r ∷ rs) (a, u) = elim (Bool-cases (has_id id r)) [
  | inl here ↦
      let gone : find id (delete_where test rs) ≡ none = find-none id (delete_where test rs) (
        delete-ids test id rs (
          subst (λ x. All (λ (y : Row). y.task_id ≢ x) rs) ((str_eq_iff r.task_id id).0 here) a)) in
      elim (Bool-cases (test r)) [ inl t ↦ rw (t, here) (rw t gone) | inr f ↦ rw (f, here) (rw f) ]
  | inr n ↦ elim (Bool-cases (test r)) [
    | inl t ↦ rw (t, n) (find-delete_where test id rs u)
    | inr f ↦ rw (f, n) (find-delete_where test id rs u)
  ]
]

pub delete_where-Unique :
    (test : Row → Bool) (rs : List Row) → Unique rs → Unique (delete_where test rs)
unfolding delete_where
delete_where-Unique test [] u = tt
delete_where-Unique test (r ∷ rs) (a, u) = elim (Bool-cases (test r)) [
  | inl t ↦ rw t (delete_where-Unique test rs u)
  | inr f ↦ rw f (delete-ids test r.task_id rs a, delete_where-Unique test rs u)
]

-- An UPDATE that changes no row leaves the rows as they are; one that finds the id's row counts it.
pub rows_affected-pos :
    (test : Row → Bool) (id : String) (rs : List Row) (r : Row)
    → find id rs ≡ some r
    → test r ≡ true
    → 0 < rows_affected test rs
unfolding find rows_affected
rows_affected-pos test id [] r e t = ground arith
rows_affected-pos test id (x ∷ rs) r e t = elim (Bool-cases (has_id id x)) [
  | inl here ↦ ground (arith, e, here, t)
  | inr n ↦ ground (arith, n, rows_affected-pos test id rs r (rw n at e) t)
]

-- A test that only rows of one id can pass.
abbrev pub OnlyOf : String → (Row → Bool) → Type 0
OnlyOf id test = (r : Row) → test r ≡ true → r.task_id ≡ id

abbrev pub counted : (Row → Bool) → Option Row → ℕ
counted test none = 0
counted test (some r) = if test r then 1 else 0

affected-none :
    (test : Row → Bool) (id : String) (rs : List Row)
    → OnlyOf id test
    → All (λ (x : Row). x.task_id ≢ id) rs
    → rows_affected test rs ≡ 0
unfolding rows_affected
affected-none test id [] only a = refl
affected-none test id (r ∷ rs) only (n, a) = elim (Bool-cases (test r)) [
  | inl t ↦ absurd (n (only r t))
  | inr f ↦ ground (arith, f, affected-none test id rs only a)
]

-- By the primary key, an UPDATE of one id changes the row that a SELECT of the id finds, or none.
pub affected-find :
    (test : Row → Bool) (id : String) (rs : List Row)
    → OnlyOf id test
    → Unique rs
    → rows_affected test rs ≡ counted test (find id rs)
unfolding rows_affected find
affected-find test id [] only u = refl
affected-find test id (r ∷ rs) only (a, u) = elim (Bool-cases (has_id id r)) [
  | inl here ↦
      let e = (str_eq_iff r.task_id id).0 here in
      let rest =
        affected-none test id rs only (subst (λ x. All (λ (y : Row). y.task_id ≢ x) rs) e a) in
      ground (arith, here, rest)
  | inr n ↦ elim (Bool-cases (test r)) [
    | inl t ↦ absurd (ground (arith, only r t, n, str_eq_iff r.task_id id))
    | inr f ↦ ground (arith, n, f, affected-find test id rs only u)
  ]
]
