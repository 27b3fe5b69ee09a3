-- ===== src/TaskStore/Follows.antt =====
-- How the statements and phases of the board change its rows.
use mathlib.Core.Path.{subst}
use polarisagi_harness.Prelude.{
  if◌then◌else◌, ℕ, ◌≡◌, refl, sym, inl, inr, Bool, true, false, Option, none, some, List, [], ◌∷◌,
  String, Bool-cases, arith, ◌==◌,
}
use polarisagi_harness.TaskStore.Rows.{
  Row, has_id, update_where, rows_affected, find, insert_or_ignore,
}
use polarisagi_harness.TaskStore.Table.{
  Unique, KeepsId, changed, find-update_where, update_where-Unique, inserted, find-insert,
  insert-Unique, remaining, find-delete_where, delete_where-Unique,
}
use polarisagi_harness.TaskStore.Handlers.{
  Store, Reply, returned, is_claimed, refused, Error, TaskEntry, new_row, exec, announce,
  insert_all,
}
use polarisagi_harness.TaskStore.Channels.{Event}
use polarisagi_harness.TaskStore.Reaping.{reap_row, can_reap, reap_write, is_garbage, phase2}
use polarisagi_harness.TaskStore.Change.{
  Updates, reaps, Change, stays, creates, updates, removes, after,
}

announce_rows : (e : Event) (b : Store) (r : Reply) → (announce e (b, r)).0.rows ≡ b.rows
unfolding announce
announce_rows e b returned = refl
announce_rows e b (is_claimed c) = refl
announce_rows e b (refused x) = refl

can_reap-Updates :
    (id : String) (now : ℕ) (r : Row) → can_reap id r ≡ true → Updates r (reap_row now r)
can_reap-Updates id now r t = reaps now (ground arith)

module _ (gc : Bool) where
  -- Both facts about a table that comes from another.
  abbrev pub Follows : List Row → List Row → Type 0
  Follows rs ss = Unique ss × ((id : String) → Change gc (find id rs) (find id ss))

  pub same : (rs : List Row) → Unique rs → Follows rs rs
  same rs u = (u, λ id. stays)

  changed-Change :
      (test : Row → Bool) (f : Row → Row) (o : Option Row)
      → ((r : Row) → test r ≡ true → Updates r (f r))
      → Change gc o (changed test f o)
  changed-Change test f none sound = stays
  changed-Change test f (some r) sound = elim (Bool-cases (test r)) [
    | inl t ↦ rw t (updates (sound r t))
    | inr n ↦ rw n stays
  ]

  pub update_where-Follows :
      (test : Row → Bool) (f : Row → Row) (rs : List Row)
      → KeepsId f
      → ((r : Row) → test r ≡ true → Updates r (f r))
      → Unique rs
      → Follows rs (update_where test f rs)
  update_where-Follows test f rs keeps sound u = (
    update_where-Unique test f keeps rs u,
    λ id.
        subst (Change gc (find id rs)) (sym (find-update_where test f keeps id rs))
          (changed-Change test f (find id rs) sound),
  )

  pub exec-Follows :
      (up : Bool) (b : Store) (test : Row → Bool) (f : Row → Row) (err : Error)
      → KeepsId f
      → ((r : Row) → test r ≡ true → Updates r (f r))
      → Unique b.rows
      → Follows b.rows (exec up b test f err).0.rows
  unfolding exec
  exec-Follows false b test f err keeps sound u = same b.rows u
  exec-Follows true b test f err keeps sound u =
      elim (Bool-cases (rows_affected test b.rows == 0)) [
        | inl z ↦ rw z (same b.rows u)
        | inr p ↦ rw p (update_where-Follows test f b.rows keeps sound u)
      ]

  pub announce-Follows :
      (rs : List Row) (e : Event) (p : Store × Reply)
      → Follows rs p.0.rows
      → Follows rs (announce e p).0.rows
  announce-Follows rs e (b, r) h = subst (Follows rs) (sym (announce_rows e b r)) h

  inserted-Change :
      (t : TaskEntry) (now : ℕ) (id : String) (o : Option Row)
      → Change gc o (inserted (new_row t now) id o)
  inserted-Change t now id none = elim (Bool-cases (has_id id (new_row t now))) [
    | inl e ↦ rw e (creates t now)
    | inr n ↦ rw n stays
  ]
  inserted-Change t now id (some r) = stays

  pub insert-Follows :
      (t : TaskEntry) (now : ℕ) (rs : List Row)
      → Unique rs
      → Follows rs (insert_or_ignore (new_row t now) rs)
  insert-Follows t now rs u = (
    insert-Unique (new_row t now) rs u,
    λ id.
        subst (Change gc (find id rs)) (sym (find-insert (new_row t now) id rs))
          (inserted-Change t now id (find id rs)),
  )

  pub Follows-trans : (rs ss ts : List Row) → Follows rs ss → Follows ss ts → Follows rs ts
  Follows-trans rs ss ts (u, f) (v, g) = (v, λ id. after (f id) (g id))

  pub insert_all-Follows :
      (ts : List TaskEntry) (now : ℕ) (rs : List Row)
      → Unique rs
      → Follows rs (insert_all ts now rs)
  unfolding insert_all
  insert_all-Follows [] now rs u = same rs u
  insert_all-Follows (t ∷ ts) now rs u =
      let one = insert-Follows t now rs u in
      Follows-trans rs (insert_or_ignore (new_row t now) rs) _ one
        (insert_all-Follows ts now (insert_or_ignore (new_row t now) rs) one.0)

  remaining-Change :
      (now : ℕ) (o : Option Row) → gc ≡ true → Change gc o (remaining (is_garbage now) o)
  remaining-Change now none g = stays
  remaining-Change now (some r) g = elim (Bool-cases (is_garbage now r)) [
    | inl t ↦ rw t (removes now g t)
    | inr n ↦ rw n stays
  ]

  pub phase2-Follows :
      (up : Bool) (b : Store) (now : ℕ)
      → gc ≡ true
      → Unique b.rows
      → Follows b.rows (phase2 up b now).rows
  unfolding phase2
  phase2-Follows false b now g u = same b.rows u
  phase2-Follows true b now g u = (
    delete_where-Unique (is_garbage now) b.rows u,
    λ id.
        subst (Change gc (find id b.rows)) (sym (find-delete_where (is_garbage now) id b.rows u))
          (remaining-Change now (find id b.rows) g),
  )

  written-Follows :
      (t : Bool) (id : String) (rs : List Row) (now : ℕ)
      → Unique rs
      → Follows rs (if t then update_where (can_reap id) (reap_row now) rs else rs)
  unfolding reap_row
  written-Follows false id rs now u = same rs u
  written-Follows true id rs now u =
      update_where-Follows (can_reap id) (reap_row now) rs (λ r. refl) (can_reap-Updates id now) u

  pub reap_write-Follows :
      (up : String → Bool) (scanned : List (String × String)) (b : Store) (now : ℕ)
      → Unique b.rows
      → Follows b.rows (reap_write up b scanned now).rows
  unfolding reap_write
  reap_write-Follows up [] b now u = same b.rows u
  reap_write-Follows up ((id, agent) ∷ rest) b now u =
      let one = written-Follows (up id) id b.rows now u in
      Follows-trans b.rows _ _ one (reap_write-Follows up rest _ now one.0)
