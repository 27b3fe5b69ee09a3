-- ===== src/Credentials/Pool.antt =====
-- Pools in use: keys are added, picks made, requests counted and failures recorded.
use mathlib.Core.Path.{subst}
use polarisagi_harness.Prelude.{
  ℕ, zero, suc, ◌+◌, ◌≤◌, ◌<◌, ◌≡◌, ◌≢◌, refl, sym, ap, ◌⊎◌, inl, inr, Option, none, some, List, [],
  ◌∷◌, ◌++◌, String, length, length-append, arith, Bool-cases, Option-cases, mod_lt, ◌==◌,
}
use polarisagi_harness.Credentials.{
  SelectStrategy, fill_first, round_robin, random, least_used, FailReason, cooldown_for,
  PooledCredential, available, available_until, record_failure_reason, get_elem?, is_available_at,
  picked, next_cursor, CredentialPool, pick, add, fresh, new_creds, modify_at, Op, add_key, pick_at,
  request_with, record_at, apply, run_ops, new_credential_pool,
}
use polarisagi_harness.Credentials.Picking.{IsReadyAt, picked-IsReadyAt}
use polarisagi_harness.Credentials.Rotation.{AllCooling, HasCursor, picked-none}

abbrev Inv : CredentialPool → Type 0
Inv p = HasCursor p.rr_cursor (length p.creds)

length-modify_at :
    (cs : List PooledCredential) (i : ℕ) (f : PooledCredential → PooledCredential)
    → length (modify_at cs i f) ≡ length cs
unfolding modify_at
length-modify_at [] i f = refl
length-modify_at (c ∷ cs) zero f = refl
length-modify_at (c ∷ cs) (suc i) f = ap suc (length-modify_at cs i f)

next_cursor-HasCursor :
    (s : SelectStrategy) (cs : List PooledCredential) (cursor now : ℕ) (o : Option ℕ)
    → HasCursor cursor (length cs)
    → ((i : ℕ) → o ≡ some i → IsReadyAt cs i now)
    → HasCursor (next_cursor s (length cs) cursor o) (length cs)
unfolding next_cursor get_elem? is_available_at
next_cursor-HasCursor fill_first cs cursor now o h r = h
next_cursor-HasCursor random cs cursor now o h r = h
next_cursor-HasCursor least_used cs cursor now o h r = h
next_cursor-HasCursor round_robin cs cursor now none h r = h
next_cursor-HasCursor round_robin [] cursor now (some i) h r = absurd (ground (arith, r i refl))
next_cursor-HasCursor round_robin (c ∷ cs) cursor now (some i) h r =
    inl (mod_lt (suc i) (suc (length cs)) (omega arith))

grown-HasCursor :
    (cs : List PooledCredential) (c : PooledCredential) (cursor : ℕ)
    → HasCursor cursor (length cs)
    → cursor < length (cs ++ c ∷ [])
grown-HasCursor cs c cursor (inl h) = omega (arith, h, length-append cs (c ∷ []))
grown-HasCursor cs c cursor (inr (z, w)) = omega (arith, z, w, length-append cs (c ∷ []))

apply-Inv : (p : CredentialPool) (o : Op) → Inv p → Inv (apply p o)
unfolding apply add pick
apply-Inv p (add_key k) v = inl (grown-HasCursor p.creds (fresh k) p.rr_cursor v)
apply-Inv p (pick_at now draw) v =
    next_cursor-HasCursor p.strategy p.creds p.rr_cursor now
      (picked p.strategy p.creds p.rr_cursor now draw) v
      (λ i e. picked-IsReadyAt p.strategy p.creds p.rr_cursor now draw i e)
apply-Inv p (request_with i) v =
    subst (HasCursor p.rr_cursor) (sym (length-modify_at p.creds i _)) v
apply-Inv p (record_at i now e) v =
    subst (HasCursor p.rr_cursor) (sym (length-modify_at p.creds i _)) v

run_ops-Inv : (p : CredentialPool) (os : List Op) → Inv p → Inv (run_ops p os)
unfolding run_ops
run_ops-Inv p [] v = v
run_ops-Inv p (o ∷ os) v = run_ops-Inv (apply p o) os (apply-Inv p o v)

new-Inv : (ks : List (String × String)) (s : SelectStrategy) → Inv (new_credential_pool ks s)
unfolding new_credential_pool new_creds
new-Inv [] s = inr (refl, refl)
new-Inv (k ∷ ks) s = inl (omega arith)

-- Whatever was done to a pool before, and under each strategy: Pick returns a credential that is not
-- cooling down, or it returns nil and then every credential is cooling down.
pub pick_exact :
    (ks : List (String × String)) (s : SelectStrategy) (os : List Op) (now draw : ℕ)
    → let p = run_ops (new_credential_pool ks s) os in
      ((i : ℕ) × ((pick p now draw).1 ≡ some i) × IsReadyAt p.creds i now)
      ⊎ (((pick p now draw).1 ≡ none) × AllCooling p.creds now)
unfolding pick
pick_exact ks s os now draw =
    let p = run_ops (new_credential_pool ks s) os in
    elim (Option-cases (picked p.strategy p.creds p.rr_cursor now draw)) [
      | inl n ↦ inr (
        n,
        picked-none p.strategy p.creds p.rr_cursor now draw
            (run_ops-Inv (new_credential_pool ks s) os (new-Inv ks s)) n,
      )
      | inr (i, q) ↦ inl (i, q, picked-IsReadyAt p.strategy p.creds p.rr_cursor now draw i q)
    ]

failed_not_ready :
    (cs : List PooledCredential) (i now later : ℕ) (r : FailReason)
    → 0 < cooldown_for r
    → later ≤ now + cooldown_for r
    → ¬ IsReadyAt (modify_at cs i (λ c. record_failure_reason c now r)) i later
unfolding modify_at get_elem? is_available_at available available_until record_failure_reason
failed_not_ready [] i now later r h k e = ground (arith, e)
failed_not_ready (c ∷ cs) zero now later r h k e = elim (Bool-cases (cooldown_for r == 0)) [
  | inl t ↦ ground (arith, h, t)
  | inr f ↦ ground (arith, k, (rw f at e))
]
failed_not_ready (c ∷ cs) (suc i) now later r h k e = failed_not_ready cs i now later r h k e

-- A credential whose failure calls for a cooldown is not picked again, under any strategy, until the
-- cooldown is over.
pub pick_skips_failed :
    (p : CredentialPool) (i now later draw : ℕ) (r : FailReason)
    → 0 < cooldown_for r
    → later ≤ now + cooldown_for r
    → (pick
        (record p { creds = modify_at p.creds i (λ c. record_failure_reason c now r) })
        later
        draw).1
      ≢ some i
unfolding pick
pick_skips_failed p i now later draw r h k e = failed_not_ready p.creds i now later r h k (
    picked-IsReadyAt p.strategy (modify_at p.creds i (λ c. record_failure_reason c now r))
      p.rr_cursor later draw i e)
