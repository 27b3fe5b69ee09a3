-- ===== src/Credentials/Tests.antt =====
-- Three keys in turn.
use polarisagi_harness.Prelude.{ℕ, ◌≡◌, refl, ◌⊎◌, true, none, some, List, [], ◌∷◌, String}
use polarisagi_harness.Credentials.{
  round_robin, auth, cooldown_for, PooledCredential, available, record_failure_reason, get_elem?,
  available_until, CredentialPool, new_credential_pool, new_creds, pick, picked, pick_round_robin,
  next_cursor, is_available_at, modify_at, Op, pick_at, record_at, apply, run_ops, record_result,
}
use polarisagi_harness.Credentials.Picking.{IsReadyAt}
use polarisagi_harness.Credentials.Rotation.{AllCooling}
use polarisagi_harness.Credentials.Pool.{pick_exact}

abbrev keys : List (String × String)
keys = ("k0", "a") ∷ ("k1", "b") ∷ ("k2", "c") ∷ []

abbrev failed_once : List Op
failed_once =
    pick_at 1 0
    ∷ record_at 1 1 (some (record { reason = auth; should_rotate_credential = true }))
    ∷ []

-- The second key failed, so the third is next.
third_next : (pick (run_ops (new_credential_pool keys round_robin) failed_once) 2 0).1 ≡ some 2
unfolding run_ops apply new_credential_pool new_creds pick picked pick_round_robin next_cursor
    is_available_at get_elem? available available_until modify_at record_result
    record_failure_reason cooldown_for
third_next = refl

pick_exact_example :
    let p = run_ops (new_credential_pool keys round_robin) failed_once in
    ((i : ℕ) × ((pick p 2 0).1 ≡ some i) × IsReadyAt p.creds i 2)
    ⊎ (((pick p 2 0).1 ≡ none) × AllCooling p.creds 2)
pick_exact_example = pick_exact keys round_robin failed_once 2 0

abbrev pool : CredentialPool
pool = new_credential_pool keys round_robin

abbrev used : ℕ → PooledCredential
used n = record {
  key = "k";
  label = "l";
  request_count = n;
  cooldown_until = none;
  last_reason = none;
}
