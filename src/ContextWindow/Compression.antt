-- ===== src/ContextWindow/Compression.antt =====
-- Compress and Append.
use polarisagi_harness.Prelude.{
  ℕ, zero, suc, ◌≤◌, ◌≡◌, refl, ap, ◌∙◌, ◌⊎◌, inl, inr, Bool, true, List, [], ◌∷◌, ◌++◌, length,
  length-append, ltb, All, arith, Bool-cases,
}
use polarisagi_harness.ContextWindow.{
  Message, ContextWindow, is_system, evict_by_score, append, token_count, compress_loop, compress,
}
use polarisagi_harness.ContextWindow.Eviction.{systems, evict_by_score_lem}

-- The messages fit, or none of them may go.
abbrev pub IsCompressed : ℕ → List Message → Type 0
IsCompressed target ms = (token_count ms ≤ target) ⊎ All (λ m. is_system m.role ≡ true) ms

compress_loop_lem :
    (fuel target : ℕ) (ms : List Message)
    → length ms ≤ fuel
    → IsCompressed target (compress_loop fuel target ms)
      × (systems (compress_loop fuel target ms) ≡ systems ms)
      × (length (compress_loop fuel target ms) ≤ length ms)
unfolding compress_loop token_count
compress_loop_lem zero target [] h = (inl (omega arith), refl, omega arith)
compress_loop_lem zero target (m ∷ ms) h = absurd (omega (arith, h))
compress_loop_lem (suc fuel) target ms h = elim (Bool-cases (ltb target (token_count ms))) [
  | inr f ↦ rw f (inl (ground (arith, f)), refl, omega arith)
  | inl t ↦ elim (evict_by_score_lem ms) [
    | inl (e, all) ↦ rw (t, e) (inr all, refl, omega arith)
    | inr v ↦
        let (done, kept, less) =
          compress_loop_lem fuel target (evict_by_score ms).0 (omega (arith, v.shorter, h)) in
        rw (t, ap (λ (r : List Message × Bool). r.1) v.result)
          (done, kept ∙ v.keeps, omega (arith, less, v.shorter))
  ]
]

-- Compress leaves the messages within the target, or only system messages; it keeps every system
-- message, in order.
pub compress_lem :
    (cw : ContextWindow) (target : ℕ)
    → ((token_count (compress cw target).messages ≤ target)
        ⊎ All (λ m. is_system m.role ≡ true) (compress cw target).messages)
      × (systems (compress cw target).messages ≡ systems cw.messages)
unfolding compress
compress_lem cw target =
    let (done, kept, less) =
      compress_loop_lem (length cw.messages) target cw.messages (omega arith) in
    (done, kept)

-- A window that is within its capacity stays so when a message is appended, unless there are only
-- system messages then; and the system messages stay, in order, with the new one if it is of them.
pub append_lem :
    (cw : ContextWindow) (m : Message)
    → length cw.messages ≤ cw.capacity
    → ((length (append cw m).messages ≤ cw.capacity)
        ⊎ All (λ k. is_system k.role ≡ true) (append cw m).messages)
      × (systems (append cw m).messages ≡ systems (cw.messages ++ m ∷ []))
unfolding append
append_lem cw m h = elim (Bool-cases (ltb cw.capacity (length (cw.messages ++ m ∷ [])))) [
  | inr f ↦ rw f (inl (ground (arith, f)), refl)
  | inl t ↦ elim (evict_by_score_lem (cw.messages ++ m ∷ [])) [
    | inl (e, all) ↦ rw (t, e) (inr all, refl)
    | inr v ↦ rw t (inl (omega (arith, v.shorter, h, length-append cw.messages (m ∷ []))), v.keeps)
  ]
]
