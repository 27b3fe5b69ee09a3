-- ===== src/ContextWindow/Tests.antt =====
-- A window of three messages.
use polarisagi_harness.Prelude.{◌≤◌, ◌≡◌, refl, ◌⊎◌, true, [], ◌∷◌, All}
use polarisagi_harness.ContextWindow.{
  Role, system, tool, user, Message, ContextWindow, is_system, score, better, lowest, remove_at,
  evicted, evict_by_score, token_count, compress_loop, compress,
}
use polarisagi_harness.ContextWindow.Eviction.{systems}
use polarisagi_harness.ContextWindow.Compression.{compress_lem}

abbrev say : Role → Message
say r = record { role = r; content = b'h' ∷ b'e' ∷ b'l' ∷ b'l' ∷ [] }

abbrev window : ContextWindow
window = record {
  messages = say system ∷ say user ∷ say tool ∷ [];
  capacity = 3;
  max_tokens = 128000;
}

-- The tool's message goes first, then the user's.
compress_small : (compress window 5).messages ≡ say system ∷ []
unfolding compress compress_loop evict_by_score evicted lowest better score remove_at token_count
compress_small = refl

compress_lem_example :
    ((token_count (compress window 5).messages ≤ 5)
      ⊎ All (λ m. is_system m.role ≡ true) (compress window 5).messages)
    × (systems (compress window 5).messages ≡ systems window.messages)
compress_lem_example = compress_lem window 5
