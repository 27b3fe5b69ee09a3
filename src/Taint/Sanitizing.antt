-- ===== src/Taint/Sanitizing.antt =====
-- What makes tainted data safe.
use polarisagi_harness.Prelude.{
  ◌≤◌, ◌≡◌, inl, inr, Bool, true, false, ◌||◌, none, some, List, [], ◌∷◌, String, arith, Bool-cases,
}
use polarisagi_harness.Taint.{
  TaintedString, SafeString, taint_medium, taint_high, sanitize_by_schema,
  sanitize_by_summarization, sanitize_by_user_review, sanitize_to_safe, check_slot_assignment,
  slot_instruction, slot_max_allowed_taint, within,
}

-- A use of one of the sanitizers.
pub data Step : Type 0 where
  schema : Bool → Step
  summarize : Step
  review : String → Step

unfoldable pub sanitize : TaintedString → Step → TaintedString
sanitize ts (schema strict) = (sanitize_by_schema ts strict).0
sanitize ts summarize = sanitize_by_summarization ts
sanitize ts (review user) = sanitize_by_user_review ts user

unfoldable pub sanitize_all : TaintedString → List Step → TaintedString
sanitize_all ts [] = ts
sanitize_all ts (s ∷ ss) = sanitize_all (sanitize ts s) ss

-- A strict schema, or a person.
abbrev pub is_gate : Step → Bool
is_gate (schema strict) = strict
is_gate summarize = false
is_gate (review user) = true

abbrev pub has_gate : List Step → Bool
has_gate [] = false
has_gate (s ∷ ss) = is_gate s || has_gate ss

sanitize-tainted :
    (ts : TaintedString) (s : Step)
    → is_gate s ≡ false
    → taint_medium ≤ ts.source.origin_taint_level
    → ts.source.origin_taint_level ≤ taint_high
    → (taint_medium ≤ (sanitize ts s).source.origin_taint_level)
      × ((sanitize ts s).source.origin_taint_level ≤ taint_high)
unfolding sanitize sanitize_by_schema sanitize_by_summarization
sanitize-tainted ts (schema true) g h k = absurd (ground (arith, g))
sanitize-tainted ts (schema false) g h k = (h, k)
sanitize-tainted ts summarize g h k = (ground arith, ground arith)
sanitize-tainted ts (review user) g h k = absurd (ground (arith, g))

-- Data of level Medium or High gets into the Instruction Slot as a SafeString only if, on the way, it
-- has passed a strict schema or been reviewed by a person: summaries alone never make it safe.
pub safe_needs_gate :
    (ts : TaintedString) (ss : List Step) (safe : SafeString)
    → taint_medium ≤ ts.source.origin_taint_level
    → ts.source.origin_taint_level ≤ taint_high
    → sanitize_to_safe (sanitize_all ts ss) ≡ some safe
    → has_gate ss ≡ true
unfolding sanitize_all sanitize_to_safe
safe_needs_gate ts [] safe h k q = absurd (ground (arith, h, k, q))
safe_needs_gate ts (s ∷ ss) safe h k q = elim (Bool-cases (is_gate s)) [
  | inl t ↦ ground (arith, t)
  | inr f ↦
      let (h', k') = sanitize-tainted ts s f h k in
      let rest = safe_needs_gate (sanitize ts s) ss safe h' k' q in ground (arith, rest, f)
]

-- A summary is Medium whatever was summarised, so it is never safe, nor does the gate let it into the
-- Instruction Slot.
pub summary_is_medium :
    (ts : TaintedString)
    → ((sanitize_by_summarization ts).source.origin_taint_level ≡ taint_medium)
      × (sanitize_to_safe (sanitize_by_summarization ts) ≡ none)
      × (check_slot_assignment slot_instruction
            (sanitize_by_summarization ts).source.origin_taint_level
          ≡ false)
unfolding sanitize_by_summarization sanitize_to_safe check_slot_assignment slot_max_allowed_taint
    within
summary_is_medium ts = (ground arith, ground arith, ground arith)
