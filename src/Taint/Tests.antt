-- ===== src/Taint/Tests.antt =====
-- Taint at concrete strings.
use polarisagi_harness.Prelude.{◌≡◌, refl, true, false, some, List, [], ◌∷◌, String, arith}
use polarisagi_harness.Taint.{
  TaintLevel, TaintedString, TaintEnvelope, Crypto, taint_low, taint_high, taint_user_reviewed,
  propagate_taint, new_taint_tracker, get_level, sanitize_by_schema, sanitize_by_summarization,
  sanitize_to_safe, check_slot_assignment, slot_instruction, slot_max_allowed_taint, within,
}
use polarisagi_harness.Taint.Propagation.{track_all, levels_of, tracker_is_max}
use polarisagi_harness.Taint.Sanitizing.{
  schema, summarize, sanitize, sanitize_all, has_gate, safe_needs_gate,
}

abbrev calls : List (String × TaintLevel)
calls = ("x", 3) ∷ ("y", 1) ∷ ("x", 2) ∷ []

tracker_is_max_example :
    get_level (track_all new_taint_tracker calls) "x" ≡ propagate_taint (levels_of "x" calls)
tracker_is_max_example = tracker_is_max calls "x"

abbrev web_page : TaintedString
web_page = record {
  content = b'h' ∷ b'i' ∷ [];
  source = record {
    module_name = "m7";
    entity_id = "page";
    event_id = "e";
    origin_taint_level = taint_high;
  };
  origin = "web";
}

-- A reviewed string is safe, but its level is above every slot's.
reviewed_nowhere : check_slot_assignment slot_instruction taint_user_reviewed ≡ false
unfolding check_slot_assignment slot_max_allowed_taint within
reviewed_nowhere = refl

safe_needs_gate_example : has_gate (summarize ∷ schema true ∷ []) ≡ true
unfolding sanitize_all sanitize sanitize_by_schema sanitize_by_summarization sanitize_to_safe
safe_needs_gate_example =
    safe_needs_gate web_page (summarize ∷ schema true ∷ []) web_page.content (omega arith)
      (omega arith) refl

-- A code that writes the key, the content and the level.
abbrev plain : Crypto
plain = record {
  sha_hex = λ x. x;
  hmac_hex = λ key content level source. level ∷ content;
  decode_hex = λ x. some x;
}

-- The level of a sealed envelope, lowered on the way.
abbrev forged : TaintEnvelope
forged = record {
  content = web_page.content;
  level = taint_low;
  source = web_page.source;
  hmac = taint_high ∷ web_page.content;
}
