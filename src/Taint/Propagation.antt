-- ===== src/Taint/Propagation.antt =====
-- Propagation is the maximum: of a list, of the tracked ids, and at the gate.
use mathlib.Core.List.{Memᴰ}
use polarisagi_harness.Prelude.{
  ◌≤◌, ◌≡◌, refl, ap, ◌∙◌, ◌⊎◌, inl, inr, Bool, true, false, ◌&&◌, Option, none, some, List, [],
  ◌∷◌, map, String, ltb, str_eq, str_eq_iff, lookup, lookup-insert, All, arith, Option-cases,
  Bool-cases, if◌then◌else◌,
}
use polarisagi_harness.Taint.{
  TaintLevel, max_from, propagate_taint, TaintTracker, new_taint_tracker, track, track_at,
  get_level, or_zero, raise, max_of_ids, get_max_taint, PromptSlot, within, check_slot_assignment,
  check_multi_source,
}

abbrev larger : TaintLevel → TaintLevel → TaintLevel
larger m t = if ltb m t then t else m

larger_lem :
    (m t : TaintLevel) → (m ≤ larger m t) × (t ≤ larger m t) × ((larger m t ≡ m) ⊎ (larger m t ≡ t))
larger_lem m t = ground arith

max_from-lem :
    (m : TaintLevel) (ts : List TaintLevel)
    → (m ≤ max_from m ts)
      × All (λ t. t ≤ max_from m ts) ts
      × ((max_from m ts ≡ m) ⊎ Memᴰ (max_from m ts) ts)
unfolding max_from
max_from-lem m [] = (omega arith, tt, inl refl)
max_from-lem m (t ∷ ts) =
    let (low, all, from) = max_from-lem (larger m t) ts in
    let (a, b, c) = larger_lem m t in
    (
      omega (arith, low, a),
      (omega (arith, low, b), all),
      elim from [
        | inr k ↦ inr (Memᴰ.tail k)
        | inl e ↦ elim c [ inl p ↦ inl (e ∙ p) | inr p ↦ inr (Memᴰ.head (e ∙ p)) ]
      ],
    )

-- The propagated level is at least every input's, and is one of them, or 0 of none.
pub propagate_taint_lem :
    (ts : List TaintLevel)
    → All (λ t. t ≤ propagate_taint ts) ts
      × ((propagate_taint ts ≡ 0) ⊎ Memᴰ (propagate_taint ts) ts)
unfolding propagate_taint
propagate_taint_lem ts = let (low, all, from) = max_from-lem 0 ts in (all, from)

-- The tracker after a list of Track calls.
pub track_all : TaintTracker → List (String × TaintLevel) → TaintTracker
track_all book [] = book
track_all book ((id, l) ∷ cs) = track_all (track book id l) cs

-- The levels that the calls name for an id.
abbrev pub levels_of : String → List (String × TaintLevel) → List TaintLevel
levels_of id [] = []
levels_of id ((j, l) ∷ cs) = let rest = levels_of id cs in if str_eq j id then l ∷ rest else rest

track-hit :
    (book : TaintTracker) (j id : String) (l : TaintLevel)
    → str_eq j id ≡ true
    → get_level (track book j l) id ≡ larger (get_level book id) l
unfolding get_level track track_at
track-hit book j id l t = elim (Option-cases (lookup j book)) [
  | inl n ↦ ground (arith, n, t, lookup-insert j id l book, str_eq_iff j id)
  | inr (x, q) ↦ ground (arith, q, t, lookup-insert j id l book, str_eq_iff j id)
]

track-miss :
    (book : TaintTracker) (j id : String) (l : TaintLevel)
    → str_eq j id ≡ false
    → get_level (track book j l) id ≡ get_level book id
unfolding get_level track track_at
track-miss book j id l f = elim (Option-cases (lookup j book)) [
  | inl n ↦ ground (arith, n, f, lookup-insert j id l book)
  | inr (x, q) ↦ ground (arith, q, f, lookup-insert j id l book)
]

track_all-level :
    (book : TaintTracker) (cs : List (String × TaintLevel)) (id : String)
    → get_level (track_all book cs) id ≡ max_from (get_level book id) (levels_of id cs)
unfolding track_all max_from
track_all-level book [] id = refl
track_all-level book ((j, l) ∷ cs) id = elim (Bool-cases (str_eq j id)) [
  | inl t ↦
      track_all-level (track book j l) cs id
      ∙ ap (λ (m : TaintLevel). max_from m (levels_of id cs)) (track-hit book j id l t)
      ∙ rw t refl
  | inr f ↦
      track_all-level (track book j l) cs id
      ∙ ap (λ (m : TaintLevel). max_from m (levels_of id cs)) (track-miss book j id l f)
      ∙ rw f refl
]

-- A new tracker holds for each id the maximum of all the levels that it was ever given, whatever
-- the order, and no call lowers a level.
pub tracker_is_max :
    (cs : List (String × TaintLevel)) (id : String)
    → get_level (track_all new_taint_tracker cs) id ≡ propagate_taint (levels_of id cs)
unfolding propagate_taint new_taint_tracker get_level lookup
tracker_is_max cs id = track_all-level [] cs id

raise_lem : (o : Option TaintLevel) (m : TaintLevel) → raise o m ≡ larger m (or_zero o)
unfolding raise
raise_lem none m = ground arith
raise_lem (some l) m = refl

max_of_ids-lem :
    (book : TaintTracker) (m : TaintLevel) (ids : List String)
    → max_of_ids book m ids ≡ max_from m (map (get_level book) ids)
unfolding max_of_ids raise max_from get_level
max_of_ids-lem book m [] = refl
max_of_ids-lem book m (id ∷ ids) =
    max_of_ids-lem book (raise (lookup id book) m) ids
    ∙ ap (λ (k : TaintLevel). max_from k (map (get_level book) ids)) (raise_lem (lookup id book) m)

-- GetMaxTaint is PropagateTaint of the levels of its ids.
pub get_max_taint_lem :
    (book : TaintTracker) (ids : List String)
    → get_max_taint book ids ≡ propagate_taint (map (get_level book) ids)
unfolding get_max_taint propagate_taint
get_max_taint_lem book ids = max_of_ids-lem book 0 ids

-- Whether every level passes by itself.
abbrev pub all_pass : PromptSlot → List TaintLevel → Bool
all_pass slot [] = true
all_pass slot (l ∷ ls) = check_slot_assignment slot l && all_pass slot ls

check-larger :
    (slot : PromptSlot) (m l : TaintLevel)
    → check_slot_assignment slot (larger m l)
      ≡ (check_slot_assignment slot m && check_slot_assignment slot l)
unfolding check_slot_assignment within
check-larger slot m l = ground arith

and_assoc : (a b c : Bool) → ((a && b) && c) ≡ (a && (b && c))
and_assoc a b c = ground arith

check-max :
    (slot : PromptSlot) (m : TaintLevel) (ls : List TaintLevel)
    → check_slot_assignment slot (max_from m ls)
      ≡ (check_slot_assignment slot m && all_pass slot ls)
unfolding max_from
check-max slot m [] = ground arith
check-max slot m (l ∷ ls) =
    check-max slot (larger m l) ls
    ∙ ap (λ (x : Bool). x && all_pass slot ls) (check-larger slot m l)
    ∙ and_assoc (check_slot_assignment slot m) (check_slot_assignment slot l) (all_pass slot ls)

-- Several inputs may go into a slot together exactly if each may by itself.
pub check_multi_source_lem :
    (slot : PromptSlot) (l : TaintLevel) (ls : List TaintLevel)
    → check_multi_source slot (l ∷ ls) ≡ all_pass slot (l ∷ ls)
unfolding check_multi_source propagate_taint max_from
check_multi_source_lem slot l ls =
    check-max slot (larger 0 l) ls
    ∙ ap (λ (x : TaintLevel). check_slot_assignment slot x && all_pass slot ls) (ground arith)
