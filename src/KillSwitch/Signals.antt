-- ===== src/KillSwitch/Signals.antt =====
-- The triple interrupt.
use polarisagi_harness.Prelude.{
  ℕ, suc, ◌+◌, ◌-◌, ◌≤◌, ◌<◌, ◌≡◌, refl, ◌⊎◌, inl, inr, List, [], ◌∷◌, ◌++◌, arith, leb, length,
  length-append, Bool-cases, if◌then◌else◌,
}
use polarisagi_harness.KillSwitch.{
  KillState, kill_full_stop, Reason, KillSwitch, transition, write_full_stop_file, recent,
  on_sigint, trigger_full_stop, window, triple_sigint,
}
use polarisagi_harness.KillSwitch.Stages.{sealed}

-- How many times of a list lie in the window before `now`.
abbrev pub count_recent : ℕ → List ℕ → ℕ
count_recent now [] = 0
count_recent now (t ∷ ts) =
    let rest = count_recent now ts in if leb (now - t) window then suc rest else rest

length-recent : (now : ℕ) (ts : List ℕ) → length (recent now ts) ≡ count_recent now ts
unfolding recent
length-recent now [] = refl
length-recent now (t ∷ ts) = ground (arith, length-recent now ts)

-- After an interrupt at `now` the switch is sealed if the interrupts that it remembers within the
-- three seconds before, with this one, are three or more; otherwise its stage is what it was.
pub on_sigint-seals :
    (now : ℕ) (ks : KillSwitch)
    → ((2 ≤ count_recent now ks.sigint_times) × ((on_sigint now ks).state ≡ kill_full_stop))
      ⊎ ((count_recent now ks.sigint_times < 2) × ((on_sigint now ks).state ≡ ks.state))
unfolding on_sigint trigger_full_stop
on_sigint-seals now ks =
    elim (Bool-cases (leb 3 (length (recent now ks.sigint_times ++ now ∷ [])))) [
      | inl t ↦ inl (
        ground (
          arith,
          length-recent now ks.sigint_times,
          length-append (recent now ks.sigint_times) (now ∷ []),
        ),
        rw t (sealed now triple_sigint _).1,
      )
      | inr f ↦ inr (
        ground (
          arith,
          length-recent now ks.sigint_times,
          length-append (recent now ks.sigint_times) (now ∷ []),
        ),
        rw f refl,
      )
    ]

count_recent-append :
    (now : ℕ) (xs ys : List ℕ)
    → count_recent now (xs ++ ys) ≡ count_recent now xs + count_recent now ys
count_recent-append now [] ys = omega arith
count_recent-append now (x ∷ xs) ys = ground (arith, count_recent-append now xs ys)

-- A time in the later window that a filter at an earlier moment keeps is counted.
count_recent-kept :
    (later now t : ℕ) (ts : List ℕ)
    → now - t ≤ window
    → later - t ≤ window
    → 1 ≤ count_recent later (recent now (ts ++ t ∷ []))
unfolding recent
count_recent-kept later now t [] h k = ground arith
count_recent-kept later now t (x ∷ ts) h k = ground (arith, count_recent-kept later now t ts h k)

transition-times :
    (now : ℕ) (s : KillState) (r : Reason) (ks : KillSwitch)
    → (transition now s r ks).sigint_times ≡ ks.sigint_times
unfolding transition write_full_stop_file
transition-times now s r ks = ground arith

on_sigint-times :
    (now : ℕ) (ks : KillSwitch)
    → (on_sigint now ks).sigint_times ≡ recent now ks.sigint_times ++ now ∷ []
unfolding on_sigint trigger_full_stop
on_sigint-times now ks =
    elim (Bool-cases (leb 3 (length (recent now ks.sigint_times ++ now ∷ [])))) [
      | inl t ↦ rw t (transition-times now kill_full_stop triple_sigint _)
      | inr f ↦ rw f refl
    ]

-- Three interrupts within three seconds seal the switch, whatever it was before.
pub triple_sigint_seals :
    (first second third : ℕ) (ks : KillSwitch)
    → first ≤ second
    → second ≤ third
    → third ≤ first + window
    → (on_sigint third (on_sigint second (on_sigint first ks))).state ≡ kill_full_stop
triple_sigint_seals first second third ks a b c =
    let once = on_sigint first ks in
    let twice = on_sigint second once in
    let kept =
      count_recent-kept third second first (recent first ks.sigint_times) (omega arith)
        (omega arith) in
    elim (on_sigint-seals third twice) [
      | inl (h, s) ↦ s
      | inr (h, s) ↦ absurd (
          ground (
            arith,
            h,
            kept,
            on_sigint-times first ks,
            on_sigint-times second once,
            count_recent-append third (recent second once.sigint_times) (second ∷ []),
          ))
    ]
