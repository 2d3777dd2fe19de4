-- ===== src/Persistence/Convergence.antt =====
-- The derivation-based recovery pass under repeated power loss.
use durable_infinite_context.Prelude.{
  ℕ, ◌≤◌, ◌≡◌, refl, ◌∙◌, Option-cases, ltb, if◌then◌else◌, inl, inr, false, none, some, List, [],
  ◌∷◌, arith,
}
use durable_infinite_context.Persistence.{
  RecoveryFaultState, Failpoint, no_failpoint, Trace, no_trace, derived_recovery_pass, make_state,
  durable_tail_bytes, volatile_tail_bytes,
}

-- A state as a restart finds it: nothing pending, no volatile length of its own, and the file holds
-- at least what the committed epoch reaches.
pub record IsRestart (s : RecoveryFaultState) : Type 0 where
  pub settled : s.overflow.pending_delete ≡ false
  pub reopened : s.file.volatile_size ≡ s.file.durable_size
  pub covered : s.file.reachable_size ≤ s.file.durable_size

-- what a pass may change
pub record Shrinks (s s' : RecoveryFaultState) : Type 0 where
  pub restart : IsRestart s'
  pub reachable : s'.file.reachable_size ≡ s.file.reachable_size
  pub rows : s'.overflow.durable_future_rows ≤ s.overflow.durable_future_rows
  pub tail : s'.file.durable_size ≤ s.file.durable_size

-- A pass over a restart state, whichever failpoint stops it, leaves a restart state with the same
-- committed frontier, and with no more hidden rows and no longer file than before.
pub derived_recovery_pass-Shrinks :
    (s s' : RecoveryFaultState) (p : Failpoint) (t : Trace)
    → IsRestart s
    → derived_recovery_pass s p ≡ some (t, s')
    → Shrinks s s'
unfolding derived_recovery_pass
derived_recovery_pass-Shrinks s s' no_failpoint t v run = ground arith
derived_recovery_pass-Shrinks s s' _ t v run = ground arith

-- nothing is left to clean
pub record IsClean (s : RecoveryFaultState) : Type 0 where
  pub no_rows : s.overflow.durable_future_rows ≡ 0
  pub no_durable_tail : durable_tail_bytes s.file ≡ 0
  pub no_volatile_tail : volatile_tail_bytes s.file ≡ 0

-- The state after one pass; a refused failpoint raises and changes nothing.
unfoldable pub after_pass : RecoveryFaultState → Failpoint → RecoveryFaultState
after_pass s p = elim (derived_recovery_pass s p) [ none ↦ s | some (t, s') ↦ s' ]

-- The state after a sequence of passes, one for each failpoint.
unfoldable pub after_passes : RecoveryFaultState → List Failpoint → RecoveryFaultState
after_passes s [] = s
after_passes s (p ∷ ps) = after_passes (after_pass s p) ps

derived_recovery_pass-IsClean :
    (s : RecoveryFaultState)
    → IsRestart s
    → (t : Trace) × (s' : RecoveryFaultState) × (derived_recovery_pass s no_failpoint
        ≡ some (t, s'))
      × IsClean s'
      × (s'.file.durable_size ≡ s.file.reachable_size)
      × (t.lost_power ≡ false)
unfolding derived_recovery_pass
derived_recovery_pass-IsClean s v =
    let reach = s.file.reachable_size in
    let rows = s.overflow.durable_future_rows in
    (
      record no_trace {
        deleted_future_rows = rows;
        sqlite_commits = if ltb 0 rows then 1 else 0;
        truncate_calls = if ltb 0 (volatile_tail_bytes s.file) then 1 else 0;
        file_fsyncs = if ltb 0 (volatile_tail_bytes s.file) then 1 else 0;
      },
      record s {
        file = record { reachable_size = reach; durable_size = reach; volatile_size = reach };
        overflow = record { durable_future_rows = 0; pending_delete = false };
      },
      ground arith,
      ground arith,
      refl,
      refl,
    )

after_pass-Shrinks :
    (s : RecoveryFaultState) (p : Failpoint) → IsRestart s → Shrinks s (after_pass s p)
unfolding after_pass
after_pass-Shrinks s p v = elim (Option-cases (derived_recovery_pass s p)) [
  | inl refused ↦
      rw (refused, after_pass)
        (record { restart = v; reachable = refl; rows = omega arith; tail = omega arith })
  | inr ((t, s'), run) ↦ rw (run, after_pass) (derived_recovery_pass-Shrinks s s' p t v run)
]

after_passes-IsRestart :
    (s : RecoveryFaultState) (ps : List Failpoint) (reach : ℕ)
    → IsRestart s
    → s.file.reachable_size ≡ reach
    → IsRestart (after_passes s ps) × ((after_passes s ps).file.reachable_size ≡ reach)
unfolding after_passes
after_passes-IsRestart s [] reach v same = (v, same)
after_passes-IsRestart s (p ∷ ps) reach v same =
    let k = after_pass-Shrinks s p v in
    after_passes-IsRestart (after_pass s p) ps reach k.restart (k.reachable ∙ same)

-- From a stale state, whatever power losses interrupt earlier passes, one pass without a failpoint
-- runs to its end: no hidden row is left, and the durable file ends exactly at the committed frontier.
pub recovery_converges :
    (rows stale reach : ℕ) (ps : List Failpoint)
    → let s = after_passes (make_state rows stale reach) ps in
      (t : Trace) × (s' : RecoveryFaultState) × (derived_recovery_pass s no_failpoint
        ≡ some (t, s'))
      × IsClean s'
      × (s'.file.durable_size ≡ reach)
      × (t.lost_power ≡ false)
recovery_converges rows stale reach ps =
    let (v, same) =
      after_passes-IsRestart (make_state rows stale reach) ps reach
        (record { settled = refl; reopened = refl; covered = omega arith }) refl in
    let (t, s', run, clean, size, power) =
      derived_recovery_pass-IsClean (after_passes (make_state rows stale reach) ps) v in
    (t, s', run, clean, size ∙ same, power)

-- A clean restart state is a fixed point: every allowed pass over it, interrupted or not, changes
-- nothing, deletes no row and neither truncates nor syncs the file.
pub clean_pass_changes_nothing :
    (s s' : RecoveryFaultState) (p : Failpoint) (t : Trace)
    → IsRestart s
    → IsClean s
    → derived_recovery_pass s p ≡ some (t, s')
    → (s' ≡ s)
      × (t.deleted_future_rows ≡ 0)
      × (t.sqlite_commits ≡ 0)
      × (t.truncate_calls ≡ 0)
      × (t.file_fsyncs ≡ 0)
unfolding derived_recovery_pass
clean_pass_changes_nothing s s' no_failpoint t v c run = ground arith
clean_pass_changes_nothing s s' _ t v c run = ground arith
