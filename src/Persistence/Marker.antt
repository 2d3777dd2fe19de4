-- ===== src/Persistence/Marker.antt =====
-- The negative control of storage/persistence_fault_model.py: a durable marker set before the fsync.
use durable_infinite_context.Prelude.{◌<◌, ◌≡◌, refl, true, false, none, some, List, [], ◌∷◌, arith}
use durable_infinite_context.Persistence.{
  RecoveryFaultState, Failpoint, no_failpoint, marker_committed_before_tail_fsync,
  marker_recovery_pass, durable_tail_bytes,
}
use durable_infinite_context.Persistence.Convergence.{IsRestart}

-- The state after one pass of the control; a refused failpoint raises and changes nothing.
unfoldable pub after_marker_pass : RecoveryFaultState → Failpoint → RecoveryFaultState
after_marker_pass s p = elim (marker_recovery_pass s p) [ none ↦ s | some (t, s') ↦ s' ]

unfoldable pub after_marker_passes : RecoveryFaultState → List Failpoint → RecoveryFaultState
after_marker_passes s [] = s
after_marker_passes s (p ∷ ps) = after_marker_passes (after_marker_pass s p) ps

trusts_marker :
    (s : RecoveryFaultState) (p : Failpoint)
    → s.durable_tail_clean_marker ≡ true
    → after_marker_pass s p ≡ s
unfolding after_marker_pass marker_recovery_pass
trusts_marker s no_failpoint m = ground arith
trusts_marker s _ m = ground arith

trusts_marker_always :
    (s : RecoveryFaultState) (ps : List Failpoint)
    → s.durable_tail_clean_marker ≡ true
    → after_marker_passes s ps ≡ s
unfolding after_marker_passes
trusts_marker_always s [] m = refl
trusts_marker_always s (p ∷ ps) m = rw (trusts_marker s p m) (trusts_marker_always s ps m)

lost_truncation :
    (s : RecoveryFaultState)
    → IsRestart s
    → s.durable_tail_clean_marker ≡ false
    → 0 < durable_tail_bytes s.file
    → let s' = after_marker_pass s marker_committed_before_tail_fsync in
      (s'.durable_tail_clean_marker ≡ true)
      × (durable_tail_bytes s'.file ≡ durable_tail_bytes s.file)
unfolding after_marker_pass marker_recovery_pass
lost_truncation s v m pos = ground arith

-- From a state after a restart with a stale tail and no marker: if power is lost between the durable
-- marker and the fsync, every later pass of the control trusts the marker, and the whole stale tail
-- stays in the durable file for good.
pub marker_strands_tail :
    (s : RecoveryFaultState) (ps : List Failpoint)
    → IsRestart s
    → s.durable_tail_clean_marker ≡ false
    → 0 < durable_tail_bytes s.file
    → durable_tail_bytes
        (after_marker_passes (after_marker_pass s marker_committed_before_tail_fsync) ps).file
      ≡ durable_tail_bytes s.file
marker_strands_tail s ps v m pos =
    let (marked, tail) = lost_truncation s v m pos in
    rw (trusts_marker_always (after_marker_pass s marker_committed_before_tail_fsync) ps marked)
      tail
