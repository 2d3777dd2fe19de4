-- ===== src/Tests/Recovery.antt =====
-- The recovery passes and the residue formulas at concrete states.
use durable_infinite_context.Prelude.{◌≡◌, refl, some, List, [], ◌∷◌, false, true, arith}
use durable_infinite_context.Persistence.{
  RecoveryFaultState, Failpoint, no_failpoint, future_delete_committed, tail_truncated,
  marker_committed_before_tail_fsync, unknown, Trace, no_trace, derived_recovery_pass, make_state,
  durable_tail_bytes,
}
use durable_infinite_context.Persistence.Convergence.{
  IsRestart, Shrinks, IsClean, derived_recovery_pass-Shrinks, after_passes, recovery_converges,
}
use durable_infinite_context.Persistence.Marker.{
  after_marker_pass, after_marker_passes, marker_strands_tail,
}

abbrev stale : RecoveryFaultState
stale = make_state 3 8192 40960

stale-IsRestart : IsRestart stale
stale-IsRestart = record { settled = refl; reopened = refl; covered = omega arith }

abbrev cut : Trace
cut = record no_trace {
  deleted_future_rows = 3;
  sqlite_commits = 1;
  truncate_calls = 1;
  lost_power = true;
}

-- the truncation is lost, the deletion is not
derived_recovery_pass-Shrinks_example : Shrinks stale (make_state 0 8192 40960)
derived_recovery_pass-Shrinks_example =
    derived_recovery_pass-Shrinks stale (make_state 0 8192 40960) tail_truncated cut stale-IsRestart
      (unfold derived_recovery_pass in refl)

abbrev interruptions : List Failpoint
interruptions = tail_truncated ∷ future_delete_committed ∷ unknown "other" ∷ []

recovery_converges_example :
    let s = after_passes stale interruptions in
    (t : Trace) × (s' : RecoveryFaultState) × (derived_recovery_pass s no_failpoint ≡ some (t, s'))
    × IsClean s'
    × (s'.file.durable_size ≡ 40960)
    × (t.lost_power ≡ false)
recovery_converges_example = recovery_converges 3 8192 40960 interruptions

abbrev tidy : RecoveryFaultState
tidy = make_state 0 0 40960

marker_strands_tail_example :
    durable_tail_bytes
      (after_marker_passes
        (after_marker_pass stale marker_committed_before_tail_fsync)
        (no_failpoint ∷ no_failpoint ∷ [])).file
    ≡ 8192
marker_strands_tail_example =
    marker_strands_tail stale (no_failpoint ∷ no_failpoint ∷ []) stale-IsRestart refl (omega arith)
