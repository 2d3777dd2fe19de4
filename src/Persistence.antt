-- ===== src/Persistence.antt =====
-- storage/persistence_fault_model.py: the file length and the overflow rows, volatile and durable, and
-- the two recovery passes with their failpoints. Each method returns the new state. A failpoint name
-- is a constructor; `unknown` stands for every other text.
pub mod Convergence
pub mod Marker
use durable_infinite_context.Prelude.{
  ℕ, ◌+◌, ◌-◌, ◌*◌, String, Bool, true, false, Option, none, some, ltb, if◌then◌else◌,
}

abbrev pub page_size : ℕ
page_size = 4096

pub record FileDurabilityState : Type 0 where
  pub reachable_size : ℕ
  pub durable_size : ℕ
  pub volatile_size : ℕ

abbrev pub with_stale_tail : ℕ → ℕ → FileDurabilityState
with_stale_tail reachable stale =
    let size = reachable + stale in
    record { reachable_size = reachable; durable_size = size; volatile_size = size }

-- `max(0, a - b)` is the subtraction of ℕ
abbrev pub durable_tail_bytes : FileDurabilityState → ℕ
durable_tail_bytes f = f.durable_size - f.reachable_size

abbrev pub volatile_tail_bytes : FileDurabilityState → ℕ
volatile_tail_bytes f = f.volatile_size - f.reachable_size

unfoldable pub ftruncate_to_reachable : FileDurabilityState → ℕ × FileDurabilityState
ftruncate_to_reachable f = (volatile_tail_bytes f, record f { volatile_size = f.reachable_size })

unfoldable pub fsync : FileDurabilityState → FileDurabilityState
fsync f = record f { durable_size = f.volatile_size }

unfoldable pub file_power_loss : FileDurabilityState → FileDurabilityState
file_power_loss f = record f { volatile_size = f.durable_size }

pub record OverflowDurabilityState : Type 0 where
  pub durable_future_rows : ℕ
  pub pending_delete : Bool

unfoldable pub begin_delete_future_rows : OverflowDurabilityState → OverflowDurabilityState
begin_delete_future_rows o = record o { pending_delete = ltb 0 o.durable_future_rows }

unfoldable pub commit : OverflowDurabilityState → ℕ × OverflowDurabilityState
commit o =
    if o.pending_delete
    then (o.durable_future_rows, record { durable_future_rows = 0; pending_delete = false })
    else (0, o)

unfoldable pub overflow_power_loss : OverflowDurabilityState → OverflowDurabilityState
overflow_power_loss o = record o { pending_delete = false }

pub record RecoveryFaultState : Type 0 where
  pub file : FileDurabilityState
  pub overflow : OverflowDurabilityState
  pub durable_tail_clean_marker : Bool

unfoldable pub power_loss : RecoveryFaultState → RecoveryFaultState
unfolding file_power_loss overflow_power_loss
power_loss s = record s { file = file_power_loss s.file; overflow = overflow_power_loss s.overflow }

unfoldable pub stale_tail_bytes_for_capacity : ℕ → ℕ
stale_tail_bytes_for_capacity capacity = page_size * (capacity + 2)

-- `make_state`; the default of `reachable_size` is ten pages
abbrev pub make_state : ℕ → ℕ → ℕ → RecoveryFaultState
make_state future_rows stale_tail reachable_size = record {
  file = with_stale_tail reachable_size stale_tail;
  overflow = record { durable_future_rows = future_rows; pending_delete = false };
  durable_tail_clean_marker = false;
}

pub data Failpoint : Type 0 where
  no_failpoint : Failpoint
  future_delete_uncommitted future_delete_committed after_future_cleanup : Failpoint
  tail_truncated tail_synced : Failpoint
  marker_committed_before_tail_fsync : Failpoint
  unknown : String → Failpoint

pub record Trace : Type 0 where
  pub deleted_future_rows : ℕ
  pub sqlite_commits : ℕ
  pub marker_commits : ℕ
  pub truncate_calls : ℕ
  pub file_fsyncs : ℕ
  pub logical_redo : ℕ
  pub lost_power : Bool

abbrev pub no_trace : Trace
no_trace = record {
  deleted_future_rows = 0;
  sqlite_commits = 0;
  marker_commits = 0;
  truncate_calls = 0;
  file_fsyncs = 0;
  logical_redo = 0;
  lost_power = false;
}

-- a pass so far: `stopped` has returned, `running` goes on
pub data Pass : Type 0 where
  stopped running : Trace → RecoveryFaultState → Pass

abbrev crash : Trace → RecoveryFaultState → Pass
crash t s = stopped (record t { lost_power = true }) (power_loss s)

-- `if failpoint == p: state.power_loss(); trace["power_loss"] = True; return trace`
abbrev crash_if : Bool → Trace → RecoveryFaultState → Pass
crash_if b t s = if b then crash t s else running t s

infixl 5 ◌>>=◌
abbrev pub ◌>>=◌ : Pass → (Trace → RecoveryFaultState → Pass) → Pass
stopped t s >>= f = stopped t s
running t s >>= f = f t s

abbrev pub is_uncommitted : Failpoint → Bool
is_uncommitted future_delete_uncommitted = true
is_uncommitted _ = false

abbrev pub is_committed : Failpoint → Bool
is_committed future_delete_committed = true
is_committed _ = false

abbrev pub is_after_cleanup : Failpoint → Bool
is_after_cleanup after_future_cleanup = true
is_after_cleanup _ = false

abbrev pub is_truncated : Failpoint → Bool
is_truncated tail_truncated = true
is_truncated _ = false

abbrev pub is_synced : Failpoint → Bool
is_synced tail_synced = true
is_synced _ = false

abbrev pub is_marker : Failpoint → Bool
is_marker marker_committed_before_tail_fsync = true
is_marker _ = false

-- `failpoint in allowed`, for each of the two passes
abbrev pub derived_allows : Failpoint → Bool
derived_allows marker_committed_before_tail_fsync = false
derived_allows (unknown name) = false
derived_allows _ = true

abbrev pub marker_allows : Failpoint → Bool
marker_allows no_failpoint = true
marker_allows marker_committed_before_tail_fsync = true
marker_allows _ = false

-- the deletion of hidden future rows
unfoldable pub overflow_phase : Failpoint → Trace → RecoveryFaultState → Pass
unfolding power_loss begin_delete_future_rows commit
overflow_phase p t s =
    if ltb 0 s.overflow.durable_future_rows
    then (crash_if (is_uncommitted p) t
          (record s { overflow = begin_delete_future_rows s.overflow })
        >>= λ t s.
            let (deleted, o) = commit s.overflow in
            crash_if (is_committed p)
              (record t { deleted_future_rows = deleted; sqlite_commits = 1 })
              (record s { overflow = o }))
    else running t s

-- the truncation of the tail and its fsync
unfoldable pub tail_phase : Failpoint → Trace → RecoveryFaultState → Pass
unfolding power_loss ftruncate_to_reachable fsync
tail_phase p t s =
    if ltb 0 (volatile_tail_bytes s.file)
    then (crash_if (is_truncated p) (record t { truncate_calls = 1 })
          (record s { file = (ftruncate_to_reachable s.file).1 })
        >>= λ t s.
            crash_if (is_synced p) (record t { file_fsyncs = 1 })
              (record s { file = fsync s.file }))
    else running t s

abbrev result : Pass → Trace × RecoveryFaultState
result (stopped t s) = (t, s)
result (running t s) = (t, s)

-- `none` is the ValueError of an unsupported failpoint.
unfoldable pub derived_recovery_pass :
    RecoveryFaultState → Failpoint → Option (Trace × RecoveryFaultState)
unfolding overflow_phase tail_phase
derived_recovery_pass s p =
    if derived_allows p
    then some (
        result (
          overflow_phase p no_trace s
          >>= (λ t s. crash_if (is_after_cleanup p) t s)
          >>= tail_phase p))
    else none

unfoldable pub marker_recovery_pass :
    RecoveryFaultState → Failpoint → Option (Trace × RecoveryFaultState)
unfolding power_loss ftruncate_to_reachable fsync
marker_recovery_pass s p =
    if marker_allows p
    then some (
        if s.durable_tail_clean_marker
        then (no_trace, s)
        else if ltb 0 (volatile_tail_bytes s.file)
        then result (
            crash_if (is_marker p) (record no_trace { truncate_calls = 1; marker_commits = 1 })
              (record s {
                file = (ftruncate_to_reachable s.file).1;
                durable_tail_clean_marker = true;
              })
            >>= λ t s. running (record t { file_fsyncs = 1 }) (record s { file = fsync s.file }))
        else (no_trace, s))
    else none
