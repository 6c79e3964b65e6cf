-- ===== src/MediaSession/Commands.antt =====
-- The command loop of crates/pronk/src/media_session.rs: `run_actor`, with the handlers that report
-- an external failure and shut the driver down. The queue is the list of commands received, and its
-- end is the closing of the channel.
use pronk.Common.{
  ℕ, ◌-◌, ◌/◌, Option, none, some, List, [], ◌∷◌, ◌++◌, max, Bytes, codes, Result, ok, err,
}
use pronk.Diagnostics.{bounded_text}
use pronk.DisplayState.{MediaState}
use pronk.MediaSession.Values.{
  MediaRoute, MediaSuspendReason, MediaStopReason, output_disabled, backend_shutdown,
  transport_failure, SessionError, retry_unavailable, combined_shutdown,
}
use pronk.MediaSession.{
  Environment, Actor, Action, shutdown_driver, max_error_bytes, set_state, run_phase, run_stop,
  activate, suspend, stop_to_idle,
}

pub data CommandKind : Type 0 where
  activating : MediaRoute → CommandKind
  deactivating retrying : CommandKind
  suspending : MediaSuspendReason → CommandKind
  reporting_failure : Bytes → CommandKind
  shutting_down : MediaStopReason → CommandKind

abbrev Reply : Type 0
Reply = Result SessionError (Unit {0})

-- One third of the phase budget is kept for the driver's own shutdown.
abbrev pub final_reserve : ℕ → ℕ
final_reserve timeout = max (timeout / 3) 1

module _ (env : Environment) where
  failure_diagnostic : Bytes → Reply → Bytes
  failure_diagnostic error (ok _) = error
  failure_diagnostic error (err cleanup) =
      bounded_text (error ++ codes "; cleanup also failed: " ++ env.display cleanup) max_error_bytes

  unfoldable pub report_external_failure : ℕ → Bytes → Action
  unfolding failure_diagnostic
  report_external_failure timeout error a =
      let (a', cleanup) = run_stop env timeout transport_failure a in
      (
        set_state MediaState.failed a.snapshot.route none (some (failure_diagnostic error cleanup))
            a',
        cleanup,
      )

  -- The replies of the two cleanup steps of a shutdown, joined.
  join_shutdown : Reply → Reply → Reply
  join_shutdown (ok _) final_result = final_result
  join_shutdown (err media) (ok _) = err media
  join_shutdown (err media) (err final_error) =
      err (combined_shutdown (env.display media) (env.display final_error))

  unfoldable pub shutdown : ℕ → MediaStopReason → Action
  unfolding join_shutdown
  shutdown timeout reason a =
      let (stopped, media_result) = stop_to_idle env (timeout - final_reserve timeout) reason a in
      let remaining = max (timeout - env.cleanup_time stopped.calls) 1 in
      let (final, final_result) =
        run_phase env remaining "shut down media driver" (shutdown_driver reason) stopped in
      (final, join_shutdown media_result final_result)

  unfoldable pub retry_from : ℕ → MediaState → Option MediaRoute → Action
  retry_from timeout MediaState.failed (some route) a = activate env timeout route a
  retry_from timeout state _ a = (a, err (retry_unavailable state))

  unfoldable pub handle : ℕ → CommandKind → Action
  unfolding retry_from
  handle timeout (activating route) a = activate env timeout route a
  handle timeout deactivating a = stop_to_idle env timeout output_disabled a
  handle timeout retrying a = retry_from timeout a.snapshot.state a.snapshot.route a
  handle timeout (suspending reason) a = suspend env timeout reason a
  -- The handle bounds the text before it sends the command.
  handle timeout (reporting_failure error) a =
      report_external_failure timeout (bounded_text error max_error_bytes) a
  handle timeout (shutting_down reason) a = shutdown timeout reason a

  -- The loop ends with the first shutdown command, or with one of its own when the channel closes.
  unfoldable pub run_actor : ℕ → List CommandKind → Actor → Actor
  unfolding handle
  run_actor timeout [] a = (shutdown timeout backend_shutdown a).0
  run_actor timeout (shutting_down reason ∷ rest) a = (shutdown timeout reason a).0
  run_actor timeout (command ∷ rest) a = run_actor timeout rest (handle timeout command a).0
