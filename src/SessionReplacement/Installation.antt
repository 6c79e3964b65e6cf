-- ===== src/SessionReplacement/Installation.antt =====
-- The installation of a session into the slot of crates/pronk/src/replaceable_device_session.rs.
use pronk.Common.{ℕ, ◌<◌, ◌≤◌, ◌≡◌, true, false, none, some, ◌∷◌, Result, ok, err}
use pronk.SessionReplacement.Values.{
  daemon_shutdown, stop, Environment, World, SharedState, ActiveSession, ReplacementError, stopped,
  occupied, stale_generation,
}
use pronk.SessionReplacement.{with_cleanup}

abbrev pub IsInstalled : ℕ → World → World × Result ReplacementError ℕ → Type 0
IsInstalled generation w (after, reply) =
    (reply ≡ ok generation)
    × (w.shared.closed ≡ false)
    × (w.shared.current ≡ none)
    × (w.shared.last_session_generation < generation)
    × (after.shared.last_session_generation ≡ generation)
    × (after.calls ≡ w.calls)
    × (after.shared.current
        ≡ some (record {
          session_generation = generation;
          media_generation = none;
          session = w.next_session;
        }))

abbrev pub IsRefused :
    Environment → ReplacementError → World → World × Result ReplacementError ℕ → Type 0
IsRefused env error w (after, reply) =
    let answer = env w.calls w.next_session (stop daemon_shutdown) in
    (reply ≡ err (with_cleanup error answer))
    × (after.shared ≡ w.shared)
    × (after.calls ≡ (w.next_session, stop daemon_shutdown, answer) ∷ w.calls)

-- Why a session is refused, and with which error.
pub data Refusal (shared : SharedState) (generation : ℕ) : ReplacementError → Type 0 where
  when_closed : shared.closed ≡ true → Refusal shared generation stopped
  when_occupied :
      (c : ActiveSession)
      → shared.closed ≡ false
      → shared.current ≡ some c
      → Refusal shared generation (occupied c.session_generation)
  when_late :
      shared.closed ≡ false
      → shared.current ≡ none
      → generation ≤ shared.last_session_generation
      → Refusal shared generation (stale_generation shared.last_session_generation generation)
