-- ===== src/Examples/Sessions.antt =====
-- A display whose session with its device is replaced while media runs over it.
use pronk.Common.{◌≡◌, false, some, List, [], ◌∷◌, ok, err, refl, codes, if◌then◌else◌, ◌==◌, ◌&&◌}
use pronk.SessionReplacement.Values.{
  Environment, World, ActiveSession, transport_failure, daemon_shutdown,
}
use pronk.SessionReplacement.{
  replaceable_device_session, vacate, configure_media, ask_matching, contains,
  stop_media_generation,
}
use pronk.SessionReplacement.Steps.{
  run, step, Step, configuring, starting, installing, stopping, vacating, ending,
}
use pronk.SessionReplacement.Ledger.{IsDisciplined, is_stop}
use pronk.SessionReplacement.Discipline.{run-IsDisciplined}
use pronk.SessionReplacement.Retirement.{stop_media_generation-vacate}

-- Every port does what it is asked, but the first one fails to end.
abbrev env : Environment
env calls port call = if port == 0 && is_stop call then err (codes "gone") else ok tt

abbrev replaced : List Step
replaced =
    configuring 1
    ∷ starting 1
    ∷ vacating
    ∷ installing 8
    ∷ ending 0 daemon_shutdown
    ∷ stopping 1 transport_failure
    ∷ configuring 2
    ∷ starting 2
    ∷ []

run-IsDisciplined_example : IsDisciplined (run env (replaceable_device_session 7) replaced).calls
run-IsDisciplined_example = run-IsDisciplined env 7 replaced

-- The first session with media generation 1.
abbrev playing : World
playing = run env (replaceable_device_session 7) (configuring 1 ∷ starting 1 ∷ [])

abbrev player : ActiveSession
player = record { session_generation = 7; media_generation = some 1; session = 0 }

plays : (playing.shared.closed ≡ false) × (playing.shared.current ≡ some player)
unfolding run step configure_media ask_matching
plays = (refl, refl)

stop_media_generation-vacate_example :
    let later = run env (vacate playing).0 (installing 8 ∷ configuring 2 ∷ []) in
    let (after, reply) = stop_media_generation env 1 transport_failure later in
    (reply ≡ ok tt)
    × (after.calls ≡ later.calls)
    × (contains 1 after.shared.retired_media_generations ≡ false)
stop_media_generation-vacate_example =
    stop_media_generation-vacate env playing player 1 transport_failure
      (installing 8 ∷ configuring 2 ∷ []) plays.0 plays.1 refl (refl, (refl, tt))
