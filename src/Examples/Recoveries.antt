-- ===== src/Examples/Recoveries.antt =====
-- Recoveries of a television whose sessions are all made alike.
use pronk.Common.{
  ◌≡◌, ◌+◌, ◌≤◌, true, false, some, List, [], ◌∷◌, codes, refl, ok, err, arith, Bytes-discrete,
  ℕ_discrete,
}
use pronk.SessionReplacement.{
  retire_current, vacate, tear_down, stop_media_generation, stop_live_media,
}
use pronk.SessionReplacement.Ledger.{IsDisciplined}
use pronk.SessionReplacement.Steps.{Step, stopping, configuring, closing, step}
use pronk.SessionReplacement.Values.{DeviceMediaStopReason}
use pronk.Identity.Values.{exact_name}
use pronk.Edid.Timings.{Mode-discrete}
use pronk.Preparation.{PreparedCastDevice}
use pronk.Recovery.Compatibility.{
  validate_recovery, has_same_monitor_configuration, Numeric-discrete, Modes-discrete,
  Audio-discrete, Address-discrete, VideoProfile-discrete,
}
use pronk.Recovery.{
  FactoryAnswer, RecoveryEnvironment, RecoveryInput, recover, session_event, elsewhere, shutdown,
  handle_recover, run_recovery, spawned, step_elsewhere, meanwhile,
}
use pronk.Recovery.Order.{IsRising}
use pronk.Recovery.Generations.{StopsFor, spawned-Inv, run_recovery-IsOrdered}
use pronk.Recovery.Installing.{IsInstalledAs, asking, handle_recover-IsInstalledAs}
use pronk.Examples.Displays.{television}
use pronk.Examples.Monitors.{full_hd, vga}
use pronk.Examples.Preparations.{google, capabilities}

abbrev prepared : PreparedCastDevice
prepared = record {
  device = television 1;
  capabilities = capabilities;
  pnp_resolution = record {
    pnp_id = google;
    database_name = some (codes "Google Inc.");
    source = exact_name;
    candidate_count = 1;
  };
  provenance = record {
    manufacturer_source = capabilities.display_identity.manufacturer_source;
    product_source = capabilities.display_identity.product_source;
    display_name_omitted_from_edid = false;
  };
  generated_edid = record {
    identity = record { pnp_id = google; product_code = 1; serial = 2 };
    display_name = some (codes "Television");
    modes = full_hd ∷ vga ∷ [];
    audio = false;
    cec_physical_address = some 4096;
    edid = [];
  };
}

-- The ports fail, and the factory makes the same session for every device.
abbrev env : RecoveryEnvironment
env = record {
  ports = λ calls port call. err (codes "gone");
  create = λ effects device generation. FactoryAnswer.created prepared;
  accepts_event = λ effects. true;
  replacement_text = λ error. codes "refused";
  incompatible_text = λ error. codes "incompatible";
}

-- The media driver stops its media while the session is made.
abbrev steps : List Step
steps = stopping 4 DeviceMediaStopReason.transport_failure ∷ []

abbrev history : List RecoveryInput
history =
    elsewhere (configuring 4)
    ∷ session_event (some (1, codes "reset"))
    ∷ recover 1 (television 2) steps
    ∷ recover 2 (television 3) []
    ∷ elsewhere closing
    ∷ recover 3 (television 3) []
    ∷ shutdown
    ∷ []

run_recovery-IsOrdered_example :
    let t = run_recovery env history (spawned prepared 1) in
    IsDisciplined t.world.calls
    × IsRising (t.last_session_generation + 1) t.effects
    × (t.world.shared.last_session_generation ≤ t.last_session_generation)
    × StopsFor env t
run_recovery-IsOrdered_example = run_recovery-IsOrdered env history prepared 1

compatible : validate_recovery prepared prepared ≡ some (ok tt)
unfolding validate_recovery has_same_monitor_configuration Numeric-discrete Modes-discrete
    Audio-discrete Address-discrete VideoProfile-discrete Mode-discrete Bytes-discrete ℕ_discrete
compatible = refl

still_open : (asking env (television 2) steps (spawned prepared 1)).world.shared.closed ≡ false
unfolding retire_current vacate tear_down meanwhile step_elsewhere step stop_media_generation
    stop_live_media
still_open = refl

handle_recover-IsInstalledAs_example :
    IsInstalledAs 2
      (asking env (television 2) steps (spawned prepared 1)).world.next_session
      (handle_recover env 1 (television 2) steps (spawned prepared 1))
handle_recover-IsInstalledAs_example =
    handle_recover-IsInstalledAs env 1 (television 2) steps (spawned prepared 1) prepared
      (spawned-Inv prepared 1) (omega arith) refl still_open (λ effects. refl) compatible
