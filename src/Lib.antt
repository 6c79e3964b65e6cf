-- ===== src/Lib.antt =====
-- A model of Pronk, the manager of cast displays, with the theorems that its core rests on.
--
-- The manager owns one media-session actor per display, which drives a capture, a PipeWire graph
-- and a backend session through phases with a time limit. A policy task watches the display's
-- route and authority and commands that actor, whose backend session may be replaced under it. The
-- slot of the display tells the policy what it sees, asks for a new session when the device comes
-- back or its transport fails, and tears everything down at the end. The recovery actor makes that
-- session: it retires the one in the slot, has the factory prepare a device again, checks it
-- against the monitor that is attached, and installs it. A device is prepared from the
-- capabilities that its backend reports, whose validation, modes and manufacturer become the EDID
-- of the monitor. In the backend, a controller turns the receiver's feedback into bitrates, key
-- frames and playout delays, and a timeline gives packets their times.
--
-- Files and what they model (paths from the repository's root):
--   DisplayState    crates/pronk/src/display_state.rs: `DisplayRuntimeState` and its methods.
--   MediaSession    crates/pronk/src/media_session.rs: `MediaSessionActor`; Values has its data,
--                   Commands `run_actor` with `report_external_failure` and `shutdown_driver`,
--                   Coordination `RequestCoordinator` with its threads as steps.
--   MediaPolicy     crates/pronk/src/media_policy.rs: `decide` and `RetryTracker`; Loop has
--                   `run_policy` and `apply_decision`.
--   Feedback        crates/pronk-chromiacast/src/feedback.rs: `VideoFeedbackController`; Playout
--                   has `AdaptivePlayoutDelayController`, Pressure the snapshot of transport.rs.
--   MediaTimeline   crates/pronk-media/src/media_timeline.rs: `GenerationMediaTimeline`.
--   Slot            crates/pronk/src/slot.rs: `OutputSlotPool`, over the outputs of
--                   crates/pronk-core/src/output.rs.
--   Protocol        crates/pronk-backend-protocol/src/lib.rs: `Validate` of a `DeviceSnapshot`; Session and
--                   Media have the validation of session.rs.
--   Inventory       crates/pronk-backend-host/src/inventory.rs: `DeviceInventory`, the manager's copy of
--                   the devices of a backend.
--   Edid            crates/pronk-core/src/edid.rs: `build_cast_display_edid`; Timings has the table
--                   of modes, Modes their codes, Blocks and Extensions the blocks, Request the validation, Identity the
--                   numeric identity, Build the composition with `validate_edid` of castkms.rs, and
--                   Panics code that may panic.
--   SessionReplacement  crates/pronk/src/replaceable_device_session.rs: the slot of a display's session
--                   with its device; Values has its data, Steps its interleavings.
--   DisplaySlot     crates/pronk/src/cast_display_slot.rs: the actor of one display; Values has its data, Loop
--                   `run_slot`.
--   Recovery        crates/pronk/src/device_recovery.rs: `run_recovery` over the slot of the session, with the
--                   steps of its other users; Compatibility has `validate_recovery` of preparation.rs.
--   Preparation     crates/pronk/src/preparation.rs: `PreparedCastDevice::from_capabilities`; Offer has
--                   `initial_preparation_offer`, Device the validation of a device in crates/pronk-dbus/src/lib.rs.
--   Identity        crates/pronk-core/src/identity.rs: `PnpIdResolver` from the text of its database; Values has
--                   its data and text functions.
--   Codec           crates/pronk-media/src/h264.rs: `validate_access_unit` and its Annex B parser;
--                   Vp8 has `validate_frame` of vp8.rs.
--   Diagnostics     `bounded_text` of media_session.rs and of device_recovery.rs.
--   Common          numbers in machine ranges, results, lists, texts and Boolean tests.
--   Examples        concrete runs.
--
-- State is passed explicitly. The driver of a session, the time its cleanup takes and the text of
-- an error are an `Environment` that a theorem quantifies over; its answers may depend on all the
-- earlier calls. A u64 or u32 is a number, and its checked, saturating and wrapping operations are
-- written out; durations and instants are nanoseconds. The text functions and the hash that an EDID
-- takes from other libraries are a record that its theorems quantify over, as are those of the database of
-- manufacturers.
--
-- There are three fuels: of `run_policy`, for its rounds, where two more than the retry budget are
-- enough (MediaPolicy.Loop.Ending), of the Annex B parser, one more than the bytes, since each unit
-- takes its start code from them (Codec.AnnexB), and of the greatest common divisor, one more than
-- its right number, which falls in each round (Edid.Ratios).
--
-- Not modelled: the channels and the runtime under the actors, a change of the policy's input
-- while a command runs, the owners of displays and backends above these parts, the registration of
-- backends, the object paths of sessions, and everything that calls the
-- kernel, PipeWire, GStreamer, systemd, D-Bus or the network.
pub mod Codec
pub mod Common
pub mod Diagnostics
pub mod DisplaySlot
pub mod DisplayState
pub mod Edid
pub mod Examples
pub mod Feedback
pub mod Identity
pub mod Inventory
pub mod MediaPolicy
pub mod MediaSession
pub mod MediaTimeline
pub mod Preparation
pub mod Protocol
pub mod Recovery
pub mod SessionReplacement
pub mod Slot
