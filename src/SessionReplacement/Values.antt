-- ===== src/SessionReplacement/Values.antt =====
-- The data of crates/pronk/src/replaceable_device_session.rs, with that of device_session_port.rs and of
-- device_control_port.rs that it handles.
use pronk.Common.{ℕ, Bool, Option, List, Bytes, Result, String}

pub data DeviceMediaSuspendReason : Type 0 where
  output_disabled mode_changed device_unavailable session_inactive : DeviceMediaSuspendReason

pub data DeviceMediaStopReason : Type 0 where
  output_disabled mode_changed display_removed backend_shutdown transport_failure :
      DeviceMediaStopReason

pub data DeviceSessionStopReason : Type 0 where
  display_removed daemon_shutdown : DeviceSessionStopReason

pub data DeviceControlKind : Type 0 where
  activate deactivate power standby key_down key_up volume mute : DeviceControlKind

pub record DeviceControlOperation : Type 0 where
  pub kind : DeviceControlKind
  pub code : Option Bytes
  pub value : ℕ  -- i32, by its 32 bits

-- A call of a port, by the generation of its setup where it configures media.
pub data PortCall : Type 0 where
  transmit_control : DeviceControlOperation → PortCall
  configure start resume : ℕ → PortCall
  suspend : ℕ → DeviceMediaSuspendReason → PortCall
  stop_media : ℕ → DeviceMediaStopReason → PortCall
  stop : DeviceSessionStopReason → PortCall

abbrev pub Answer : Type 0
Answer = Result Bytes (Unit {0})

-- The calls made so far, each with its port and its answer, the newest first.
abbrev pub Calls : Type 0
Calls = List (ℕ × PortCall × Answer)

abbrev pub Environment : Type 0
Environment = Calls → ℕ → PortCall → Answer

pub record ActiveSession : Type 0 where
  pub session_generation : ℕ
  pub media_generation : Option ℕ
  pub session : ℕ

pub record SharedState : Type 0 where
  pub current : Option ActiveSession
  pub last_session_generation : ℕ
  pub retired_media_generations : List ℕ
  pub closed : Bool

pub record World : Type 0 where
  pub shared : SharedState
  pub tearing_down : List ℕ
  pub next_session : ℕ
  pub calls : Calls

pub data DeviceSessionError : Type 0 where
  owner_stopped not_installed : DeviceSessionError
  already_configured : ℕ → ℕ → DeviceSessionError
  not_active : String → ℕ → Option ℕ → DeviceSessionError
  another_active : ℕ → ℕ → DeviceSessionError
  port_error : Bytes → DeviceSessionError

abbrev pub Reply : Type 0
Reply = Result DeviceSessionError (Unit {0})

pub data ReplacementError : Type 0 where
  stopped : ReplacementError
  occupied : ℕ → ReplacementError
  stale_generation : ℕ → ℕ → ReplacementError
  rejected_cleanup : ReplacementError → Bytes → ReplacementError

pub record RetirementReport : Type 0 where
  pub retired_session_generation : Option ℕ
  pub retired_media_generation : Option ℕ
  pub cleanup_error : Option Bytes
