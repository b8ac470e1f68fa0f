-- ===== src/Slot/Events.antt =====
-- host/src/signaling/mod.rs, `handle_session_event`, and the loops that drive the slot:
-- `SignalingClient::run` and `SessionSlot::run_while_offline`. What arrives over a session's `input`
-- and `control` channels, and a change of the display, do not touch the slot and are left out.
use rcdesk.Common.{
  ℕ, String, Option, none, some, Bool, false, not, ◌&&◌, List, [], ◌∷◌, ◌++◌, if◌then◌else◌, ◌==◌,
  nat_test, string_test,
}
use rcdesk.Ws.{video_failed, IceCandidate, IceServer, SignalMessage, ice, bye, pin_changed}
use rcdesk.Slot.{
  holds, DisconnectGrace, disconnected, connected, is_current, ActiveSession, PendingAuth,
  AgentStatus, connecting, reconnecting, registered, in_session, Effect, send, disconnect_timer,
  World, end_here, send_session_stats,
}
use rcdesk.Slot.Login.{Libraries, State, Done}
use rcdesk.Slot.Signals.{AgentCommand, handle_signal_message, handle_agent_command}

-- `RTCPeerConnectionState`; `unspecified`, `new` and `connecting` change nothing.
pub data ConnectionState : Type 0 where
  starting up lost failed closed : ConnectionState

-- `SessionEvent`
pub data SessionEvent : Type 0 where
  local_ice : IceCandidate → SessionEvent
  connection_state : ConnectionState → ℕ → SessionEvent
  disconnect_timeout auth_timeout : String → ℕ → SessionEvent
  data_channel_closed : String → ℕ → SessionEvent
  failed_video : ℕ → SessionEvent

-- The session has this tag.
abbrev pub has_tag : Option ActiveSession → ℕ → Bool
has_tag none tag = false
has_tag (some s) tag = s.session_tag == tag

abbrev pub in_window : Option ActiveSession → ℕ → Bool
in_window none generation = false
in_window (some s) generation = is_current s.disconnect_grace generation

-- What reaches the slot: while the host is connected, or `offline`.
pub data Happening : Type 0 where
  message : SignalMessage → Happening
  event offline_event : SessionEvent → Happening
  command offline_command : AgentCommand → Happening
  stats_tick connection_over : Happening

-- What is sent while the host is offline goes nowhere.
abbrev pub unsent : List Effect → List Effect
unsent [] = []
unsent (send msg ∷ effects) = unsent effects
unsent (e ∷ effects) = e ∷ unsent effects

unfoldable pub report_traffic : Option ActiveSession → Option String → World → List Effect
report_traffic (some s) (some sid) w = send_session_stats w.traffic sid false
report_traffic s sid w = []

abbrev pub with_id : Option String → IceCandidate → List Effect
with_id none candidate = []
with_id (some sid) candidate = send (ice sid candidate) ∷ []

module _ (lib : Libraries) where
  unfoldable pub on_connected : State lib → Option ActiveSession → Done lib
  on_connected a none = (a, [])
  on_connected a (some s) = (
    record a {
      active = some (record s { disconnect_grace = connected s.disconnect_grace });
      status = in_session a.pin;
    },
    [],
  )

  unfoldable pub arm_window :
      State lib → String → ActiveSession → Option ℕ × DisconnectGrace → Done lib
  arm_window a sid s (none, g) =
      (record a { active = some (record s { disconnect_grace = g }) }, [])
  arm_window a sid s (some generation, g) = (
    record a { active = some (record s { disconnect_grace = g }) },
    disconnect_timer sid generation ∷ [],
  )

  unfoldable pub on_disconnected : State lib → Option ActiveSession → Option String → Done lib
  unfolding arm_window
  on_disconnected a (some s) (some sid) = arm_window a sid s (disconnected s.disconnect_grace)
  on_disconnected a s sid = (a, [])

  unfoldable pub on_connection_state : World → State lib → ConnectionState → Done lib
  unfolding on_connected on_disconnected
  on_connection_state w a starting = (a, [])
  on_connection_state w a up = on_connected a a.active
  on_connection_state w a lost = on_disconnected a a.active a.current_session_id
  on_connection_state w a failed = end_here lib.opaque w a none
  on_connection_state w a closed = end_here lib.opaque w a none

  abbrev pub expects : Option (PendingAuth lib.opaque) → String → ℕ → Bool
  expects none sid generation = false
  expects (some p) sid generation = (p.session_id == sid) && (p.generation == generation)

  unfoldable pub handle_session_event : World → State lib → SessionEvent → Done lib
  unfolding on_connection_state
  handle_session_event w a (local_ice candidate) = (a, with_id a.current_session_id candidate)
  handle_session_event w a (connection_state state tag) =
      if has_tag a.active tag then on_connection_state w a state else (a, [])
  handle_session_event w a (disconnect_timeout sid generation) =
      if holds a.current_session_id sid && in_window a.active generation
      then end_here lib.opaque w a none
      else (a, [])
  handle_session_event w a (auth_timeout sid generation) =
      if expects a.pending_auth sid generation
      then (record a { pending_auth = none }, send (bye sid none) ∷ [])
      else (a, [])
  handle_session_event w a (data_channel_closed label tag) =
      if (label == "control") && has_tag a.active tag then end_here lib.opaque w a none else (a, [])
  handle_session_event w a (failed_video tag) =
      if has_tag a.active tag && not w.recovers
      then end_here lib.opaque w a (some video_failed)
      else (a, [])

  -- The status after the PIN has changed.
  abbrev pub with_pin : String → AgentStatus → AgentStatus
  with_pin pin (registered old) = registered pin
  with_pin pin (in_session old) = in_session pin
  with_pin pin connecting = connecting
  with_pin pin reconnecting = reconnecting

  unfoldable pub apply_pin_change : String → State lib → State lib
  apply_pin_change new_pin a =
      if new_pin == a.pin then a else record a { pin = new_pin; status = with_pin new_pin a.status }

  abbrev pub offline : State lib → Done lib → Done lib
  offline a (a', out) = (record a' { pin = a.pin; status = a.status }, unsent out)

  unfoldable pub on_signal : World → State lib → List IceServer → SignalMessage → Done lib
  unfolding apply_pin_change
  on_signal w a own (pin_changed pin) = (apply_pin_change pin a, [])
  on_signal w a own msg = handle_signal_message lib w a own msg

  unfoldable pub happen : World → State lib → List IceServer → Happening → Done lib
  unfolding on_signal report_traffic
  happen w a own (message msg) = on_signal w a own msg
  happen w a own (event e) = handle_session_event w a e
  happen w a own (command c) = handle_agent_command lib w a c
  happen w a own (offline_event e) = offline a (handle_session_event w a e)
  happen w a own (offline_command c) = offline a (handle_agent_command lib w a c)
  happen w a own stats_tick = (a, report_traffic a.active a.current_session_id w)
  happen w a own connection_over = (record a { pending_auth = none }, [])

  -- A run, with the ICE servers of the registration.
  unfoldable pub drive : State lib → List IceServer → List (World × Happening) → Done lib
  unfolding happen
  drive a own [] = (a, [])
  drive a own ((w, h) ∷ more) =
      let (a', out) = happen w a own h in let (a'', rest) = drive a' own more in (a'', out ++ rest)
