-- ===== src/Slot/Laws/Pace/Steps.antt =====
-- host/src/signaling/mod.rs: each happening counts a start, or leaves the pace alone.
use rcdesk.Common.{
  String, Option, none, some, false, List, [], ◌≡◌, refl, inl, ◌⊎◌, arith, string_test, nat_test,
}
use rcdesk.Ws.{
  IceServer, SignalMessage, peer_joined, answer, ice, pake_start, pake_finish, bye, pin_changed,
}
use rcdesk.Slot.{ActiveSession, World}
use rcdesk.Slot.Login.{Libraries, State, Done, access_load}
use rcdesk.Slot.Signals.{end_session, handle_signal_message, end_active, handle_agent_command}
use rcdesk.Slot.Events.{
  handle_session_event, apply_pin_change, report_traffic, Happening, message, event, offline_event,
  command, offline_command, stats_tick, connection_over, on_signal, happen,
}
use rcdesk.Slot.Laws.Pace.Quiet.{responses, Quiet, paced_alike, send_session_stats-responses}
use rcdesk.Slot.Laws.Pace.Runs.{
  quiet, Counted, Unproved, on_answer-Quiet, on_ice-Quiet, on_peer_joined-Quiet, on_bye-Quiet,
  end_active-Quiet, handle_session_event-Quiet, unsent-responses, on_pake_start-cases,
  on_pake_finish-Quiet,
}

module _ (lib : Libraries) where
  abbrev pub Paced : World → State lib → Done lib → Type 0
  Paced w a d = Quiet lib a d ⊎ Counted lib w a d

  handle_signal_message-Paced :
      (w : World) (a : State lib) (own : List IceServer) (msg : SignalMessage)
      → Unproved lib (message msg)
      → Paced w a (handle_signal_message lib w a own msg)
  unfolding handle_signal_message
  handle_signal_message-Paced w a own (peer_joined sid ice_servers) wrong =
      let (same, q) =
        on_peer_joined-Quiet lib w (record a { pending_auth = none }) sid ice_servers own
          (access_load lib w) in
      inl (paced_alike lib _ _ same.failures_kept same.pause_kept, q)
  handle_signal_message-Paced w a own (answer sid sdp auth) wrong =
      inl (ground (arith, on_answer-Quiet lib w a sid sdp auth a.active))
  handle_signal_message-Paced w a own (ice sid candidate) wrong =
      inl (ground (arith, on_ice-Quiet lib a candidate a.active))
  handle_signal_message-Paced w a own (pake_start sid payload) wrong =
      on_pake_start-cases lib w a sid payload a.pending_auth
  handle_signal_message-Paced w a own (pake_finish sid payload) wrong =
      inl (on_pake_finish-Quiet lib w a sid payload own a.pending_auth wrong)
  handle_signal_message-Paced w a own (bye sid reason) wrong = inl (on_bye-Quiet lib w a sid)
  handle_signal_message-Paced w a own msg wrong = inl (quiet lib a)

  pin_change-Quiet : (pin : String) (a : State lib) → Quiet lib a (apply_pin_change lib pin a, [])
  unfolding apply_pin_change
  pin_change-Quiet pin a = ground arith

  pub happen-Paced :
      (w : World) (a : State lib) (own : List IceServer) (h : Happening)
      → Unproved lib h
      → Paced w a (happen lib w a own h)
  unfolding happen on_signal report_traffic handle_agent_command
  happen-Paced w a own (message (pin_changed pin)) wrong = inl (pin_change-Quiet pin a)
  happen-Paced w a own (message msg) wrong = handle_signal_message-Paced w a own msg wrong
  happen-Paced w a own (event e) wrong = inl (handle_session_event-Quiet lib w a e)
  happen-Paced w a own (command end_session) wrong = inl (end_active-Quiet lib w a a.active)
  happen-Paced w a own (offline_event e) wrong =
      let (same, q) = handle_session_event-Quiet lib w a e in
      inl (
        paced_alike lib _ _ same.failures_kept same.pause_kept,
        unsent-responses lib ((handle_session_event lib w a e).1),
      )
  happen-Paced w a own (offline_command end_session) wrong =
      let (same, q) = end_active-Quiet lib w a a.active in
      inl (
        paced_alike lib _ _ same.failures_kept same.pause_kept,
        unsent-responses lib ((end_active lib w a a.active).1),
      )
  happen-Paced w a own stats_tick wrong =
      inl (paced_alike lib _ _ refl refl, reported a.active a.current_session_id)
    where
      reported :
          (s : Option ActiveSession) (sid : Option String) → responses (report_traffic s sid w) ≡ 0
      reported none sid = refl
      reported (some s) none = refl
      reported (some s) (some sid) = send_session_stats-responses w.traffic sid false
  happen-Paced w a own connection_over wrong = inl (paced_alike lib _ _ refl refl, refl)
