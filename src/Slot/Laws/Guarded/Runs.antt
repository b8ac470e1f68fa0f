-- ===== src/Slot/Laws/Guarded/Runs.antt =====
-- host/src/signaling/mod.rs: the rest of the handlers, and a run.
use rcdesk.Common.{
  ℕ, String, Option, none, some, false, List, [], ◌∷◌, Bool-cases, inl, inr, ◌==◌, string_test,
  nat_test,
}
use rcdesk.Ws.{
  IceServer, SignalMessage, peer_joined, answer, ice, pake_start, pake_finish, bye, pin_changed,
  video_failed,
}
use rcdesk.Slot.Access.{AccessRecord, AccessLoad, missing, unusable, present}
use rcdesk.Slot.{ActiveSession, Effect, send, World, disconnected, DisconnectGrace}
use rcdesk.Slot.Login.{Libraries, State, access_load}
use rcdesk.Slot.Signals.{
  end_session, await_login, on_peer_joined, handle_signal_message, handle_agent_command,
}
use rcdesk.Slot.Events.{
  ConnectionState, starting, up, lost, failed, closed, SessionEvent, local_ice, connection_state,
  disconnect_timeout, auth_timeout, data_channel_closed, failed_video, on_connected, arm_window,
  on_disconnected, on_connection_state, handle_session_event, apply_pin_change, report_traffic,
  Happening, message, event, offline_event, command, offline_command, stats_tick, connection_over,
  unsent, on_signal, with_id, happen, drive,
}
use rcdesk.Slot.Laws.Guarded.{
  IsGuarded, SessionEarned, Locked, AllVouched, send_session_stats-AllVouched,
}
use rcdesk.Slot.Laws.Guarded.Starts.{on_pake_start-Sound, on_pake_finish-Sound}
use rcdesk.Slot.Laws.Guarded.Steps.{
  Good, unchanged, if-Good, end_here-Sound, on_bye-Sound, on_ice-Sound, end_active-Sound,
  on_answer-Sound,
}

module _ (lib : Libraries) (Held : AccessRecord → Type 0) where
  on_peer_joined-Sound :
      (h : Happening) (w : World) (a : State lib) (sid : String) (ice_servers own : List IceServer)
      (access : AccessLoad)
      → IsGuarded lib Held a
      → Locked lib Held access
      → Good lib Held h (on_peer_joined lib w a sid ice_servers own access)
  unfolding on_peer_joined await_login
  on_peer_joined-Sound h w a sid ice_servers own missing v k = absurd k
  on_peer_joined-Sound h w a sid ice_servers own unusable v k = (v, (tt, tt))
  on_peer_joined-Sound h w a sid ice_servers own (present r) v k =
      (record { active_earned = v.active_earned; login_known = tt }, (tt, (tt, tt)))

  on_connection_state-Sound :
      (h : Happening) (w : World) (a : State lib) (c : ConnectionState)
      → IsGuarded lib Held a
      → Good lib Held h (on_connection_state lib w a c)
  unfolding on_connection_state on_connected on_disconnected arm_window
  on_connection_state-Sound h w a starting v = (v, tt)
  on_connection_state-Sound h w a up v = connects a.active v.active_earned
    where
      connects :
          (s : Option ActiveSession)
          → SessionEarned lib Held s
          → Good lib Held h (on_connected lib a s)
      connects none e = (v, tt)
      connects (some s) e = (record { active_earned = e; login_known = v.login_known }, tt)
  on_connection_state-Sound h w a lost v = disconnects a.active v.active_earned a.current_session_id
    where
      arms :
          (sid : String) (s : ActiveSession) (armed : Option ℕ × DisconnectGrace)
          → SessionEarned lib Held (some s)
          → Good lib Held h (arm_window lib a sid s armed)
      arms sid s (none, g) e = (record { active_earned = e; login_known = v.login_known }, tt)
      arms sid s (some n, g) e =
          (record { active_earned = e; login_known = v.login_known }, (tt, tt))

      disconnects :
          (s : Option ActiveSession)
          → SessionEarned lib Held s
          → (sid : Option String) → Good lib Held h (on_disconnected lib a s sid)
      disconnects none e sid = (v, tt)
      disconnects (some s) e none = (v, tt)
      disconnects (some s) e (some sid) = arms sid s (disconnected s.disconnect_grace) e
  on_connection_state-Sound h w a failed v = end_here-Sound lib Held h w a none v
  on_connection_state-Sound h w a closed v = end_here-Sound lib Held h w a none v

  handle_session_event-Sound :
      (h : Happening) (w : World) (a : State lib) (e : SessionEvent)
      → IsGuarded lib Held a
      → Good lib Held h (handle_session_event lib w a e)
  unfolding handle_session_event
  handle_session_event-Sound h w a (local_ice candidate) v = (v, told a.current_session_id)
    where
      told : (sid : Option String) → AllVouched lib Held h (with_id sid candidate)
      told none = tt
      told (some sid) = (tt, tt)
  handle_session_event-Sound h w a (connection_state state tag) v =
      if-Good lib Held h _ _ _ (on_connection_state-Sound h w a state v) (unchanged lib Held h a v)
  handle_session_event-Sound h w a (disconnect_timeout sid generation) v =
      if-Good lib Held h _ _ _ (end_here-Sound lib Held h w a none v) (unchanged lib Held h a v)
  handle_session_event-Sound h w a (auth_timeout sid generation) v =
      if-Good lib Held h _ _ _
        (record { active_earned = v.active_earned; login_known = tt }, (tt, tt))
        (unchanged lib Held h a v)
  handle_session_event-Sound h w a (data_channel_closed label tag) v =
      if-Good lib Held h _ _ _ (end_here-Sound lib Held h w a none v) (unchanged lib Held h a v)
  handle_session_event-Sound h w a (failed_video tag) v =
      if-Good lib Held h _ _ _ (end_here-Sound lib Held h w a (some video_failed) v)
        (unchanged lib Held h a v)

  handle_signal_message-Sound :
      (w : World) (a : State lib) (own : List IceServer) (msg : SignalMessage)
      → IsGuarded lib Held a
      → Locked lib Held (access_load lib w)
      → Good lib Held (message msg) (handle_signal_message lib w a own msg)
  unfolding handle_signal_message
  handle_signal_message-Sound w a own (peer_joined sid ice_servers) v k =
      on_peer_joined-Sound _ w _ sid ice_servers own _
        (record { active_earned = v.active_earned; login_known = tt }) k
  handle_signal_message-Sound w a own (answer sid sdp auth) v k =
      if-Good lib Held _ _ _ _
        (on_answer-Sound lib Held w a sid sdp auth a.active v v.active_earned)
        (unchanged lib Held (message (answer sid sdp auth)) a v)
  handle_signal_message-Sound w a own (ice sid candidate) v k =
      if-Good lib Held _ _ _ _ (on_ice-Sound lib Held _ a sid candidate a.active v)
        (unchanged lib Held (message (ice sid candidate)) a v)
  handle_signal_message-Sound w a own (pake_start sid payload) v k =
      on_pake_start-Sound lib Held _ w a sid payload a.pending_auth v k
  handle_signal_message-Sound w a own (pake_finish sid payload) v k =
      on_pake_finish-Sound lib Held _ w a sid payload own a.pending_auth v v.login_known
  handle_signal_message-Sound w a own (bye sid reason) v k = on_bye-Sound lib Held _ w a sid v
  handle_signal_message-Sound w a own msg v k = (v, tt)

  unsent-AllVouched :
      (h : Happening) (out : List Effect)
      → AllVouched lib Held h out
      → AllVouched lib Held h (unsent out)
  unsent-AllVouched h [] q = tt
  unsent-AllVouched h (send msg ∷ effects) (q, qs) = unsent-AllVouched h effects qs
  unsent-AllVouched h (e ∷ effects) (q, qs) = (q, unsent-AllVouched h effects qs)

  apply_pin_change-IsGuarded :
      (pin : String) (a : State lib)
      → IsGuarded lib Held a
      → IsGuarded lib Held (apply_pin_change lib pin a)
  unfolding apply_pin_change
  apply_pin_change-IsGuarded pin a v = elim (Bool-cases (pin == a.pin)) [
    | inl t ↦ rw t v
    | inr f ↦ rw f (record { active_earned = v.active_earned; login_known = v.login_known })
  ]

  happen-Sound :
      (w : World) (a : State lib) (own : List IceServer) (h : Happening)
      → IsGuarded lib Held a
      → Locked lib Held (access_load lib w)
      → Good lib Held h (happen lib w a own h)
  unfolding happen on_signal report_traffic handle_agent_command
  happen-Sound w a own (message (pin_changed pin)) v k = (apply_pin_change-IsGuarded pin a v, tt)
  happen-Sound w a own (message msg) v k = handle_signal_message-Sound w a own msg v k
  happen-Sound w a own (event e) v k = handle_session_event-Sound _ w a e v
  happen-Sound w a own (command end_session) v k = end_active-Sound lib Held _ w a a.active v
  happen-Sound w a own (offline_event e) v k =
      let (v', q) = handle_session_event-Sound (offline_event e) w a e v in
      (
        record { active_earned = v'.active_earned; login_known = v'.login_known },
        unsent-AllVouched _ _ q,
      )
  happen-Sound w a own (offline_command end_session) v k =
      let (v', q) = end_active-Sound lib Held (offline_command end_session) w a a.active v in
      (
        record { active_earned = v'.active_earned; login_known = v'.login_known },
        unsent-AllVouched _ _ q,
      )
  happen-Sound w a own stats_tick v k = (v, reported a.active a.current_session_id)
    where
      reported :
          (s : Option ActiveSession) (sid : Option String)
          → AllVouched lib Held stats_tick (report_traffic s sid w)
      reported none sid = tt
      reported (some s) none = tt
      reported (some s) (some sid) =
          send_session_stats-AllVouched lib Held stats_tick w.traffic sid false
  happen-Sound w a own connection_over v k =
      (record { active_earned = v.active_earned; login_known = tt }, tt)

  -- Each happening of a run finds the access file there.
  abbrev pub StaysLocked : List (World × Happening) → Type 0
  StaysLocked [] = Unit
  StaysLocked ((w, h) ∷ more) = Locked lib Held (access_load lib w) × StaysLocked more

  -- What a run does is vouched for, at each step.
  abbrev pub RunVouched : State lib → List IceServer → List (World × Happening) → Type 0
  RunVouched a own [] = Unit
  RunVouched a own ((w, h) ∷ more) =
      AllVouched lib Held h (happen lib w a own h).1 × RunVouched (happen lib w a own h).0 own more

  -- From a guarded slot on, whatever happens while the access file is there: every offer carries the tag
  -- of its fingerprint under the key of a login that was finished, every answer that is applied came
  -- with a tag of its fingerprint that verifies under such a key, and the session afterwards, if there is
  -- one, has such a key.
  pub run_vouched :
      (own : List IceServer) (run_of : List (World × Happening)) {a : State lib}
      → IsGuarded lib Held a
      → StaysLocked run_of
      → SessionEarned lib Held (drive lib a own run_of).0.active × RunVouched a own run_of
  unfolding drive
  run_vouched own [] v k = (v.active_earned, tt)
  run_vouched own ((w, h) ∷ more) {a} v (k, ks) =
      let (v', q) = happen-Sound w a own h v k in
      let (e, qs) = run_vouched own more v' ks in (e, (q, qs))
