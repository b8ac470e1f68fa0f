-- ===== src/Slot/Laws/Ends/Runs.antt =====
-- host/src/signaling/mod.rs: each happening ends sessions properly, and so does a run.
use rcdesk.Common.{
  ℕ, String, Option, none, some, Bool, true, false, not, ◌&&◌, List, [], ◌∷◌, ◌≡◌, refl, sym, ap,
  ◌∙◌, Bool-cases, inl, inr, arith, ◌==◌, ==_self, string_test, nat_test, if◌then◌else◌, is_some,
}
use rcdesk.Ws.{
  IceServer, SignalMessage, peer_joined, answer, ice, pake_start, pake_finish, bye, pin_changed,
  video_failed,
}
use rcdesk.Slot.{
  holds, ActiveSession, PendingAuth, Effect, send, close, World, disconnected, bye_for,
  DisconnectGrace,
}
use rcdesk.Slot.Login.{Libraries, State, Done, access_load}
use rcdesk.Slot.Signals.{
  end_session, handle_signal_message, end_pending, end_active, handle_agent_command,
}
use rcdesk.Slot.Events.{
  ConnectionState, starting, up, lost, failed, closed, SessionEvent, local_ice, connection_state,
  disconnect_timeout, auth_timeout, data_channel_closed, failed_video, on_connected, arm_window,
  has_tag, in_window, expects, on_disconnected, on_connection_state, handle_session_event,
  apply_pin_change, Happening, message, event, offline_event, command, offline_command, stats_tick,
  connection_over, unsent, offline, on_signal, happen,
}
use rcdesk.Slot.Laws.Ends.{
  closes, accounted, excused, IsPaired, Fate, same-Fate, bye_tells, end_here-Fate, excused_told,
  closes-shutdown_reporting,
}
use rcdesk.Slot.Laws.Ends.Steps.{
  moved-Fate, on_answer-Fate, on_ice-Fate, on_bye-Fate, on_peer_joined-Fate, on_pake_start-keeps,
  on_pake_finish-Fate,
}

module _ (lib : Libraries) where
  end_active-Fate :
      (h : Happening) (w : World) (a : State lib) (s : Option ActiveSession)
      → a.active ≡ s
      → IsPaired lib a
      → Fate lib h a (end_active lib w a s)
  unfolding end_active end_pending
  end_active-Fate h w a none e v = ended a.pending_auth
    where
      ended : (p : Option (PendingAuth lib.opaque)) → Fate lib h a (end_pending lib a p)
      ended none = same-Fate lib h a a _ v refl refl
      ended (some p) = same-Fate lib h a _ _ v refl refl
  end_active-Fate h w a (some old) e v = record {
    paired = refl;
    accounts =
        rw e (
          closes-shutdown_reporting w old a.current_session_id (bye_for a.current_session_id none));
    tells_server = bye_tells lib h a.current_session_id _ none;
  }

  -- The same session, with another grace window.
  regraced-Fate :
      (h : Happening) (a a' : State lib) (s s' : ActiveSession) (out : List Effect)
      → IsPaired lib a
      → a.active ≡ some s
      → a'.active ≡ some s'
      → s'.session_tag ≡ s.session_tag
      → a'.current_session_id ≡ a.current_session_id
      → Fate lib h a (a', out)
  regraced-Fate h a a' s s' out v e e' t c =
      let same = same-Fate lib h a a out v refl refl in
      record {
        paired = rw (e', c) (sym (ap is_some e) ∙ v.both);
        accounts = rw (e, e', t, ==_self s.session_tag) refl;
        tells_server = rw c same.tells_server;
      }

  on_connection_state-Fate :
      (h : Happening) (w : World) (a : State lib) (c : ConnectionState)
      → IsPaired lib a
      → Fate lib h a (on_connection_state lib w a c)
  unfolding on_connection_state on_connected on_disconnected arm_window
  on_connection_state-Fate h w a starting v = same-Fate lib h a a _ v refl refl
  on_connection_state-Fate h w a up v = connects a.active refl
    where
      connects : (s : Option ActiveSession) → a.active ≡ s → Fate lib h a (on_connected lib a s)
      connects none e = same-Fate lib h a a _ v refl refl
      connects (some s) e = regraced-Fate h a _ s _ [] v e refl refl refl
  on_connection_state-Fate h w a lost v = disconnects a.active a.current_session_id refl
    where
      arms :
          (sid : String) (s : ActiveSession) (armed : Option ℕ × DisconnectGrace)
          → a.active ≡ some s
          → Fate lib h a (arm_window lib a sid s armed)
      arms sid s (none, g) e = regraced-Fate h a _ s _ _ v e refl refl refl
      arms sid s (some n, g) e = regraced-Fate h a _ s _ _ v e refl refl refl

      disconnects :
          (s : Option ActiveSession) (sid : Option String)
          → a.active ≡ s
          → Fate lib h a (on_disconnected lib a s sid)
      disconnects none sid e = same-Fate lib h a a _ v refl refl
      disconnects (some s) none e = same-Fate lib h a a _ v refl refl
      disconnects (some s) (some sid) e = arms sid s (disconnected s.disconnect_grace) e
  on_connection_state-Fate h w a failed v = end_here-Fate lib h w a none
  on_connection_state-Fate h w a closed v = end_here-Fate lib h w a none

  -- The handler's test passes, or nothing happens.
  tested-Fate :
      (h : Happening) (a : State lib) (b : Bool) (d : Done lib)
      → IsPaired lib a
      → Fate lib h a d
      → Fate lib h a (if b then d else (a, []))
  tested-Fate h a true d v f = f
  tested-Fate h a false d v f = same-Fate lib h a a [] v refl refl

  handle_session_event-Fate :
      (h : Happening) (w : World) (a : State lib) (e : SessionEvent)
      → IsPaired lib a
      → Fate lib h a (handle_session_event lib w a e)
  unfolding handle_session_event
  handle_session_event-Fate h w a (local_ice candidate) v = same-Fate lib h a a _ v refl refl
  handle_session_event-Fate h w a (connection_state state tag) v =
      tested-Fate h a (has_tag a.active tag) _ v (on_connection_state-Fate h w a state v)
  handle_session_event-Fate h w a (disconnect_timeout sid generation) v =
      tested-Fate h a (holds a.current_session_id sid && in_window a.active generation) _ v
        (end_here-Fate lib h w a none)
  handle_session_event-Fate h w a (auth_timeout sid generation) v =
      tested-Fate h a (expects lib a.pending_auth sid generation)
        (record a { pending_auth = none }, send (bye sid none) ∷ []) v
        (same-Fate lib h a _ _ v refl refl)
  handle_session_event-Fate h w a (data_channel_closed label tag) v =
      tested-Fate h a ((label == "control") && has_tag a.active tag) _ v
        (end_here-Fate lib h w a none)
  handle_session_event-Fate h w a (failed_video tag) v =
      tested-Fate h a (has_tag a.active tag && not w.recovers) _ v
        (end_here-Fate lib h w a (some video_failed))

  handle_signal_message-Fate :
      (w : World) (a : State lib) (own : List IceServer) (msg : SignalMessage)
      → IsPaired lib a
      → Fate lib (message msg) a (handle_signal_message lib w a own msg)
  unfolding handle_signal_message
  handle_signal_message-Fate w a own (peer_joined sid servers) v =
      moved-Fate lib _ a _ _ refl refl (
        on_peer_joined-Fate lib w (record a { pending_auth = none }) sid servers servers own
          (access_load lib w) (record { both = v.both }))
  handle_signal_message-Fate w a own (answer sid sdp auth) v =
      elim (Bool-cases (holds a.current_session_id sid)) [
        | inl t ↦ rw t (on_answer-Fate lib _ w a sid sdp auth a.active v t)
        | inr f ↦ rw f (same-Fate lib _ a a [] v refl refl)
      ]
  handle_signal_message-Fate w a own (ice sid candidate) v =
      tested-Fate _ a (holds a.current_session_id sid) _ v
        (on_ice-Fate lib (message (ice sid candidate)) a candidate a.active v)
  handle_signal_message-Fate w a own (pake_start sid payload) v =
      let (active, current) = on_pake_start-keeps lib w a sid payload a.pending_auth in
      same-Fate lib _ a _ _ v active current
  handle_signal_message-Fate w a own (pake_finish sid payload) v =
      on_pake_finish-Fate lib w a sid payload own a.pending_auth v
  handle_signal_message-Fate w a own (bye sid reason) v = on_bye-Fate lib w a sid reason v
  handle_signal_message-Fate w a own msg v = same-Fate lib _ a a [] v refl refl

  closes-unsent : (tag : ℕ) (out : List Effect) → closes tag (unsent out) ≡ closes tag out
  closes-unsent tag [] = refl
  closes-unsent tag (send msg ∷ out) = closes-unsent tag out
  closes-unsent tag (close t ∷ out) = ground (arith, closes-unsent tag out)
  closes-unsent tag (e ∷ out) = closes-unsent tag out

  accounted-unsent :
      (s now : Option ActiveSession) (out : List Effect)
      → accounted s now out ≡ true
      → accounted s now (unsent out) ≡ true
  accounted-unsent none now out e = refl
  accounted-unsent (some s) now out e = rw (closes-unsent s.session_tag out) e

  -- What happens while the host is offline cannot be told.
  offline-Fate :
      (h : Happening) (a : State lib) (d : Done lib)
      → ((sid : String) → excused h sid ≡ true)
      → Fate lib h a d
      → Fate lib h a (offline lib a d)
  offline-Fate h a (a', out) e v = record {
    paired = v.paired;
    accounts = accounted-unsent a.active a'.active out v.accounts;
    tells_server = excused_told lib h a.current_session_id a'.current_session_id (unsent out) e;
  }

  pin_change-Fate :
      (h : Happening) (pin : String) (a : State lib)
      → IsPaired lib a
      → Fate lib h a (apply_pin_change lib pin a, [])
  unfolding apply_pin_change
  pin_change-Fate h pin a v = elim (Bool-cases (pin == a.pin)) [
    | inl t ↦ rw t (same-Fate lib h a a [] v refl refl)
    | inr f ↦ rw f (same-Fate lib h a _ [] v refl refl)
  ]

  happen-Fate :
      (w : World) (a : State lib) (own : List IceServer) (h : Happening)
      → IsPaired lib a
      → Fate lib h a (happen lib w a own h)
  unfolding happen on_signal handle_agent_command
  happen-Fate w a own (message (pin_changed pin)) v = pin_change-Fate _ pin a v
  happen-Fate w a own (message msg) v = handle_signal_message-Fate w a own msg v
  happen-Fate w a own (event e) v = handle_session_event-Fate _ w a e v
  happen-Fate w a own (command end_session) v = end_active-Fate _ w a a.active refl v
  happen-Fate w a own (offline_event e) v =
      offline-Fate _ a _ (λ s. refl) (handle_session_event-Fate (offline_event e) w a e v)
  happen-Fate w a own (offline_command end_session) v =
      offline-Fate _ a _ (λ s. refl)
        (end_active-Fate (offline_command end_session) w a a.active refl v)
  happen-Fate w a own stats_tick v = same-Fate lib _ a a _ v refl refl
  happen-Fate w a own connection_over v = same-Fate lib _ a _ [] v refl refl

  abbrev pub AllFated : State lib → List IceServer → List (World × Happening) → Type 0
  AllFated a own [] = Unit
  AllFated a own ((w, h) ∷ more) =
      Fate lib h a (happen lib w a own h) × AllFated (happen lib w a own h).0 own more

  -- From a slot in which a session has an id and an id a session, whatever happens: this stays so, and
  -- with each happening the session before it is there still or its peer connection is closed, and the
  -- server is told that the session is over, unless the session stays, the server ended it or
  -- let another client take its place, or the host is offline.
  pub sessions_end :
      (a : State lib) (own : List IceServer) (happenings : List (World × Happening))
      → IsPaired lib a
      → AllFated a own happenings
  sessions_end a own [] v = tt
  sessions_end a own ((w, h) ∷ more) v =
      let fate = happen-Fate w a own h v in
      (fate, sessions_end (happen lib w a own h).0 own more (record { both = fate.paired }))
