-- ===== src/Slot/Laws/Pace/Runs.antt =====
-- host/src/signaling/mod.rs: each happening starts a login, or leaves the pace of the starts alone.
use rcdesk.Common.{
  ℕ, String, Option, none, some, List, [], ◌∷◌, ◌≡◌, refl, Bool-cases, inl, inr, ◌⊎◌, ◌≤◌, arith,
  ◌==◌, string_test, nat_test,
}
use rcdesk.Ws.{IceCandidate, IceServer, pake_finish, bye, video_failed}
use rcdesk.Slot.Access.{Bytes, AccessLoad, login_finish, missing, unusable, present}
use rcdesk.Slot.{
  ActiveSession, PendingAuth, Effect, send, World, shutdown_reporting, disconnected,
  DisconnectGrace,
}
use rcdesk.Slot.Login.{
  Libraries, State, Done, access_load, pause_left, count_start, pake_answer, start_login,
  against_record, paced, on_pake_start, with_key, finish_login, with_login, on_pake_finish,
}
use rcdesk.Slot.Signals.{
  await_login, on_peer_joined, refuse_answer, on_answer, on_ice, ended_by_peer, on_bye, end_pending,
  end_active,
}
use rcdesk.Slot.Events.{
  ConnectionState, starting, up, lost, failed, closed, SessionEvent, local_ice, connection_state,
  disconnect_timeout, auth_timeout, data_channel_closed, failed_video, on_connected, arm_window,
  on_disconnected, on_connection_state, handle_session_event, Happening, message, unsent, with_id,
}
use rcdesk.Slot.Laws.Pace.Quiet.{
  responses, Quiet, SamePace, paced_alike, if-Quiet, take_active-Quiet, take_then-Quiet,
  replace_session-Quiet, end_here-Quiet, shutdown_reporting-responses, bye_for-responses,
  no_responses-append,
}

module _ (lib : Libraries) where
  pub quiet : (a : State lib) → Quiet lib a (a, [])
  quiet a = (paced_alike lib _ _ refl refl, refl)

  refuse_answer-Quiet :
      (w : World) (a : State lib) (sid : String) → Quiet lib a (refuse_answer lib w a sid)
  unfolding refuse_answer
  refuse_answer-Quiet w a sid =
      let (taken, q) = take_active-Quiet lib w a a.active in
      (
        paced_alike lib _ _ taken.failures_kept taken.pause_kept,
        take_then-Quiet lib w a (send (bye sid none) ∷ []) refl,
      )

  pub on_answer-Quiet :
      (w : World) (a : State lib) (sid sdp : String) (auth : Option String)
      (s : Option ActiveSession)
      → Quiet lib a (on_answer lib w a sid sdp auth s)
  unfolding on_answer
  on_answer-Quiet w a sid sdp auth none = quiet a
  on_answer-Quiet w a sid sdp auth (some s) = ground (arith, refuse_answer-Quiet w a sid)

  pub on_ice-Quiet :
      (a : State lib) (candidate : IceCandidate) (s : Option ActiveSession)
      → Quiet lib a (on_ice lib a candidate s)
  unfolding on_ice
  on_ice-Quiet a candidate none = quiet a
  on_ice-Quiet a candidate (some s) = quiet a

  pub on_peer_joined-Quiet :
      (w : World) (a : State lib) (sid : String) (ice_servers own : List IceServer)
      (access : AccessLoad)
      → Quiet lib a (on_peer_joined lib w a sid ice_servers own access)
  unfolding on_peer_joined await_login
  on_peer_joined-Quiet w a sid ice_servers own missing =
      replace_session-Quiet lib w a sid ice_servers none own
  on_peer_joined-Quiet w a sid ice_servers own unusable = (paced_alike lib _ _ refl refl, refl)
  on_peer_joined-Quiet w a sid ice_servers own (present r) = (paced_alike lib _ _ refl refl, refl)

  pub on_bye-Quiet : (w : World) (a : State lib) (sid : String) → Quiet lib a (on_bye lib w a sid)
  unfolding on_bye ended_by_peer
  on_bye-Quiet w a sid = ground (arith, take_active-Quiet lib w a a.active)

  pub end_active-Quiet :
      (w : World) (a : State lib) (s : Option ActiveSession) → Quiet lib a (end_active lib w a s)
  unfolding end_active end_pending
  end_active-Quiet w a none = ended a.pending_auth
    where
      ended : (p : Option (PendingAuth lib.opaque)) → Quiet lib a (end_pending lib a p)
      ended none = (paced_alike lib _ _ refl refl, refl)
      ended (some p) = (paced_alike lib _ _ refl refl, refl)
  end_active-Quiet w a (some old) = (
    paced_alike lib _ _ refl refl,
    no_responses-append (shutdown_reporting w old a.current_session_id) _
        (shutdown_reporting-responses w old a.current_session_id)
        (bye_for-responses a.current_session_id none),
  )

  on_connection_state-Quiet :
      (w : World) (a : State lib) (c : ConnectionState)
      → Quiet lib a (on_connection_state lib w a c)
  unfolding on_connection_state on_connected on_disconnected arm_window
  on_connection_state-Quiet w a starting = quiet a
  on_connection_state-Quiet w a up = connects a.active
    where
      connects : (s : Option ActiveSession) → Quiet lib a (on_connected lib a s)
      connects none = (paced_alike lib _ _ refl refl, refl)
      connects (some s) = (paced_alike lib _ _ refl refl, refl)
  on_connection_state-Quiet w a lost = disconnects a.active a.current_session_id
    where
      arms :
          (sid : String) (s : ActiveSession) (armed : Option ℕ × DisconnectGrace)
          → Quiet lib a (arm_window lib a sid s armed)
      arms sid s (none, g) = (paced_alike lib _ _ refl refl, refl)
      arms sid s (some n, g) = (paced_alike lib _ _ refl refl, refl)

      disconnects :
          (s : Option ActiveSession) (sid : Option String)
          → Quiet lib a (on_disconnected lib a s sid)
      disconnects none sid = (paced_alike lib _ _ refl refl, refl)
      disconnects (some s) none = (paced_alike lib _ _ refl refl, refl)
      disconnects (some s) (some sid) = arms sid s (disconnected s.disconnect_grace)
  on_connection_state-Quiet w a failed = end_here-Quiet lib w a none
  on_connection_state-Quiet w a closed = end_here-Quiet lib w a none

  pub handle_session_event-Quiet :
      (w : World) (a : State lib) (e : SessionEvent) → Quiet lib a (handle_session_event lib w a e)
  unfolding handle_session_event
  handle_session_event-Quiet w a (local_ice candidate) =
      (paced_alike lib _ _ refl refl, told a.current_session_id)
    where
      told : (sid : Option String) → responses (with_id sid candidate) ≡ 0
      told none = refl
      told (some sid) = refl
  handle_session_event-Quiet w a (connection_state state tag) =
      if-Quiet lib a _ _ _ (on_connection_state-Quiet w a state) (quiet a)
  handle_session_event-Quiet w a (disconnect_timeout sid generation) =
      if-Quiet lib a _ _ _ (end_here-Quiet lib w a none) (quiet a)
  handle_session_event-Quiet w a (auth_timeout sid generation) = ground arith
  handle_session_event-Quiet w a (data_channel_closed label tag) =
      if-Quiet lib a _ _ _ (end_here-Quiet lib w a none) (quiet a)
  handle_session_event-Quiet w a (failed_video tag) =
      if-Quiet lib a _ _ _ (end_here-Quiet lib w a (some video_failed)) (quiet a)

  pub unsent-responses : (out : List Effect) → responses (unsent out) ≡ 0
  unsent-responses [] = refl
  unsent-responses (send msg ∷ out) = unsent-responses out
  unsent-responses (e ∷ out) = unsent-responses out

  -- A start that is counted, and answered once at most.
  abbrev pub Counted : World → State lib → Done lib → Type 0
  Counted w a (a', out) =
      (pause_left lib a.auth_locked_until w.now ≡ none)
      × (a'.auth_failures ≡ (count_start lib a w.later).auth_failures)
      × (a'.auth_locked_until ≡ (count_start lib a w.later).auth_locked_until)
      × (responses out ≤ 1)

  -- No login is finished with this message.
  abbrev pub Unproved : Happening → Type 0
  Unproved (message (pake_finish sid payload)) =
      (login : lib.opaque.LoginServer) (finalization : Bytes)
      → lib.base64.decode payload ≡ some finalization
      → login_finish lib.opaque login finalization ≡ none
  Unproved h = Unit

  -- What is answered to a start that the record is there for.
  Kept : State lib → Done lib → Type 0
  Kept a (a', out) = SamePace lib a a' × (responses out ≤ 1)

  against_record-Kept :
      (w : World) (a : State lib) (sid : String) (p : PendingAuth lib.opaque) (payload : String)
      (access : AccessLoad)
      → Kept a (against_record lib w a sid p payload access)
  unfolding Kept against_record start_login pake_answer
  against_record-Kept w a sid p payload missing = (paced_alike lib _ _ refl refl, omega arith)
  against_record-Kept w a sid p payload unusable = (paced_alike lib _ _ refl refl, omega arith)
  against_record-Kept w a sid p payload (present r) = decoded (lib.base64.decode payload)
    where
      answered :
          (out : Option (lib.opaque.LoginServer × Bytes)) → Kept a (pake_answer lib a sid p out)
      answered none = (paced_alike lib _ _ refl refl, omega arith)
      answered (some (login, response)) = (paced_alike lib _ _ refl refl, omega arith)

      decoded : (request : Option Bytes) → Kept a (start_login lib w a sid p r request)
      decoded none = (paced_alike lib _ _ refl refl, omega arith)
      decoded (some request) = answered _

  pub on_pake_start-cases :
      (w : World) (a : State lib) (sid payload : String) (p : Option (PendingAuth lib.opaque))
      → Quiet lib a (on_pake_start lib w a sid payload p)
        ⊎ Counted w a (on_pake_start lib w a sid payload p)
  unfolding on_pake_start paced Kept
  on_pake_start-cases w a sid payload none = inl (quiet a)
  on_pake_start-cases w a sid payload (some p) = elim (Bool-cases (p.session_id == sid)) [
    | inr f ↦ rw f (inl (quiet a))
    | inl t ↦ rw t (after_pause _ refl)
  ]
    where
      after_pause :
          (pause : Option ℕ)
          → pause_left lib a.auth_locked_until w.now ≡ pause
          → Quiet lib a (paced lib w a sid p payload pause)
            ⊎ Counted w a (paced lib w a sid p payload pause)
      after_pause (some secs) e = inl (paced_alike lib _ _ refl refl, refl)
      after_pause none e =
          let (same, most) =
            against_record-Kept w (count_start lib a w.later) sid p payload (access_load lib w) in
          inr (e, same.failures_kept, same.pause_kept, most)

  pub on_pake_finish-Quiet :
      (w : World) (a : State lib) (sid payload : String) (own : List IceServer)
      (p : Option (PendingAuth lib.opaque))
      → Unproved (message (pake_finish sid payload))
      → Quiet lib a (on_pake_finish lib w a sid payload own p)
  unfolding on_pake_finish with_login finish_login
  on_pake_finish-Quiet w a sid payload own none wrong = quiet a
  on_pake_finish-Quiet w a sid payload own (some p) wrong =
      elim (Bool-cases (p.session_id == sid)) [
        | inr f ↦ rw f (quiet a)
        | inl t ↦ rw t (taken p.login)
      ]
    where
      decoded :
          (a' : State lib) (login : lib.opaque.LoginServer) (found : Option Bytes)
          → SamePace lib a a'
          → lib.base64.decode payload ≡ found
          → Quiet lib a (finish_login lib w a' sid p login own found)
      decoded a' login none same e = (same, refl)
      decoded a' login (some finalization) same e =
          rw (wrong login finalization e, with_key) (same, refl)

      taken :
          (login : Option (lib.opaque.LoginServer))
          → Quiet lib a (with_login lib w a sid payload p own login)
      taken none = quiet a
      taken (some login) = decoded _ login _ (paced_alike lib _ _ refl refl) refl
