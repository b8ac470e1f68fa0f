-- ===== src/Slot/Signals.antt =====
-- host/src/signaling/mod.rs, `handle_signal_message` and `handle_agent_command`.
use rcdesk.Common.{
  ◌+◌, String, Option, none, some, Bool, true, false, List, [], ◌∷◌, ◌++◌, if◌then◌else◌, ◌==◌,
  string_test,
}
use rcdesk.Files.Names.{Text, codes}
use rcdesk.Ws.{
  IceCandidate, IceServer, SignalMessage, peer_joined, answer, ice, pake_start, pake_finish, bye,
  auth_required,
}
use rcdesk.Slot.Access.{AccessLoad, missing, unusable, present, SessionKey}
use rcdesk.Slot.DtlsBind.{fingerprint_from_sdp, verify_auth_tag}
use rcdesk.Slot.{
  u64, holds, ActiveSession, PendingAuth, registered, Effect, send, auth_timer, set_answer,
  add_remote_ice, bye_for, World, shutdown_reporting, take_active,
}
use rcdesk.Slot.Login.{
  Libraries, State, Done, access_load, replace_session, on_pake_start, on_pake_finish,
}

-- `AgentCommand`
pub data AgentCommand : Type 0 where
  end_session : AgentCommand

module _ (lib : Libraries) where
  -- The wait for a login, under a fresh generation, with its timer.
  unfoldable pub await_login : State lib → String → List IceServer → Done lib
  await_login a sid ice_servers = (
    record a {
      pending_auth = some (record {
        session_id = sid;
        ice_servers = ice_servers;
        login = none;
        generation = a.next_generation;
      });
      next_generation = u64 (a.next_generation + 1);
    },
    send (auth_required sid) ∷ auth_timer sid a.next_generation ∷ [],
  )

  unfoldable pub on_peer_joined :
      World → State lib → String → List IceServer → List IceServer → AccessLoad → Done lib
  unfolding await_login
  on_peer_joined w a sid ice_servers own unusable = (a, send (bye sid none) ∷ [])
  on_peer_joined w a sid ice_servers own (present r) = await_login a sid ice_servers
  on_peer_joined w a sid ice_servers own missing = replace_session lib w a sid ice_servers none own

  -- The session is over, and the server is told.
  unfoldable pub refuse_answer : World → State lib → String → Done lib
  refuse_answer w a sid =
      let (a', out) = take_active lib.opaque w a a.active in
      (record a' { current_session_id = none }, out ++ send (bye sid none) ∷ [])

  unfoldable pub tag_holds : SessionKey → Option Text → Option String → Bool
  tag_holds key (some fingerprint) (some tag) =
      verify_auth_tag lib.base64 lib.hmac key "answer" fingerprint tag
  tag_holds key fingerprint tag = false

  -- The binding check; a session without a key has none.
  unfoldable pub bound : Option SessionKey → String → Option String → Bool
  unfolding tag_holds
  bound none sdp auth = true
  bound (some key) sdp auth = tag_holds key (fingerprint_from_sdp lib.letters (codes sdp)) auth

  abbrev pub then_do : Effect → Done lib → Done lib
  then_do e (a, out) = (a, e ∷ out)

  unfoldable pub on_answer :
      World → State lib → String → String → Option String → Option ActiveSession → Done lib
  unfolding bound refuse_answer
  on_answer w a sid sdp auth none = (a, [])
  on_answer w a sid sdp auth (some s) =
      if bound s.session_key sdp auth
      then if w.answer_applies
        then (a, set_answer s.session_tag sdp ∷ [])
        else then_do (set_answer s.session_tag sdp) (refuse_answer w a sid)
      else refuse_answer w a sid

  unfoldable pub on_ice : State lib → IceCandidate → Option ActiveSession → Done lib
  on_ice a candidate none = (a, [])
  on_ice a candidate (some s) = (a, add_remote_ice s.session_tag candidate ∷ [])

  abbrev pub waits_for : Option (PendingAuth lib.opaque) → String → Bool
  waits_for none sid = false
  waits_for (some p) sid = p.session_id == sid

  unfoldable pub ended_by_peer : World → State lib → Done lib
  ended_by_peer w a =
      let (a', out) = take_active lib.opaque w a a.active in
      (record a' { current_session_id = none }, out)

  unfoldable pub on_bye : World → State lib → String → Done lib
  unfolding ended_by_peer
  on_bye w a sid =
      if holds a.current_session_id sid
      then ended_by_peer w a
      else if waits_for a.pending_auth sid
      then (record a { pending_auth = none }, [])
      else (a, [])

  unfoldable pub handle_signal_message :
      World → State lib → List IceServer → SignalMessage → Done lib
  unfolding on_peer_joined on_answer on_ice on_bye
  handle_signal_message w a own (peer_joined sid ice_servers) =
      on_peer_joined w (record a { pending_auth = none }) sid ice_servers own (access_load lib w)
  handle_signal_message w a own (answer sid sdp auth) =
      if holds a.current_session_id sid then on_answer w a sid sdp auth a.active else (a, [])
  handle_signal_message w a own (ice sid candidate) =
      if holds a.current_session_id sid then on_ice a candidate a.active else (a, [])
  handle_signal_message w a own (pake_start sid payload) =
      on_pake_start lib w a sid payload a.pending_auth
  handle_signal_message w a own (pake_finish sid payload) =
      on_pake_finish lib w a sid payload own a.pending_auth
  handle_signal_message w a own (bye sid reason) = on_bye w a sid
  handle_signal_message w a own msg = (a, [])

  unfoldable pub end_pending : State lib → Option (PendingAuth lib.opaque) → Done lib
  end_pending a none = (a, [])
  end_pending a (some p) = (record a { pending_auth = none }, send (bye p.session_id none) ∷ [])

  unfoldable pub end_active : World → State lib → Option ActiveSession → Done lib
  unfolding end_pending
  end_active w a none = end_pending a a.pending_auth
  end_active w a (some old) = (
    record a { active = none; current_session_id = none; status = registered a.pin },
    shutdown_reporting w old a.current_session_id ++ bye_for a.current_session_id none,
  )

  unfoldable pub handle_agent_command : World → State lib → AgentCommand → Done lib
  unfolding end_active
  handle_agent_command w a end_session = end_active w a a.active
