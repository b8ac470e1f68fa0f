-- ===== src/Slot/Laws/Exchange.antt =====
-- host/src/signaling/mod.rs: a whole login, from the client's arrival to the host's offer.
use rcdesk.Common.{
  String, Option, none, some, Bool, true, false, ◌&&◌, if◌then◌else◌, List, [], ◌∷◌, ◌++◌, ◌≡◌,
  refl, ==_self, string_test,
}
use mathlib.Core.List.{append-nil}
use rcdesk.Files.Names.{Text, codes}
use rcdesk.Ws.{
  IceServer, peer_joined, pake_start, pake_finish, auth_required, pake_response, offer,
  session_stats,
}
use rcdesk.Slot.Access.{Bytes, AccessRecord, present, login_start, login_finish, SessionKey}
use rcdesk.Slot.DtlsBind.{fingerprint_from_sdp, auth_tag}
use rcdesk.Slot.{
  ActiveSession, PendingAuth, Effect, send, start_session, auth_timer, no_grace, SessionParts,
  parts, World, take_active, TrafficStats, close, stop_tasks, lock_screen, hide_curtain,
  has_windows, drop_curtain, shutdown, send_session_stats, session_stats_message,
  shutdown_reporting, supersede_active_session, peer_ice_servers,
}
use rcdesk.Slot.Login.{
  Libraries, State, Done, access_load, pause_left, count_start, pake_answer, start_login,
  against_record, paced, on_pake_start, with_key, finish_login, with_login, on_pake_finish,
  replace_session, begin_session, with_parts, with_offer, with_tag, offer_auth,
}
use rcdesk.Slot.Signals.{await_login, on_peer_joined, handle_signal_message}
use rcdesk.Slot.Events.{message, on_signal, happen, drive}

-- What is done to end the session before: its last report to the server, if it has an id and the
-- traffic can be read; its peer connection closed and its tasks stopped; and where its curtain is
-- drawn, the screen is locked, and only then is the curtain hidden.
abbrev pub last_report : Option TrafficStats → Option String → List Effect
last_report (some t) (some sid) =
    send (session_stats sid t.bytes_sent t.bytes_received t.relay true) ∷ []
last_report t sid = []

abbrev pub uncovered : Bool → Bool → List Effect
uncovered drawn true = if drawn then lock_screen true ∷ hide_curtain ∷ [] else []
uncovered drawn false = if drawn then lock_screen false ∷ [] else []

abbrev pub ending : World → Option ActiveSession → Option String → List Effect
ending w none sid = []
ending w (some s) sid =
    last_report w.traffic sid
    ++ close s.session_tag
      ∷ stop_tasks s.session_tag
      ∷ uncovered (s.curtain && has_windows s.curtain_windows) w.screen_locks

drop_curtain-uncovered :
    (curtain windows locks : Bool)
    → drop_curtain curtain windows locks ≡ uncovered (curtain && windows) locks
unfolding drop_curtain
drop_curtain-uncovered true true true = refl
drop_curtain-uncovered true true false = refl
drop_curtain-uncovered true false true = refl
drop_curtain-uncovered true false false = refl
drop_curtain-uncovered false windows true = refl
drop_curtain-uncovered false windows false = refl

shutdown_reporting-ending :
    (w : World) (s : ActiveSession) (sid : Option String)
    → shutdown_reporting w s sid ≡ ending w (some s) sid
unfolding shutdown_reporting shutdown send_session_stats session_stats_message
shutdown_reporting-ending w s none = reported w.traffic
  where
    reported :
        (t : Option TrafficStats)
        → shutdown s w.screen_locks
          ≡ last_report t none
            ++ close s.session_tag
              ∷ stop_tasks s.session_tag
              ∷ uncovered (s.curtain && has_windows s.curtain_windows) w.screen_locks
    reported none =
        rw (drop_curtain-uncovered s.curtain (has_windows s.curtain_windows) w.screen_locks) refl
    reported (some t) =
        rw (drop_curtain-uncovered s.curtain (has_windows s.curtain_windows) w.screen_locks) refl
shutdown_reporting-ending w s (some sid) = reported w.traffic
  where
    reported :
        (t : Option TrafficStats)
        → send_session_stats t sid true ++ shutdown s w.screen_locks
          ≡ last_report t (some sid)
            ++ close s.session_tag
              ∷ stop_tasks s.session_tag
              ∷ uncovered (s.curtain && has_windows s.curtain_windows) w.screen_locks
    reported none =
        rw (drop_curtain-uncovered s.curtain (has_windows s.curtain_windows) w.screen_locks) refl
    reported (some t) =
        rw (drop_curtain-uncovered s.curtain (has_windows s.curtain_windows) w.screen_locks) refl

module _ (lib : Libraries) where
  -- The slot that waits for the client's login.
  abbrev waiting : State lib → String → List IceServer → State lib
  waiting a sid servers = (await_login lib (record a { pending_auth = none }) sid servers).0

  joins :
      (w : World) (a : State lib) (own servers : List IceServer) (sid : String) (r : AccessRecord)
      → access_load lib w ≡ present r
      → happen lib w a own (message (peer_joined sid servers))
        ≡ (waiting a sid servers, send (auth_required sid) ∷ auth_timer sid a.next_generation ∷ [])
  unfolding happen on_signal handle_signal_message await_login on_peer_joined
  joins w a own servers sid r e = rw e refl

  starts :
      (w : World) (a : State lib) (own : List IceServer) (p : PendingAuth lib.opaque)
      (payload : String) (r : AccessRecord) (request response : Bytes)
      (login : lib.opaque.LoginServer)
      → a.pending_auth ≡ some p
      → access_load lib w ≡ present r
      → pause_left lib a.auth_locked_until w.now ≡ none
      → lib.base64.decode payload ≡ some request
      → login_start lib.opaque w.seed r request ≡ some (login, response)
      → happen lib w a own (message (pake_start p.session_id payload)) ≡ (
        record (count_start lib a w.later) {
          pending_auth = some (record p { login = some login });
        },
        send (pake_response p.session_id (lib.base64.encode response)) ∷ [],
      )
  unfolding happen on_signal handle_signal_message on_pake_start paced against_record start_login
      pake_answer
  starts w a own p payload r request response login waits e free d s =
      rw (waits, ==_self p.session_id, free, e, d, s) refl

  -- The session that a login begins.
  abbrev pub begun_session : SessionParts → SessionKey → ActiveSession
  begun_session p key = record {
    session_tag = p.session_tag;
    curtain = p.curtain;
    curtain_windows = p.curtain_windows;
    disconnect_grace = no_grace;
    session_key = some key;
  }

  -- What the slot is then, and what was done: the login's messages, the end of the session before, and
  -- the offer under the key.
  abbrev pub LoggedIn :
      State lib
      → String
      → List IceServer
      → List IceServer
      → Bytes
      → SessionKey
      → SessionParts
      → String
      → Text
      → List Effect
      → Done lib
      → Type 0
  LoggedIn a sid servers own response key p sdp f ended (a', out) =
      (a'.active ≡ some (begun_session p key))
      × (a'.current_session_id ≡ some sid)
      × (a'.pending_auth ≡ none)
      × (a'.auth_failures ≡ 0)
      × (a'.auth_locked_until ≡ none)
      × (out
          ≡ send (auth_required sid)
            ∷ auth_timer sid a.next_generation
            ∷ send (pake_response sid (lib.base64.encode response))
            ∷ (ended
                ++ start_session (peer_ice_servers servers own)
                  ∷ send (offer sid sdp (some (auth_tag lib.base64 lib.hmac key "offer" f)))
                  ∷ []))

  finishes :
      (w : World) (a : State lib) (own : List IceServer) (q : PendingAuth lib.opaque)
      (login : lib.opaque.LoginServer) (payload : String) (finalization : Bytes) (key : SessionKey)
      (p : SessionParts) (sdp : String) (f : Text)
      → a.pending_auth ≡ some q
      → q.login ≡ some login
      → lib.base64.decode payload ≡ some finalization
      → login_finish lib.opaque login finalization ≡ some key
      → w.started ≡ parts p
      → p.offer_sdp ≡ some sdp
      → fingerprint_from_sdp lib.letters (codes sdp) ≡ some f
      → happen lib w a own (message (pake_finish q.session_id payload)) ≡ (
        record ((supersede_active_session lib.opaque w
            (record a { auth_failures = 0; auth_locked_until = none; pending_auth = none })).0) {
              active = some (begun_session p key);
              current_session_id = some q.session_id;
            },
        (supersede_active_session lib.opaque w
              (record a { auth_failures = 0; auth_locked_until = none; pending_auth = none })).1
            ++ start_session (peer_ice_servers q.ice_servers own)
              ∷ send (offer q.session_id sdp (some (auth_tag lib.base64 lib.hmac key "offer" f)))
              ∷ [],
      )
  unfolding happen on_signal handle_signal_message on_pake_finish with_login finish_login with_key
      replace_session begin_session with_parts with_offer with_tag offer_auth
  finishes w a own q login payload finalization key p sdp f waits l d e s o g =
      rw (waits, ==_self q.session_id, l, d, e, s, o, g) refl

  take_active-ending :
      (w : World) (a : State lib) (s : Option ActiveSession) (sid : Option String)
      → a.current_session_id ≡ sid
      → (take_active lib.opaque w a s).1 ≡ ending w s sid
  unfolding take_active
  take_active-ending w a none sid e = refl
  take_active-ending w a (some s) sid e = rw e (shutdown_reporting-ending w s sid)

  take_active-keeps :
      (w : World) (a : State lib) (s : Option ActiveSession)
      → ((take_active lib.opaque w a s).0.pending_auth ≡ a.pending_auth)
        × ((take_active lib.opaque w a s).0.auth_failures ≡ a.auth_failures)
        × ((take_active lib.opaque w a s).0.auth_locked_until ≡ a.auth_locked_until)
  unfolding take_active
  take_active-keeps w a none = (refl, refl, refl)
  take_active-keeps w a (some s) = (refl, refl, refl)

  -- A client that has the password gets its session, whatever the slot held before: if the access file
  -- can be read, no pause is left, the login's messages are accepted and the session starts, then the
  -- host asks for the login, answers its start, ends the session before (its last report, its peer
  -- connection closed, its tasks stopped, the screen locked under its curtain) and offers the new one,
  -- under the login's key; the count of starts and the pause are gone.
  pub logs_in :
      (w₁ w₂ w₃ : World) (a : State lib) (own servers : List IceServer)
      (sid start_payload finish_payload : String) (r₁ r : AccessRecord)
      (request response finalization : Bytes) (login : lib.opaque.LoginServer) (key : SessionKey)
      (p : SessionParts) (sdp : String) (f : Text)
      → access_load lib w₁ ≡ present r₁
      → access_load lib w₂ ≡ present r
      → pause_left lib a.auth_locked_until w₂.now ≡ none
      → lib.base64.decode start_payload ≡ some request
      → login_start lib.opaque w₂.seed r request ≡ some (login, response)
      → lib.base64.decode finish_payload ≡ some finalization
      → login_finish lib.opaque login finalization ≡ some key
      → w₃.started ≡ parts p
      → p.offer_sdp ≡ some sdp
      → fingerprint_from_sdp lib.letters (codes sdp) ≡ some f
      → LoggedIn a sid servers own response key p sdp f (ending w₃ a.active a.current_session_id) (
          drive lib a own (
            (w₁, message (peer_joined sid servers))
            ∷ (w₂, message (pake_start sid start_payload))
            ∷ (w₃, message (pake_finish sid finish_payload))
            ∷ []))
  unfolding drive supersede_active_session await_login count_start
  logs_in w₁ w₂ w₃ a own servers sid start_payload finish_payload r₁ r request response finalization
        login key p sdp f e₁ e₂ free d₂ s₂ d₃ s₃ go o g =
      let a₁ = waiting a sid servers in
      let q : PendingAuth lib.opaque = record {
        session_id = sid;
        ice_servers = servers;
        login = some login;
        generation = a.next_generation;
      } in
      let a₂ = record (count_start lib a₁ w₂.later) { pending_auth = some q } in
      let a₃ = record a₂ { auth_failures = 0; auth_locked_until = none; pending_auth = none } in
      let (pending, failures, pause) = take_active-keeps w₃ a₃ a.active in
      rw
        (
          joins w₁ a own servers sid r₁ e₁,
          starts w₂ a₁ own (record q { login = none }) start_payload r request response login refl
              e₂ free d₂ s₂,
          finishes w₃ a₂ own q login finish_payload finalization key p sdp f refl refl d₃ s₃ go o g,
        )
        (
          refl,
          refl,
          pending,
          failures,
          pause,
          rw (append-nil, take_active-ending w₃ a₃ a.active a.current_session_id refl) refl,
        )
