-- ===== src/Slot/Login.antt =====
-- host/src/signaling/mod.rs: a session's start, and the login before it.
use rcdesk.Common.{
  ℕ, ◌+◌, ◌-◌, ◌/◌, min, max, String, Option, none, some, List, [], ◌∷◌, ◌++◌, if◌then◌else◌, ltb,
  ◌==◌, string_test,
}
use rcdesk.Files.Names.{Text, codes}
use rcdesk.Registry.{Instant, Duration, nanos_per_sec}
use rcdesk.Ws.{IceServer, offer, bye, auth_failed, pake_response, display_unavailable}
use rcdesk.Slot.Access.{
  Bytes, Base64, Opaque, AccessRecord, AccessRecordFile, AccessLoad, missing, unusable, present,
  load, login_start, login_finish, SessionKey,
}
use rcdesk.Slot.DtlsBind.{Letters, Hmac, fingerprint_from_sdp, auth_tag}
use rcdesk.Slot.{
  u32, max_auth_attempts, auth_lockout_duration, no_grace, PendingAuth, Slot, Effect, send, abort,
  start_session, SessionParts, Started, no_display, start_failed, parts, World, peer_ice_servers,
  supersede_active_session,
}

-- The libraries that the host uses, and the parser of the access file.
pub record Libraries : Type 1 where
  pub opaque : Opaque
  pub base64 : Base64
  pub letters : Letters
  pub hmac : Hmac
  pub parse_file : Bytes → Option AccessRecordFile

module _ (lib : Libraries) where
  abbrev pub State : Type 0
  State = Slot lib.opaque

  abbrev pub Done : Type 0
  Done = State × List Effect

  abbrev pub access_load : World → AccessLoad
  access_load w = load lib.base64 lib.parse_file w.access_file

  -- `Offer.auth`: the inner `none` is a session without a key, the outer a missing fingerprint.
  abbrev tag_under : SessionKey → Option Text → Option (Option String)
  tag_under key none = none
  tag_under key (some fingerprint) =
      some (some (auth_tag lib.base64 lib.hmac key "offer" fingerprint))

  unfoldable pub offer_auth : Option SessionKey → String → Option (Option String)
  offer_auth none sdp = some none
  offer_auth (some key) sdp = tag_under key (fingerprint_from_sdp lib.letters (codes sdp))

  unfoldable pub with_tag :
      State → String → Option SessionKey → SessionParts → String → Option (Option String) → Done
  with_tag a sid key p sdp none = (a, abort p.session_tag ∷ send (bye sid none) ∷ [])
  with_tag a sid key p sdp (some auth) = (
    record a {
      active = some (record {
        session_tag = p.session_tag;
        curtain = p.curtain;
        curtain_windows = p.curtain_windows;
        disconnect_grace = no_grace;
        session_key = key;
      });
      current_session_id = some sid;
    },
    send (offer sid sdp auth) ∷ [],
  )

  -- What `create_offer` came to.
  unfoldable pub with_offer :
      State → String → Option SessionKey → SessionParts → Option String → Done
  unfolding with_tag offer_auth
  with_offer a sid key p none = (a, abort p.session_tag ∷ send (bye sid none) ∷ [])
  with_offer a sid key p (some sdp) = with_tag a sid key p sdp (offer_auth key sdp)

  unfoldable pub with_parts : State → String → Option SessionKey → Started → Done
  unfolding with_offer
  with_parts a sid key no_display = (a, send (bye sid (some display_unavailable)) ∷ [])
  with_parts a sid key start_failed = (a, send (bye sid none) ∷ [])
  with_parts a sid key (parts p) = with_offer a sid key p p.offer_sdp

  unfoldable pub begin_session :
      World → State → String → List IceServer → Option SessionKey → List IceServer → Done
  unfolding with_parts
  begin_session w a sid from_peer key own =
      let (a', out) = with_parts a sid key w.started in
      (a', start_session (peer_ice_servers from_peer own) ∷ out)

  -- The running session gives way to a new one.
  unfoldable pub replace_session :
      World → State → String → List IceServer → Option SessionKey → List IceServer → Done
  unfolding begin_session
  replace_session w a sid from_peer key own =
      let (a', out) = supersede_active_session lib.opaque w a in
      let (a'', begun) = begin_session w a' sid from_peer key own in (a'', out ++ begun)

  -- Whole seconds, rounded up.
  abbrev pub retry_secs : Duration → ℕ
  retry_secs d = max (min ((d + 999_999_999) / nanos_per_sec) 4_294_967_295) 1

  -- How long a start has to wait; `none` lets it pass.
  unfoldable pub pause_left : Option Instant → Instant → Option ℕ
  pause_left none now = none
  pause_left (some locked_until) now =
      if ltb now locked_until then some (retry_secs (locked_until - now)) else none

  unfoldable pub count_start : State → Instant → State
  count_start a later =
      let failures = u32 (a.auth_failures + 1) in
      record a {
        auth_failures = failures;
        auth_locked_until =
            if ltb max_auth_attempts failures
            then some (later + auth_lockout_duration failures)
            else a.auth_locked_until;
      }

  unfoldable pub pake_answer :
      State → String → PendingAuth lib.opaque → Option (lib.opaque.LoginServer × Bytes) → Done
  pake_answer a sid p none = (a, send (auth_failed sid none) ∷ [])
  pake_answer a sid p (some (login, response)) = (
    record a { pending_auth = some (record p { login = some login }) },
    send (pake_response sid (lib.base64.encode response)) ∷ [],
  )

  unfoldable pub start_login :
      World → State → String → PendingAuth lib.opaque → AccessRecord → Option Bytes → Done
  unfolding pake_answer
  start_login w a sid p r none = (a, send (auth_failed sid none) ∷ [])
  start_login w a sid p r (some request) =
      pake_answer a sid p (login_start lib.opaque w.seed r request)

  unfoldable pub against_record :
      World → State → String → PendingAuth lib.opaque → String → AccessLoad → Done
  unfolding start_login
  against_record w a sid p payload missing = (a, send (auth_failed sid none) ∷ [])
  against_record w a sid p payload unusable = (a, send (auth_failed sid none) ∷ [])
  against_record w a sid p payload (present r) = start_login w a sid p r (lib.base64.decode payload)

  unfoldable pub paced : World → State → String → PendingAuth lib.opaque → String → Option ℕ → Done
  unfolding count_start against_record
  paced w a sid p payload (some secs) = (a, send (auth_failed sid (some secs)) ∷ [])
  paced w a sid p payload none =
      against_record w (count_start a w.later) sid p payload (access_load w)

  unfoldable pub on_pake_start :
      World → State → String → String → Option (PendingAuth lib.opaque) → Done
  unfolding paced pause_left
  on_pake_start w a sid payload none = (a, [])
  on_pake_start w a sid payload (some p) =
      if p.session_id == sid
      then paced w a sid p payload (pause_left a.auth_locked_until w.now)
      else (a, [])

  unfoldable pub with_key :
      World → State → String → PendingAuth lib.opaque → List IceServer → Option SessionKey → Done
  unfolding replace_session
  with_key w a sid p own none = (a, send (auth_failed sid none) ∷ [])
  with_key w a sid p own (some key) =
      replace_session w
        (record a { auth_failures = 0; auth_locked_until = none; pending_auth = none }) sid
        p.ice_servers (some key) own

  unfoldable pub finish_login :
      World
      → State
      → String
      → PendingAuth lib.opaque
      → lib.opaque.LoginServer
      → List IceServer
      → Option Bytes
      → Done
  unfolding with_key
  finish_login w a sid p login own none = (a, send (auth_failed sid none) ∷ [])
  finish_login w a sid p login own (some finalization) =
      with_key w a sid p own (login_finish lib.opaque login finalization)

  -- The login is taken, whatever comes of it.
  unfoldable pub with_login :
      World
      → State
      → String
      → String
      → PendingAuth lib.opaque
      → List IceServer
      → Option (lib.opaque.LoginServer)
      → Done
  unfolding finish_login
  with_login w a sid payload p own none = (a, [])
  with_login w a sid payload p own (some login) =
      finish_login w (record a { pending_auth = some (record p { login = none }) }) sid p login own
        (lib.base64.decode payload)

  unfoldable pub on_pake_finish :
      World → State → String → String → List IceServer → Option (PendingAuth lib.opaque) → Done
  unfolding with_login
  on_pake_finish w a sid payload own none = (a, [])
  on_pake_finish w a sid payload own (some p) =
      if p.session_id == sid then with_login w a sid payload p own p.login else (a, [])
