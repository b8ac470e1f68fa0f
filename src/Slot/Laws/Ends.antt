-- ===== src/Slot/Laws/Ends.antt =====
-- host/src/signaling/mod.rs: how sessions end.
pub mod Steps
pub mod Runs
use rcdesk.Common.{
  ℕ, String, Option, none, some, Bool, true, false, ◌&&◌, ◌||◌, List, [], ◌∷◌, ◌++◌, ◌≡◌, refl, ◌∙◌,
  is_some, if◌then◌else◌, ◌==◌, ==_self, ==_iff, nat_test, string_test, arith,
}
use rcdesk.Ws.{ByeReason, SignalMessage, bye, peer_joined, pake_finish, IceServer}
use rcdesk.Slot.Access.{SessionKey}
use rcdesk.Slot.{
  ActiveSession, Slot, Effect, send, close, holds, bye_for, TrafficStats, World, Started,
  no_display, start_failed, parts, SessionParts, drop_curtain, shutdown, session_stats_message,
  send_session_stats, shutdown_reporting, take_active, end_here, supersede_active_session,
}
use rcdesk.Slot.Login.{
  Libraries, State, Done, with_tag, with_offer, with_parts, begin_session, replace_session,
}
use rcdesk.Slot.Events.{Happening, message, offline_event, offline_command, has_tag}

-- The peer connection with this tag is closed.
abbrev pub closes : ℕ → List Effect → Bool
closes tag [] = false
closes tag (close t ∷ out) = (t == tag) || closes tag out
closes tag (e ∷ out) = closes tag out

-- The server is told that this session is over.
abbrev pub says_bye : String → List Effect → Bool
says_bye sid [] = false
says_bye sid (send (bye s reason) ∷ out) = (s == sid) || says_bye sid out
says_bye sid (e ∷ out) = says_bye sid out

pub closes-append :
    (tag : ℕ) (xs ys : List Effect) → closes tag (xs ++ ys) ≡ (closes tag xs || closes tag ys)
closes-append tag [] ys = refl
closes-append tag (close t ∷ xs) ys = ground (arith, closes-append tag xs ys)
closes-append tag (x ∷ xs) ys = closes-append tag xs ys

pub says_bye-append :
    (sid : String) (xs ys : List Effect)
    → says_bye sid (xs ++ ys) ≡ (says_bye sid xs || says_bye sid ys)
says_bye-append sid [] ys = refl
says_bye-append sid (send (bye s reason) ∷ xs) ys = ground (arith, says_bye-append sid xs ys)
says_bye-append sid (x ∷ xs) ys = says_bye-append sid xs ys

-- The session's peer connection is there still, or closed.
abbrev pub accounted : Option ActiveSession → Option ActiveSession → List Effect → Bool
accounted none now out = true
accounted (some s) now out = has_tag now s.session_tag || closes s.session_tag out

-- The session is there still, or the server is told.
abbrev pub told : Option String → Option String → List Effect → Bool
told none now out = true
told (some sid) now out = holds now sid || says_bye sid out

-- The server knows by itself, or cannot be told.
abbrev pub excused : Happening → String → Bool
excused (message (peer_joined sid servers)) current = true
excused (message (pake_finish sid payload)) current = true
excused (message (bye sid reason)) current = sid == current
excused (offline_event e) current = true
excused (offline_command c) current = true
excused h current = false

pub closes-shutdown_reporting :
    (w : World) (s : ActiveSession) (sid : Option String) (more : List Effect)
    → closes s.session_tag (shutdown_reporting w s sid ++ more) ≡ true
unfolding shutdown_reporting shutdown send_session_stats
closes-shutdown_reporting w s none more = rw (==_self s.session_tag) refl
closes-shutdown_reporting w s (some sid) more = stats w.traffic
  where
    stats :
        (t : Option TrafficStats)
        → closes s.session_tag
            ((send_session_stats t sid true ++ shutdown s w.screen_locks) ++ more)
          ≡ true
    stats none = rw (==_self s.session_tag) refl
    stats (some t) = rw (==_self s.session_tag, session_stats_message) refl

abbrev pub tells : Happening → Option String → Option String → List Effect → Bool
tells h none now out = true
tells h (some sid) now out = holds now sid || (says_bye sid out || excused h sid)

module _ (lib : Libraries) where
  -- A session id for a session.
  pub record IsPaired (a : State lib) : Type 0 where
    pub both : is_some a.active ≡ is_some a.current_session_id

  -- The slot afterwards is paired, the session before is there or its peer connection is closed, and
  -- the server knows.
  pub record Fate (h : Happening) (a : State lib) (d : Done lib) : Type 0 where
    pub paired : is_some d.0.active ≡ is_some d.0.current_session_id
    pub accounts : accounted a.active d.0.active d.1 ≡ true
    pub tells_server : tells h a.current_session_id d.0.current_session_id d.1 ≡ true

  stays_accounted : (s : Option ActiveSession) (out : List Effect) → accounted s s out ≡ true
  stays_accounted none out = refl
  stays_accounted (some s) out = rw (==_self s.session_tag) refl

  stays_told : (h : Happening) (c : Option String) (out : List Effect) → tells h c c out ≡ true
  stays_told h none out = refl
  stays_told h (some sid) out = rw (==_self sid) refl

  -- The session and its id are as before.
  pub same-Fate :
      (h : Happening) (a a' : State lib) (out : List Effect)
      → IsPaired a
      → a'.active ≡ a.active
      → a'.current_session_id ≡ a.current_session_id
      → Fate h a (a', out)
  same-Fate h a a' out v e f = record {
    paired = rw (e, f) v.both;
    accounts = rw e (stays_accounted a.active out);
    tells_server = rw f (stays_told h a.current_session_id out);
  }

  pub taken_active :
      (w : World) (a : State lib) (s : Option ActiveSession)
      → a.active ≡ s
      → (take_active lib.opaque w a s).0.active ≡ none
  unfolding take_active
  taken_active w a none e = e
  taken_active w a (some s) e = refl

  pub taken_accounted :
      (w : World) (a : State lib) (s now : Option ActiveSession) (more : List Effect)
      → accounted s now ((take_active lib.opaque w a s).1 ++ more) ≡ true
  unfolding take_active
  taken_accounted w a none now more = refl
  taken_accounted w a (some s) now more =
      ground (arith, closes-shutdown_reporting w s a.current_session_id more)

  pub bye_tells :
      (h : Happening) (c : Option String) (out : List Effect) (reason : Option ByeReason)
      → tells h c none (out ++ bye_for c reason) ≡ true
  bye_tells h none out reason = refl
  bye_tells h (some sid) out reason =
      ground (arith, says_bye-append sid out (send (bye sid reason) ∷ []), ==_self sid)

  pub end_here-Fate :
      (h : Happening) (w : World) (a : State lib) (reason : Option ByeReason)
      → Fate h a (end_here lib.opaque w a reason)
  unfolding end_here
  end_here-Fate h w a reason = record {
    paired = rw (taken_active w a a.active refl) refl;
    accounts = taken_accounted w a a.active _ (bye_for a.current_session_id reason);
    tells_server = bye_tells h a.current_session_id _ reason;
  }

  -- What a session that begins leaves: a session with its id, or what was there.
  with_tag-pairs :
      (a : State lib) (sid : String) (key : Option SessionKey) (p : SessionParts) (sdp : String)
      (auth : Option (Option String))
      → a.active ≡ none
      → a.current_session_id ≡ none
      → is_some (with_tag lib a sid key p sdp auth).0.active
        ≡ is_some (with_tag lib a sid key p sdp auth).0.current_session_id
  unfolding with_tag
  with_tag-pairs a sid key p sdp none e f = rw (e, f) refl
  with_tag-pairs a sid key p sdp (some auth) e f = refl

  with_parts-pairs :
      (a : State lib) (sid : String) (key : Option SessionKey) (started : Started)
      → a.active ≡ none
      → a.current_session_id ≡ none
      → is_some (with_parts lib a sid key started).0.active
        ≡ is_some (with_parts lib a sid key started).0.current_session_id
  unfolding with_parts with_offer
  with_parts-pairs a sid key no_display e f = rw (e, f) refl
  with_parts-pairs a sid key start_failed e f = rw (e, f) refl
  with_parts-pairs a sid key (parts p) e f = offers p.offer_sdp
    where
      offers :
          (sdp : Option String)
          → is_some (with_offer lib a sid key p sdp).0.active
            ≡ is_some (with_offer lib a sid key p sdp).0.current_session_id
      offers none = rw (e, f) refl
      offers (some sdp) = with_tag-pairs a sid key p sdp _ e f

  pub excused_told :
      (h : Happening) (c now : Option String) (out : List Effect)
      → ((sid : String) → excused h sid ≡ true)
      → tells h c now out ≡ true
  excused_told h none now out e = refl
  excused_told h (some sid) now out e = ground (arith, e sid)

  pub replace_session-Fate :
      (h : Happening) (w : World) (a : State lib) (sid : String) (from_peer : List IceServer)
      (key : Option SessionKey) (own : List IceServer)
      → ((sid : String) → excused h sid ≡ true)
      → Fate h a (replace_session lib w a sid from_peer key own)
  unfolding replace_session begin_session supersede_active_session
  replace_session-Fate h w a sid from_peer key own e = record {
    paired =
        with_parts-pairs (supersede_active_session lib.opaque w a).0 sid key w.started
          (taken_active w a a.active refl) refl;
    accounts = taken_accounted w a a.active _ _;
    tells_server = excused_told h a.current_session_id _ _ e;
  }
