-- ===== src/Slot/Laws/Guarded/Starts.antt =====
-- host/src/signaling/mod.rs: a session's start, and the login before it.
use rcdesk.Common.{
  ℕ, String, Option, none, some, List, ◌≡◌, refl, Bool-cases, inl, inr, ◌==◌, string_test,
}
use rcdesk.Files.Names.{Text, codes}
use rcdesk.Registry.{Instant}
use rcdesk.Ws.{IceServer, offer}
use rcdesk.Slot.Access.{
  Bytes, AccessRecord, AccessLoad, missing, unusable, present, login_start, login_finish,
  SessionKey,
}
use rcdesk.Slot.DtlsBind.{fingerprint_from_sdp, auth_tag}
use rcdesk.Slot.{
  PendingAuth, send, Started, no_display, start_failed, parts, SessionParts, World,
  supersede_active_session,
}
use rcdesk.Slot.Login.{
  Libraries, State, Done, access_load, offer_auth, with_tag, with_offer, with_parts, begin_session,
  replace_session, pause_left, count_start, pake_answer, start_login, against_record, paced,
  on_pake_start, with_key, finish_login, with_login, on_pake_finish,
}
use rcdesk.Slot.Events.{Happening}
use rcdesk.Slot.Laws.Guarded.{
  All-append, Known, Earned, IsGuarded, LoginKnown, PendingKnown, Locked, Vouched, Sound,
  take_active-Sound,
}

module _ (lib : Libraries) (Held : AccessRecord → Type 0) (h : Happening) where
  abbrev Good : Done lib → Type 0
  Good d = Sound lib Held h d

  with_tag-Sound :
      (a : State lib) (sid : String) (key : SessionKey) (p : SessionParts) (sdp : String)
      (found : Option Text)
      → IsGuarded lib Held a
      → Earned lib Held key
      → fingerprint_from_sdp lib.letters (codes sdp) ≡ found
      → Good (with_offer lib a sid (some key) p (some sdp))
  unfolding with_tag with_offer offer_auth
  with_tag-Sound a sid key p sdp none v e f = rw f (v, (tt, (tt, tt)))
  with_tag-Sound a sid key p sdp (some fingerprint) v e f =
      let bound : Vouched lib Held h
          (send (offer sid sdp (some (auth_tag lib.base64 lib.hmac key "offer" fingerprint)))) =
        (key, e, fingerprint, f, refl) in
      rw f (record { active_earned = e; login_known = v.login_known }, (bound, tt))

  with_parts-Sound :
      (a : State lib) (sid : String) (key : SessionKey) (started : Started)
      → IsGuarded lib Held a
      → Earned lib Held key
      → Good (with_parts lib a sid (some key) started)
  unfolding with_parts with_offer
  with_parts-Sound a sid key no_display v e = (v, (tt, tt))
  with_parts-Sound a sid key start_failed v e = (v, (tt, tt))
  with_parts-Sound a sid key (parts p) v e = offered_by p.offer_sdp
    where
      offered_by : (sdp : Option String) → Good (with_offer lib a sid (some key) p sdp)
      offered_by none = (v, (tt, (tt, tt)))
      offered_by (some sdp) = with_tag-Sound a sid key p sdp _ v e refl

  supersede-Sound :
      (w : World) (a : State lib)
      → IsGuarded lib Held a
      → Good (supersede_active_session lib.opaque w a)
  unfolding supersede_active_session
  supersede-Sound w a v =
      let (v', q) = take_active-Sound lib Held h w a v in
      (record { active_earned = v'.active_earned; login_known = v'.login_known }, q)

  replace_session-Sound :
      (w : World) (a : State lib) (sid : String) (from_peer : List IceServer) (key : SessionKey)
      (own : List IceServer)
      → IsGuarded lib Held a
      → Earned lib Held key
      → Good (replace_session lib w a sid from_peer (some key) own)
  unfolding replace_session begin_session
  replace_session-Sound w a sid from_peer key own v e =
      let (v', q) = supersede-Sound w a v in
      let (v'', q') = with_parts-Sound _ sid key w.started v' e in
      (v'', All-append (Vouched lib Held h) _ _ q (tt, q'))

  -- What a start of a login answers, for the slot that has counted it.
  pake_answer-Sound :
      (seed : ℕ) (a : State lib) (sid : String) (p : PendingAuth lib.opaque) (r : AccessRecord)
      (request : Bytes) (out : Option (lib.opaque.LoginServer × Bytes))
      → IsGuarded lib Held a
      → Held r
      → login_start lib.opaque seed r request ≡ out
      → Good (pake_answer lib a sid p out)
  unfolding pake_answer
  pake_answer-Sound seed a sid p r request none v held e = (v, (tt, tt))
  pake_answer-Sound seed a sid p r request (some (login, response)) v held e = (
    record { active_earned = v.active_earned; login_known = (r, held, seed, request, response, e) },
    (tt, tt),
  )

  against_record-Sound :
      (w : World) (a : State lib) (sid : String) (p : PendingAuth lib.opaque) (payload : String)
      (access : AccessLoad)
      → IsGuarded lib Held a
      → Locked lib Held access
      → Good (against_record lib w a sid p payload access)
  unfolding against_record start_login
  against_record-Sound w a sid p payload missing v k = absurd k
  against_record-Sound w a sid p payload unusable v k = (v, (tt, tt))
  against_record-Sound w a sid p payload (present r) v k = decoded (lib.base64.decode payload)
    where
      decoded : (request : Option Bytes) → Good (start_login lib w a sid p r request)
      decoded none = (v, (tt, tt))
      decoded (some request) = pake_answer-Sound w.seed a sid p r request _ v k refl

  count_start-IsGuarded :
      (a : State lib) (later : Instant)
      → IsGuarded lib Held a
      → IsGuarded lib Held (count_start lib a later)
  unfolding count_start
  count_start-IsGuarded a later v = record {
    active_earned = v.active_earned;
    login_known = v.login_known;
  }

  pub on_pake_start-Sound :
      (w : World) (a : State lib) (sid payload : String) (p : Option (PendingAuth lib.opaque))
      → IsGuarded lib Held a
      → Locked lib Held (access_load lib w)
      → Good (on_pake_start lib w a sid payload p)
  unfolding on_pake_start paced
  on_pake_start-Sound w a sid payload none v k = (v, tt)
  on_pake_start-Sound w a sid payload (some p) v k = elim (Bool-cases (p.session_id == sid)) [
    | inr f ↦ rw f (v, tt)
    | inl t ↦ rw t (after_pause (pause_left lib a.auth_locked_until w.now))
  ]
    where
      after_pause : (pause : Option ℕ) → Good (paced lib w a sid p payload pause)
      after_pause (some secs) = (v, (tt, tt))
      after_pause none =
          against_record-Sound w _ sid p payload _ (count_start-IsGuarded a w.later v) k

  finish_login-Sound :
      (w : World) (a : State lib) (sid : String) (p : PendingAuth lib.opaque)
      (login : lib.opaque.LoginServer) (own : List IceServer) (finalization : Option Bytes)
      → IsGuarded lib Held a
      → Known lib Held login
      → Good (finish_login lib w a sid p login own finalization)
  unfolding finish_login with_key
  finish_login-Sound w a sid p login own none v known = (v, (tt, tt))
  finish_login-Sound w a sid p login own (some finalization) v known = keyed _ refl
    where
      keyed :
          (key : Option SessionKey)
          → login_finish lib.opaque login finalization ≡ key
          → Good (with_key lib w a sid p own key)
      keyed none e = (v, (tt, tt))
      keyed (some key) e =
          replace_session-Sound w _ sid p.ice_servers key own
            (record { active_earned = v.active_earned; login_known = tt })
            (login, known, finalization, e)

  pub on_pake_finish-Sound :
      (w : World) (a : State lib) (sid payload : String) (own : List IceServer)
      (p : Option (PendingAuth lib.opaque))
      → IsGuarded lib Held a
      → PendingKnown lib Held p
      → Good (on_pake_finish lib w a sid payload own p)
  unfolding on_pake_finish with_login
  on_pake_finish-Sound w a sid payload own none v known = (v, tt)
  on_pake_finish-Sound w a sid payload own (some p) v known =
      elim (Bool-cases (p.session_id == sid)) [
        | inr f ↦ rw f (v, tt)
        | inl t ↦ rw t (taken p.login known)
      ]
    where
      taken :
          (login : Option (lib.opaque.LoginServer))
          → LoginKnown lib Held login
          → Good (with_login lib w a sid payload p own login)
      taken none known = (v, tt)
      taken (some login) known =
          finish_login-Sound w _ sid p login own _
            (record { active_earned = v.active_earned; login_known = tt }) known
