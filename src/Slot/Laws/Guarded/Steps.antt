-- ===== src/Slot/Laws/Guarded/Steps.antt =====
-- host/src/signaling/mod.rs: how a session ends, and an answer.
use rcdesk.Common.{
  String, Option, none, some, Bool, true, false, [], ◌∷◌, ◌≡◌, refl, ap, arith, string_test,
  nat_test, if◌then◌else◌,
}
use rcdesk.Files.Names.{Text}
use rcdesk.Ws.{
  IceServer, SignalMessage, peer_joined, answer, ice, pake_start, pake_finish, bye, pin_changed,
  ByeReason, video_failed,
}
use rcdesk.Slot.Access.{AccessRecord, SessionKey}
use rcdesk.Slot.DtlsBind.{verify_auth_tag}
use rcdesk.Slot.{ActiveSession, PendingAuth, set_answer, World, end_here, bye_for}
use rcdesk.Slot.Login.{Libraries, State, Done}
use rcdesk.Slot.Signals.{
  refuse_answer, tag_holds, bound, then_do, on_answer, on_ice, ended_by_peer, on_bye, end_pending,
  end_active,
}
use rcdesk.Slot.Events.{Happening, message}
use rcdesk.Slot.Laws.Guarded.{
  All-append, IsGuarded, KeyEarned, SessionEarned, Vouched, AllVouched, Sound,
  shutdown_reporting-AllVouched, take_active-Sound,
}

module _ (lib : Libraries) (Held : AccessRecord → Type 0) where
  module _ (h : Happening) where
    abbrev pub Good : Done lib → Type 0
    Good d = Sound lib Held h d

    pub unchanged : (a : State lib) → IsGuarded lib Held a → Good (a, [])
    unchanged a v = (v, tt)

    pub if-Good : (b : Bool) (x y : Done lib) → Good x → Good y → Good (if b then x else y)
    if-Good true x y p q = p
    if-Good false x y p q = q

    bye_for-AllVouched :
        (sid : Option String) (reason : Option ByeReason)
        → AllVouched lib Held h (bye_for sid reason)
    bye_for-AllVouched none reason = tt
    bye_for-AllVouched (some sid) reason = (tt, tt)

    pub end_here-Sound :
        (w : World) (a : State lib) (reason : Option ByeReason)
        → IsGuarded lib Held a
        → Good (end_here lib.opaque w a reason)
    unfolding end_here
    end_here-Sound w a reason v =
        let (v', q) = take_active-Sound lib Held h w a v in
        (
          record { active_earned = v'.active_earned; login_known = v'.login_known },
          All-append (Vouched lib Held h) _ _ q (bye_for-AllVouched a.current_session_id reason),
        )

    refuse_answer-Sound :
        (w : World) (a : State lib) (sid : String)
        → IsGuarded lib Held a
        → Good (refuse_answer lib w a sid)
    unfolding refuse_answer
    refuse_answer-Sound w a sid v =
        let (v', q) = take_active-Sound lib Held h w a v in
        (
          record { active_earned = v'.active_earned; login_known = v'.login_known },
          All-append (Vouched lib Held h) _ _ q (tt, tt),
        )

    ended_by_peer-Sound :
        (w : World) (a : State lib) → IsGuarded lib Held a → Good (ended_by_peer lib w a)
    unfolding ended_by_peer
    ended_by_peer-Sound w a v =
        let (v', q) = take_active-Sound lib Held h w a v in
        (record { active_earned = v'.active_earned; login_known = v'.login_known }, q)

    pub on_bye-Sound :
        (w : World) (a : State lib) (sid : String)
        → IsGuarded lib Held a
        → Good (on_bye lib w a sid)
    unfolding on_bye
    on_bye-Sound w a sid v = if-Good _ _ _ (ended_by_peer-Sound w a v) (
        if-Good _ _ _ (record { active_earned = v.active_earned; login_known = tt }, tt)
          (unchanged a v))

    pub on_ice-Sound :
        (a : State lib) (sid : String) (candidate : rcdesk.Ws.IceCandidate)
        (s : Option ActiveSession)
        → IsGuarded lib Held a
        → Good (on_ice lib a candidate s)
    unfolding on_ice
    on_ice-Sound a sid candidate none v = (v, tt)
    on_ice-Sound a sid candidate (some s) v = (v, (tt, tt))

    pub end_active-Sound :
        (w : World) (a : State lib) (s : Option ActiveSession)
        → IsGuarded lib Held a
        → Good (end_active lib w a s)
    unfolding end_active end_pending
    end_active-Sound w a none v = ended a.pending_auth
      where
        ended : (p : Option (PendingAuth lib.opaque)) → Good (end_pending lib a p)
        ended none = (v, tt)
        ended (some p) = (record { active_earned = v.active_earned; login_known = tt }, (tt, tt))
    end_active-Sound w a (some old) v = (
      record { active_earned = tt; login_known = v.login_known },
      All-append (Vouched lib Held h) _ _
          (shutdown_reporting-AllVouched lib Held h w old a.current_session_id)
          (bye_for-AllVouched a.current_session_id none),
    )

    tag_holds-cases :
        (key : SessionKey) (found : Option Text) (auth : Option String)
        → tag_holds lib key found auth ≡ true
        → (fingerprint : Text) × (proof : String) × (found ≡ some fingerprint)
          × (auth ≡ some proof)
          × (verify_auth_tag lib.base64 lib.hmac key "answer" fingerprint proof ≡ true)
    unfolding tag_holds
    tag_holds-cases key none none e = absurd (ground arith)
    tag_holds-cases key none (some tag) e = absurd (ground arith)
    tag_holds-cases key (some fingerprint) none e = absurd (ground arith)
    tag_holds-cases key (some fingerprint) (some tag) e = (fingerprint, tag, refl, refl, e)

  pub on_answer-Sound :
      (w : World) (a : State lib) (sid sdp : String) (auth : Option String)
      (s : Option ActiveSession)
      → IsGuarded lib Held a
      → SessionEarned lib Held s
      → Good (message (answer sid sdp auth)) (on_answer lib w a sid sdp auth s)
  unfolding on_answer bound
  on_answer-Sound w a sid sdp auth none v e = (v, tt)
  on_answer-Sound w a sid sdp auth (some s) v e = checked s.session_key e _ refl
    where
      refused : Good (message (answer sid sdp auth)) (refuse_answer lib w a sid)
      refused = refuse_answer-Sound (message (answer sid sdp auth)) w a sid v

      applied :
          (applies : Bool)
          → Vouched lib Held (message (answer sid sdp auth)) (set_answer s.session_tag sdp)
          → Good (message (answer sid sdp auth)) (
              if applies
              then (a, set_answer s.session_tag sdp ∷ [])
              else then_do lib (set_answer s.session_tag sdp) (refuse_answer lib w a sid))
      applied true vouched = (v, (vouched, tt))
      applied false vouched = (refused.0, (vouched, refused.1))

      checked :
          (key : Option SessionKey)
          → KeyEarned lib Held key
          → (holds_tag : Bool) → bound lib key sdp auth ≡ holds_tag
          → Good (message (answer sid sdp auth)) (
              if holds_tag
              then if w.answer_applies
                then (a, set_answer s.session_tag sdp ∷ [])
                else then_do lib (set_answer s.session_tag sdp) (refuse_answer lib w a sid)
              else refuse_answer lib w a sid)
      checked none e holds_tag same = absurd e
      checked (some key) e false same = refused
      checked (some key) e true same =
          let (fingerprint, proof, found, carried, verified) =
            tag_holds-cases (message (answer sid sdp auth)) key _ auth same in
          applied w.answer_applies (
            key,
            e,
            sid,
            fingerprint,
            proof,
            ap (λ t. message (answer sid sdp t)) carried,
            found,
            verified,
          )
