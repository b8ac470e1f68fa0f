-- ===== src/Slot/Laws/Guarded.antt =====
-- host/src/signaling/mod.rs: with an access password, no session without a login, and no session
-- description that its key does not vouch for.
pub mod Starts
pub mod Steps
pub mod Runs
use rcdesk.Common.{
  ℕ, String, Option, none, some, Bool, true, false, List, [], ◌∷◌, ◌++◌, ◌≡◌, refl, All, Bool-cases,
  Option-cases, inl, inr, arith,
}
use rcdesk.Files.Names.{Text, codes}
use rcdesk.Ws.{SignalMessage, offer, answer}
use rcdesk.Slot.Access.{
  Bytes, AccessRecord, AccessLoad, missing, unusable, present, login_start, login_finish,
  SessionKey,
}
use rcdesk.Slot.DtlsBind.{fingerprint_from_sdp, auth_tag, verify_auth_tag}
use rcdesk.Slot.{
  ActiveSession, PendingAuth, Slot, Effect, send, set_answer, close, stop_tasks, TrafficStats,
  World, drop_curtain, shutdown, send_session_stats, shutdown_reporting, take_active,
}
use rcdesk.Slot.Login.{Libraries, State, Done}
use rcdesk.Slot.Events.{Happening, message}

pub All-append {ℓ κ} :
    {A : Type ℓ} (P : A → Type κ) (xs ys : List A) → All P xs → All P ys → All P (xs ++ ys)
All-append P [] ys p q = q
All-append P (x ∷ xs) ys (p, ps) q = (p, All-append P xs ys ps q)

-- The records of the password that the access file has held, by a predicate.
module _ (lib : Libraries) (Held : AccessRecord → Type 0) where
  -- A login that the host started with such a record.
  abbrev pub Known : lib.opaque.LoginServer → Type 0
  Known login =
      (r : AccessRecord) × Held r
      × (seed : ℕ) × (request : Bytes) × (response : Bytes) × (login_start lib.opaque seed r request
          ≡ some (login, response))

  -- A key that such a login was finished with.
  abbrev pub Earned : SessionKey → Type 0
  Earned key =
      (login : lib.opaque.LoginServer) × Known login
      × (finalization : Bytes) × (login_finish lib.opaque login finalization ≡ some key)

  abbrev pub KeyEarned : Option SessionKey → Type 0
  KeyEarned none = ⊥
  KeyEarned (some key) = Earned key

  abbrev pub SessionEarned : Option ActiveSession → Type 0
  SessionEarned none = Unit
  SessionEarned (some s) = KeyEarned s.session_key

  abbrev pub LoginKnown : Option (lib.opaque.LoginServer) → Type 0
  LoginKnown none = Unit
  LoginKnown (some login) = Known login

  abbrev pub PendingKnown : Option (PendingAuth lib.opaque) → Type 0
  PendingKnown none = Unit
  PendingKnown (some p) = LoginKnown p.login

  -- The session has an earned key, and the pending login is known.
  pub record IsGuarded (a : State lib) : Type 0 where
    pub active_earned : SessionEarned a.active
    pub login_known : PendingKnown a.pending_auth

  -- The access file is there.
  abbrev pub Locked : AccessLoad → Type 0
  Locked missing = ⊥
  Locked unusable = Unit
  Locked (present r) = Held r

  -- An offer carries the tag of its own fingerprint under an earned key; an answer that is applied came
  -- with a tag of its fingerprint that verifies under an earned key.
  abbrev pub Vouched : Happening → Effect → Type 0
  Vouched h (send (offer sid sdp auth)) =
      (key : SessionKey) × Earned key
      × (fingerprint : Text) × (fingerprint_from_sdp lib.letters (codes sdp) ≡ some fingerprint)
      × (auth ≡ some (auth_tag lib.base64 lib.hmac key "offer" fingerprint))
  Vouched h (set_answer tag sdp) =
      (key : SessionKey) × Earned key
      × (sid : String) × (fingerprint : Text) × (proof : String) × (h
          ≡ message (answer sid sdp (some proof)))
      × (fingerprint_from_sdp lib.letters (codes sdp) ≡ some fingerprint)
      × (verify_auth_tag lib.base64 lib.hmac key "answer" fingerprint proof ≡ true)
  Vouched h e = Unit

  module _ (h : Happening) where
    abbrev pub AllVouched : List Effect → Type 0
    AllVouched out = All (Vouched h) out

    abbrev pub Sound : Done lib → Type 0
    Sound (a, out) = IsGuarded a × AllVouched out

    drop_curtain-AllVouched :
        (curtain windows locks : Bool) → AllVouched (drop_curtain curtain windows locks)
    unfolding drop_curtain
    drop_curtain-AllVouched true true true = (tt, (tt, tt))
    drop_curtain-AllVouched true true false = (tt, tt)
    drop_curtain-AllVouched true false locks = tt
    drop_curtain-AllVouched false windows locks = tt

    pub send_session_stats-AllVouched :
        (stats : Option TrafficStats) (sid : String) (final : Bool)
        → AllVouched (send_session_stats stats sid final)
    unfolding send_session_stats
    send_session_stats-AllVouched none sid final = tt
    send_session_stats-AllVouched (some stats) sid final = (tt, tt)

    pub shutdown_reporting-AllVouched :
        (w : World) (s : ActiveSession) (sid : Option String)
        → AllVouched (shutdown_reporting w s sid)
    unfolding shutdown_reporting shutdown
    shutdown_reporting-AllVouched w s none = (tt, (tt, drop_curtain-AllVouched _ _ _))
    shutdown_reporting-AllVouched w s (some sid) =
        All-append (Vouched h) (send_session_stats w.traffic sid true) _
          (send_session_stats-AllVouched w.traffic sid true)
          (tt, (tt, drop_curtain-AllVouched _ _ _))

    pub take_active-Sound :
        (w : World) (a : State lib)
        → IsGuarded a
        → (IsGuarded ((take_active lib.opaque w a a.active).0))
          × AllVouched ((take_active lib.opaque w a a.active).1)
    unfolding take_active
    take_active-Sound w a v = take_sound a.active v.active_earned
      where
        take_sound :
            (s : Option ActiveSession)
            → SessionEarned s
            → (IsGuarded ((take_active lib.opaque w a s).0))
              × AllVouched ((take_active lib.opaque w a s).1)
        take_sound none e = (v, tt)
        take_sound (some old) e = (
          record { active_earned = tt; login_known = v.login_known },
          shutdown_reporting-AllVouched w old a.current_session_id,
        )
