-- ===== src/Slot/Laws/Pace/Quiet.antt =====
-- host/src/signaling/mod.rs: the handlers that neither count a start of a login nor answer one.
use rcdesk.Common.{
  ℕ, suc, ◌+◌, String, Option, none, some, Bool, true, false, List, [], ◌∷◌, ◌++◌, ◌≡◌, refl, ◌∙◌,
  arith, string_test, nat_test, if◌then◌else◌,
}
use rcdesk.Ws.{pake_response, ByeReason, IceServer}
use rcdesk.Slot.Access.{SessionKey}
use rcdesk.Slot.{
  ActiveSession, Effect, send, World, drop_curtain, shutdown, send_session_stats,
  shutdown_reporting, take_active, end_here, bye_for, supersede_active_session, TrafficStats,
  session_stats_message, SessionParts, Started, no_display, start_failed, parts,
}
use rcdesk.Slot.Login.{
  Libraries, State, Done, with_parts, with_offer, with_tag, begin_session, replace_session,
}

-- How many starts of a login are answered.
abbrev pub responses : List Effect → ℕ
responses [] = 0
responses (send (pake_response sid payload) ∷ out) = suc (responses out)
responses (e ∷ out) = responses out

pub responses-append : (xs ys : List Effect) → responses (xs ++ ys) ≡ responses xs + responses ys
responses-append [] ys = omega arith
responses-append (send (pake_response sid payload) ∷ xs) ys = omega (arith, responses-append xs ys)
responses-append (x ∷ xs) ys = responses-append xs ys

pub no_responses-append :
    (xs ys : List Effect) → responses xs ≡ 0 → responses ys ≡ 0 → responses (xs ++ ys) ≡ 0
no_responses-append xs ys p q = omega (arith, responses-append xs ys)

drop_curtain-responses :
    (curtain windows locks : Bool) → responses (drop_curtain curtain windows locks) ≡ 0
unfolding drop_curtain
drop_curtain-responses true true true = refl
drop_curtain-responses true true false = refl
drop_curtain-responses true false locks = refl
drop_curtain-responses false windows locks = refl

pub send_session_stats-responses :
    (stats : Option TrafficStats) (sid : String) (final : Bool)
    → responses (send_session_stats stats sid final) ≡ 0
unfolding send_session_stats session_stats_message
send_session_stats-responses none sid final = refl
send_session_stats-responses (some stats) sid final = refl

pub shutdown_reporting-responses :
    (w : World) (s : ActiveSession) (sid : Option String)
    → responses (shutdown_reporting w s sid) ≡ 0
unfolding shutdown_reporting shutdown
shutdown_reporting-responses w s none = drop_curtain-responses _ _ _
shutdown_reporting-responses w s (some sid) =
    no_responses-append (send_session_stats w.traffic sid true) _
      (send_session_stats-responses w.traffic sid true) (drop_curtain-responses _ _ _)

pub bye_for-responses :
    (sid : Option String) (reason : Option ByeReason) → responses (bye_for sid reason) ≡ 0
bye_for-responses none reason = refl
bye_for-responses (some sid) reason = refl

module _ (lib : Libraries) where
  -- No start is counted, no pause armed or lifted, and none answered.
  pub record SamePace (a a' : State lib) : Type 0 where
    pub failures_kept : a'.auth_failures ≡ a.auth_failures
    pub pause_kept : a'.auth_locked_until ≡ a.auth_locked_until

  abbrev pub Quiet : State lib → Done lib → Type 0
  Quiet a (a', out) = SamePace a a' × (responses out ≡ 0)

  pub paced_alike :
      (a a' : State lib)
      → a'.auth_failures ≡ a.auth_failures
      → a'.auth_locked_until ≡ a.auth_locked_until
      → SamePace a a'
  paced_alike a a' f l = record { failures_kept = f; pause_kept = l }

  pub if-Quiet :
      (a : State lib) (b : Bool) (x y : Done lib)
      → Quiet a x
      → Quiet a y
      → Quiet a (if b then x else y)
  if-Quiet a true x y p q = p
  if-Quiet a false x y p q = q

  pub take_active-Quiet :
      (w : World) (a : State lib) (s : Option ActiveSession)
      → Quiet a (take_active lib.opaque w a s)
  unfolding take_active
  take_active-Quiet w a none = (paced_alike _ _ refl refl, refl)
  take_active-Quiet w a (some old) =
      (paced_alike _ _ refl refl, shutdown_reporting-responses w old a.current_session_id)

  -- The session is taken, and then more is sent.
  pub take_then-Quiet :
      (w : World) (a : State lib) (more : List Effect)
      → responses more ≡ 0
      → (responses ((take_active lib.opaque w a a.active).1 ++ more) ≡ 0)
  take_then-Quiet w a more q =
      no_responses-append ((take_active lib.opaque w a a.active).1) more
        (take_active-Quiet w a a.active).1 q

  with_tag-Quiet :
      (a : State lib) (sid : String) (key : Option SessionKey) (p : SessionParts) (sdp : String)
      (auth : Option (Option String))
      → Quiet a (with_tag lib a sid key p sdp auth)
  unfolding with_tag
  with_tag-Quiet a sid key p sdp none = (paced_alike _ _ refl refl, refl)
  with_tag-Quiet a sid key p sdp (some auth) = (paced_alike _ _ refl refl, refl)

  with_parts-Quiet :
      (a : State lib) (sid : String) (key : Option SessionKey) (started : Started)
      → Quiet a (with_parts lib a sid key started)
  unfolding with_parts with_offer
  with_parts-Quiet a sid key no_display = (paced_alike _ _ refl refl, refl)
  with_parts-Quiet a sid key start_failed = (paced_alike _ _ refl refl, refl)
  with_parts-Quiet a sid key (parts p) = begun p.offer_sdp
    where
      begun : (sdp : Option String) → Quiet a (with_offer lib a sid key p sdp)
      begun none = (paced_alike _ _ refl refl, refl)
      begun (some sdp) = with_tag-Quiet a sid key p sdp _

  pub replace_session-Quiet :
      (w : World) (a : State lib) (sid : String) (from_peer : List IceServer)
      (key : Option SessionKey) (own : List IceServer)
      → Quiet a (replace_session lib w a sid from_peer key own)
  unfolding replace_session begin_session supersede_active_session
  replace_session-Quiet w a sid from_peer key own =
      let (taken, q) = take_active-Quiet w a a.active in
      let (begun, q') =
        with_parts-Quiet
          (record (take_active lib.opaque w a a.active).0 { current_session_id = none }) sid key
          w.started in
      (
        paced_alike _ _ (begun.failures_kept ∙ taken.failures_kept)
            (begun.pause_kept ∙ taken.pause_kept),
        no_responses-append ((take_active lib.opaque w a a.active).1)
            ((begin_session lib w (supersede_active_session lib.opaque w a).0 sid from_peer key
              own).1)
            q q',
      )

  pub end_here-Quiet :
      (w : World) (a : State lib) (reason : Option ByeReason)
      → Quiet a (end_here lib.opaque w a reason)
  unfolding end_here
  end_here-Quiet w a reason =
      let (taken, q) = take_active-Quiet w a a.active in
      (
        paced_alike _ _ taken.failures_kept taken.pause_kept,
        take_then-Quiet w a _ (bye_for-responses a.current_session_id reason),
      )
