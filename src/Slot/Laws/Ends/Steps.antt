-- ===== src/Slot/Laws/Ends/Steps.antt =====
-- host/src/signaling/mod.rs: each handler ends sessions properly.
use rcdesk.Common.{
  ℕ, String, Option, none, some, Bool, true, false, List, [], ◌∷◌, ◌++◌, ◌≡◌, refl, Bool-cases, inl,
  inr, arith, ◌==◌, ==_iff, string_test, nat_test, if◌then◌else◌,
}
use mathlib.Core.Path.{subst}
use mathlib.Core.List.{append-nil}
use rcdesk.Ws.{IceCandidate, IceServer, peer_joined, pake_finish, bye, ByeReason}
use rcdesk.Slot.Access.{Bytes, AccessLoad, missing, unusable, present, SessionKey}
use rcdesk.Slot.{holds, ActiveSession, PendingAuth, Effect, send, set_answer, World, take_active}
use rcdesk.Slot.Login.{
  Libraries, State, Done, count_start, pake_answer, start_login, against_record, paced,
  on_pake_start, with_key, finish_login, with_login, on_pake_finish,
}
use rcdesk.Slot.Signals.{
  await_login, on_peer_joined, refuse_answer, bound, then_do, waits_for, on_answer, on_ice,
  ended_by_peer, on_bye,
}
use rcdesk.Slot.Events.{Happening, message}
use rcdesk.Slot.Laws.Ends.{
  says_bye-append, accounted, tells, IsPaired, Fate, same-Fate, taken_active, taken_accounted,
  replace_session-Fate,
}

module _ (lib : Libraries) where
  -- The session's id goes with the message of this session.
  refuse_tells :
      (h : Happening) (c : Option String) (sid : String) (out : List Effect)
      → holds c sid ≡ true
      → tells h c none (out ++ send (bye sid none) ∷ []) ≡ true
  refuse_tells h none sid out e = refl
  refuse_tells h (some c) sid out e =
      ground (arith, says_bye-append c out (send (bye sid none) ∷ []), ==_iff c sid, ==_iff sid c)

  refuse_answer-Fate :
      (h : Happening) (w : World) (a : State lib) (sid : String)
      → holds a.current_session_id sid ≡ true
      → Fate lib h a (refuse_answer lib w a sid)
  unfolding refuse_answer
  refuse_answer-Fate h w a sid e = record {
    paired = rw (taken_active lib w a a.active refl) refl;
    accounts = taken_accounted lib w a a.active _ (send (bye sid none) ∷ []);
    tells_server = refuse_tells h a.current_session_id sid _ e;
  }

  -- The answer is applied first.
  applied-Fate :
      (h : Happening) (a : State lib) (tag : ℕ) (sdp : String) (d : Done lib)
      → Fate lib h a d
      → Fate lib h a (then_do lib (set_answer tag sdp) d)
  applied-Fate h a tag sdp (a', out) v = record {
    paired = v.paired;
    accounts = accounted_after a.active v.accounts;
    tells_server = told_after a.current_session_id v.tells_server;
  }
    where
      accounted_after :
          (s : Option ActiveSession)
          → accounted s a'.active out ≡ true
          → accounted s a'.active (set_answer tag sdp ∷ out) ≡ true
      accounted_after none e = refl
      accounted_after (some s) e = e

      told_after :
          (c : Option String)
          → tells h c a'.current_session_id out ≡ true
          → tells h c a'.current_session_id (set_answer tag sdp ∷ out) ≡ true
      told_after none e = refl
      told_after (some sid) e = e

  pub on_answer-Fate :
      (h : Happening) (w : World) (a : State lib) (sid sdp : String) (auth : Option String)
      (s : Option ActiveSession)
      → IsPaired lib a
      → holds a.current_session_id sid ≡ true
      → Fate lib h a (on_answer lib w a sid sdp auth s)
  unfolding on_answer
  on_answer-Fate h w a sid sdp auth none v e = same-Fate lib h a a [] v refl refl
  on_answer-Fate h w a sid sdp auth (some s) v e =
      let refused = refuse_answer-Fate h w a sid e in
      elim (Bool-cases (bound lib s.session_key sdp auth)) [
        | inr f ↦ rw f refused
        | inl t ↦ rw t (applied w.answer_applies)
      ]
    where
      applied :
          (applies : Bool)
          → Fate lib h a (
              if applies
              then (a, set_answer s.session_tag sdp ∷ [])
              else then_do lib (set_answer s.session_tag sdp) (refuse_answer lib w a sid))
      applied true = same-Fate lib h a a _ v refl refl
      applied false =
          applied-Fate h a s.session_tag sdp (refuse_answer lib w a sid)
            (refuse_answer-Fate h w a sid e)

  pub on_ice-Fate :
      (h : Happening) (a : State lib) (candidate : IceCandidate) (s : Option ActiveSession)
      → IsPaired lib a
      → Fate lib h a (on_ice lib a candidate s)
  unfolding on_ice
  on_ice-Fate h a candidate none v = same-Fate lib h a a _ v refl refl
  on_ice-Fate h a candidate (some s) v = same-Fate lib h a a _ v refl refl

  own_bye :
      (sid : String) (reason : Option ByeReason) (c : Option String) (out : List Effect)
      → holds c sid ≡ true
      → tells (message (bye sid reason)) c none out ≡ true
  own_bye sid reason none out e = refl
  own_bye sid reason (some c) out e = ground (arith, ==_iff c sid, ==_iff sid c)

  pub on_bye-Fate :
      (w : World) (a : State lib) (sid : String) (reason : Option ByeReason)
      → IsPaired lib a
      → Fate lib (message (bye sid reason)) a (on_bye lib w a sid)
  unfolding on_bye ended_by_peer
  on_bye-Fate w a sid reason v = elim (Bool-cases (holds a.current_session_id sid)) [
    | inl t ↦ rw t (record {
      paired = rw (taken_active lib w a a.active refl) refl;
      accounts =
          subst
            (λ (out : List Effect).
              accounted a.active (take_active lib.opaque w a a.active).0.active out ≡ true)
            (append-nil _) (taken_accounted lib w a a.active _ []);
      tells_server = own_bye sid reason a.current_session_id _ t;
    })
    | inr f ↦ elim (Bool-cases (waits_for lib a.pending_auth sid)) [
      | inl t ↦ rw (f, t) (same-Fate lib _ a _ [] v refl refl)
      | inr g ↦ rw (f, g) (same-Fate lib _ a _ [] v refl refl)
    ]
  ]

  pub on_peer_joined-Fate :
      (w : World) (a : State lib) (sid : String) (servers ice_servers own : List IceServer)
      (access : AccessLoad)
      → IsPaired lib a
      → Fate lib
          (message (peer_joined sid servers))
          a
          (on_peer_joined lib w a sid ice_servers own access)
  unfolding on_peer_joined await_login
  on_peer_joined-Fate w a sid servers ice_servers own missing v =
      replace_session-Fate lib _ w a sid ice_servers none own (λ s. refl)
  on_peer_joined-Fate w a sid servers ice_servers own unusable v = same-Fate lib _ a _ _ v refl refl
  on_peer_joined-Fate w a sid servers ice_servers own (present r) v =
      same-Fate lib _ a _ _ v refl refl

  pub on_pake_start-keeps :
      (w : World) (a : State lib) (sid payload : String) (p : Option (PendingAuth lib.opaque))
      → ((on_pake_start lib w a sid payload p).0.active ≡ a.active)
        × ((on_pake_start lib w a sid payload p).0.current_session_id ≡ a.current_session_id)
  unfolding on_pake_start paced against_record start_login pake_answer count_start
  on_pake_start-keeps w a sid payload none = (refl, refl)
  on_pake_start-keeps w a sid payload (some p) = ground arith

  -- A slot with the same session has the same fate.
  pub moved-Fate :
      (h : Happening) (a a' : State lib) (d : Done lib)
      → a'.active ≡ a.active
      → a'.current_session_id ≡ a.current_session_id
      → Fate lib h a' d
      → Fate lib h a d
  moved-Fate h a a' d e f v = record {
    paired = v.paired;
    accounts = subst (λ s. accounted s d.0.active d.1 ≡ true) e v.accounts;
    tells_server = subst (λ c. tells h c d.0.current_session_id d.1 ≡ true) f v.tells_server;
  }

  keyed-Fate :
      (w : World) (a a' : State lib) (sid payload : String) (p : PendingAuth lib.opaque)
      (own : List IceServer) (key : Option SessionKey)
      → IsPaired lib a
      → a'.active ≡ a.active
      → a'.current_session_id ≡ a.current_session_id
      → Fate lib (message (pake_finish sid payload)) a (with_key lib w a' sid p own key)
  unfolding with_key
  keyed-Fate w a a' sid payload p own none v e f = same-Fate lib _ a a' _ v e f
  keyed-Fate w a a' sid payload p own (some key) v e f = moved-Fate _ a _ _ e f (
      replace_session-Fate lib (message (pake_finish sid payload)) w
        (record a' { auth_failures = 0; auth_locked_until = none; pending_auth = none }) sid
        p.ice_servers (some key) own (λ s. refl))

  pub on_pake_finish-Fate :
      (w : World) (a : State lib) (sid payload : String) (own : List IceServer)
      (p : Option (PendingAuth lib.opaque))
      → IsPaired lib a
      → Fate lib (message (pake_finish sid payload)) a (on_pake_finish lib w a sid payload own p)
  unfolding on_pake_finish with_login finish_login
  on_pake_finish-Fate w a sid payload own none v = same-Fate lib _ a _ [] v refl refl
  on_pake_finish-Fate w a sid payload own (some p) v = elim (Bool-cases (p.session_id == sid)) [
    | inr f ↦ rw f (same-Fate lib _ a _ [] v refl refl)
    | inl t ↦ rw t (taken p.login)
  ]
    where
      decoded :
          (a' : State lib) (login : lib.opaque.LoginServer) (found : Option Bytes)
          → a'.active ≡ a.active
          → a'.current_session_id ≡ a.current_session_id
          → Fate lib
              (message (pake_finish sid payload))
              a
              (finish_login lib w a' sid p login own found)
      decoded a' login none e f = same-Fate lib _ a a' _ v e f
      decoded a' login (some finalization) e f = keyed-Fate w a a' sid payload p own _ v e f

      taken :
          (login : Option (lib.opaque.LoginServer))
          → Fate lib
              (message (pake_finish sid payload))
              a
              (with_login lib w a sid payload p own login)
      taken none = same-Fate lib _ a _ [] v refl refl
      taken (some login) = decoded _ login _ refl refl
