-- ===== src/Tests/Slot.antt =====
-- host/src/signaling/mod.rs, over simple stand-ins for the libraries.
use rcdesk.Common.{
  ℕ, ◌+◌, ◌-◌, ◌*◌, ◌≤◌, none, some, Bool, true, false, ◌&&◌, List, [], ◌∷◌, ◌++◌, ◌≡◌, ◌↔◌, refl,
  arith, if◌then◌else◌, leb, ◌==◌, nat_test, string_test, map,
}
use rcdesk.Files.Names.{codes, same_text}
use rcdesk.Registry.{Instant, nanos_per_sec}
use rcdesk.Ws.{IceServer, peer_joined, pake_start, pake_finish, answer, session_stats}
use rcdesk.Slot.Access.{AccessRecord, read, load, from_file, login_start, login_finish}
use rcdesk.Slot.DtlsBind.{line_value, fingerprint_from_sdp, verify_auth_tag}
use rcdesk.Slot.{
  World, SessionParts, parts, new_slot, auth_lockout_duration, no_grace, send, close, stop_tasks,
  lock_screen, hide_curtain,
}
use rcdesk.Slot.Login.{Libraries, State, Done, pause_left, on_pake_start, on_pake_finish}
use rcdesk.Slot.Signals.{bound, handle_signal_message}
use rcdesk.Slot.Events.{Happening, message, drive}
use rcdesk.Slot.Laws.Guarded.{SessionEarned}
use rcdesk.Slot.Laws.Guarded.Runs.{RunVouched, run_vouched}
use rcdesk.Slot.Laws.Pace.Quiet.{responses}
use rcdesk.Slot.Laws.Pace.Bound.{guesses_bound}
use rcdesk.Slot.Laws.Ends.Runs.{AllFated, sessions_end}
use rcdesk.Slot.Laws.Exchange.{LoggedIn, logs_in}
use rcdesk.Slot.Laws.Binding.{Proves, bound_lem}

abbrev is_between : ℕ → ℕ → ℕ → Bool
is_between lo hi c = leb lo c && leb c hi

-- A login is finished by the text that started it, and its key is the letter k.
abbrev lib : Libraries
lib = record {
  opaque = record {
    ServerSetup = List ℕ;
    ServerRegistration = List ℕ;
    CredentialRequest = List ℕ;
    CredentialFinalization = List ℕ;
    LoginServer = List ℕ;
    read_setup = λ b. some b;
    read_registration = λ b. some b;
    read_request = λ b. some b;
    read_finalization = λ b. some b;
    start = λ seed setup registration request. some (request, setup);
    finish = λ login finalization. if same_text login finalization then some (codes "k") else none;
  };
  base64 = record { encode = λ b. "text"; decode = λ s. some (codes s) };
  letters = record {
    is_whitespace = λ c. c == 0x20;
    to_lowercase = map (λ c. if is_between 0x41 0x5a c then c + 32 else c);
    to_uppercase = map (λ c. if is_between 0x61 0x7a c then c - 32 else c);
  };
  hmac = λ key msg. key ++ msg;
  parse_file = λ b. some (record { server_setup = "setup"; registration = "registration" });
}

abbrev own : List IceServer
own = []

abbrev session : SessionParts
session = record {
  session_tag = 1;
  curtain = false;
  curtain_windows = [];
  offer_sdp = some "a=fingerprint:sha-256 AB";
}

abbrev stored : AccessRecord
stored = record { server_setup = codes "setup"; registration = codes "registration" }

abbrev at : Instant → World
at now = record {
  now = now;
  later = now;
  access_file = read [];
  seed = 0;
  started = parts session;
  answer_applies = true;
  traffic = none;
  screen_locks = true;
  recovers = true;
}

abbrev login_run : List (World × Happening)
login_run =
    (at 0, message (peer_joined "s" []))
    ∷ (at 1, message (pake_start "s" "password"))
    ∷ (at 2, message (pake_finish "s" "password"))
    ∷ (
      at 3,
      message (answer "s" "a=fingerprint:SHA-256 cd" (some "krcdesk-dtls-v1|answer|sha-256 CD")),
    )
    ∷ []

abbrev AnyRecord : AccessRecord → Type 0
AnyRecord r = Unit

run_vouched_example :
    SessionEarned lib AnyRecord (drive lib (new_slot lib.opaque 1 "123456") own login_run).0.active
    × RunVouched lib AnyRecord (new_slot lib.opaque 1 "123456") own login_run
unfolding load from_file
run_vouched_example =
    run_vouched lib AnyRecord own login_run (record { active_earned = tt; login_known = tt })
      (tt, (tt, (tt, (tt, tt))))

sessions_end_example : AllFated lib (new_slot lib.opaque 1 "123456") own login_run
sessions_end_example =
    sessions_end lib (new_slot lib.opaque 1 "123456") own login_run (record { both = refl })

-- Eight tries of a wrong password, of which the last two come too soon.
abbrev wrong_run : List (World × Happening)
wrong_run =
    (at 0, message (peer_joined "s" []))
    ∷ map (λ now. (at now, message (pake_start "s" "guess"))) (1 ∷ 2 ∷ 3 ∷ 4 ∷ 5 ∷ 6 ∷ 7 ∷ 8 ∷ [])

too_soon : responses (drive lib (new_slot lib.opaque 1 "123456") own wrong_run).1 ≡ 6
unfolding drive handle_signal_message on_pake_start load from_file login_start pause_left
    auth_lockout_duration
too_soon = refl

guesses_bound_example :
    60 * nanos_per_sec * responses (drive lib (new_slot lib.opaque 1 "123456") own wrong_run).1
    ≤ (nanos_per_sec - 0) + 525 * nanos_per_sec
guesses_bound_example =
    guesses_bound lib 1 "123456" own wrong_run 0 nanos_per_sec (omega arith) (omega arith)
      (omega arith)

bound_example :
    (bound lib
        (some (codes "k"))
        "a=fingerprint:SHA-256 cd"
        (some "krcdesk-dtls-v1|answer|sha-256 CD")
      ≡ true)
    ↔ Proves lib (codes "k") "a=fingerprint:SHA-256 cd" (some "krcdesk-dtls-v1|answer|sha-256 CD")
bound_example =
    bound_lem lib (codes "k") "a=fingerprint:SHA-256 cd" (some "krcdesk-dtls-v1|answer|sha-256 CD")

-- A slot in a session with its curtain drawn.
abbrev taken_slot : State lib
taken_slot = record (new_slot lib.opaque 1 "123456") {
  active = some (record {
    session_tag = 9;
    curtain = true;
    curtain_windows = 4 ∷ [];
    disconnect_grace = no_grace;
    session_key = none;
  });
  current_session_id = some "old";
}

abbrev measured : World
measured = record (at 2) {
  traffic = some (record { bytes_sent = 5; bytes_received = 6; relay = false });
}

abbrev entered : Done lib
entered = drive lib taken_slot own (
    (at 0, message (peer_joined "s" []))
    ∷ (at 1, message (pake_start "s" "password"))
    ∷ (measured, message (pake_finish "s" "password"))
    ∷ [])

logs_in_example :
    LoggedIn lib taken_slot "s" [] own
      (codes "setup")
      (codes "k")
      session
      "a=fingerprint:sha-256 AB"
      (codes "sha-256 AB")
      (send (session_stats "old" 5 6 false true)
        ∷ close 9
        ∷ stop_tasks 9
        ∷ lock_screen true
        ∷ hide_curtain
        ∷ [])
      entered
unfolding load from_file pause_left login_start login_finish fingerprint_from_sdp line_value
logs_in_example =
    logs_in lib (at 0) (at 1) measured taken_slot own [] "s" "password" "password" stored stored
      (codes "password") (codes "setup") (codes "password") (codes "password") (codes "k") session
      "a=fingerprint:sha-256 AB" (codes "sha-256 AB") refl refl refl refl refl refl refl refl refl
      refl

-- The login of the run succeeds, and its session takes the answer.
login_runs_through :
    (drive lib (new_slot lib.opaque 1 "123456") own login_run).0.current_session_id ≡ some "s"
unfolding drive handle_signal_message on_pake_finish on_pake_start load login_start login_finish
    fingerprint_from_sdp line_value verify_auth_tag
login_runs_through = refl
