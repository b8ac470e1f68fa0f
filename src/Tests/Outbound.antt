-- ===== src/Tests/Outbound.antt =====
-- server/src/registry.rs, the outgoing queue over a bounded list.
use rcdesk.Common.{ℕ, Option, none, some, true, List, [], ◌∷◌, ◌++◌, ◌≡◌, refl, arith}
use rcdesk.Outbound.{Try, sent, full, closed, Channel, ChannelLaws, channel}
use rcdesk.Outbound.Laws.{Event, sends, receives, IsFaithful, run, fresh_log, run-channel}

-- A queue with room for two messages, whatever capacity was asked for.
abbrev offered : List ℕ → ℕ → Try × List ℕ
offered (a ∷ b ∷ rest) m = (full, a ∷ b ∷ rest)
offered queue m = (sent, queue ++ (m ∷ []))

abbrev taken_off : List ℕ → Option ℕ × List ℕ
taken_off [] = (none, [])
taken_off (m ∷ rest) = (some m, rest)

abbrev narrow : Channel ℕ
narrow = record {
  State = List ℕ;
  of_capacity = λ n. [];
  try_send = offered;
  recv = taken_off;
  pending = λ queue. queue;
}

offered-sent : (s : List ℕ) (m : ℕ) → (offered s m).0 ≡ sent → (offered s m).1 ≡ s ++ (m ∷ [])
offered-sent [] m e = refl
offered-sent (a ∷ []) m e = refl
offered-sent (a ∷ b ∷ rest) m e = absurd (ground arith)

offered-full : (s : List ℕ) (m : ℕ) → (offered s m).0 ≡ full → (offered s m).1 ≡ s
offered-full [] m e = absurd (ground arith)
offered-full (a ∷ []) m e = absurd (ground arith)
offered-full (a ∷ b ∷ rest) m e = refl

offered-closed : (s : List ℕ) (m : ℕ) → (offered s m).0 ≡ closed → (offered s m).1 ≡ s
offered-closed [] m e = absurd (ground arith)
offered-closed (a ∷ []) m e = absurd (ground arith)
offered-closed (a ∷ b ∷ rest) m e = refl

taken_off-some : (s : List ℕ) (m : ℕ) → (taken_off s).0 ≡ some m → s ≡ m ∷ (taken_off s).1
taken_off-some [] m e = absurd (ground arith)
taken_off-some (a ∷ rest) m e = ground arith

taken_off-none : (s : List ℕ) → (taken_off s).0 ≡ none → (taken_off s).1 ≡ s
taken_off-none [] e = refl
taken_off-none (a ∷ rest) e = absurd (ground arith)

narrow-ChannelLaws : ChannelLaws narrow
narrow-ChannelLaws = record {
  of_capacity_law = λ n. refl;
  sent_law = offered-sent;
  full_law = offered-full;
  closed_law = offered-closed;
  recv_some = taken_off-some;
  recv_none = taken_off-none;
}

abbrev traffic : List (Event narrow)
traffic = sends 1 ∷ sends 2 ∷ receives ∷ sends 3 ∷ sends 4 ∷ []

run-channel_example : IsFaithful narrow (run narrow (fresh_log narrow) traffic)
run-channel_example = run-channel narrow narrow-ChannelLaws traffic

-- The fourth message finds the queue full: it is not accepted and the connection is killed.
overflow_run :
    let l = run narrow (fresh_log narrow) traffic in
    (l.accepted ≡ 1 ∷ 2 ∷ 3 ∷ []) × (l.delivered ≡ 1 ∷ []) × (l.connection.killed ≡ true)
unfolding run channel
overflow_run = (refl, refl, refl)
