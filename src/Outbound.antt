-- ===== src/Outbound.antt =====
-- server/src/registry.rs, `Tx` and `KillSwitch`: a connection's outgoing queue. The channel of tokio
-- is a parameter. The proofs are in Outbound/Laws.
pub mod Laws
use rcdesk.Common.{ℕ, Option, none, some, Bool, true, false, List, [], ◌∷◌, ◌++◌, ◌||◌, ◌≡◌}

-- What `try_send` answers.
pub data Try : Type 0 where
  sent full closed : Try

pub record Channel (M : Type 0) : Type 1 where
  pub State : Type 0
  -- `mpsc::channel` of a capacity
  pub of_capacity : ℕ → State
  pub try_send : State → M → Try × State
  pub recv : State → Option M × State
  -- what was sent and not received, oldest first
  pub pending : State → List M

-- What tokio says of a bounded channel: a message is queued last or not at all, and the receiver
-- takes the oldest.
pub record ChannelLaws {M : Type 0} (ch : Channel M) : Type 0 where
  pub of_capacity_law : (n : ℕ) → ch.pending (ch.of_capacity n) ≡ []
  pub sent_law :
      (s : ch.State) (m : M)
      → (ch.try_send s m).0 ≡ sent
      → ch.pending ((ch.try_send s m).1) ≡ ch.pending s ++ (m ∷ [])
  pub full_law :
      (s : ch.State) (m : M)
      → (ch.try_send s m).0 ≡ full
      → ch.pending ((ch.try_send s m).1) ≡ ch.pending s
  pub closed_law :
      (s : ch.State) (m : M)
      → (ch.try_send s m).0 ≡ closed
      → ch.pending ((ch.try_send s m).1) ≡ ch.pending s
  pub recv_some :
      (s : ch.State) (m : M)
      → (ch.recv s).0 ≡ some m
      → ch.pending s ≡ m ∷ ch.pending ((ch.recv s).1)
  pub recv_none : (s : ch.State) → (ch.recv s).0 ≡ none → ch.pending ((ch.recv s).1) ≡ ch.pending s

abbrev pub outbound_queue : ℕ
outbound_queue = 256

pub data SendError : Type 0 where
  queue_full receiver_closed : SendError

module _ {M : Type 0} (ch : Channel M) where
  -- The shared state behind the clones of a `Tx`.
  pub record Connection : Type 0 where
    pub queue : ch.State
    pub killed : Bool

  unfoldable pub channel : Connection
  channel = record { queue = ch.of_capacity outbound_queue; killed = false }

  -- `none` is `Ok(())`.
  abbrev pub sent_as : Try → ch.State → Connection → Option SendError × Connection
  sent_as sent q c = (none, record c { queue = q })
  sent_as full q c = (some queue_full, record c { queue = q; killed = true })
  sent_as closed q c = (some receiver_closed, record c { queue = q })

  unfoldable pub send : Connection → M → Option SendError × Connection
  send c m = sent_as ((ch.try_send c.queue m).0) ((ch.try_send c.queue m).1) c

  unfoldable pub kill : Connection → Connection
  kill c = record c { killed = true }
