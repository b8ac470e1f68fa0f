-- ===== src/Outbound/Laws.antt =====
-- server/src/registry.rs, the outgoing queue in every history of sends, receives and kills.
use rcdesk.Common.{
  Option, none, some, Bool, true, false, List, [], ◌∷◌, ◌++◌, ◌≡◌, refl, sym, ap, ◌∙◌, inl, inr,
  ◌⊎◌,
}
use rcdesk.Outbound.{
  Try, sent, full, closed, Channel, ChannelLaws, SendError, Connection, sent_as, send, kill,
  channel,
}

append_assoc : {A : Type 0} (xs ys zs : List A) → (xs ++ ys) ++ zs ≡ xs ++ (ys ++ zs)
append_assoc [] ys zs = refl
append_assoc (x ∷ xs) ys zs = ap (λ r. x ∷ r) (append_assoc xs ys zs)

module _ {M : Type 0} (ch : Channel M) where
  pub data Event : Type 0 where
    sends : M → Event
    receives kills : Event

  -- A connection, the messages for which `send` answered `Ok`, those that the writer took, and whether
  -- the channel was full for a message.
  pub record Log : Type 0 where
    pub connection : Connection ch
    pub accepted : List M
    pub delivered : List M
    pub overflowed : Bool

  abbrev pub logged : Option SendError → M → Log → Log
  logged none m l = record l { accepted = l.accepted ++ (m ∷ []) }
  logged (some e) m l = l

  -- From what the channel itself answers.
  abbrev pub overflowing : Try → Bool → Bool
  overflowing full before = true
  overflowing t before = before

  abbrev pub taken : Option M → Log → Log
  taken none l = l
  taken (some m) l = record l { delivered = l.delivered ++ (m ∷ []) }

  unfoldable pub step : Log → Event → Log
  unfolding send kill
  step l (sends m) = logged ((send ch l.connection m).0) m (record l {
    connection = (send ch l.connection m).1;
    overflowed = overflowing ((ch.try_send l.connection.queue m).0) l.overflowed;
  })
  step l receives =
      taken ((ch.recv l.connection.queue).0)
        (record l { connection = record l.connection { queue = (ch.recv l.connection.queue).1 } })
  step l kills = record l { connection = kill ch l.connection }

  unfoldable pub run : Log → List Event → Log
  unfolding step
  run l [] = l
  run l (e ∷ events) = run (step l e) events

  -- Nothing that was accepted is lost or changes its place, and an overflow killed the connection.
  abbrev pub IsFaithful : Log → Type 0
  IsFaithful l =
      (l.delivered ++ ch.pending l.connection.queue ≡ l.accepted)
      × ((l.overflowed ≡ false) ⊎ (l.connection.killed ≡ true))

  send-IsFaithful :
      ChannelLaws ch
      → (t : Try) (l : Log) (m : M) → (ch.try_send l.connection.queue m).0 ≡ t
      → IsFaithful l
      → let after = sent_as ch t ((ch.try_send l.connection.queue m).1) l.connection in
        IsFaithful (
          logged
            (after.0)
            m
            (record l { connection = after.1; overflowed = overflowing t l.overflowed }))
  send-IsFaithful laws sent l m e (order, safe) = (
    ap (λ r. l.delivered ++ r) (laws.sent_law l.connection.queue m e)
        ∙ sym (append_assoc l.delivered (ch.pending l.connection.queue) (m ∷ []))
        ∙ ap (λ r. r ++ (m ∷ [])) order,
    safe,
  )
  send-IsFaithful laws full l m e (order, safe) =
      (ap (λ r. l.delivered ++ r) (laws.full_law l.connection.queue m e) ∙ order, inr refl)
  send-IsFaithful laws closed l m e (order, safe) =
      (ap (λ r. l.delivered ++ r) (laws.closed_law l.connection.queue m e) ∙ order, safe)

  recv-IsFaithful :
      ChannelLaws ch
      → (o : Option M) (l : Log) → (ch.recv l.connection.queue).0 ≡ o
      → IsFaithful l
      → IsFaithful (
          taken o (record l {
            connection = record l.connection { queue = (ch.recv l.connection.queue).1 };
          }))
  recv-IsFaithful laws none l e (order, safe) =
      (ap (λ r. l.delivered ++ r) (laws.recv_none l.connection.queue e) ∙ order, safe)
  recv-IsFaithful laws (some m) l e (order, safe) = (
    append_assoc l.delivered (m ∷ []) _
        ∙ ap (λ r. l.delivered ++ r) (sym (laws.recv_some l.connection.queue m e))
        ∙ order,
    safe,
  )

  step-IsFaithful : ChannelLaws ch → (l : Log) (e : Event) → IsFaithful l → IsFaithful (step l e)
  unfolding step send kill
  step-IsFaithful laws l (sends m) f = send-IsFaithful laws _ l m refl f
  step-IsFaithful laws l receives f = recv-IsFaithful laws _ l refl f
  step-IsFaithful laws l kills (order, safe) = (order, inr refl)

  run-IsFaithful :
      ChannelLaws ch → (events : List Event) (l : Log) → IsFaithful l → IsFaithful (run l events)
  unfolding run
  run-IsFaithful laws [] l f = f
  run-IsFaithful laws (e ∷ events) l f =
      run-IsFaithful laws events (step l e) (step-IsFaithful laws l e f)

  abbrev pub fresh_log : Log
  fresh_log = record { connection = channel ch; accepted = []; delivered = []; overflowed = false }

  -- From the opening of a connection on, in every history of sends, receives and kills, what the
  -- writer took and what is still queued are together what `send` answered `Ok` for, in that order, and if the
  -- channel was full for a message the connection is killed. The channel keeps what tokio says of it.
  pub run-channel : ChannelLaws ch → (events : List Event) → IsFaithful (run fresh_log events)
  unfolding channel
  run-channel laws events =
      run-IsFaithful laws events fresh_log (laws.of_capacity_law 256, inl refl)
