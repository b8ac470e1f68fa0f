-- ===== src/Files/Laws/Follow.antt =====
-- host/src/files/mod.rs: each message keeps what the disk holds of a transfer to what was sent of it.
use mathlib.Core.Path.{subst}
use rcdesk.Common.{
  ℕ, ◌+◌, Option, none, some, Bool, true, false, ◌||◌, List, [], ◌∷◌, ltb, ◌==◌, nat_test, length,
  length-append, ◌≡◌, refl, sym, ap, ◌∙◌, inl, inr, Bool-cases,
}
use rcdesk.Files.Names.{Chars}
use rcdesk.Files.Disk.{Disk, DiskLaws}
use rcdesk.Files.Receiver.{
  AbortReason, start, end_of, abort, saved, offer, fetch, ActiveReceive, u64_max, Receiver,
}
use rcdesk.Files.Handlers.{
  drop_this, start_in, drop_old, on_fresh_start, on_start, abort_active, chunk_to, on_chunk,
  finished, finish, ended, end_to, on_end, abort_to, on_control, Event, control, chunk, on_message,
}
use rcdesk.Files.Laws.Begun.{
  Sent, sent_after, followed, Matches, start_in-Begun, drop_this_active, start-Matches,
}

module _ (ch : Chars) (d : Disk) (laws : DiskLaws d) where
  -- An event that is neither a start nor a chunk, and leaves the receiver as it was.
  unchanged-Matches :
      (s : d.State) (x a : Option ActiveReceive) (e : Event ch d) (sent : Sent)
      → ((a : ActiveReceive) (sent : Sent) → sent_after ch d (some a) e sent ≡ sent)
      → x ≡ a
      → Matches ch d s a sent
      → Matches ch d s x (sent_after ch d x e sent)
  unchanged-Matches s x none e sent idle same m =
      subst (λ y. Matches ch d s y (sent_after ch d y e sent)) (sym same) tt
  unchanged-Matches s x (some a) e sent idle same m =
      subst (λ y. Matches ch d s y (sent_after ch d y e sent)) (sym same)
        (subst (λ v. Matches ch d s (some a) v) (sym (idle a sent)) m)

  chunk_to-Matches :
      (r : Receiver d) (a : Option ActiveReceive) (bytes : List ℕ) (sent : Sent)
      → r.active ≡ a
      → Matches ch d r.disk a sent
      → let r' = (chunk_to ch d r a bytes).0 in
        Matches ch d r'.disk r'.active (sent_after ch d r'.active (chunk bytes) sent)
  unfolding chunk_to abort_active
  chunk_to-Matches r none bytes sent same m =
      subst (λ y. Matches ch d r.disk y (sent_after ch d y (chunk bytes) sent)) (sym same) tt
  chunk_to-Matches r (some a) bytes none same m = absurd m
  chunk_to-Matches r (some a) bytes (some (id, size, got)) same (i, z, l, c, parent, p) =
      elim (Bool-cases
        (ltb u64_max (a.written + length bytes) || ltb a.size (a.written + length bytes))) [
          | inl over ↦ rw over tt
          | inr fits ↦ rw fits (elim (Bool-cases ((d.write_all r.disk a.part_path bytes).0)) [
            | inl written ↦ rw written (
              i,
              z,
              length-append got bytes ∙ ap (λ (n : ℕ). n + length bytes) l,
              laws.write_all_law r.disk a.part_path got bytes written c,
              parent,
              p,
            )
            | inr lost ↦ rw lost tt
          ])
        ]

  -- The end of a transfer leaves none.
  finished_active :
      (r : Receiver d) (a : ActiveReceive) (flushed renamed : Bool) (s s' : d.State)
      → (finished ch d r a flushed renamed s s').0.active ≡ none
  unfolding finished abort_active
  finished_active r a true true s s' = refl
  finished_active r a true false s s' = refl
  finished_active r a false renamed s s' = refl

  finish_active : (r : Receiver d) (a : ActiveReceive) → (finish ch d r a).0.active ≡ none
  unfolding finish
  finish_active r a = finished_active r a _ _ _ _

  nothing_left :
      (s : d.State) (x : Option ActiveReceive) (e : Event ch d) (sent : Sent)
      → x ≡ none
      → Matches ch d s x (sent_after ch d x e sent)
  nothing_left s x e sent gone =
      subst (λ y. Matches ch d s y (sent_after ch d y e sent)) (sym gone) tt

  ended-Matches :
      (this whole : Bool) (r : Receiver d) (a : ActiveReceive) (id : ℕ) (sent : Sent)
      → r.active ≡ some a
      → Matches ch d r.disk (some a) sent
      → let r' = (ended ch d this whole r a).0 in
        Matches ch d r'.disk r'.active (sent_after ch d r'.active (control (end_of id)) sent)
  unfolding ended abort_active
  ended-Matches true true r a id sent same m =
      nothing_left ((finish ch d r a).0.disk) ((finish ch d r a).0.active) _ sent
        (finish_active r a)
  ended-Matches true false r a id sent same m = tt
  ended-Matches false whole r a id sent same m =
      unchanged-Matches r.disk r.active (some a) (control (end_of id)) sent (λ a sent. refl) same m

  end_to-Matches :
      (r : Receiver d) (a : Option ActiveReceive) (id : ℕ) (sent : Sent)
      → r.active ≡ a
      → Matches ch d r.disk a sent
      → let r' = (end_to ch d r a id).0 in
        Matches ch d r'.disk r'.active (sent_after ch d r'.active (control (end_of id)) sent)
  unfolding end_to
  end_to-Matches r none id sent same m = nothing_left r.disk r.active _ sent same
  end_to-Matches r (some a) id sent same m = ended-Matches _ _ r a id sent same m

  abort_to-Matches :
      (r : Receiver d) (a : Option ActiveReceive) (id : ℕ) (reason : AbortReason) (sent : Sent)
      → r.active ≡ a
      → Matches ch d r.disk a sent
      → let r' = (abort_to ch d r a id).0 in
        Matches ch d r'.disk r'.active (sent_after ch d r'.active (control (abort id reason)) sent)
  unfolding abort_to
  abort_to-Matches r none id reason sent same m = nothing_left r.disk r.active _ sent same
  abort_to-Matches r (some a) id reason sent same m = elim (Bool-cases (a.id == id)) [
    | inl this ↦ rw this tt
    | inr other ↦ rw other (
        unchanged-Matches r.disk r.active (some a) (control (abort id reason)) sent (λ a sent. refl)
          same m)
  ]

  on_message-Matches :
      (r : Receiver d) (e : Event ch d) (sent : Sent)
      → Matches ch d r.disk r.active sent
      → let r' = (on_message ch d r e).0 in
        Matches ch d r'.disk r'.active (sent_after ch d r'.active e sent)
  unfolding on_message on_control on_chunk on_end on_start on_fresh_start drop_old
  on_message-Matches r (control (start id name size folder dir request)) sent m =
      let r1 = (drop_this ch d r r.active).0 in
      let r2 = (start_in ch d r1 r1.dir id name size folder dir).0 in
      start-Matches ch d laws r2.disk r2.active sent id name size folder dir request (
        start_in-Begun ch d laws r1 r1.dir id name size folder dir
          (drop_this_active ch d laws r r.active refl))
  on_message-Matches r (control (end_of id)) sent m = end_to-Matches r r.active id sent refl m
  on_message-Matches r (control (abort id reason)) sent m =
      abort_to-Matches r r.active id reason sent refl m
  on_message-Matches r (control (saved id name)) sent m =
      unchanged-Matches r.disk r.active r.active (control (saved id name)) sent (λ a sent. refl)
        refl m
  on_message-Matches r (control (offer list_id files skipped)) sent m =
      unchanged-Matches r.disk r.active r.active (control (offer list_id files skipped)) sent
        (λ a sent. refl) refl m
  on_message-Matches r (control (fetch list_id request)) sent m =
      unchanged-Matches r.disk r.active r.active (control (fetch list_id request)) sent
        (λ a sent. refl) refl m
  on_message-Matches r (chunk bytes) sent m = chunk_to-Matches r r.active bytes sent refl m

  pub followed-Matches :
      (events : List (Event ch d)) (r : Receiver d) (sent : Sent)
      → Matches ch d r.disk r.active sent
      → let (r', sent') = followed ch d r sent events in Matches ch d r'.disk r'.active sent'
  followed-Matches [] r sent m = m
  followed-Matches (e ∷ events) r sent m =
      let r' = (on_message ch d r e).0 in
      followed-Matches events r' (sent_after ch d r'.active e sent) (on_message-Matches r e sent m)
