-- ===== src/Files/Laws/Whole.antt =====
-- host/src/files/mod.rs: what the host reports as saved is what the client sent.
use mathlib.Core.Path.{subst}
use rcdesk.Common.{
  ℕ, Option, none, some, Bool, true, false, List, [], ◌∷◌, ◌++◌, ◌==◌, ==_iff, nat_test, length,
  ◌≡◌, refl, sym, ◌∙◌, arith,
}
use rcdesk.Files.Names.{Text, Chars}
use rcdesk.Files.Disk.{Disk, DiskLaws, FilePath}
use rcdesk.Files.Receiver.{end_of, saved, ActiveReceive, Receiver, new_receiver}
use rcdesk.Files.Handlers.{
  abort_active, finished, finish, ended, end_to, on_end, on_control, Event, control, on_message,
}
use rcdesk.Files.Laws.Begun.{Sent, followed, HoldsOf, Matches}
use rcdesk.Files.Laws.Follow.{followed-Matches}

module _ (ch : Chars) (d : Disk) (laws : DiskLaws d) where
  -- A file of that name holds the bytes that were sent, as many as announced.
  abbrev pub IsWhole : d.State → Sent → ℕ → Text → Type 0
  IsWhole s sent id name =
      (size : ℕ) × (got : List ℕ) × (parent : FilePath) × (sent ≡ some (id, size, got))
      × (length got ≡ size)
      × (d.contents s (parent ++ (name ∷ [])) ≡ some got)

  finished_saved :
      (r : Receiver d) (a : ActiveReceive) (flushed renamed : Bool) (s s' : d.State) (id size : ℕ)
      (got : List ℕ) (name : Text)
      → HoldsOf ch d r.disk a id size got
      → a.written ≡ a.size
      → (flushed ≡ true → renamed ≡ true → d.contents s' a.final_path ≡ some got)
      → (finished ch d r a flushed renamed s s').1 ≡ saved id name ∷ []
      → IsWhole ((finished ch d r a flushed renamed s s').0.disk) (some (id, size, got)) id name
  unfolding finished abort_active
  finished_saved r a true true s s' id size got name (i, z, l, c, parent, p) whole moved answer =
      let named : a.final_name ≡ name = ground arith in
      let there : a.final_path ≡ parent ++ (name ∷ []) =
        subst (λ t. a.final_path ≡ parent ++ (t ∷ [])) named p in
      (
        size,
        got,
        parent,
        refl,
        omega arith,
        subst (λ q. d.contents s' q ≡ some got) there (moved refl refl),
      )
  finished_saved r a true false s s' id size got name h whole moved answer = absurd (ground arith)
  finished_saved r a false renamed s s' id size got name h whole moved answer =
      absurd (ground arith)

  finish_saved :
      (r : Receiver d) (a : ActiveReceive) (id size : ℕ) (got : List ℕ) (name : Text)
      → HoldsOf ch d r.disk a id size got
      → a.written ≡ a.size
      → (finish ch d r a).1 ≡ saved id name ∷ []
      → IsWhole ((finish ch d r a).0.disk) (some (id, size, got)) id name
  unfolding finish
  finish_saved r a id size got name h whole answer =
      let s = (d.flush r.disk a.part_path).1 in
      let (i, z, l, c, parent, p) = h in
      finished_saved r a _ _ s _ id size got name h whole
        (λ f e.
          laws.rename_law s a.part_path a.final_path e ∙ laws.flush_law r.disk a.part_path f ∙ c)
        answer

  ended_saved :
      (this whole : Bool) (r : Receiver d) (a : ActiveReceive) (id size : ℕ) (got : List ℕ)
      (name : Text)
      → (this ≡ true → HoldsOf ch d r.disk a id size got)
      → (whole ≡ true → a.written ≡ a.size)
      → (ended ch d this whole r a).1 ≡ saved id name ∷ []
      → IsWhole ((ended ch d this whole r a).0.disk) (some (id, size, got)) id name
  unfolding ended abort_active
  ended_saved true true r a id size got name h w answer =
      finish_saved r a id size got name (h refl) (w refl) answer
  ended_saved true false r a id size got name h w answer = absurd (ground arith)
  ended_saved false whole r a id size got name h w answer = absurd (ground arith)

  ended_id :
      (this whole : Bool) (r : Receiver d) (a : ActiveReceive) (id : ℕ) (name : Text)
      → (ended ch d this whole r a).1 ≡ saved id name ∷ []
      → this ≡ true
  unfolding ended abort_active
  ended_id true whole r a id name answer = refl
  ended_id false whole r a id name answer = absurd (ground arith)

  end_to_saved :
      (r : Receiver d) (a : Option ActiveReceive) (id : ℕ) (name : Text) (sent : Sent)
      → Matches ch d r.disk a sent
      → (end_to ch d r a id).1 ≡ saved id name ∷ []
      → IsWhole ((end_to ch d r a id).0.disk) sent id name
  unfolding end_to
  end_to_saved r none id name sent m answer = absurd (ground arith)
  end_to_saved r (some a) id name none m answer = absurd m
  end_to_saved r (some a) id name (some (id', size, got)) (i, z, l, c, parent, p) answer =
      let this =
        (==_iff a.id id).0 (ended_id (a.id == id) (a.written == a.size) r a id name answer) in
      subst
        (λ k.
          IsWhole ((ended ch d (a.id == id) (a.written == a.size) r a).0.disk) (some (k, size, got))
            id name)
        (sym this ∙ i)
        (ended_saved (a.id == id) (a.written == a.size) r a id size got name
          (λ e. (this, z, l, c, parent, p)) (λ e. (==_iff a.written a.size).0 e) answer)

  -- In every history of messages to a fresh receiver: if it answers the end of a transfer with `saved`,
  -- then that transfer is the one that was sent, all bytes that its start announced were sent since, and
  -- a file of the name in the answer holds just these, in order. The disk keeps DiskLaws.
  pub saved-IsWhole :
      (dir : Option FilePath) (s : d.State) (events : List (Event ch d)) (id : ℕ) (name : Text)
      → (on_message ch d
          ((followed ch d (new_receiver d dir s) none events).0)
          (control (end_of id))).1
        ≡ saved id name ∷ []
      → IsWhole
          ((on_message ch d
            ((followed ch d (new_receiver d dir s) none events).0)
            (control (end_of id))).0.disk)
          ((followed ch d (new_receiver d dir s) none events).1)
          id
          name
  unfolding on_message on_control on_end new_receiver
  saved-IsWhole dir s events id name answer =
      let m = followed-Matches ch d laws events (new_receiver d dir s) none tt in
      let r = (followed ch d (new_receiver d dir s) none events).0 in
      end_to_saved r r.active id name _ m answer
