-- ===== src/Files/Laws/Begun.antt =====
-- host/src/files/mod.rs: what a client has sent of its transfer, and a transfer that begins.
use mathlib.Core.Path.{subst}
use rcdesk.Common.{
  ℕ, zero, suc, ◌+◌, Option, none, some, List, [], ◌∷◌, ◌++◌, nat_test, length, ◌≡◌, refl, sym, inl,
  inr, arith, Bool-cases,
}
use rcdesk.Files.Names.{Text, Chars}
use rcdesk.Files.Disk.{Disk, DiskLaws, FilePath, Made, made, already_exists, failed}
use rcdesk.Files.Receiver.{
  start, ActiveReceive, Folders, Limit, Receiver, attempt, create_unique_from, create_unique,
}
use rcdesk.Files.Handlers.{
  has_room, open_in, started, drop_this, unless_limited, start_in, target_dir, open_file,
  begin_file, accept, Event, control, chunk, on_message,
}

-- What a client has sent of its transfer, as it sees it: the id, the announced size and the bytes.
abbrev pub Sent : Type 0
Sent = Option (ℕ × ℕ × List ℕ)

module _ (ch : Chars) (d : Disk) where
  -- A start that the receiver took begins a transfer, and a chunk adds to it; without a transfer in the
  -- receiver there is none.
  abbrev pub sent_after : Option ActiveReceive → Event ch d → Sent → Sent
  sent_after none e sent = none
  sent_after (some a) (control (start id name size folder dir request)) sent = some (id, size, [])
  sent_after (some a) (chunk bytes) (some (id, size, got)) = some (id, size, got ++ bytes)
  sent_after (some a) e sent = sent

  -- The receiver and what was sent to it, after the messages.
  abbrev pub followed : Receiver d → Sent → List (Event ch d) → Receiver d × Sent
  followed r sent [] = (r, sent)
  followed r sent (e ∷ events) =
      let r' = (on_message ch d r e).0 in followed r' (sent_after r'.active e sent) events

  -- The file of a transfer holds what was sent of it, and is to be saved under its name.
  abbrev pub HoldsOf : d.State → ActiveReceive → ℕ → ℕ → List ℕ → Type 0
  HoldsOf s a id size got =
      (a.id ≡ id)
      × (a.size ≡ size)
      × (length got ≡ a.written)
      × (d.contents s a.part_path ≡ some got)
      × (parent : FilePath) × (a.final_path ≡ parent ++ (a.final_name ∷ []))

  abbrev pub Matches : d.State → Option ActiveReceive → Sent → Type 0
  Matches s none none = Unit {0}
  Matches s none (some sent) = ⊥
  Matches s (some a) none = ⊥
  Matches s (some a) (some (id, size, got)) = HoldsOf s a id size got

  -- A transfer that has begun.
  abbrev Begun : d.State → Option ActiveReceive → ℕ → ℕ → Type 0
  Begun s none id size = Unit {0}
  Begun s (some a) id size = HoldsOf s a id size []

  no_transfer :
      (s : d.State) (a : Option ActiveReceive) (id size : ℕ) → a ≡ none → Begun s a id size
  no_transfer s a id size e = subst (λ x. Begun s x id size) (sym e) tt

  module _ (laws : DiskLaws d) where
    attempt-Begun :
        (placeholder part : Made) (a : ActiveReceive) (s1 s2 s3 : d.State)
        (again : d.State → Option ActiveReceive × d.State) (id size : ℕ)
        → (part ≡ made → HoldsOf s2 a id size [])
        → ((s : d.State) → Begun ((again s).1) ((again s).0) id size)
        → let (created, s') = attempt d placeholder part a s1 s2 s3 again in
          Begun s' created id size
    unfolding attempt
    attempt-Begun made made a s1 s2 s3 again id size new later = new refl
    attempt-Begun made already_exists a s1 s2 s3 again id size new later = later s3
    attempt-Begun made failed a s1 s2 s3 again id size new later = tt
    attempt-Begun already_exists part a s1 s2 s3 again id size new later = later s1
    attempt-Begun failed part a s1 s2 s3 again id size new later = tt

    create_unique_from-Begun :
        (tries n : ℕ) (s : d.State) (dir : FilePath) (name : Text) (id size : ℕ)
        → let (created, s') = create_unique_from d tries n s dir name id size in
          Begun s' created id size
    unfolding create_unique_from
    create_unique_from-Begun zero n s dir name id size = tt
    create_unique_from-Begun (suc tries) n s dir name id size =
        attempt-Begun _ _ _ _ _ _ (λ s'. create_unique_from d tries (n + 1) s' dir name id size) id
          size (λ e. (refl, refl, omega arith, laws.create_new_law _ _ e, dir, refl))
          (λ s'. create_unique_from-Begun tries (n + 1) s' dir name id size)

    started-Begun :
        (id size : ℕ) (r : Receiver d) (created : Option ActiveReceive)
        → r.active ≡ none
        → Begun r.disk created id size
        → Begun
            ((started ch d id size (created, r)).0.disk)
            ((started ch d id size (created, r)).0.active)
            id
            size
    unfolding started
    started-Begun id size r none e b = no_transfer r.disk r.active id size e
    started-Begun id size r (some a) e b = b

    begin_in-Begun :
        (r : Receiver d) (id : ℕ) (name : Text) (size : ℕ)
        (target : Option FilePath × Folders × d.State)
        → r.active ≡ none
        → let r' = (started ch d id size (open_in ch d r id name size target)).0 in
          Begun r'.disk r'.active id size
    unfolding open_in create_unique
    begin_in-Begun r id name size (none, folders, s) e =
        started-Begun id size (record r { folders = folders; disk = s }) none e tt
    begin_in-Begun r id name size (some target, folders, s) e =
        started-Begun id size
          (record r {
            folders = folders;
            disk = (create_unique_from d 10000 0 s target name id size).1;
          })
          ((create_unique_from d 10000 0 s target name id size).0) e
          (create_unique_from-Begun 10000 0 s target name id size)

    accept-Begun :
        (r : Receiver d) (base : FilePath) (id : ℕ) (name : Text) (size : ℕ) (folder : Option ℕ)
        (dir : Option Text)
        → r.active ≡ none
        → let r' = (accept ch d r base id name size folder dir).0 in Begun r'.disk r'.active id size
    unfolding accept begin_file open_file
    accept-Begun r base id name size folder dir e =
        let s = (d.create_dir_all r.disk base).1 in
        elim (Bool-cases ((d.create_dir_all r.disk base).0)) [
          | inl created ↦ rw created (elim (Bool-cases (has_room ch d s base size)) [
            | inl room ↦ rw room (
                begin_in-Begun (record r { disk = s }) id _ size
                  (target_dir ch d s r.folders base folder dir) e)
            | inr full ↦ rw full (no_transfer s r.active id size e)
          ])
          | inr refused ↦ rw refused (no_transfer s r.active id size e)
        ]

    unless_limited-Begun :
        (r : Receiver d) (base : FilePath) (id : ℕ) (name : Text) (size : ℕ) (folder : Option ℕ)
        (dir : Option Text) (why : Option Limit)
        → r.active ≡ none
        → let r' = (unless_limited ch d r base id name size folder dir why).0 in
          Begun r'.disk r'.active id size
    unfolding unless_limited
    unless_limited-Begun r base id name size folder dir (some why) e =
        no_transfer r.disk r.active id size e
    unless_limited-Begun r base id name size folder dir none e =
        accept-Begun r base id name size folder dir e

    pub start_in-Begun :
        (r : Receiver d) (base? : Option FilePath) (id : ℕ) (name : Text) (size : ℕ)
        (folder : Option ℕ) (dir : Option Text)
        → r.active ≡ none
        → let r' = (start_in ch d r base? id name size folder dir).0 in
          Begun r'.disk r'.active id size
    unfolding start_in
    start_in-Begun r none id name size folder dir e = no_transfer r.disk r.active id size e
    start_in-Begun r (some base) id name size folder dir e =
        unless_limited-Begun r base id name size folder dir _ e

    pub drop_this_active :
        (r : Receiver d) (a : Option ActiveReceive)
        → r.active ≡ a
        → (drop_this ch d r a).0.active ≡ none
    unfolding drop_this
    drop_this_active r none e = e
    drop_this_active r (some a) e = refl

    pub start-Matches :
        (s : d.State) (a : Option ActiveReceive) (sent : Sent) (id : ℕ) (name : Text) (size : ℕ)
        (folder : Option ℕ) (dir : Option Text) (request : Option ℕ)
        → Begun s a id size
        → Matches s a (sent_after a (control (start id name size folder dir request)) sent)
    start-Matches s none sent id name size folder dir request b = tt
    start-Matches s (some a) sent id name size folder dir request b = b
