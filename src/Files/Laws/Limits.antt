-- ===== src/Files/Laws/Limits.antt =====
-- host/src/files/mod.rs: the limits on what one session may send hold in every history.
use mathlib.Core.Path.{subst}
use rcdesk.Common.{
  ℕ, suc, ◌+◌, ◌≤◌, ◌<◌, min, Option, none, some, Bool, true, false, ◌||◌, List, [], ◌∷◌, ltb, ◌==◌,
  nat_test, length, ◌≡◌, refl, sym, inl, inr, arith, Bool-cases,
}
use rcdesk.Files.Names.{Text, Chars}
use rcdesk.Files.Disk.{Disk, FilePath}
use rcdesk.Files.Receiver.{
  start, end_of, abort, saved, offer, fetch, ActiveReceive, ReceiveBudget, Folders, Limit,
  limit_exceeded, folder_limit, u64_max, Receiver, new_receiver, max_receive_file_bytes,
  max_receive_session_bytes, max_receive_folders, max_receive_files,
}
use rcdesk.Files.Handlers.{
  has_room, open_in, started, drop_this, unless_limited, start_in, target_dir, open_file,
  begin_file, accept, drop_old, on_fresh_start, on_start, abort_active, chunk_to, on_chunk,
  finished, finish, ended, end_to, on_end, abort_to, on_control, Event, control, chunk, on_message,
}
use rcdesk.Files.Laws.Room.{Opened, open_in-Opened, target_dir_bound}

-- The size that was announced and what was written of it.
abbrev pub ActiveWithin : Option ActiveReceive → Type 0
ActiveWithin none = Unit {0}
ActiveWithin (some a) = (a.written ≤ a.size) × (a.size ≤ max_receive_file_bytes)

pub record BudgetWithin (b : ReceiveBudget) : Type 0 where
  pub file_cap : b.max_file_bytes ≡ max_receive_file_bytes
  pub session_cap : b.max_session_bytes ≡ max_receive_session_bytes
  pub folder_cap : b.max_folders ≡ max_receive_folders
  pub files_cap : b.max_files ≡ max_receive_files
  pub bytes_bound : b.bytes ≤ max_receive_session_bytes
  pub files_bound : b.files ≤ max_receive_files

-- The budget with one more file.
abbrev charged : ReceiveBudget → ℕ → ReceiveBudget
charged b size = record b { files = suc b.files; bytes = min (b.bytes + size) u64_max }

charged-BudgetWithin :
    (b : ReceiveBudget) (size : ℕ)
    → BudgetWithin b
    → b.bytes + size ≤ b.max_session_bytes
    → b.files < b.max_files
    → BudgetWithin (charged b size)
charged-BudgetWithin b size w total count =
    let session = w.session_cap in
    let files = w.files_cap in
    record {
      file_cap = w.file_cap;
      session_cap = w.session_cap;
      folder_cap = w.folder_cap;
      files_cap = w.files_cap;
      bytes_bound = omega arith;
      files_bound = omega arith;
    }

module _ (ch : Chars) (d : Disk) where
  pub record IsWithin (r : Receiver d) : Type 0 where
    pub budget_within : BudgetWithin r.budget
    pub folders_bound : length r.folders ≤ max_receive_folders
    pub active_within : ActiveWithin r.active

  -- What an allowed start leaves room for.
  pub allowed :
      (b : ReceiveBudget) (folders : Folders) (size : ℕ) (folder : Option ℕ)
      → limit_exceeded b folders size folder ≡ none
      → (size ≤ b.max_file_bytes)
        × (b.bytes + size ≤ b.max_session_bytes)
        × (b.files < b.max_files)
        × (folder_limit b folders folder ≡ none)
  unfolding limit_exceeded
  allowed b folders size folder e = ground arith

  started-IsWithin :
      (r : Receiver d) (id size : ℕ) (opened : Option ActiveReceive × Receiver d)
      → IsWithin r
      → size ≤ r.budget.max_file_bytes
      → r.budget.bytes + size ≤ r.budget.max_session_bytes
      → r.budget.files < r.budget.max_files
      → Opened ch d r id size opened
      → IsWithin ((started ch d id size opened).0)
  unfolding started
  started-IsWithin r id size (none, r') w fits total count (f, b, a, folders) =
      let caps = w.budget_within.folder_cap in
      record {
        budget_within = subst BudgetWithin (sym b) w.budget_within;
        folders_bound = omega arith;
        active_within = subst ActiveWithin (sym a) w.active_within;
      }
  started-IsWithin r id size (some active, r') w fits total count
        ((same_id, same_size, nothing), b, a, folders) =
      let caps = w.budget_within.folder_cap in
      let file = w.budget_within.file_cap in
      record {
        budget_within =
            subst (λ k. BudgetWithin (charged k size)) (sym b)
              (charged-BudgetWithin r.budget size w.budget_within total count);
        folders_bound = omega arith;
        active_within = (omega arith, omega arith);
      }

  begin_file-IsWithin :
      (r : Receiver d) (base : FilePath) (id : ℕ) (name : Text) (size : ℕ) (folder : Option ℕ)
      (dir : Option Text)
      → IsWithin r
      → limit_exceeded r.budget r.folders size folder ≡ none
      → IsWithin ((begin_file ch d r base id name size folder dir).0)
  unfolding begin_file open_file
  begin_file-IsWithin r base id name size folder dir w e =
      let (fits, total, count, room) = allowed r.budget r.folders size folder e in
      let caps = w.budget_within.folder_cap in
      let few = w.folders_bound in
      let target = target_dir ch d r.disk r.folders base folder dir in
      started-IsWithin r id size (open_in ch d r id name size target) w fits total count (
        open_in-Opened ch d r id name size target
          (target_dir_bound ch d r.disk r.budget r.folders base folder dir (omega arith) room))

  -- The disk is no part of the limits.
  disk-IsWithin : (r : Receiver d) (s : d.State) → IsWithin r → IsWithin (record r { disk = s })
  disk-IsWithin r s w = record {
    budget_within = w.budget_within;
    folders_bound = w.folders_bound;
    active_within = w.active_within;
  }

  dropped-IsWithin :
      (r : Receiver d) (s : d.State) → IsWithin r → IsWithin (record r { active = none; disk = s })
  dropped-IsWithin r s w = record {
    budget_within = w.budget_within;
    folders_bound = w.folders_bound;
    active_within = tt;
  }

  accept-IsWithin :
      (r : Receiver d) (base : FilePath) (id : ℕ) (name : Text) (size : ℕ) (folder : Option ℕ)
      (dir : Option Text)
      → IsWithin r
      → limit_exceeded r.budget r.folders size folder ≡ none
      → IsWithin ((accept ch d r base id name size folder dir).0)
  unfolding accept
  accept-IsWithin r base id name size folder dir w e =
      let s = (d.create_dir_all r.disk base).1 in
      let w' = disk-IsWithin r s w in
      elim (Bool-cases ((d.create_dir_all r.disk base).0)) [
        | inl created ↦ rw created (elim (Bool-cases (has_room ch d s base size)) [
          | inl room ↦
              rw room (begin_file-IsWithin (record r { disk = s }) base id _ size folder dir w' e)
          | inr full ↦ rw full w'
        ])
        | inr refused ↦ rw refused w'
      ]

  unless_limited-IsWithin :
      (r : Receiver d) (base : FilePath) (id : ℕ) (name : Text) (size : ℕ) (folder : Option ℕ)
      (dir : Option Text) (why : Option Limit)
      → limit_exceeded r.budget r.folders size folder ≡ why
      → IsWithin r
      → IsWithin ((unless_limited ch d r base id name size folder dir why).0)
  unfolding unless_limited
  unless_limited-IsWithin r base id name size folder dir (some why) e w = w
  unless_limited-IsWithin r base id name size folder dir none e w =
      accept-IsWithin r base id name size folder dir w e

  start_in-IsWithin :
      (r : Receiver d) (base? : Option FilePath) (id : ℕ) (name : Text) (size : ℕ)
      (folder : Option ℕ) (dir : Option Text)
      → IsWithin r
      → IsWithin ((start_in ch d r base? id name size folder dir).0)
  unfolding start_in
  start_in-IsWithin r none id name size folder dir w = w
  start_in-IsWithin r (some base) id name size folder dir w =
      unless_limited-IsWithin r base id name size folder dir _ refl w

  pub drop_this-IsWithin :
      (r : Receiver d) (a : Option ActiveReceive) → IsWithin r → IsWithin ((drop_this ch d r a).0)
  unfolding drop_this
  drop_this-IsWithin r none w = w
  drop_this-IsWithin r (some a) w = dropped-IsWithin r _ w

  on_start-IsWithin :
      (r : Receiver d) (id : ℕ) (name : Text) (size : ℕ) (folder : Option ℕ) (dir : Option Text)
      → IsWithin r
      → IsWithin ((on_start ch d r id name size folder dir).0)
  unfolding on_start on_fresh_start drop_old
  on_start-IsWithin r id name size folder dir w =
      start_in-IsWithin ((drop_this ch d r r.active).0) _ id name size folder dir
        (drop_this-IsWithin r r.active w)

  chunk_to-IsWithin :
      (r : Receiver d) (a : Option ActiveReceive) (bytes : List ℕ)
      → ActiveWithin a
      → IsWithin r
      → IsWithin ((chunk_to ch d r a bytes).0)
  unfolding chunk_to abort_active
  chunk_to-IsWithin r none bytes aw w = w
  chunk_to-IsWithin r (some a) bytes aw w =
      elim (Bool-cases
        (ltb u64_max (a.written + length bytes) || ltb a.size (a.written + length bytes))) [
          | inl over ↦ rw over (dropped-IsWithin r _ w)
          | inr fits ↦ rw fits (elim (Bool-cases ((d.write_all r.disk a.part_path bytes).0)) [
            | inl written ↦ rw written (record {
              budget_within = w.budget_within;
              folders_bound = w.folders_bound;
              active_within = (ground arith, aw.1);
            })
            | inr lost ↦ rw lost (dropped-IsWithin r _ w)
          ])
        ]

  finished-IsWithin :
      (r : Receiver d) (a : ActiveReceive) (flushed renamed : Bool) (s s' : d.State)
      → IsWithin r
      → IsWithin ((finished ch d r a flushed renamed s s').0)
  unfolding finished abort_active
  finished-IsWithin r a true true s s' w = dropped-IsWithin r s' w
  finished-IsWithin r a true false s s' w = dropped-IsWithin r _ w
  finished-IsWithin r a false renamed s s' w = dropped-IsWithin r _ w

  finish-IsWithin :
      (r : Receiver d) (a : ActiveReceive) → IsWithin r → IsWithin ((finish ch d r a).0)
  unfolding finish
  finish-IsWithin r a w = finished-IsWithin r a _ _ _ _ w

  ended-IsWithin :
      (this whole : Bool) (r : Receiver d) (a : ActiveReceive)
      → IsWithin r
      → IsWithin ((ended ch d this whole r a).0)
  unfolding ended abort_active
  ended-IsWithin true true r a w = finish-IsWithin r a w
  ended-IsWithin true false r a w = dropped-IsWithin r _ w
  ended-IsWithin false whole r a w = w

  end_to-IsWithin :
      (r : Receiver d) (a : Option ActiveReceive) (id : ℕ)
      → IsWithin r
      → IsWithin ((end_to ch d r a id).0)
  unfolding end_to
  end_to-IsWithin r none id w = w
  end_to-IsWithin r (some a) id w = ended-IsWithin _ _ r a w

  abort_to-IsWithin :
      (r : Receiver d) (a : Option ActiveReceive) (id : ℕ)
      → IsWithin r
      → IsWithin ((abort_to ch d r a id).0)
  unfolding abort_to
  abort_to-IsWithin r none id w = w
  abort_to-IsWithin r (some a) id w = elim (Bool-cases (a.id == id)) [
    | inl this ↦ rw this (dropped-IsWithin r _ w)
    | inr other ↦ rw other w
  ]

  pub on_message-IsWithin :
      (r : Receiver d) (e : Event ch d) → IsWithin r → IsWithin ((on_message ch d r e).0)
  unfolding on_message on_control on_chunk on_end
  on_message-IsWithin r (control (start id name size folder dir request)) w =
      on_start-IsWithin r id name size folder dir w
  on_message-IsWithin r (control (end_of id)) w = end_to-IsWithin r r.active id w
  on_message-IsWithin r (control (abort id reason)) w = abort_to-IsWithin r r.active id w
  on_message-IsWithin r (control (saved id name)) w = w
  on_message-IsWithin r (control (offer list_id files skipped)) w = w
  on_message-IsWithin r (control (fetch list_id request)) w = w
  on_message-IsWithin r (chunk bytes) w = chunk_to-IsWithin r r.active bytes w.active_within w

  -- The receiver after the messages.
  abbrev pub received : Receiver d → List (Event ch d) → Receiver d
  received r [] = r
  received r (e ∷ events) = received ((on_message ch d r e).0) events

  received-IsWithin :
      (events : List (Event ch d)) (r : Receiver d) → IsWithin r → IsWithin (received r events)
  received-IsWithin [] r w = w
  received-IsWithin (e ∷ events) r w =
      received-IsWithin events ((on_message ch d r e).0) (on_message-IsWithin r e w)

  -- Whatever a client sends in a session, and however the disk answers: the files that the host began
  -- to receive are 50,000 at most, the sizes announced for them 64 GiB in sum, the folders 256, and
  -- the file in transfer is announced with 16 GiB at most and has no more bytes than announced.
  pub new-received-IsWithin :
      (dir : Option FilePath) (s : d.State) (events : List (Event ch d))
      → IsWithin (received (new_receiver d dir s) events)
  unfolding new_receiver
  new-received-IsWithin dir s events = received-IsWithin events (new_receiver d dir s) (record {
    budget_within = record {
      file_cap = refl;
      session_cap = refl;
      folder_cap = refl;
      files_cap = refl;
      bytes_bound = omega arith;
      files_bound = omega arith;
    };
    folders_bound = omega arith;
    active_within = tt;
  })
