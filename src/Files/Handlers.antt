-- ===== src/Files/Handlers.antt =====
-- host/src/files/mod.rs, `Receiver`: what it does with each message. A handler gives the receiver after
-- it and the messages that it sends.
use rcdesk.Common.{
  ℕ, suc, ◌+◌, min, Option, none, some, Bool, true, false, ◌&&◌, ◌||◌, List, [], ◌∷◌, ◌++◌,
  if◌then◌else◌, ltb, leb, ◌==◌, nat_test, length,
}
use rcdesk.Assoc.{get, insert}
use rcdesk.Files.Names.{Text, Chars, same_text, sanitize_file_name, split_dir}
use rcdesk.Files.Disk.{Disk, FilePath}
use rcdesk.Files.Receiver.{
  AbortReason, FileMessage, start, end_of, abort, saved, offer, fetch, ActiveReceive, Folders,
  Limit, limit_exceeded, free_space_reserve_bytes, u64_max, discard, create_unique,
  create_unique_dir, Receiver,
}

-- `Path::starts_with`
unfoldable pub starts_with : FilePath → FilePath → Bool
starts_with path [] = true
starts_with [] (c ∷ base) = false
starts_with (c ∷ path) (e ∷ base) = same_text c e && starts_with path base

module _ (ch : Chars) (d : Disk) where
  abbrev pub Handled : Type 0
  Handled = Receiver d × List FileMessage

  -- The root directory of an uploaded folder: the one chosen before, or a new one.
  unfoldable pub new_root :
      Folders → ℕ → Option FilePath × d.State → Option FilePath × Folders × d.State
  new_root folders folder (none, s) = (none, folders, s)
  new_root folders folder (some root, s) = (some root, insert folder root folders, s)

  unfoldable pub root_of :
      d.State
      → Folders
      → FilePath
      → ℕ
      → Text
      → Option FilePath
      → Option FilePath × Folders × d.State
  unfolding new_root
  root_of s folders base folder first (some root) = (some root, folders, s)
  root_of s folders base folder first none =
      new_root folders folder (create_unique_dir d s base first)

  unfoldable pub folder_root :
      d.State → Folders → FilePath → ℕ → Text → Option FilePath × Folders × d.State
  unfolding root_of
  folder_root s folders base folder first = root_of s folders base folder first (get folder folders)

  -- The end of `target_dir`, for a root and the components below it.
  unfoldable pub make_target : d.State → FilePath → FilePath → Option FilePath × d.State
  unfolding starts_with
  make_target s base target =
      let (created, s') = d.create_dir_all s target in
      if starts_with target base then ((if created then some target else none), s') else (none, s)

  unfoldable pub below_root :
      FilePath
      → FilePath
      → Option FilePath × Folders × d.State
      → Option FilePath × Folders × d.State
  unfolding make_target
  below_root base rest (none, folders, s) = (none, folders, s)
  below_root base rest (some root, folders, s) =
      let (target, s') = make_target s base (root ++ rest) in (target, folders, s')

  unfoldable pub in_folder :
      d.State → Folders → FilePath → ℕ → Option (List Text) → Option FilePath × Folders × d.State
  unfolding folder_root below_root
  in_folder s folders base folder none = (some base, folders, s)
  in_folder s folders base folder (some []) = (some base, folders, s)
  in_folder s folders base folder (some (first ∷ rest)) =
      below_root base rest (folder_root s folders base folder first)

  -- The directory for a file; `none` is an error.
  unfoldable pub target_dir :
      d.State → Folders → FilePath → Option ℕ → Option Text → Option FilePath × Folders × d.State
  unfolding in_folder
  target_dir s folders base (some folder) (some dir) =
      in_folder s folders base folder (split_dir ch dir)
  target_dir s folders base folder dir = (some base, folders, s)

  -- What `on_start` does once the limits allow the file: the disk's room, the directory, the file.
  unfoldable pub has_room : d.State → FilePath → ℕ → Bool
  has_room s base size = elim (d.free_space s base) [
    | none ↦ true
    | some free ↦ leb (min (size + free_space_reserve_bytes) u64_max) free
  ]

  unfoldable pub open_in :
      Receiver d
      → ℕ
      → Text
      → ℕ
      → Option FilePath × Folders × d.State
      → Option ActiveReceive × Receiver d
  open_in r id name size (none, folders, s) = (none, record r { folders = folders; disk = s })
  open_in r id name size (some target, folders, s) =
      let (created, s') = create_unique d s target name id size in
      (created, record r { folders = folders; disk = s' })

  unfoldable pub open_file :
      Receiver d
      → FilePath
      → ℕ
      → Text
      → ℕ
      → Option ℕ
      → Option Text
      → Option ActiveReceive × Receiver d
  unfolding target_dir open_in
  open_file r base id name size folder rel_dir =
      open_in r id name size (target_dir r.disk r.folders base folder rel_dir)

  unfoldable pub started : ℕ → ℕ → Option ActiveReceive × Receiver d → Handled
  started id size (none, r) = (r, abort id AbortReason.io ∷ [])
  started id size (some active, r) = (
    record r {
      active = some active;
      budget = record r.budget {
        files = suc r.budget.files;
        bytes = min (r.budget.bytes + size) u64_max;
      };
    },
    [],
  )

  unfoldable pub begin_file :
      Receiver d → FilePath → ℕ → Text → ℕ → Option ℕ → Option Text → Handled
  unfolding open_file started
  begin_file r base id name size folder rel_dir =
      started id size (open_file r base id name size folder rel_dir)

  unfoldable pub accept : Receiver d → FilePath → ℕ → Text → ℕ → Option ℕ → Option Text → Handled
  unfolding has_room begin_file
  accept r base id name size folder rel_dir =
      let (created, s) = d.create_dir_all r.disk base in
      let r' : Receiver d = record r { disk = s } in
      if created
      then (if has_room s base size
          then begin_file r' base id (sanitize_file_name ch name) size folder rel_dir
          else (r', abort id AbortReason.io ∷ []))
      else (r', abort id AbortReason.io ∷ [])

  -- A start over a transfer drops that, and tells the client.
  unfoldable pub drop_this : Receiver d → Option ActiveReceive → Handled
  unfolding discard
  drop_this r none = (r, [])
  drop_this r (some old) = (
    record r { active = none; disk = discard d r.disk old },
    abort old.id AbortReason.protocol ∷ [],
  )

  unfoldable pub drop_old : Receiver d → Handled
  unfolding drop_this
  drop_old r = drop_this r r.active

  unfoldable pub unless_limited :
      Receiver d → FilePath → ℕ → Text → ℕ → Option ℕ → Option Text → Option Limit → Handled
  unfolding accept
  unless_limited r base id name size folder rel_dir (some why) =
      (r, abort id AbortReason.protocol ∷ [])
  unless_limited r base id name size folder rel_dir none = accept r base id name size folder rel_dir

  unfoldable pub start_in :
      Receiver d → Option FilePath → ℕ → Text → ℕ → Option ℕ → Option Text → Handled
  unfolding unless_limited
  start_in r none id name size folder rel_dir = (r, abort id AbortReason.disabled ∷ [])
  start_in r (some base) id name size folder rel_dir =
      unless_limited r base id name size folder rel_dir
        (limit_exceeded r.budget r.folders size folder)

  unfoldable pub on_fresh_start : Receiver d → ℕ → Text → ℕ → Option ℕ → Option Text → Handled
  unfolding start_in
  on_fresh_start r id name size folder rel_dir = start_in r r.dir id name size folder rel_dir

  unfoldable pub on_start : Receiver d → ℕ → Text → ℕ → Option ℕ → Option Text → Handled
  unfolding drop_old on_fresh_start
  on_start r id name size folder rel_dir =
      let (r', told) = drop_old r in
      let (r'', answers) = on_fresh_start r' id name size folder rel_dir in (r'', told ++ answers)

  -- `abort`: the transfer is dropped and the client told.
  unfoldable pub abort_active : Receiver d → ActiveReceive → AbortReason → Handled
  unfolding discard
  abort_active r a reason =
      (record r { active = none; disk = discard d r.disk a }, abort a.id reason ∷ [])

  unfoldable pub chunk_to : Receiver d → Option ActiveReceive → List ℕ → Handled
  unfolding abort_active
  chunk_to r none chunk = (r, [])
  chunk_to r (some a) chunk =
      let (ok, s) = d.write_all r.disk a.part_path chunk in
      if ltb u64_max (a.written + length chunk) || ltb a.size (a.written + length chunk)
      then abort_active r a AbortReason.protocol
      else if ok
      then (
        record r { active = some (record a { written = a.written + length chunk }); disk = s },
        [],
      )
      else abort_active (record r { disk = s }) a AbortReason.io

  unfoldable pub on_chunk : Receiver d → List ℕ → Handled
  unfolding chunk_to
  on_chunk r chunk = chunk_to r r.active chunk

  -- What flushing and then renaming came to, and the disk after each.
  unfoldable pub finished : Receiver d → ActiveReceive → Bool → Bool → d.State → d.State → Handled
  unfolding abort_active
  finished r a true true s s' =
      (record r { active = none; disk = s' }, saved a.id a.final_name ∷ [])
  finished r a true false s s' = abort_active (record r { disk = s' }) a AbortReason.io
  finished r a false renamed s s' = abort_active (record r { disk = s }) a AbortReason.io

  unfoldable pub finish : Receiver d → ActiveReceive → Handled
  unfolding finished
  finish r a =
      let (flushed, s) = d.flush r.disk a.part_path in
      let (renamed, s') = d.rename s a.part_path a.final_path in finished r a flushed renamed s s'

  -- Whether the transfer is the one that ends, and whether all of it is there.
  unfoldable pub ended : Bool → Bool → Receiver d → ActiveReceive → Handled
  unfolding abort_active finish
  ended true true r a = finish r a
  ended true false r a = abort_active r a AbortReason.protocol
  ended false whole r a = (r, [])

  unfoldable pub end_to : Receiver d → Option ActiveReceive → ℕ → Handled
  unfolding ended
  end_to r none id = (r, [])
  end_to r (some a) id = ended (a.id == id) (a.written == a.size) r a

  unfoldable pub on_end : Receiver d → ℕ → Handled
  unfolding end_to
  on_end r id = end_to r r.active id

  unfoldable pub abort_to : Receiver d → Option ActiveReceive → ℕ → Handled
  unfolding discard
  abort_to r none id = (r, [])
  abort_to r (some a) id =
      if a.id == id then (record r { active = none; disk = discard d r.disk a }, []) else (r, [])

  unfoldable pub on_control : Receiver d → FileMessage → Handled
  unfolding on_start on_end abort_to
  on_control r (start id name size folder dir request) = on_start r id name size folder dir
  on_control r (end_of id) = on_end r id
  on_control r (abort id reason) = abort_to r r.active id
  on_control r (saved id name) = (r, [])
  on_control r (offer list_id files skipped) = (r, [])
  on_control r (fetch list_id request) = (r, [])

  -- What the channel brings: a text message that parses, or a chunk.
  pub data Event : Type 0 where
    control : FileMessage → Event
    chunk : List ℕ → Event

  -- `Session::on_message`, for the receiver.
  unfoldable pub on_message : Receiver d → Event → Handled
  unfolding on_control on_chunk
  on_message r (control (fetch list_id request)) = (r, [])
  on_message r (control msg) = on_control r msg
  on_message r (chunk bytes) = on_chunk r bytes
