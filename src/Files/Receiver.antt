-- ===== src/Files/Receiver.antt =====
-- host/src/files/mod.rs, `Receiver`: the uploads of one session.
use rcdesk.Common.{
  ℕ, zero, suc, ◌+◌, Option, none, some, Bool, true, false, not, ◌&&◌, ◌||◌, List, [], ◌∷◌, ◌++◌,
  if◌then◌else◌, ltb, leb, nat_test, length,
}
use rcdesk.Assoc.{Assoc, contains_key}
use rcdesk.Files.Names.{Text, codes, with_suffix}
use rcdesk.Files.Disk.{
  Disk, FilePath, Removal, removed, not_found, remove_failed, Made, made, already_exists, failed,
}

abbrev pub part_suffix : Text
part_suffix = codes ".rcdesk-part"

abbrev pub max_receive_file_bytes : ℕ
max_receive_file_bytes = 17_179_869_184

abbrev pub max_receive_session_bytes : ℕ
max_receive_session_bytes = 68_719_476_736

abbrev pub max_receive_folders : ℕ
max_receive_folders = 256

abbrev pub max_receive_files : ℕ
max_receive_files = 50_000

abbrev pub free_space_reserve_bytes : ℕ
free_space_reserve_bytes = 1_073_741_824

abbrev pub u64_max : ℕ
u64_max = 18_446_744_073_709_551_615

-- How many names are tried for one file or directory.
abbrev pub name_attempts : ℕ
name_attempts = 10_000

-- `proto::file::AbortReason`
pub data AbortReason : Type 0 where
  cancelled disabled io protocol : AbortReason

-- `proto::file::OfferedFile`
pub record OfferedFile : Type 0 where
  pub name : Text
  pub size : ℕ

-- `proto::file::FileMessage`
pub data FileMessage : Type 0 where
  -- id, name, size, folder, dir, fetch
  start : ℕ → Text → ℕ → Option ℕ → Option Text → Option ℕ → FileMessage
  end_of : ℕ → FileMessage
  abort : ℕ → AbortReason → FileMessage
  saved : ℕ → Text → FileMessage
  offer : ℕ → List OfferedFile → ℕ → FileMessage
  fetch : ℕ → Option ℕ → FileMessage

-- `finished` and the open file are not needed: a transfer that is finished is dropped at once.
pub record ActiveReceive : Type 0 where
  pub id : ℕ
  pub size : ℕ
  pub written : ℕ
  pub part_path : FilePath
  pub final_path : FilePath
  pub final_name : Text

pub record ReceiveBudget : Type 0 where
  pub max_file_bytes : ℕ
  pub max_session_bytes : ℕ
  pub max_folders : ℕ
  pub max_files : ℕ
  pub bytes : ℕ
  pub files : ℕ

abbrev pub default_budget : ReceiveBudget
default_budget = record {
  max_file_bytes = max_receive_file_bytes;
  max_session_bytes = max_receive_session_bytes;
  max_folders = max_receive_folders;
  max_files = max_receive_files;
  bytes = 0;
  files = 0;
}

pub data Limit : Type 0 where
  file_too_large session_byte_budget file_count folder_count : Limit

-- The folders of a session are a map from the client's number to the root directory.
abbrev pub Folders : Type 0
Folders = Assoc ℕ FilePath

unfoldable pub folder_limit : ReceiveBudget → Folders → Option ℕ → Option Limit
folder_limit b folders none = none
folder_limit b folders (some f) =
    if not (contains_key f folders) && leb b.max_folders (length folders)
    then some folder_count
    else none

unfoldable pub limit_exceeded : ReceiveBudget → Folders → ℕ → Option ℕ → Option Limit
unfolding folder_limit
limit_exceeded b folders size folder =
    if ltb b.max_file_bytes size
    then some file_too_large
    else if ltb u64_max (b.bytes + size) || ltb b.max_session_bytes (b.bytes + size)
    then some session_byte_budget
    else if leb b.max_files b.files
    then some file_count
    else folder_limit b folders folder

module _ (d : Disk) where
  abbrev pub is_gone : Removal × d.State → Bool × d.State
  is_gone (removed, s) = (true, s)
  is_gone (not_found, s) = (true, s)
  is_gone (remove_failed, s) = (false, s)

  unfoldable pub try_remove : d.State → FilePath → Bool × d.State
  try_remove s path = is_gone (d.remove_file s path)

  -- The paths that are still there, and the disk.
  unfoldable pub remove_now : d.State → List FilePath → List FilePath × d.State
  unfolding try_remove
  remove_now s [] = ([], s)
  remove_now s (path ∷ paths) =
      let (gone, s') = try_remove s path in
      let (left, s'') = remove_now s' paths in ((if gone then left else path ∷ left), s'')

  -- `Drop` of a transfer that is not finished, up to the thread that retries what is left.
  unfoldable pub discard : d.State → ActiveReceive → d.State
  unfolding remove_now
  discard s a = (remove_now s (a.part_path ∷ a.final_path ∷ [])).1

  -- One round: what the placeholder and the part file came to, the transfer if both are made, and
  -- the disk after the first, after both, and with the placeholder removed again.
  unfoldable pub attempt :
      Made
      → Made
      → ActiveReceive
      → d.State
      → d.State
      → d.State
      → (d.State → Option ActiveReceive × d.State)
      → Option ActiveReceive × d.State
  attempt made made a s1 s2 s3 again = (some a, s2)
  attempt made already_exists a s1 s2 s3 again = again s3
  attempt made failed a s1 s2 s3 again = (none, s3)
  attempt already_exists part a s1 s2 s3 again = again s1
  attempt failed part a s1 s2 s3 again = (none, s1)

  -- The loop over candidates from number n on; `none` is an error.
  unfoldable pub create_unique_from :
      ℕ → ℕ → d.State → FilePath → Text → ℕ → ℕ → Option ActiveReceive × d.State
  unfolding attempt remove_now
  create_unique_from zero n s dir name id size = (none, s)
  create_unique_from (suc tries) n s dir name id size =
      let candidate = with_suffix name n in
      let final_path = dir ++ (candidate ∷ []) in
      let part_path = dir ++ ((candidate ++ part_suffix) ∷ []) in
      let (placeholder, s1) = d.create_new s final_path in
      let (part, s2) = d.create_new s1 part_path in
      attempt placeholder part
        (record {
          id = id;
          size = size;
          written = 0;
          part_path = part_path;
          final_path = final_path;
          final_name = candidate;
        })
        s1 s2 ((remove_now s2 (final_path ∷ [])).1)
        (λ s'. create_unique_from tries (n + 1) s' dir name id size)

  unfoldable pub create_unique : d.State → FilePath → Text → ℕ → ℕ → Option ActiveReceive × d.State
  unfolding create_unique_from
  create_unique s dir name id size = create_unique_from name_attempts 0 s dir name id size

  unfoldable pub create_unique_dir_from :
      ℕ → ℕ → d.State → FilePath → Text → Option FilePath × d.State
  create_unique_dir_from zero n s parent name = (none, s)
  create_unique_dir_from (suc tries) n s parent name =
      let path = parent ++ (with_suffix name n ∷ []) in
      let (answer, s') = d.create_dir s path in
      elim answer [
        | made ↦ (some path, s')
        | already_exists ↦ create_unique_dir_from tries (n + 1) s' parent name
        | failed ↦ (none, s')
      ]

  unfoldable pub create_unique_dir : d.State → FilePath → Text → Option FilePath × d.State
  unfolding create_unique_dir_from
  create_unique_dir s parent name = create_unique_dir_from name_attempts 0 s parent name

  -- The receiver with the disk; no directory means that file transfer is disabled.
  pub record Receiver : Type 0 where
    pub dir : Option FilePath
    pub active : Option ActiveReceive
    pub folders : Folders
    pub budget : ReceiveBudget
    pub disk : d.State

  unfoldable pub new_receiver : Option FilePath → d.State → Receiver
  new_receiver dir s = record {
    dir = dir;
    active = none;
    folders = [];
    budget = default_budget;
    disk = s;
  }
