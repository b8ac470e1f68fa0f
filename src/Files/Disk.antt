-- ===== src/Files/Disk.antt =====
-- The file system of host/src/files/mod.rs, a parameter: `std::fs` and `tokio::fs` as the receiver
-- uses them, under the user's rights. A refused scope is an operation that fails.
use rcdesk.Common.{ℕ, Option, some, Bool, true, List, [], ◌++◌, ◌≡◌}
use rcdesk.Files.Names.{Text}

-- A path, below the root, by its components.
abbrev pub FilePath : Type 0
FilePath = List Text

-- What making a file or a directory that must be new comes to.
pub data Made : Type 0 where
  made already_exists failed : Made

-- What removing a file comes to.
pub data Removal : Type 0 where
  removed not_found remove_failed : Removal

pub record Disk : Type 1 where
  pub State : Type 0
  pub create_dir_all : State → FilePath → Bool × State
  -- `free_space_bytes`
  pub free_space : State → FilePath → Option ℕ
  pub create_dir : State → FilePath → Made × State
  -- `OpenOptions` with `create_new`
  pub create_new : State → FilePath → Made × State
  -- `write_all` on the open file at the path
  pub write_all : State → FilePath → List ℕ → Bool × State
  -- `flush` of the open file at the path
  pub flush : State → FilePath → Bool × State
  pub rename : State → FilePath → FilePath → Bool × State
  -- `remove_file`
  pub remove_file : State → FilePath → Removal × State
  -- what a file holds
  pub contents : State → FilePath → Option (List ℕ)

-- What file systems do: a new file is empty, a write that succeeds appends, a flush that succeeds
-- changes no contents, and a rename that succeeds moves them.
pub record DiskLaws (d : Disk) : Type 0 where
  pub create_new_law :
      (s : d.State) (p : FilePath)
      → (d.create_new s p).0 ≡ made
      → d.contents ((d.create_new s p).1) p ≡ some []
  pub write_all_law :
      (s : d.State) (p : FilePath) (old new : List ℕ)
      → (d.write_all s p new).0 ≡ true
      → d.contents s p ≡ some old
      → d.contents ((d.write_all s p new).1) p ≡ some (old ++ new)
  pub flush_law :
      (s : d.State) (p : FilePath)
      → (d.flush s p).0 ≡ true
      → d.contents ((d.flush s p).1) p ≡ d.contents s p
  pub rename_law :
      (s : d.State) (p q : FilePath)
      → (d.rename s p q).0 ≡ true
      → d.contents ((d.rename s p q).1) q ≡ d.contents s p
