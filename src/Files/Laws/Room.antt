-- ===== src/Files/Laws/Room.antt =====
-- host/src/files/mod.rs: how many folders there are once a file's directory is chosen, and what opening
-- the file keeps of the receiver.
use rcdesk.Common.{
  ℕ, zero, suc, ◌+◌, ◌≤◌, ◌<◌, Option, none, some, true, List, [], ◌∷◌, nat_test, is_some, length,
  ◌≡◌, refl, inl, inr, ◌⊎◌, arith, Bool-cases,
}
use rcdesk.Assoc.{get, insert, remove, contains_key}
use rcdesk.Files.Names.{Text, Chars}
use rcdesk.Files.Disk.{Disk, FilePath, Made, made, already_exists, failed}
use rcdesk.Files.Receiver.{
  ActiveReceive, ReceiveBudget, Folders, folder_limit, Receiver, create_unique_dir, attempt,
  create_unique_from, create_unique,
}
use rcdesk.Files.Handlers.{
  new_root, root_of, below_root, in_folder, open_in, folder_root, target_dir,
}

length-remove : (k : ℕ) (m : Folders) → length (remove k m) ≤ length m
unfolding remove
length-remove k [] = omega arith
length-remove k ((j, v) ∷ m) = ground (arith, length-remove k m)

length-insert : (k : ℕ) (p : FilePath) (m : Folders) → length (insert k p m) ≤ length m + 1
unfolding insert
length-insert k p m = omega (arith, length-remove k m)

module _ (ch : Chars) (d : Disk) where
  folder_allowed :
      (b : ReceiveBudget) (folders : Folders) (f : ℕ)
      → folder_limit b folders (some f) ≡ none
      → (is_some (get f folders) ≡ true) ⊎ (length folders < b.max_folders)
  unfolding folder_limit contains_key
  folder_allowed b folders f e = elim (Bool-cases (is_some (get f folders))) [
    | inl known ↦ inl known
    | inr unknown ↦ inr (ground arith)
  ]

  -- What is known of the folders when a start names one.
  abbrev Room : Folders → ℕ → ℕ → Type 0
  Room folders folder m =
      (length folders ≤ m) × ((is_some (get folder folders) ≡ true) ⊎ (length folders < m))

  new_root_bound :
      (folders : Folders) (folder : ℕ) (made : Option FilePath × d.State) (m : ℕ)
      → length folders < m
      → length ((new_root ch d folders folder made).1) ≤ m
  unfolding new_root
  new_root_bound folders folder (none, s) m lt = omega arith
  new_root_bound folders folder (some root, s) m lt =
      omega (arith, length-insert folder root folders)

  root_of_bound :
      (s : d.State) (folders : Folders) (base : FilePath) (folder : ℕ) (first : Text)
      (known : Option FilePath) (m : ℕ)
      → length folders ≤ m
      → (is_some known ≡ true) ⊎ (length folders < m)
      → length ((root_of ch d s folders base folder first known).1) ≤ m
  unfolding root_of
  root_of_bound s folders base folder first (some root) m within room = within
  root_of_bound s folders base folder first none m within (inl e) = cc
  root_of_bound s folders base folder first none m within (inr lt) =
      new_root_bound folders folder (create_unique_dir d s base first) m lt

  below_root_bound :
      (base rest : FilePath) (root : Option FilePath × Folders × d.State) (m : ℕ)
      → length (root.1) ≤ m
      → length ((below_root ch d base rest root).1) ≤ m
  unfolding below_root
  below_root_bound base rest (none, folders, s) m le = le
  below_root_bound base rest (some root, folders, s) m le = le

  in_folder_bound :
      (s : d.State) (folders : Folders) (base : FilePath) (folder : ℕ) (comps : Option (List Text))
      (m : ℕ)
      → length folders ≤ m
      → (is_some (get folder folders) ≡ true) ⊎ (length folders < m)
      → length ((in_folder ch d s folders base folder comps).1) ≤ m
  unfolding in_folder folder_root
  in_folder_bound s folders base folder none m within room = within
  in_folder_bound s folders base folder (some []) m within room = within
  in_folder_bound s folders base folder (some (first ∷ rest)) m within room =
      below_root_bound base rest _ m
        (root_of_bound s folders base folder first (get folder folders) m within room)

  pub target_dir_bound :
      (s : d.State) (b : ReceiveBudget) (folders : Folders) (base : FilePath) (folder : Option ℕ)
      (dir : Option Text)
      → length folders ≤ b.max_folders
      → folder_limit b folders folder ≡ none
      → length ((target_dir ch d s folders base folder dir).1) ≤ b.max_folders
  unfolding target_dir
  target_dir_bound s b folders base (some folder) (some dir) within e =
      in_folder_bound s folders base folder _ b.max_folders within
        (folder_allowed b folders folder e)
  target_dir_bound s b folders base (some folder) none within e = within
  target_dir_bound s b folders base none (some dir) within e = within
  target_dir_bound s b folders base none none within e = within

  -- A file that was made for a transfer: nothing is written of it yet.
  abbrev pub Fresh : ℕ → ℕ → Option ActiveReceive → Type 0
  Fresh id size none = Unit {0}
  Fresh id size (some a) = (a.id ≡ id) × (a.size ≡ size) × (a.written ≡ 0)

  attempt-Fresh :
      (placeholder part : Made) (a : ActiveReceive) (s1 s2 s3 : d.State)
      (again : d.State → Option ActiveReceive × d.State) (id size : ℕ)
      → Fresh id size (some a)
      → ((s : d.State) → Fresh id size ((again s).0))
      → Fresh id size ((attempt d placeholder part a s1 s2 s3 again).0)
  unfolding attempt
  attempt-Fresh made made a s1 s2 s3 again id size new later = new
  attempt-Fresh made already_exists a s1 s2 s3 again id size new later = later s3
  attempt-Fresh made failed a s1 s2 s3 again id size new later = tt
  attempt-Fresh already_exists part a s1 s2 s3 again id size new later = later s1
  attempt-Fresh failed part a s1 s2 s3 again id size new later = tt

  create_unique_from-Fresh :
      (tries n : ℕ) (s : d.State) (dir : FilePath) (name : Text) (id size : ℕ)
      → Fresh id size ((create_unique_from d tries n s dir name id size).0)
  unfolding create_unique_from
  create_unique_from-Fresh zero n s dir name id size = tt
  create_unique_from-Fresh (suc tries) n s dir name id size =
      attempt-Fresh _ _ _ _ _ _ (λ s'. create_unique_from d tries (n + 1) s' dir name id size) id
        size (refl, refl, refl) (λ s'. create_unique_from-Fresh tries (n + 1) s' dir name id size)

  -- What opening a file keeps of the receiver.
  abbrev pub Opened : Receiver d → ℕ → ℕ → Option ActiveReceive × Receiver d → Type 0
  Opened r id size (created, r') =
      Fresh id size created
      × (r'.budget ≡ r.budget)
      × (r'.active ≡ r.active)
      × (length r'.folders ≤ r.budget.max_folders)

  pub open_in-Opened :
      (r : Receiver d) (id : ℕ) (name : Text) (size : ℕ)
      (target : Option FilePath × Folders × d.State)
      → length (target.1) ≤ r.budget.max_folders
      → Opened r id size (open_in ch d r id name size target)
  unfolding open_in create_unique
  open_in-Opened r id name size (none, folders, s) le = (tt, refl, refl, le)
  open_in-Opened r id name size (some target, folders, s) le =
      (create_unique_from-Fresh 10000 0 s target name id size, refl, refl, le)
