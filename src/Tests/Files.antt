-- ===== src/Tests/Files.antt =====
-- host/src/files/mod.rs, over a disk in memory.
use rcdesk.Common.{
  ℕ, zero, suc, Option, none, some, Bool, true, false, ◌&&◌, ◌||◌, List, [], ◌∷◌, ◌++◌,
  if◌then◌else◌, ltb, leb, ◌==◌, nat_test, ◌≡◌, refl, ap, arith,
}
use rcdesk.Files.Names.{
  Text, codes, Chars, bytes, same_text, sanitize_file_name, with_suffix, split_dir,
}
use rcdesk.Files.Disk.{
  Disk, DiskLaws, FilePath, Removal, removed, not_found, Made, made, already_exists,
}
use rcdesk.Files.Receiver.{
  start, end_of, abort, saved, new_receiver, create_unique, limit_exceeded, protocol,
}
use rcdesk.Files.Handlers.{Event, control, chunk, on_message}
use rcdesk.Files.Laws.Counted.{bytes_begun}
use rcdesk.Files.Laws.Begun.{followed}
use rcdesk.Files.Laws.Whole.{IsWhole, saved-IsWhole}

abbrev unicode : Chars
unicode = record {
  is_control = λ c. ltb c 32 || (leb 127 c && ltb c 160);
  is_whitespace =
      λ c. (leb 9 c && leb c 13) || (c == 32) || (c == 0x85) || (c == 0xa0) || (c == 0x3000);
}

parent_name : sanitize_file_name unicode (codes "a\\..") ≡ codes "file"
unfolding sanitize_file_name
parent_name = refl

device_name : sanitize_file_name unicode (codes "com1.txt") ≡ codes "_com1.txt"
unfolding sanitize_file_name
device_name = refl

abbrev letters : ℕ → Text
letters zero = []
letters (suc n) = b'a' ∷ letters n

-- A device's name with a long extension is cut to 200 bytes and then gets one more.
long_device_name : bytes (sanitize_file_name unicode (codes "CON." ++ letters 300)) ≡ 201
unfolding sanitize_file_name
long_device_name = refl

numbered : with_suffix (codes "notes.txt") 12 ≡ codes "notes (12).txt"
unfolding with_suffix
numbered = refl

folder_names :
    split_dir unicode (codes "Photos/./../2024")
    ≡ some (codes "Photos" ∷ codes "file" ∷ codes "2024" ∷ [])
unfolding split_dir
folder_names = refl

abbrev same_path : FilePath → FilePath → Bool
same_path [] [] = true
same_path (c ∷ p) (e ∷ q) = same_text c e && same_path p q
same_path p q = false

same_text_self : (s : Text) → same_text s s ≡ true
same_text_self [] = refl
same_text_self (c ∷ s) = ground (arith, same_text_self s)

same_path_self : (p : FilePath) → same_path p p ≡ true
same_path_self [] = refl
same_path_self (c ∷ p) = ground (arith, same_text_self c, same_path_self p)

abbrev Memory : Type 0
Memory = List (FilePath × List ℕ)

abbrev stored : Memory → FilePath → Option (List ℕ)
stored [] p = none
stored ((q, v) ∷ m) p = if same_path q p then some v else stored m p

abbrev create_in : Memory → FilePath → Option (List ℕ) → Made × Memory
create_in m p none = (made, (p, []) ∷ m)
create_in m p (some v) = (already_exists, m)

abbrev append_in : Memory → FilePath → List ℕ → Option (List ℕ) → Bool × Memory
append_in m p new none = (false, m)
append_in m p new (some old) = (true, (p, old ++ new) ∷ m)

abbrev rename_in : Memory → FilePath → Option (List ℕ) → Bool × Memory
rename_in m q none = (false, m)
rename_in m q (some v) = (true, (q, v) ∷ m)

abbrev without : Memory → FilePath → Memory
without [] p = []
without ((q, v) ∷ m) p = let rest = without m p in if same_path q p then rest else (q, v) ∷ rest

abbrev remove_in : Memory → FilePath → Option (List ℕ) → Removal × Memory
remove_in m p none = (not_found, m)
remove_in m p (some v) = (removed, without m p)

abbrev memory : Disk
memory = record {
  State = Memory;
  create_dir_all = λ m p. (true, m);
  free_space = λ m p. some 2_000_000_000;
  create_dir = λ m p. create_in m p (stored m p);
  create_new = λ m p. create_in m p (stored m p);
  write_all = λ m p new. append_in m p new (stored m p);
  flush = λ m p. (true, m);
  rename = λ m p q. rename_in m q (stored m p);
  remove_file = λ m p. remove_in m p (stored m p);
  contents = stored;
}

create_in_law :
    (m : Memory) (p : FilePath) (o : Option (List ℕ))
    → (create_in m p o).0 ≡ made
    → stored ((create_in m p o).1) p ≡ some []
create_in_law m p none e = rw (same_path_self p) refl
create_in_law m p (some v) e = absurd (ground arith)

append_in_law :
    (m : Memory) (p : FilePath) (old new : List ℕ) (o : Option (List ℕ))
    → (append_in m p new o).0 ≡ true
    → o ≡ some old
    → stored ((append_in m p new o).1) p ≡ some (old ++ new)
append_in_law m p old new none e h = absurd (ground arith)
append_in_law m p old new (some v) e h =
    let same : v ≡ old = ground arith in rw (same_path_self p) (ap (λ x. some (x ++ new)) same)

rename_in_law :
    (m : Memory) (q : FilePath) (o : Option (List ℕ))
    → (rename_in m q o).0 ≡ true
    → stored ((rename_in m q o).1) q ≡ o
rename_in_law m q none e = absurd (ground arith)
rename_in_law m q (some v) e = rw (same_path_self q) refl

memory-DiskLaws : DiskLaws memory
memory-DiskLaws = record {
  create_new_law = λ m p e. create_in_law m p (stored m p) e;
  write_all_law = λ m p old new e h. append_in_law m p old new (stored m p) e h;
  flush_law = λ m p e. refl;
  rename_law = λ m p q e. rename_in_law m q (stored m p) e;
}

abbrev downloads : FilePath
downloads = codes "Downloads" ∷ []

-- Two chunks of a file of five bytes.
abbrev upload : List (Event unicode memory)
upload =
    control (start 1 (codes "a.txt") 5 none none none)
    ∷ chunk (1 ∷ 2 ∷ 3 ∷ [])
    ∷ chunk (4 ∷ 5 ∷ [])
    ∷ []

one_begun : bytes_begun unicode memory (new_receiver memory (some downloads) []) upload ≡ 5
unfolding bytes_begun on_message new_receiver limit_exceeded create_unique with_suffix
    sanitize_file_name
one_begun = refl

upload_saved :
    (on_message unicode memory
      ((followed unicode memory (new_receiver memory (some downloads) []) none upload).0)
      (control (end_of 1))).1
    ≡ saved 1 (codes "a.txt") ∷ []
unfolding on_message new_receiver limit_exceeded create_unique with_suffix sanitize_file_name
upload_saved = refl

saved-IsWhole_example :
    IsWhole unicode memory memory-DiskLaws
      ((on_message unicode memory
        ((followed unicode memory (new_receiver memory (some downloads) []) none upload).0)
        (control (end_of 1))).0.disk)
      ((followed unicode memory (new_receiver memory (some downloads) []) none upload).1)
      1
      (codes "a.txt")
saved-IsWhole_example =
    saved-IsWhole unicode memory memory-DiskLaws (some downloads) [] upload 1 (codes "a.txt")
      upload_saved

-- A chunk too many ends the transfer.
too_long :
    (on_message unicode memory
      ((followed unicode memory (new_receiver memory (some downloads) []) none upload).0)
      (chunk (6 ∷ []))).1
    ≡ abort 1 protocol ∷ []
unfolding on_message new_receiver limit_exceeded create_unique with_suffix sanitize_file_name
too_long = refl
