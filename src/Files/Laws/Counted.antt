-- ===== src/Files/Laws/Counted.antt =====
-- host/src/files/mod.rs: the files that a client's messages begin, counted from outside the budget.
use rcdesk.Common.{
  ℕ, ◌+◌, Option, none, some, Bool, true, false, List, [], ◌∷◌, nat_test, ◌≡◌, if◌then◌else◌,
}
use rcdesk.Files.Names.{Chars}
use rcdesk.Files.Disk.{Disk}
use rcdesk.Files.Receiver.{start, ActiveReceive, ReceiveBudget, Receiver}
use rcdesk.Files.Handlers.{Event, control, on_message}

-- A transfer is one file, of the size that was announced.
abbrev pub files_in : Option ActiveReceive → ℕ
files_in none = 0
files_in (some a) = 1

abbrev pub bytes_in : Option ActiveReceive → ℕ
bytes_in none = 0
bytes_in (some a) = a.size

module _ (ch : Chars) (d : Disk) where
  abbrev pub is_start : Event ch d → Bool
  is_start (control (start id name size folder dir request)) = true
  is_start e = false

  -- A `Start` begins a file exactly if there is a transfer after it, as it ends the one before. How
  -- many files the messages begin, and their announced sizes in sum.
  unfoldable pub files_begun : Receiver d → List (Event ch d) → ℕ
  files_begun r [] = 0
  files_begun r (e ∷ events) =
      let r' = (on_message ch d r e).0 in
      (if is_start e then files_in r'.active else 0) + files_begun r' events

  unfoldable pub bytes_begun : Receiver d → List (Event ch d) → ℕ
  bytes_begun r [] = 0
  bytes_begun r (e ∷ events) =
      let r' = (on_message ch d r e).0 in
      (if is_start e then bytes_in r'.active else 0) + bytes_begun r' events

  -- The budget has grown by those files and bytes.
  abbrev Grown : ℕ → ℕ → ReceiveBudget → ReceiveBudget → Type 0
  Grown files bytes b b' = (b'.files ≡ files + b.files) × (b'.bytes ≡ bytes + b.bytes)

  abbrev Charged : Receiver d → Receiver d → Type 0
  Charged r r' = Grown (files_in r'.active) (bytes_in r'.active) r.budget r'.budget
