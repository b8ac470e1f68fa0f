-- ===== src/Files/Downloader.antt =====
-- host/src/files/mod.rs, `Downloader`: what the host offers to the client, and which offer it sends.
use rcdesk.Common.{
  ℕ, ◌+◌, ◌%◌, ◌^◌, Option, none, some, Bool, true, false, not, ◌&&◌, List, [], ◌∷◌, ◌++◌, map,
  if◌then◌else◌, leb, ◌==◌, nat_test,
}
use rcdesk.Files.Names.{Text, codes, same_text}
use rcdesk.Files.Disk.{FilePath}
use rcdesk.Files.Receiver.{AbortReason, OfferedFile, FileMessage, offer}

-- `HOST_ID_BASE` of proto/src/file.rs
abbrev pub host_id_base : ℕ
host_id_base = 2 ^ 31

pub data EntryKind : Type 0 where
  file folder : EntryKind

pub record OfferEntry : Type 0 where
  pub path : FilePath
  pub name : Text
  pub size : ℕ
  pub kind : EntryKind

-- `Outgoing`: whether its task is running, and its flag.
pub record Outgoing : Type 0 where
  pub running : Bool
  pub cancel : Bool

pub record Downloader : Type 0 where
  pub list : Option (ℕ × List OfferEntry)
  pub next_list_id : ℕ
  pub sending : Option Outgoing

unfoldable pub new_downloader : Downloader
new_downloader = record { list = none; next_list_id = 1; sending = none }

-- What a handler does: a message to the client, or `send_files` on entries for a request.
pub data Action : Type 0 where
  tell : FileMessage → Action
  send_files : List OfferEntry → Option ℕ → Action

-- What `metadata` answers for a path; for a directory with the size of its zip, if it can be walked.
pub data Meta : Type 0 where
  regular : ℕ → Meta
  directory : Option ℕ → Meta
  neither unknown : Meta

-- `Path::file_name`, or `file`
unfoldable pub file_name_of : FilePath → Text
file_name_of [] = codes "file"
file_name_of (c ∷ []) = if same_text c (codes "..") then codes "file" else c
file_name_of (c ∷ e ∷ path) = file_name_of (e ∷ path)

unfoldable pub take_list_id : Downloader → ℕ × Downloader
take_list_id d = (d.next_list_id, record d { next_list_id = (d.next_list_id + 1) % 2 ^ 32 })

unfoldable pub clear_list : Downloader → Option (ℕ × List OfferEntry) → Downloader × List Action
unfolding take_list_id
clear_list d none = (d, [])
clear_list d (some old) =
    let (id, d') = take_list_id d in (record d' { list = none }, tell (offer id [] 0) ∷ [])

unfoldable pub clear : Downloader → Downloader × List Action
unfolding clear_list
clear d = clear_list d d.list

unfoldable pub with_path : FilePath × Meta → List OfferEntry → List OfferEntry
unfolding file_name_of
with_path (path, regular size) rest =
    record { path = path; name = file_name_of path; size = size; kind = file } ∷ rest
with_path (path, directory (some size)) rest =
    record { path = path; name = file_name_of path ++ codes ".zip"; size = size; kind = folder }
    ∷ rest
with_path (path, directory none) rest = rest
with_path (path, neither) rest = rest
with_path (path, unknown) rest = rest

unfoldable pub entries_of : List (FilePath × Meta) → List OfferEntry
unfolding with_path
entries_of [] = []
entries_of (p ∷ paths) = with_path p (entries_of paths)

unfoldable pub offered : OfferEntry → OfferedFile
offered e = record { name = e.name; size = e.size }

unfoldable pub offer_entries : Downloader → List OfferEntry → Downloader × List Action
unfolding clear take_list_id offered
offer_entries d [] = clear d
offer_entries d (e ∷ entries) =
    let (id, d') = take_list_id d in
    (
      record d' { list = some (id, e ∷ entries) },
      tell (offer id (map offered (e ∷ entries)) 0) ∷ [],
    )

-- `Downloader::offer`, for paths with what `metadata` says of them.
unfoldable pub offer_paths : Downloader → List (FilePath × Meta) → Downloader × List Action
unfolding offer_entries entries_of
offer_paths d paths = offer_entries d (entries_of paths)

-- A download is running and was not cancelled.
unfoldable pub is_serving : Option Outgoing → Bool
is_serving none = false
is_serving (some out) = out.running && not out.cancel

-- The task has ended.
abbrev pub ended_task : Option Outgoing → Option Outgoing
ended_task none = none
ended_task (some out) = some (record out { running = false })

unfoldable pub serve :
    Downloader → ℕ → Option ℕ → Option (ℕ × List OfferEntry) → Downloader × List Action
serve d list_id request none = (d, [])
serve d list_id request (some (current, [])) = (d, [])
serve d list_id request (some (current, e ∷ entries)) =
    if current == list_id
    then (
      record d { sending = some (record { running = true; cancel = false }) },
      send_files (e ∷ entries) request ∷ [],
    )
    else (d, [])

-- A running task that was cancelled is waited for.
unfoldable pub fetch_list : Downloader → ℕ → Option ℕ → Downloader × List Action
unfolding is_serving serve
fetch_list d list_id request =
    if is_serving d.sending
    then (d, [])
    else serve (record d { sending = ended_task d.sending }) list_id request d.list

abbrev pub stops : AbortReason → Bool
stops AbortReason.cancelled = true
stops AbortReason.protocol = true
stops reason = false

unfoldable pub cancel_out : ℕ → AbortReason → Option Outgoing → Option Outgoing
cancel_out id reason none = none
cancel_out id reason (some out) =
    if out.running && leb host_id_base id && stops reason
    then some (record out { cancel = true })
    else some out

unfoldable pub client_abort : Downloader → ℕ → AbortReason → Downloader
unfolding cancel_out
client_abort d id reason = record d { sending = cancel_out id reason d.sending }

-- The commands of the clipboard's watcher, the client's messages, and the end of the running task.
pub data DownloadEvent : Type 0 where
  offer_command : List (FilePath × Meta) → DownloadEvent
  clear_command : DownloadEvent
  fetched : ℕ → Option ℕ → DownloadEvent
  aborted : ℕ → AbortReason → DownloadEvent
  task_ended : DownloadEvent

unfoldable pub download_step : Downloader → DownloadEvent → Downloader × List Action
unfolding offer_paths clear fetch_list client_abort
download_step d (offer_command paths) = offer_paths d paths
download_step d clear_command = clear d
download_step d (fetched list_id request) = fetch_list d list_id request
download_step d (aborted id reason) = (client_abort d id reason, [])
download_step d task_ended = (record d { sending = ended_task d.sending }, [])
