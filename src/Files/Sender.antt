-- ===== src/Files/Sender.antt =====
-- host/src/files/mod.rs, `send_one` for a regular file: a download. What goes to the channel is a list.
use rcdesk.Common.{
  ℕ, zero, suc, ◌-◌, ◌++◌, ◌≡◌, min, Option, none, some, Bool, true, false, List, [], ◌∷◌,
  if◌then◌else◌, length, ltb,
}
use rcdesk.Files.Names.{Text}
use rcdesk.Files.Receiver.{AbortReason, FileMessage, start, end_of, abort}

abbrev pub chunk_bytes : ℕ
chunk_bytes = 65_536

-- A message or a chunk that is handed to the channel.
pub data Out : Type 0 where
  message : FileMessage → Out
  binary : List ℕ → Out

-- An open file, of std and tokio, a parameter: `read_exact` gives that many of the bytes that are left,
-- or fails.
pub record OpenFile : Type 1 where
  pub State : Type 0
  pub read_exact : State → ℕ → Option (List ℕ) × State
  pub left : State → List ℕ
  pub read_exact_law :
      (f : State) (n : ℕ) (bytes : List ℕ)
      → (read_exact f n).0 ≡ some bytes
      → (length bytes ≡ n) × (left f ≡ bytes ++ left ((read_exact f n).1))

abbrev pub send_high_water : ℕ
send_high_water = 1_048_576

-- What one look at the channel and the cancel flag finds: the bytes that wait to be sent, and whether
-- the client cancelled.
pub record Poll : Type 0 where
  pub outstanding : ℕ
  pub cancelled : Bool

-- One round of the loop: the looks while it waits for the channel, by the patience that is left,
-- whether the client cancelled after them, and whether the channel takes the chunk.
pub record Round : Type 0 where
  pub polls : ℕ → Poll
  pub cancelled : Bool
  pub taken : Bool

-- Whether the channel takes `Start`, `Abort` and `End`; the rounds, by the fuel that is left; and how
-- many looks a wait may take. The source has no bound for those.
pub record Weather : Type 0 where
  pub start_taken : Bool
  pub abort_taken : Bool
  pub end_taken : Bool
  pub patience : ℕ
  pub rounds : ℕ → Round

-- How a wait for the channel ends.
pub data Waited : Type 0 where
  room gave_up : Waited

-- The loop that waits until few bytes are outstanding; `none` is that it waits still.
unfoldable pub await_room : ℕ → (ℕ → Poll) → Option Waited
await_room zero polls = none
await_room (suc k) polls =
    let rest = await_room k polls in
    if ltb send_high_water (polls k).outstanding
    then (if (polls k).cancelled then some gave_up else rest)
    else some room

-- How it ends: the file is sent, the client cancelled, a failure was reported, or the channel failed.
pub data Ending : Type 0 where
  finished cancelled reported channel_failed : Ending

abbrev pub if_taken : Bool → Ending → Ending
if_taken true ending = ending
if_taken false ending = channel_failed

abbrev pub after_out : Out → Option (List Out × Ending) → Option (List Out × Ending)
after_out o none = none
after_out o (some (outs, ending)) = some (o ∷ outs, ending)

unfoldable pub report : Weather → ℕ → List Out × Ending
report w id = (message (abort id AbortReason.io) ∷ [], if_taken w.abort_taken reported)

module _ (file : OpenFile) where
  -- A chunk that was read, or not, and the rounds after it.
  unfoldable pub send_chunk :
      Weather → ℕ → Bool → Option (List ℕ) → Option (List Out × Ending) → Option (List Out × Ending)
  unfolding report
  send_chunk w id taken none rest = some (report w id)
  send_chunk w id true (some bytes) rest = after_out (binary bytes) rest
  send_chunk w id false (some bytes) rest = some (binary bytes ∷ [], channel_failed)

  -- A round after its wait: the test of the cancel flag, and the chunk.
  unfoldable pub after_wait :
      Weather
      → ℕ
      → Round
      → Option Waited
      → Option (List ℕ)
      → Option (List Out × Ending)
      → Option (List Out × Ending)
  unfolding send_chunk
  after_wait w id round none got rest = none
  after_wait w id round (some gave_up) got rest = some ([], cancelled)
  after_wait w id round (some room) got rest =
      if round.cancelled then some ([], cancelled) else send_chunk w id round.taken got rest

  -- The loop, with the bytes that remain; `none` is that the fuel or the patience ran out.
  unfoldable pub send_chunks : ℕ → Weather → ℕ → file.State → ℕ → Option (List Out × Ending)
  unfolding after_wait await_room
  send_chunks zero w id f remaining = none
  send_chunks (suc fuel) w id f zero =
      some (message (end_of id) ∷ [], if_taken w.end_taken finished)
  send_chunks (suc fuel) w id f (suc n) =
      let want = min (suc n) chunk_bytes in
      let rest = send_chunks fuel w id ((file.read_exact f want).1) (suc n - want) in
      after_wait w id (w.rounds fuel) (await_room w.patience (w.rounds fuel).polls)
        ((file.read_exact f want).0) rest

  -- `send_one`, for an entry's name and offered size; without a file it could not be opened.
  unfoldable pub send_one :
      Weather → ℕ → Text → ℕ → Option ℕ → Option (ℕ × file.State) → Option (List Out × Ending)
  unfolding send_chunks report
  send_one w id name offered request none =
      let msg = message (start id name offered none none request) in
      if w.start_taken then after_out msg (some (report w id)) else some (msg ∷ [], channel_failed)
  send_one w id name offered request (some (size, f)) =
      let msg = message (start id name size none none request) in
      let rest = send_chunks (suc size) w id f size in
      if w.start_taken then after_out msg rest else some (msg ∷ [], channel_failed)
