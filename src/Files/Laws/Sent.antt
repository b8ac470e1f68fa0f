-- ===== src/Files/Laws/Sent.antt =====
-- host/src/files/mod.rs: a download that ends with `End` carries the file's bytes.
use rcdesk.Common.{
  ℕ, zero, suc, ◌+◌, ◌-◌, ◌<◌, ◌≤◌, ◌⊎◌, ◌==◌, nat_test, ==_iff, ltb, min, Option, none, some, Bool,
  true, false, List, [], ◌∷◌, ◌++◌, ◌≡◌, refl, sym, ap, ◌∙◌, inl, inr, Bool-cases, arith, length,
  length-append, if◌then◌else◌,
}
use mathlib.Core.List.{append_assoc}
use mathlib.Core.Path.{subst}
use rcdesk.Files.Names.{Text}
use rcdesk.Files.Receiver.{start, end_of}
use rcdesk.Files.Sender.{
  Out, message, binary, OpenFile, Weather, Ending, channel_failed, report, send_chunk, send_chunks,
  send_one, chunk_bytes, after_out, Poll, Round, Waited, room, gave_up, await_room, after_wait,
  send_high_water,
}

-- The bytes of the chunks, in their order.
abbrev pub carried : List Out → List ℕ
carried [] = []
carried (binary bytes ∷ outs) = bytes ++ carried outs
carried (message m ∷ outs) = carried outs

-- Whether an `End` was handed over.
abbrev pub ends : List Out → Bool
ends [] = false
ends (message (end_of id) ∷ outs) = true
ends (o ∷ outs) = ends outs

-- Within the patience some look finds the channel drained or the transfer cancelled.
abbrev pub Ends : ℕ → Round → Type 0
Ends patience round =
    (k : ℕ) × (k < patience)
    × (((round.polls k).outstanding ≤ send_high_water) ⊎ ((round.polls k).cancelled ≡ true))

await_room_ends :
    (patience k : ℕ) (polls : ℕ → Poll)
    → k < patience
    → ((polls k).outstanding ≤ send_high_water) ⊎ ((polls k).cancelled ≡ true)
    → (waited : Waited) × (await_room patience polls ≡ some waited)
unfolding await_room
await_room_ends zero k polls lt h = absurd (omega arith)
await_room_ends (suc n) k polls lt h =
    elim (Bool-cases (ltb send_high_water (polls n).outstanding)) [
      | inr low ↦ (room, rw low refl)
      | inl high ↦ elim (Bool-cases (polls n).cancelled) [
        | inl off ↦ (gave_up, rw (high, off) refl)
        | inr on ↦ elim (Bool-cases (n == k)) [
          | inl same ↦
              let e : n ≡ k = (==_iff n k).0 same in
              absurd (
                not_yet n polls high on (
                  subst
                    (λ i. ((polls i).outstanding ≤ send_high_water) ⊎ ((polls i).cancelled ≡ true))
                    (sym e) h))
          | inr other ↦
              let (waited, found) = await_room_ends n k polls (ground (arith, ==_iff n k)) h in
              (waited, rw (high, on) found)
        ]
      ]
    ]
  where
    not_yet :
        (n : ℕ) (polls : ℕ → Poll)
        → ltb send_high_water (polls n).outstanding ≡ true
        → (polls n).cancelled ≡ false
        → ((polls n).outstanding ≤ send_high_water) ⊎ ((polls n).cancelled ≡ true)
        → ⊥
    not_yet n polls high on (inl low) = ground arith
    not_yet n polls high on (inr off) = ground arith

module _ (file : OpenFile) where
  -- With its `End`, a transfer carries the next `n` bytes of the file.
  abbrev pub IsComplete : file.State → ℕ → List Out → Type 0
  IsComplete f n outs =
      ends outs ≡ true
      → (length (carried outs) ≡ n) × (rest : List ℕ) × (file.left f ≡ carried outs ++ rest)

  abbrev CompleteIn : file.State → ℕ → Option (List Out × Ending) → Type 0
  CompleteIn f n answer = (out : List Out × Ending) × (answer ≡ some out) × IsComplete f n (out.0)

  send_chunk-Complete :
      (w : Weather) (id : ℕ) (taken : Bool) (f f' : file.State) (n left : ℕ) (got : Option (List ℕ))
      (rest : Option (List Out × Ending))
      → ((bytes : List ℕ)
          → got ≡ some bytes
          → (length bytes + left ≡ n) × (file.left f ≡ bytes ++ file.left f'))
      → CompleteIn f' left rest
      → CompleteIn f n (send_chunk file w id taken got rest)
  unfolding send_chunk report
  send_chunk-Complete w id taken f f' n left none rest law later =
      (_, refl, λ e. absurd (ground arith))
  send_chunk-Complete w id false f f' n left (some bytes) rest law later =
      (_, refl, λ e. absurd (ground arith))
  send_chunk-Complete w id true f f' n left (some bytes) rest law ((outs, ending), e, complete) = (
    (binary bytes ∷ outs, ending),
    ap (after_out (binary bytes)) e,
    λ ended.
        let (long, tail, same) = complete ended in
        let (sum, front) = law bytes refl in
        (
          length-append bytes (carried outs) ∙ ap (λ k. length bytes + k) long ∙ sum,
          tail,
          front ∙ ap (λ t. bytes ++ t) same ∙ sym (append_assoc bytes (carried outs) tail),
        ),
  )

  after_wait-Complete :
      (w : Weather) (id : ℕ) (round : Round) (waited : Waited) (f f' : file.State) (n left : ℕ)
      (got : Option (List ℕ)) (rest : Option (List Out × Ending))
      → ((bytes : List ℕ)
          → got ≡ some bytes
          → (length bytes + left ≡ n) × (file.left f ≡ bytes ++ file.left f'))
      → CompleteIn f' left rest
      → CompleteIn f n (after_wait file w id round (some waited) got rest)
  unfolding after_wait
  after_wait-Complete w id round gave_up f f' n left got rest law later =
      (_, refl, λ e. absurd (ground arith))
  after_wait-Complete w id round room f f' n left got rest law later =
      elim (Bool-cases round.cancelled) [
        | inl t ↦ rw t (_, refl, λ e. absurd (ground arith))
        | inr off ↦ rw off (send_chunk-Complete w id round.taken f f' n left got rest law later)
      ]

  send_chunks-Complete :
      (fuel : ℕ) (w : Weather) (id : ℕ) (f : file.State) (n : ℕ)
      → ((i : ℕ) → Ends w.patience (w.rounds i))
      → n < fuel
      → CompleteIn f n (send_chunks file fuel w id f n)
  unfolding send_chunks
  send_chunks-Complete zero w id f n drains lt = absurd (omega arith)
  send_chunks-Complete (suc fuel) w id f zero drains lt = (_, refl, λ e. (refl, file.left f, refl))
  send_chunks-Complete (suc fuel) w id f (suc n) drains lt =
      let want = min (suc n) chunk_bytes in
      let read = file.read_exact f want in
      let (k, soon, h) = drains fuel in
      let (waited, e) = await_room_ends w.patience k (w.rounds fuel).polls soon h in
      rw e (
        after_wait-Complete w id (w.rounds fuel) waited f (read.1) (suc n) (suc n - want) (read.0) _
          (λ bytes got.
            let (long, front) = file.read_exact_law f want bytes got in (omega arith, front))
          (send_chunks-Complete fuel w id (read.1) (suc n - want) drains (omega arith)))

  announced :
      (taken : Bool) (f : file.State) (n : ℕ) (msg : Out) (rest : Option (List Out × Ending))
      → CompleteIn f n rest
      → (outs : List Out) × (ending : Ending) × ((if taken
            then after_out msg rest
            else some (msg ∷ [], channel_failed))
          ≡ some (msg ∷ outs, ending))
        × IsComplete f n outs
  announced true f n msg rest ((outs, ending), e, complete) =
      (outs, ending, ap (after_out msg) e, complete)
  announced false f n msg rest sent = ([], channel_failed, refl, λ e. absurd (ground arith))

  -- If every wait for the channel ends, as its bytes drain or the client cancels: whatever else the
  -- client, the channel and the file system do, the sending of an open file ends, with the fuel that the
  -- loop has, and what it hands to the channel has an `End` only after as many of the file's bytes as
  -- its `Start` announces, from the front and in order.
  pub send_one-IsComplete :
      (w : Weather) (id : ℕ) (name : Text) (offered : ℕ) (request : Option ℕ) (size : ℕ)
      (f : file.State)
      → ((i : ℕ) → Ends w.patience (w.rounds i))
      → (outs : List Out) × (ending : Ending) × (send_one file w id name offered request
            (some (size, f))
          ≡ some (message (start id name size none none request) ∷ outs, ending))
        × IsComplete f size outs
  unfolding send_one
  send_one-IsComplete w id name offered request size f drains =
      announced w.start_taken f size (message (start id name size none none request)) _
        (send_chunks-Complete (suc size) w id f size drains (omega arith))

  -- The waits of the loop are unbounded: where the channel stays full and the client does not cancel,
  -- no patience is enough.
  full_channel :
      (patience : ℕ) (polls : ℕ → Poll)
      → ((k : ℕ)
          → (ltb send_high_water (polls k).outstanding ≡ true) × ((polls k).cancelled ≡ false))
      → await_room patience polls ≡ none
  unfolding await_room
  full_channel zero polls full = refl
  full_channel (suc k) polls full =
      let (high, on) = full k in rw (high, on) (full_channel k polls full)
