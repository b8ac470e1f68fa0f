-- ===== src/Files/Laws/Offers.antt =====
-- host/src/files/mod.rs: what the host sends is what it offered last.
use rcdesk.Common.{
  ℕ, Option, none, some, false, List, [], ◌∷◌, map, ◌≡◌, refl, inl, inr, Bool-cases, arith, ◌==◌,
  ==_iff, nat_test,
}
use rcdesk.Files.Receiver.{OfferedFile, offer}
use rcdesk.Files.Downloader.{
  OfferEntry, Downloader, new_downloader, Action, tell, send_files, clear_list, clear, entries_of,
  offered, offer_entries, offer_paths, is_serving, ended_task, serve, fetch_list, client_abort,
  DownloadEvent, offer_command, clear_command, fetched, aborted, task_ended, download_step,
}

-- The last offer that the client has been told, with its id.
abbrev pub LastOffer : Type 0
LastOffer = Option (ℕ × List OfferedFile)

abbrev pub seen : LastOffer → List Action → LastOffer
seen last [] = last
seen last (tell (offer id files skipped) ∷ actions) = seen (some (id, files)) actions
seen last (action ∷ actions) = seen last actions

-- The downloader and the last offer after the events.
unfoldable pub watched : Downloader → LastOffer → List DownloadEvent → Downloader × LastOffer
watched d last [] = (d, last)
watched d last (e ∷ events) =
    watched ((download_step d e).0) (seen last ((download_step d e).1)) events

-- The list is the last offer.
Told : Option (ℕ × List OfferEntry) → LastOffer → Type 0
Told none last = Unit {0}
Told (some (id, entries)) last = last ≡ some (id, map offered entries)

clear_list-Told :
    (d : Downloader) (list : Option (ℕ × List OfferEntry)) (last : LastOffer)
    → d.list ≡ list
    → Told ((clear_list d list).0.list) (seen last ((clear_list d list).1))
unfolding clear_list Told
clear_list-Told d none last e = rw e tt
clear_list-Told d (some old) last e = tt

offer_entries-Told :
    (d : Downloader) (entries : List OfferEntry) (last : LastOffer)
    → Told ((offer_entries d entries).0.list) (seen last ((offer_entries d entries).1))
unfolding offer_entries clear Told
offer_entries-Told d [] last = clear_list-Told d d.list last refl
offer_entries-Told d (e ∷ entries) last = refl

serve-Told :
    (d : Downloader) (list_id : ℕ) (request : Option ℕ) (list : Option (ℕ × List OfferEntry))
    (last : LastOffer)
    → Told d.list last
    → Told ((serve d list_id request list).0.list) (seen last ((serve d list_id request list).1))
unfolding serve
serve-Told d list_id request none last t = t
serve-Told d list_id request (some (current, [])) last t = t
serve-Told d list_id request (some (current, e ∷ entries)) last t =
    elim (Bool-cases (current == list_id)) [ inl same ↦ rw same t | inr off ↦ rw off t ]

download_step-Told :
    (d : Downloader) (e : DownloadEvent) (last : LastOffer)
    → Told d.list last
    → Told ((download_step d e).0.list) (seen last ((download_step d e).1))
unfolding download_step offer_paths clear fetch_list client_abort
download_step-Told d (offer_command paths) last t = offer_entries-Told d (entries_of paths) last
download_step-Told d clear_command last t = clear_list-Told d d.list last refl
download_step-Told d (fetched list_id request) last t = elim (Bool-cases (is_serving d.sending)) [
  | inl busy ↦ rw busy t
  | inr idle ↦
      rw idle
        (serve-Told (record d { sending = ended_task d.sending }) list_id request d.list last t)
]
download_step-Told d (aborted id reason) last t = t
download_step-Told d task_ended last t = t

watched-Told :
    (events : List DownloadEvent) (d : Downloader) (last : LastOffer)
    → Told d.list last
    → Told ((watched d last events).0.list) ((watched d last events).1)
unfolding watched
watched-Told [] d last t = t
watched-Told (e ∷ events) d last t =
    watched-Told events ((download_step d e).0) (seen last ((download_step d e).1))
      (download_step-Told d e last t)

serve_list :
    (d : Downloader) (list_id : ℕ) (request : Option ℕ) (list : Option (ℕ × List OfferEntry))
    (last : LastOffer) (entries : List OfferEntry) (served : Option ℕ)
    → Told list last
    → (serve d list_id request list).1 ≡ send_files entries served ∷ []
    → (last ≡ some (list_id, map offered entries)) × (served ≡ request)
unfolding serve Told
serve_list d list_id request none last entries served t e = absurd (ground arith)
serve_list d list_id request (some (current, [])) last entries served t e = absurd (ground arith)
serve_list d list_id request (some (current, x ∷ xs)) last entries served t e =
    elim (Bool-cases (current == list_id)) [
      | inr off ↦ absurd (ground arith)
      | inl same ↦
          let id : current ≡ list_id = (==_iff current list_id).0 same in
          (ground arith, ground arith)
    ]

-- After any commands and messages of a session: if a fetch makes the host send files, they are those of
-- the last offer that the client was told, the fetch named that offer's id, the files are sent for the
-- fetch's own request, and no other download was running that the client had not cancelled.
pub fetch_sends_last_offer :
    (events : List DownloadEvent) (list_id : ℕ) (request served : Option ℕ)
    (entries : List OfferEntry)
    → (fetch_list ((watched new_downloader none events).0) list_id request).1
      ≡ send_files entries served ∷ []
    → ((watched new_downloader none events).1 ≡ some (list_id, map offered entries))
      × (served ≡ request)
      × (is_serving ((watched new_downloader none events).0.sending) ≡ false)
unfolding fetch_list Told new_downloader
fetch_sends_last_offer events list_id request served entries e =
    let d = (watched new_downloader none events).0 in
    elim (Bool-cases (is_serving d.sending)) [
      | inl busy ↦ absurd (ground arith)
      | inr idle ↦
          let (last, own) =
            serve_list (record d { sending = ended_task d.sending }) list_id request d.list
              ((watched new_downloader none events).1) entries served
              (watched-Told events new_downloader none tt) (rw idle at e) in
          (last, own, idle)
    ]
