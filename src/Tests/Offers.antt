-- ===== src/Tests/Offers.antt =====
-- host/src/files/mod.rs: an offer that is fetched.
use rcdesk.Common.{ℕ, Option, none, some, false, List, [], ◌∷◌, ◌≡◌, refl, map}
use rcdesk.Files.Names.{codes}
use rcdesk.Files.Downloader.{
  OfferEntry, file, new_downloader, send_files, regular, neither, directory, offered, is_serving,
  fetch_list, DownloadEvent, offer_command, clear_command, download_step,
}
use rcdesk.Files.Laws.Offers.{watched, fetch_sends_last_offer}

-- A file, a folder that cannot be walked and something else.
abbrev copied : List DownloadEvent
copied =
    offer_command (
      ((codes "home" ∷ codes "a.txt" ∷ []), regular 5)
      ∷ ((codes "home" ∷ []), directory none)
      ∷ ((codes "dev" ∷ []), neither)
      ∷ [])
    ∷ []

abbrev a_txt : OfferEntry
a_txt = record {
  path = codes "home" ∷ codes "a.txt" ∷ [];
  name = codes "a.txt";
  size = 5;
  kind = file;
}

abbrev request : Option ℕ
request = some 8

copied_sent :
    (fetch_list ((watched new_downloader none copied).0) 1 request).1
    ≡ send_files (a_txt ∷ []) request ∷ []
unfolding fetch_list watched download_step new_downloader
copied_sent = refl

fetch_sends_last_offer_example :
    ((watched new_downloader none copied).1 ≡ some (1, map offered (a_txt ∷ [])))
    × (request ≡ request)
    × (is_serving ((watched new_downloader none copied).0.sending) ≡ false)
fetch_sends_last_offer_example =
    fetch_sends_last_offer copied 1 request request (a_txt ∷ []) copied_sent

-- After a clear the old offer is not served.
withdrawn :
    (fetch_list
      ((watched new_downloader none
        (offer_command (((codes "a" ∷ []), regular 1) ∷ []) ∷ clear_command ∷ [])).0)
      1
      none).1
    ≡ []
unfolding fetch_list watched download_step new_downloader
withdrawn = refl
