-- ===== src/Tests/Wake.antt =====
-- server/src/wake.rs, with a desktop that sleeps, a laptop in its network and a host elsewhere.
use rcdesk.Common.{
  String, none, some, if◌then◌else◌, List, [], ◌∷◌, ◌==◌, string_test, nat_test, ◌≡◌, refl,
}
use rcdesk.Wake.{NetIface, WakeTarget, Ipv4, network, matching, select_wakers}
use rcdesk.Files.Names.{codes}
use rcdesk.Wake.Cards.{normalize_mac, checked_card, validate_ifaces}
use rcdesk.Wake.Forms.{normalize_mac_idem}
use rcdesk.Wake.Networks.{owner_networks}

-- Addresses of the tests as texts and back.
abbrev addresses : Ipv4
addresses = record {
  parse = λ s.
      if s == "192.168.1.5"
      then some 3_232_235_781
      else if s == "192.168.1.9"
      then some 3_232_235_785
      else if s == "10.0.0.2"
      then some 167_772_162
      else none;
  show = λ n. if n == 3_232_236_031 then "192.168.1.255" else "10.255.255.255";
}

abbrev desktop : NetIface
desktop = record { mac = "d0:50:99:00:00:01"; ipv4 = "192.168.1.5"; prefix = 24 }

abbrev laptop : NetIface
laptop = record { mac = "d0:50:99:00:00:02"; ipv4 = "192.168.1.9"; prefix = 24 }

abbrev elsewhere : NetIface
elsewhere = record { mac = "d0:50:99:00:00:03"; ipv4 = "10.0.0.2"; prefix = 8 }

abbrev online : List (String × List NetIface)
online = ("office", elsewhere ∷ []) ∷ ("laptop", laptop ∷ elsewhere ∷ []) ∷ []

-- The desktop's card twice: one target.
abbrev woken : WakeTarget
woken = record { mac = "d0:50:99:00:00:01"; broadcast = "192.168.1.255" }

select_wakers_run :
    select_wakers addresses (desktop ∷ desktop ∷ []) online ≡ ("laptop", woken ∷ []) ∷ []
unfolding select_wakers network matching
select_wakers_run = refl

abbrev untrimmed : String → String
untrimmed s = s

normalized_mac : normalize_mac untrimmed "D0-50-99-0A-00-01" ≡ some "d0:50:99:0a:00:01"
unfolding normalize_mac
normalized_mac = refl

multicast_mac : normalize_mac untrimmed "01:50:99:0a:00:01" ≡ none
unfolding normalize_mac
multicast_mac = refl

normalize_mac_idem_example : normalize_mac untrimmed "d0:50:99:0a:00:01" ≡ some "d0:50:99:0a:00:01"
normalize_mac_idem_example =
    normalize_mac_idem untrimmed "D0-50-99-0A-00-01" "d0:50:99:0a:00:01" normalized_mac refl

-- A card with a prefix that is too short is left out.
taken_cards :
    validate_ifaces untrimmed addresses (desktop ∷ record desktop { prefix = 7 } ∷ [])
    ≡ record desktop { ipv4 = "10.255.255.255" } ∷ []
unfolding validate_ifaces normalize_mac checked_card
taken_cards = refl

shared_network :
    owner_networks addresses (
      (codes "a", desktop ∷ [])
      ∷ (codes "b", laptop ∷ desktop ∷ [])
      ∷ (codes "a", laptop ∷ [])
      ∷ [])
    ≡ record { network = "10.255.255.255"; prefix = 24; label = codes "a, b" } ∷ []
unfolding owner_networks network
shared_network = refl
