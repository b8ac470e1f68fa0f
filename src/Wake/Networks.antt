-- ===== src/Wake/Networks.antt =====
-- server/src/wake.rs, `owner_networks`: the networks of an owner's hosts, with the hosts' names.
use rcdesk.Common.{
  ℕ, String, Option, none, some, ◌&&◌, if◌then◌else◌, List, [], ◌∷◌, ◌++◌, any, ◌==◌, nat_test,
  string_test,
}
use rcdesk.Files.Names.{Text, same_text}
use rcdesk.Wake.{NetIface, Network, Ipv4, network}

-- `proto::signal::WakeNetwork`
pub record WakeNetwork : Type 0 where
  pub network : String
  pub prefix : ℕ
  pub label : Text

abbrev first_grows : ℕ → List Text → List Text
first_grows c [] = (c ∷ []) ∷ []
first_grows c (part ∷ parts) = (c ∷ part) ∷ parts

-- `split(", ")`
unfoldable pub names_in : Text → List Text
names_in [] = [] ∷ []
names_in (c ∷ []) = (c ∷ []) ∷ []
names_in (c ∷ d ∷ s) =
    let after = names_in s in
    let rest = names_in (d ∷ s) in
    if (c == b',') && (d == 0x20) then [] ∷ after else first_grows c rest

unfoldable pub with_name : Text → WakeNetwork → WakeNetwork
unfolding names_in
with_name name n =
    if any (λ l. same_text l name) (names_in n.label)
    then n
    else record n { label = n.label ++ b',' ∷ 0x20 ∷ name }

-- The network's entry gets the name, or the network an entry.
unfoldable pub enter : String → ℕ → Text → List WakeNetwork → List WakeNetwork
unfolding with_name
enter net prefix name [] = record { network = net; prefix = prefix; label = name } ∷ []
enter net prefix name (n ∷ out) =
    let rest = enter net prefix name out in
    if (n.network == net) && (n.prefix == prefix) then with_name name n ∷ out else n ∷ rest

module _ (ip : Ipv4) where
  unfoldable pub enter_card : Text → Option Network → List WakeNetwork → List WakeNetwork
  unfolding enter
  enter_card name none out = out
  enter_card name (some n) out = enter (ip.show n.net) n.prefix name out

  unfoldable pub enter_cards : Text → List NetIface → List WakeNetwork → List WakeNetwork
  unfolding enter_card
  enter_cards name [] out = out
  enter_cards name (iface ∷ ifaces) out =
      enter_cards name ifaces (enter_card name (network ip iface) out)

  unfoldable pub enter_hosts : List (Text × List NetIface) → List WakeNetwork → List WakeNetwork
  unfolding enter_cards
  enter_hosts [] out = out
  enter_hosts ((name, ifaces) ∷ hosts) out = enter_hosts hosts (enter_cards name ifaces out)

  unfoldable pub owner_networks : List (Text × List NetIface) → List WakeNetwork
  unfolding enter_hosts
  owner_networks hosts = enter_hosts hosts []
