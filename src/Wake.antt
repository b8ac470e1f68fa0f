-- ===== src/Wake.antt =====
-- server/src/wake.rs: which hosts of an owner can wake another. The proofs are in Wake/Laws.
pub mod Laws
pub mod Cards
pub mod Forms
pub mod Networks
use Prim.Native.Nat.{bit_and, bit_or}
use rcdesk.Common.{
  ℕ, ◌-◌, ◌*◌, ◌%◌, ◌^◌, min, String, Option, none, some, Bool, true, false, ◌&&◌, if◌then◌else◌,
  List, [], ◌∷◌, ◌++◌, any, ◌==◌, HasTest, string_test, nat_test,
}

-- `proto::signal::NetIface`; the prefix is a u8.
pub record NetIface : Type 0 where
  pub mac : String
  pub ipv4 : String
  pub prefix : ℕ

-- `proto::signal::WakeTarget`
pub record WakeTarget : Type 0 where
  pub mac : String
  pub broadcast : String

-- `std::net::Ipv4Addr` as a u32, with its `FromStr` and `Display`.
pub record Ipv4 : Type 0 where
  pub parse : String → Option ℕ
  pub show : ℕ → String

abbrev pub u32_max : ℕ
u32_max = 4_294_967_295

-- `==` of the derived `PartialEq`.
abbrev pub same_target : WakeTarget → WakeTarget → Bool
same_target a b = (a.mac == b.mac) && (a.broadcast == b.broadcast)

unfoldable pub mask : ℕ → ℕ
mask prefix = if prefix == 0 then 0 else u32_max * 2 ^ (32 - min prefix 32) % 2 ^ 32

-- The network, its prefix and its broadcast address.
pub record Network : Type 0 where
  pub net : ℕ
  pub prefix : ℕ
  pub broadcast : ℕ

abbrev pub same_network : Network → Network → Bool
same_network a b = (a.net == b.net) && (a.prefix == b.prefix)

module _ (ip : Ipv4) where
  unfoldable pub network : NetIface → Option Network
  unfolding mask
  network iface = elim (ip.parse iface.ipv4) [
    | none ↦ none
    | some addr ↦
        let m = mask iface.prefix in
        some (record {
          net = bit_and addr m;
          prefix = iface.prefix;
          broadcast = bit_or addr (u32_max - m);
        })
  ]

  -- The cards whose address parses, with their networks.
  unfoldable pub with_networks : List NetIface → List (NetIface × Network)
  with_networks [] = []
  with_networks (iface ∷ ifaces) = elim (network iface) [
    | none ↦ with_networks ifaces
    | some n ↦ (iface, n) ∷ with_networks ifaces
  ]

  abbrev pub target_of : NetIface × Network → WakeTarget
  target_of (iface, n) = record { mac = iface.mac; broadcast = ip.show n.broadcast }

  -- Whether one of the cards is in the network.
  abbrev pub reaches : List (NetIface × Network) → Network → Bool
  reaches cand_nets n = any (λ c. same_network (c.1) n) cand_nets

  unfoldable pub push_target : WakeTarget → List WakeTarget → List WakeTarget
  push_target wt targets =
      if any (λ t. same_target t wt) targets then targets else targets ++ (wt ∷ [])

  -- The loop over the target's networks, on the targets found so far.
  unfoldable pub matching :
      List (NetIface × Network) → List (NetIface × Network) → List WakeTarget → List WakeTarget
  unfolding push_target
  matching cand_nets [] targets = targets
  matching cand_nets (t ∷ target_nets) targets =
      matching cand_nets target_nets
        (if reaches cand_nets (t.1) then push_target (target_of t) targets else targets)

  -- The loop over the candidates.
  unfoldable pub wakers :
      List (NetIface × Network) → List (String × List NetIface) → List (String × List WakeTarget)
  unfolding matching with_networks
  wakers target_nets [] = []
  wakers target_nets ((device_id, ifaces) ∷ candidates) =
      let rest = wakers target_nets candidates in
      let targets = matching (with_networks ifaces) target_nets [] in
      if any (λ t. true) targets then (device_id, targets) ∷ rest else rest

  unfoldable pub select_wakers :
      List NetIface → List (String × List NetIface) → List (String × List WakeTarget)
  unfolding with_networks wakers
  select_wakers target candidates = wakers (with_networks target) candidates
