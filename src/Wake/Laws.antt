-- ===== src/Wake/Laws.antt =====
-- server/src/wake.rs: what `select_wakers` selects.
use mathlib.Core.Path.{subst}
use rcdesk.Common.{
  String, Bool, true, false, ◌&&◌, ◌||◌, List, [], ◌∷◌, ◌++◌, any, map, keep, ==_iff, string_test,
  nat_test, Bool-cases, ◌≡◌, refl, sym, ◌∙◌, inl, inr, arith,
}
use rcdesk.Wake.{
  NetIface, WakeTarget, Ipv4, Network, same_target, with_networks, target_of, reaches, push_target,
  matching, wakers, select_wakers,
}

-- The target is among those found.
abbrev pub has_target : WakeTarget → List WakeTarget → Bool
has_target x targets = any (λ t. same_target t x) targets

same_target-eq : (a b : WakeTarget) → same_target a b ≡ true → a ≡ b
same_target-eq a b e =
    let p : a.mac ≡ b.mac = (==_iff a.mac b.mac).0 (ground arith) in
    let q : a.broadcast ≡ b.broadcast = (==_iff a.broadcast b.broadcast).0 (ground arith) in
    λ i. record { mac = p i; broadcast = q i }

has_target-append :
    (x t : WakeTarget) (ts : List WakeTarget)
    → has_target x (ts ++ (t ∷ [])) ≡ (has_target x ts || same_target t x)
has_target-append x t [] = ground arith
has_target-append x t (s ∷ ts) = ground (arith, has_target-append x t ts)

or_assoc : (a b c : Bool) → ((a || b) || c) ≡ (a || (b || c))
or_assoc true b c = refl
or_assoc false b c = refl

or_true : (a : Bool) → (a || true) ≡ true
or_true true = refl
or_true false = refl

is_any-append : (t : WakeTarget) (ts : List WakeTarget) → any (λ s. true) (ts ++ (t ∷ [])) ≡ true
is_any-append t [] = refl
is_any-append t (s ∷ ts) = refl

module _ (ip : Ipv4) where
  has_target-push_target :
      (x t : WakeTarget) (ts : List WakeTarget)
      → has_target x (push_target ip t ts) ≡ (has_target x ts || same_target t x)
  unfolding push_target
  has_target-push_target x t ts = elim (Bool-cases (has_target t ts)) [
    | inl there ↦ rw there (elim (Bool-cases (same_target t x)) [
      | inl same ↦
          let e : has_target x ts ≡ true =
            subst (λ y. has_target y ts ≡ true) (same_target-eq t x same) there in
          ground arith
      | inr other ↦ ground arith
    ])
    | inr new ↦ rw new (has_target-append x t ts)
  ]

  is_any-push_target :
      (t : WakeTarget) (ts : List WakeTarget) → any (λ s. true) (push_target ip t ts) ≡ true
  unfolding push_target
  is_any-push_target t [] = refl
  is_any-push_target t (s ∷ ts) = elim (Bool-cases (has_target t (s ∷ ts))) [
    | inl there ↦ rw there refl
    | inr new ↦ rw new refl
  ]

  -- The loop finds a target exactly if it was there, or one of the cards gives it whose network a card
  -- of the candidate is in.
  matching_lem :
      (x : WakeTarget) (cand_nets target_nets : List (NetIface × Network))
      (targets : List WakeTarget)
      → has_target x (matching ip cand_nets target_nets targets) ≡ (
          has_target x targets
          || any (λ t. reaches ip cand_nets (t.1) && same_target (target_of ip t) x) target_nets)
  unfolding matching
  matching_lem x cand_nets [] targets = ground arith
  matching_lem x cand_nets (t ∷ target_nets) targets =
      elim (Bool-cases (reaches ip cand_nets (t.1))) [
        | inl met ↦
            let ih =
              matching_lem x cand_nets target_nets (push_target ip (target_of ip t) targets) in
            let p = has_target-push_target x (target_of ip t) targets in
            rw met (ih ∙ rw p (or_assoc (has_target x targets) (same_target (target_of ip t) x) _))
        | inr unmet ↦ rw unmet (matching_lem x cand_nets target_nets targets)
      ]

  -- Whether a card of the candidate is in the network of a card of the target.
  abbrev pub shares_network : List (NetIface × Network) → List NetIface → Bool
  shares_network target_nets ifaces =
      any (λ t. reaches ip (with_networks ip ifaces) (t.1)) target_nets

  is_any-matching :
      (cand_nets target_nets : List (NetIface × Network)) (targets : List WakeTarget)
      → any (λ t. true) (matching ip cand_nets target_nets targets)
        ≡ (any (λ t. true) targets || any (λ t. reaches ip cand_nets (t.1)) target_nets)
  unfolding matching
  is_any-matching cand_nets [] targets = ground arith
  is_any-matching cand_nets (t ∷ target_nets) targets =
      elim (Bool-cases (reaches ip cand_nets (t.1))) [
        | inl met ↦
            let ih =
              is_any-matching cand_nets target_nets (push_target ip (target_of ip t) targets) in
            let p = is_any-push_target (target_of ip t) targets in
            rw met (ih ∙ rw p (sym (or_true _)))
        | inr unmet ↦ rw unmet (is_any-matching cand_nets target_nets targets)
      ]

  wakers_lem :
      (target_nets : List (NetIface × Network)) (candidates : List (String × List NetIface))
      → wakers ip target_nets candidates
        ≡ map
            (λ (c : String × List NetIface).
              (c.0, matching ip (with_networks ip (c.1)) target_nets []))
            (keep (λ c. shares_network target_nets (c.1)) candidates)
  unfolding wakers
  wakers_lem target_nets [] = refl
  wakers_lem target_nets ((device_id, ifaces) ∷ candidates) =
      let e = is_any-matching (with_networks ip ifaces) target_nets [] in
      elim (Bool-cases (shares_network target_nets ifaces)) [
        | inl shared ↦ rw e (rw shared (rw (wakers_lem target_nets candidates) refl))
        | inr apart ↦ rw e (rw apart (wakers_lem target_nets candidates))
      ]

  -- select_wakers takes, in their order, the candidates that have a card in the network of a card of
  -- the target, each with the targets that the loop finds for its cards.
  pub select_wakers_lem :
      (target : List NetIface) (candidates : List (String × List NetIface))
      → select_wakers ip target candidates
        ≡ map
            (λ (c : String × List NetIface).
              (c.0, matching ip (with_networks ip (c.1)) (with_networks ip target) []))
            (keep (λ c. shares_network (with_networks ip target) (c.1)) candidates)
  unfolding select_wakers
  select_wakers_lem target candidates = wakers_lem (with_networks ip target) candidates
