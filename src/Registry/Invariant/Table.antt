-- ===== src/Registry/Invariant/Table.antt =====
-- The session table beside the hosts: what each kind of write keeps.
use rcdesk.Common.{
  string_test, String, Option, none, some, false, ◌≡◌, ◌≢◌, sym, ap, ◌∙◌, arith, ==_iff, ==_cases,
  ==_self, if◌then◌else◌, Option-cases, Bool-cases, inl, inr,
}
use rcdesk.Assoc.{
  Unique, get, insert, remove, update, get-insert, get-remove, get-update, remove-Unique,
}
use rcdesk.Registry.{HostEntry, HostMap, SessionEntry, SessionMap, Tx}
use rcdesk.Registry.Hosts.{close_owned, owns_session}
use rcdesk.Registry.Sessions.{free_host}
use rcdesk.Registry.Invariant.{SessionsMatch}

-- No session is this host's.
abbrev pub NotHosting : String → SessionMap → Type 0
NotHosting h ss = (sid : String) (s : SessionEntry) → get sid ss ≡ some s → s.host_id ≢ h

-- Every session of the first table is in the second.
abbrev pub Within : SessionMap → SessionMap → Type 0
Within ss' ss = (sid : String) (s : SessionEntry) → get sid ss' ≡ some s → get sid ss ≡ some s

-- The tables of hosts differ at one host at most.
abbrev pub SameBut : String → HostMap → HostMap → Type 0
SameBut h hosts hosts' = (j : String) → j ≢ h → get j hosts' ≡ get j hosts

pub update-SameBut :
    (h : String) (f : HostEntry → HostEntry) (hosts : HostMap) → SameBut h hosts (update h f hosts)
update-SameBut h f hosts j ne = ground (arith, get-update j h f hosts, ==_iff h j)

pub remove-SameBut : (h : String) (hosts : HostMap) → SameBut h hosts (remove h hosts)
remove-SameBut h hosts j ne = ground (arith, get-remove j h hosts, ==_iff h j)

pub insert-SameBut :
    (h : String) (e : HostEntry) (hosts : HostMap) → SameBut h hosts (insert h e (remove h hosts))
insert-SameBut h e hosts j ne =
    ground (arith, get-insert j h e (remove h hosts), get-remove j h hosts, ==_iff h j)

pub remove-Within : (sid : String) (ss : SessionMap) → Within (remove sid ss) ss
remove-Within sid ss sid' s q = ground (arith, get-remove sid' sid ss)

-- The sessions that `close_owned` leaves.
pub close_owned_rest :
    (h sid : String) (ss : SessionMap)
    → (close_owned h (some sid) ss).1 ≡ (if owns_session h sid ss then remove sid ss else ss)
unfolding close_owned owns_session
close_owned_rest h sid ss = ground arith

pub close_owned-Within :
    (h : String) (o : Option String) (ss : SessionMap) → Within (close_owned h o ss).1 ss
unfolding close_owned
close_owned-Within h none ss sid' s q = q
close_owned-Within h (some sid) ss sid' s q =
    ground (arith, close_owned_rest h sid ss, get-remove sid' sid ss)

pub close_owned-Unique :
    (h : String) (o : Option String) (ss : SessionMap) → Unique ss → Unique (close_owned h o ss).1
unfolding close_owned
close_owned-Unique h none ss u = u
close_owned-Unique h (some sid) ss u =
    ground (arith, close_owned_rest h sid ss, remove-Unique sid ss u)

module _ {hosts : HostMap} {ss : SessionMap} (v : SessionsMatch hosts ss) where
  -- A host without a session may change in any way, and any sessions may go.
  pub outside-SessionsMatch :
      (h : String) (hosts' : HostMap) (ss' : SessionMap)
      → Within ss' ss
      → NotHosting h ss'
      → SameBut h hosts hosts'
      → SessionsMatch hosts' ss'
  outside-SessionsMatch h hosts' ss' within apart same = record {
    held = λ sid s q.
        let (e, a, b, c) = v.held sid s (within sid s q) in
        (e, same s.host_id (apart sid s q) ∙ a, b, c);
    single = λ sid sid' s s' q q'. v.single sid sid' s s' (within sid s q) (within sid' s' q');
  }

  -- A host's entry names every session of the host.
  pub of_entry :
      (h : String) (e : HostEntry) (sid : String) (s : SessionEntry)
      → get h hosts ≡ some e
      → get sid ss ≡ some s
      → s.host_id ≡ h
      → e.session_id ≡ some sid
  of_entry h e sid s found q same = let (e', a, b, c) = v.held sid s q in ground arith

  pub free-NotHosting :
      (h : String) (e : HostEntry) → get h hosts ≡ some e → e.session_id ≡ none → NotHosting h ss
  free-NotHosting h e found free sid s q same = let named = of_entry h e sid s found q same in cc

  pub absent-NotHosting : (h : String) → get h hosts ≡ none → NotHosting h ss
  absent-NotHosting h absent sid s q same = let (e', a, b, c) = v.held sid s q in ground arith

  -- Once the session under a host's id is removed the host has none.
  pub removed-NotHosting :
      (h : String) (e : HostEntry) (sid : String)
      → get h hosts ≡ some e
      → e.session_id ≡ some sid
      → NotHosting h (remove sid ss)
  removed-NotHosting h e sid found names sid' s q same =
      let q' = remove-Within sid ss sid' s q in
      let own = of_entry h e sid' s found q' same in
      ground (arith, get-remove sid' sid ss, ==_iff sid sid')

  -- If the session that a host's entry names is not the host's, the host has none.
  pub detached-NotHosting :
      (h : String) (e : HostEntry) (sid : String)
      → get h hosts ≡ some e
      → e.session_id ≡ some sid
      → owns_session h sid ss ≡ false
      → NotHosting h ss
  unfolding owns_session
  detached-NotHosting h e sid found names not_own sid' s q same =
      let own = of_entry h e sid' s found q same in ground (arith, ==_iff s.host_id h)

  pub close_owned-NotHosting :
      (h : String) (e : HostEntry) (o : Option String)
      → get h hosts ≡ some e
      → e.session_id ≡ o
      → NotHosting h (close_owned h o ss).1
  unfolding close_owned
  close_owned-NotHosting h e none found names = free-NotHosting h e found names
  close_owned-NotHosting h e (some sid) found names = elim (Bool-cases (owns_session h sid ss)) [
    | inl t ↦ rw (close_owned_rest h sid ss, t) (removed-NotHosting h e sid found names)
    | inr f ↦ rw (close_owned_rest h sid ss, f) (detached-NotHosting h e sid found names f)
  ]

  -- The end of a session: it leaves the table, and its host is free.
  pub drop-SessionsMatch :
      (sid : String) (s : SessionEntry)
      → get sid ss ≡ some s
      → SessionsMatch (free_host s.host_id hosts) (remove sid ss)
  drop-SessionsMatch sid s q =
      let (e, a, b, c) = v.held sid s q in
      outside-SessionsMatch s.host_id _ (remove sid ss) (remove-Within sid ss)
        (removed-NotHosting s.host_id e sid a b) (update-SameBut s.host_id _ hosts)

  -- A free host enters a session with a client that has none.
  pub attach-SessionsMatch :
      (h : String) (e : HostEntry) (client : Tx) (sid : String)
      → get h hosts ≡ some e
      → e.session_id ≡ none
      → get sid ss ≡ none
      → ((sid' : String) (s : SessionEntry) → get sid' ss ≡ some s → s.client_tx ≢ client)
      → SessionsMatch
          (update h (λ e. record e { session_id = some sid }) hosts)
          (insert sid (record { host_id = h; host_tx = e.tx; client_tx = client }) ss)
  attach-SessionsMatch h e client sid found free fresh alone = record {
    held = λ sid' s q. elim (==_cases sid sid') [
      | inl (t, same) ↦ (
        record e { session_id = some sid },
        ground (arith, get-insert sid' sid entry ss, get-update s.host_id h busy hosts, ==_self h),
        ap some same,
        ground (arith, get-insert sid' sid entry ss),
      )
      | inr (f, other) ↦
          let q' : get sid' ss ≡ some s = ground (arith, get-insert sid' sid entry ss) in
          let (e', a, b, c) = v.held sid' s q' in
          (
            e',
            update-SameBut h busy hosts s.host_id (free-NotHosting h e found free sid' s q') ∙ a,
            b,
            c,
          )
    ];
    single = λ sid₁ sid₂ s₁ s₂ q₁ q₂ same. elim (==_cases sid sid₁) [
      | inl (t₁, e₁) ↦ elim (==_cases sid sid₂) [
        | inl (t₂, e₂) ↦ sym e₁ ∙ e₂
        | inr (f₂, o₂) ↦
            let r₂ : get sid₂ ss ≡ some s₂ = ground (arith, get-insert sid₂ sid entry ss) in
            absurd (alone sid₂ s₂ r₂ (ground (arith, get-insert sid₁ sid entry ss)))
      ]
      | inr (f₁, o₁) ↦
          let r₁ : get sid₁ ss ≡ some s₁ = ground (arith, get-insert sid₁ sid entry ss) in
          elim (==_cases sid sid₂) [
            | inl (t₂, e₂) ↦
                absurd (alone sid₁ s₁ r₁ (ground (arith, get-insert sid₂ sid entry ss)))
            | inr (f₂, o₂) ↦
                let r₂ : get sid₂ ss ≡ some s₂ = ground (arith, get-insert sid₂ sid entry ss) in
                v.single sid₁ sid₂ s₁ s₂ r₁ r₂ same
          ]
    ];
  }
    where
      entry : SessionEntry
      entry = record { host_id = h; host_tx = e.tx; client_tx = client }

      busy : HostEntry → HostEntry
      busy e = record e { session_id = some sid }

  -- A host comes back on a new connection to the session that it is in.
  pub repoint-SessionsMatch :
      (h : String) (e e' : HostEntry) (sid : String) (s : SessionEntry)
      → get h hosts ≡ some e
      → get sid ss ≡ some s
      → s.host_id ≡ h
      → e'.session_id ≡ some sid
      → SessionsMatch
          (insert h e' (remove h hosts))
          (update sid (λ s. record s { host_tx = e'.tx }) ss)
  repoint-SessionsMatch h e e' sid s found known own names = record {
    held = λ sid' s' q. elim (==_cases sid sid') [
      | inl (t, same) ↦ (
        e',
        ground (
          arith,
          get-update sid' sid moved ss,
          get-insert s'.host_id h e' (remove h hosts),
          ==_self h,
        ),
        names ∙ ap some same,
        ground (arith, get-update sid' sid moved ss),
      )
      | inr (f, other) ↦
          let q' : get sid' ss ≡ some s' = ground (arith, get-update sid' sid moved ss) in
          let (e₁, a, b, c) = v.held sid' s' q' in
          let apart : s'.host_id ≢ h = λ same.
            let mine = of_entry h e sid' s' found q' same in
            let its = of_entry h e sid s found known own in other (ground arith) in
          (e₁, insert-SameBut h e' hosts s'.host_id apart ∙ a, b, c)
    ];
    single = λ sid₁ sid₂ s₁ s₂ q₁ q₂ same.
        let (t₁, r₁, c₁) = before sid₁ s₁ q₁ in
        let (t₂, r₂, c₂) = before sid₂ s₂ q₂ in v.single sid₁ sid₂ t₁ t₂ r₁ r₂ (c₁ ∙ same ∙ sym c₂);
  }
    where
      moved : SessionEntry → SessionEntry
      moved s = record s { host_tx = e'.tx }

      before :
          (sid' : String) (s' : SessionEntry)
          → get sid' (update sid moved ss) ≡ some s'
          → (s₀ : SessionEntry) × (get sid' ss ≡ some s₀) × (s₀.client_tx ≡ s'.client_tx)
      before sid' s' q = elim (Option-cases (get sid' ss)) [
        | inl a ↦ absurd (ground (arith, get-update sid' sid moved ss))
        | inr (s₀, a) ↦ (s₀, a, ground (arith, get-update sid' sid moved ss))
      ]
