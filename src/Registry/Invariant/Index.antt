-- ===== src/Registry/Invariant/Index.antt =====
-- The PIN index beside the hosts: what each kind of write keeps.
use rcdesk.Common.{
  string_test, String, none, some, ◌≡◌, arith, ==_iff, ==_cases, Option-cases, inl, inr, ◌∙◌,
}
use rcdesk.Assoc.{get, insert, remove, update, get-insert, get-remove, get-update}
use rcdesk.Registry.{HostEntry, HostMap, PinMap}
use rcdesk.Registry.Invariant.{PinsMatch}

some-injective : {h h' : String} → some h ≡ some h' → h ≡ h'
some-injective p = cc

module _ {hosts : HostMap} {pins : PinMap} (v : PinsMatch hosts pins) (h : String) where
  pub remove-PinsMatch :
      (e : HostEntry) → get h hosts ≡ some e → PinsMatch (remove h hosts) (remove e.pin pins)
  remove-PinsMatch e found = record {
    named = λ j h' q.
        let q' : get j pins ≡ some h' = ground (arith, get-remove j e.pin pins) in
        let (e', a, b) = v.named j h' q' in
        (
          e',
          ground
              (arith, get-remove j e.pin pins, get-remove h' h hosts, ==_iff h h', ==_iff e.pin j),
          b,
        );
    listed = λ h' e' q.
        let q' : get h' hosts ≡ some e' = ground (arith, get-remove h' h hosts) in
        ground (
          arith,
          get-remove h' h hosts,
          ==_iff h h',
          ==_iff e.pin e'.pin,
          get-remove e'.pin e.pin pins,
          v.listed h e found,
          v.listed h' e' q',
        );
  }

  pub remove_absent-PinsMatch : get h hosts ≡ none → PinsMatch (remove h hosts) pins
  remove_absent-PinsMatch absent = record {
    named = λ j h' q.
        let (e', a, b) = v.named j h' q in
        (e', ground (arith, get-remove h' h hosts, ==_iff h h'), b);
    listed = λ h' e' q.
        let q' : get h' hosts ≡ some e' = ground (arith, get-remove h' h hosts) in
        v.listed h' e' q';
  }

  pub insert-PinsMatch :
      (e : HostEntry)
      → get h hosts ≡ none
      → get e.pin pins ≡ none
      → PinsMatch (insert h e hosts) (insert e.pin h pins)
  insert-PinsMatch e absent free = record {
    named = λ j h' q. elim (==_cases e.pin j) [
      | inl (t, same) ↦
          (e, ground (arith, get-insert j e.pin h pins, get-insert h' h e hosts, ==_iff h h'), same)
      | inr (f, other) ↦
          let q' : get j pins ≡ some h' = ground (arith, get-insert j e.pin h pins) in
          let (e', a, b) = v.named j h' q' in
          (e', ground (arith, get-insert h' h e hosts, ==_iff h h'), b)
    ];
    listed = λ h' e' q. elim (==_cases h h') [
      | inl (t, same) ↦
          ground
            (arith, get-insert h' h e hosts, get-insert e'.pin e.pin h pins, ==_iff e.pin e'.pin)
      | inr (f, other) ↦
          let q' : get h' hosts ≡ some e' = ground (arith, get-insert h' h e hosts) in
          ground (arith, v.listed h' e' q', get-insert e'.pin e.pin h pins, ==_iff e.pin e'.pin)
    ];
  }

  -- A write that leaves the PIN alone.
  pub update-PinsMatch :
      (f : HostEntry → HostEntry)
      → ((e : HostEntry) → (f e).pin ≡ e.pin)
      → PinsMatch (update h f hosts) pins
  update-PinsMatch f same = record {
    named = λ j h' q.
        let (e, a, b) = v.named j h' q in
        elim (==_cases h h') [
          | inl (t, eq) ↦ (f e, ground (arith, get-update h' h f hosts), same e ∙ b)
          | inr (ne, _) ↦ (e, ground (arith, get-update h' h f hosts), b)
        ];
    listed = λ h' e' q. elim (==_cases h h') [
      | inl (t, eq) ↦ elim (Option-cases (get h' hosts)) [
        | inl a ↦ ground (arith, get-update h' h f hosts)
        | inr (e, a) ↦
            let l : get e.pin pins ≡ some h' = v.listed h' e a in
            ground (arith, get-update h' h f hosts, same e)
      ]
      | inr (ne, _) ↦ v.listed h' e' (ground (arith, get-update h' h f hosts))
    ];
  }

  -- A new PIN for a host, in its entry and in the index.
  pub put_pin-PinsMatch :
      (e : HostEntry) (new_pin : String) (f : HostEntry → HostEntry)
      → get h hosts ≡ some e
      → get new_pin pins ≡ none
      → ((e : HostEntry) → (f e).pin ≡ new_pin)
      → PinsMatch (update h f hosts) (insert new_pin h (remove e.pin pins))
  put_pin-PinsMatch e new_pin f found free set_new = record {
    named = λ j h' q. elim (==_cases new_pin j) [
      | inl (t, same) ↦ (
        f e,
        ground (
          arith,
          get-insert j new_pin h (remove e.pin pins),
          get-update h' h f hosts,
          ==_iff h h',
        ),
        set_new e ∙ same,
      )
      | inr (ne, _) ↦
          let q' : get j pins ≡ some h' =
            ground (arith, get-insert j new_pin h (remove e.pin pins), get-remove j e.pin pins) in
          let (e', a, b) = v.named j h' q' in
          (
            e',
            ground (
              arith,
              get-update h' h f hosts,
              ==_iff h h',
              ==_iff e.pin j,
              get-insert j new_pin h (remove e.pin pins),
              get-remove j e.pin pins,
            ),
            b,
          )
    ];
    listed = λ h' e' q. elim (==_cases h h') [
      | inl (t, same) ↦ ground (
        arith,
        get-update h' h f hosts,
        set_new e,
        get-insert e'.pin new_pin h (remove e.pin pins),
        ==_iff new_pin e'.pin,
      )
      | inr (ne, other) ↦
          let q' : get h' hosts ≡ some e' = ground (arith, get-update h' h f hosts) in
          ground (
            arith,
            v.listed h' e' q',
            v.listed h e found,
            ==_iff new_pin e'.pin,
            ==_iff e.pin e'.pin,
            get-insert e'.pin new_pin h (remove e.pin pins),
            get-remove e'.pin e.pin pins,
          )
    ];
  }
