-- ===== src/Slot/Laws/Fingerprint.antt =====
-- host/src/dtls_bind.rs: which fingerprint a session description has, and which tag proves it.
use rcdesk.Common.{
  none, some, List, [], ◌∷◌, ◌≡◌, sym, ap, ◌∙◌, ◌↔◌, All, Bool-cases, Option-cases, inl, inr, arith,
}
use rcdesk.Files.Names.{same_text_iff, Text, same_text}
use rcdesk.Slot.DtlsBind.{Letters, lines, line_value, scan, fingerprint_from_sdp}

module _ (l : Letters) where
  -- The fingerprints of the lines that have one.
  pub values : List Text → List Text
  values [] = []
  values (line ∷ more) = elim (line_value l line) [
    | none ↦ values more
    | some value ↦ value ∷ values more
  ]

  scan_found :
      (ls : List Text) (prev f : Text)
      → (scan l (some prev) ls ≡ some f) ↔ ((prev ≡ f) × All (λ v. v ≡ f) (values ls))
  unfolding scan values
  scan_found [] prev f = (λ e. (ground arith, tt), λ (e, u). ap some e)
  scan_found (line ∷ more) prev f = elim (Option-cases (line_value l line)) [
    | inl e ↦ rw (e, scan, values) (scan_found more prev f)
    | inr (value, e) ↦ elim (Bool-cases (same_text prev value)) [
      | inl t ↦
          let same = (same_text_iff prev value).0 t in
          let (to, from) = scan_found more prev f in
          rw (e, scan, values, t)
            (λ h. ((to h).0, (sym same ∙ (to h).0, (to h).1)), λ (p, (q, qs)). from (p, qs))
      | inr differs ↦
          rw (e, scan, values, differs)
            (
              λ h. absurd (ground arith),
              λ (p, (q, qs)). absurd (ground (arith, (same_text_iff prev value).1 (p ∙ sym q))),
            )
    ]
  ]

  -- There is a fingerprint, and all are this one.
  abbrev pub AgreeOn : Text → List Text → Type 0
  AgreeOn f [] = ⊥
  AgreeOn f (v ∷ vs) = (v ≡ f) × All (λ u. u ≡ f) vs

  -- The description has a fingerprint exactly if some line has one and no two lines differ.
  pub fingerprint_lem :
      (sdp f : Text) → (fingerprint_from_sdp l sdp ≡ some f) ↔ AgreeOn f (values (lines sdp))
  unfolding fingerprint_from_sdp scan values
  fingerprint_lem sdp f = first (lines sdp)
    where
      first : (ls : List Text) → (scan l none ls ≡ some f) ↔ AgreeOn f (values ls)
      first [] = (λ h. absurd (ground arith), λ h. absurd h)
      first (line ∷ more) = elim (Option-cases (line_value l line)) [
        | inl e ↦ rw (e, scan, values) (first more)
        | inr (value, e) ↦ rw (e, scan, values) (scan_found more value f)
      ]
