-- ===== src/Slot/Laws/Binding.antt =====
-- host/src/dtls_bind.rs and the host's check of an answer: which answers a session with a key takes.
use rcdesk.Common.{
  String, Option, none, some, true, ◌≡◌, ◌≢◌, refl, sym, ap, ◌↔◌, Option-cases, inl, inr, arith,
}
use rcdesk.Files.Names.{same_text_iff, Text, codes}
use rcdesk.Slot.Access.{SessionKey}
use rcdesk.Slot.DtlsBind.{lines, fingerprint_from_sdp, as_bytes, tagged, verify_auth_tag}
use rcdesk.Slot.Login.{Libraries}
use rcdesk.Slot.Signals.{tag_holds, bound}
use rcdesk.Slot.Laws.Fingerprint.{values, AgreeOn, fingerprint_lem}

-- What is tagged for the host's offer is never what is tagged for a client's answer.
pub tagged_roles : (f g : Text) → tagged "offer" f ≢ tagged "answer" g
unfolding tagged as_bytes
tagged_roles f g e = ground arith

module _ (lib : Libraries) where
  verify_auth_tag_lem :
      (key : SessionKey) (role : String) (f : Text) (tag : String)
      → (verify_auth_tag lib.base64 lib.hmac key role f tag ≡ true)
        ↔ (lib.base64.decode tag ≡ some (lib.hmac key (tagged role f)))
  unfolding verify_auth_tag
  verify_auth_tag_lem key role f tag = elim (Option-cases (lib.base64.decode tag)) [
    | inl e ↦ rw (e, verify_auth_tag) (λ h. ground arith, λ h. ground arith)
    | inr (bytes, e) ↦
        let (to, from) = same_text_iff (lib.hmac key (tagged role f)) bytes in
        rw (e, verify_auth_tag) (λ h. ap some (sym (to h)), λ h. from (ground arith))
  ]

  -- Why an answer is taken: the lines of its description agree on a fingerprint, and it carries the
  -- code of that fingerprint under the key.
  abbrev pub Proves : SessionKey → String → Option String → Type 0
  Proves key sdp auth =
      (f : Text) × (proof : String) × AgreeOn lib.letters f (values lib.letters (lines (codes sdp)))
      × (auth ≡ some proof)
      × (lib.base64.decode proof ≡ some (lib.hmac key (tagged "answer" f)))

  checked :
      (key : SessionKey) (found : Option Text) (auth : Option String)
      → (tag_holds lib key found auth ≡ true) ↔ (
          (f : Text) × (proof : String) × (found ≡ some f)
          × (auth ≡ some proof)
          × (lib.base64.decode proof ≡ some (lib.hmac key (tagged "answer" f))))
  unfolding tag_holds
  checked key none none = (λ e. absurd (ground arith), λ (f, proof, e, same, tag). ground arith)
  checked key none (some t) = (λ e. absurd (ground arith), λ (f, proof, e, same, tag). ground arith)
  checked key (some f) none = (λ e. absurd (ground arith), λ (g, proof, e, same, tag). ground arith)
  checked key (some f) (some t) = (
    λ e. (f, t, refl, refl, (verify_auth_tag_lem key "answer" f t).0 e),
    λ (g, proof, e, same, tag). (verify_auth_tag_lem key "answer" f t).1 (cc),
  )

  -- A session with a key takes an answer exactly if the answer proves that it comes from the one who
  -- has the key.
  pub bound_lem :
      (key : SessionKey) (sdp : String) (auth : Option String)
      → (bound lib (some key) sdp auth ≡ true) ↔ Proves key sdp auth
  unfolding bound
  bound_lem key sdp auth =
      let (to, from) = checked key (fingerprint_from_sdp lib.letters (codes sdp)) auth in
      (
        λ e.
            let (f, proof, found, same, tag) = to e in
            (f, proof, (fingerprint_lem lib.letters (codes sdp) f).0 found, same, tag),
        λ (f, proof, agree, same, tag).
            from (f, proof, (fingerprint_lem lib.letters (codes sdp) f).1 agree, same, tag),
      )
