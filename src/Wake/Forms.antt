-- ===== src/Wake/Forms.antt =====
-- server/src/wake.rs, `normalize_mac`: the form that it gives an address is one that it keeps.
use Prim.Native.String.{char_at}
use Prim.Native.Char.{code}
use rcdesk.Common.{
  ℕ, zero, suc, ◌/◌, ◌%◌, ◌<◌, String, Option, none, some, false, List, [], ◌∷◌, ◌≡◌, refl, ap,
  arith, Bool-cases, inl, inr,
}
use rcdesk.Files.Names.{Text, codes}
use rcdesk.Wake.Cards.{
  hex_value, is_mac_separator, mac_parts, octet, from_digits, Mac, six, octets, names_card,
  show_octet, colon, show_mac, mac_of, normalize_mac,
}

abbrev digit : ℕ → ℕ
digit i = code (char_at "0123456789abcdef" i)

hex_value-digit : (i : ℕ) → i < 16 → hex_value (digit i) ≡ some i
unfolding hex_value
hex_value-digit zero h = refl
hex_value-digit (suc zero) h = refl
hex_value-digit (suc (suc zero)) h = refl
hex_value-digit (suc (suc (suc zero))) h = refl
hex_value-digit (suc (suc (suc (suc zero)))) h = refl
hex_value-digit (suc (suc (suc (suc (suc zero))))) h = refl
hex_value-digit (suc (suc (suc (suc (suc (suc zero)))))) h = refl
hex_value-digit (suc (suc (suc (suc (suc (suc (suc zero))))))) h = refl
hex_value-digit (suc (suc (suc (suc (suc (suc (suc (suc zero)))))))) h = refl
hex_value-digit (suc (suc (suc (suc (suc (suc (suc (suc (suc zero))))))))) h = refl
hex_value-digit (suc (suc (suc (suc (suc (suc (suc (suc (suc (suc zero)))))))))) h = refl
hex_value-digit (suc (suc (suc (suc (suc (suc (suc (suc (suc (suc (suc zero))))))))))) h = refl
hex_value-digit (suc (suc (suc (suc (suc (suc (suc (suc (suc (suc (suc (suc zero)))))))))))) h =
    refl
hex_value-digit (suc (suc (suc (suc (suc (suc (suc (suc (suc (suc (suc (suc (suc zero)))))))))))))
      h =
    refl
hex_value-digit
      (suc (suc (suc (suc (suc (suc (suc (suc (suc (suc (suc (suc (suc (suc zero)))))))))))))) h =
    refl
hex_value-digit
      (suc (suc (suc (suc (suc (suc (suc (suc (suc (suc (suc (suc (suc (suc (suc zero)))))))))))))))
      h =
    refl
hex_value-digit
      (suc
        (suc (suc (suc (suc (suc (suc (suc (suc (suc (suc (suc (suc (suc (suc (suc i))))))))))))))))
      h =
    absurd (omega arith)

no_separator : (i : ℕ) → i < 16 → is_mac_separator (digit i) ≡ false
no_separator zero h = refl
no_separator (suc zero) h = refl
no_separator (suc (suc zero)) h = refl
no_separator (suc (suc (suc zero))) h = refl
no_separator (suc (suc (suc (suc zero)))) h = refl
no_separator (suc (suc (suc (suc (suc zero))))) h = refl
no_separator (suc (suc (suc (suc (suc (suc zero)))))) h = refl
no_separator (suc (suc (suc (suc (suc (suc (suc zero))))))) h = refl
no_separator (suc (suc (suc (suc (suc (suc (suc (suc zero)))))))) h = refl
no_separator (suc (suc (suc (suc (suc (suc (suc (suc (suc zero))))))))) h = refl
no_separator (suc (suc (suc (suc (suc (suc (suc (suc (suc (suc zero)))))))))) h = refl
no_separator (suc (suc (suc (suc (suc (suc (suc (suc (suc (suc (suc zero))))))))))) h = refl
no_separator (suc (suc (suc (suc (suc (suc (suc (suc (suc (suc (suc (suc zero)))))))))))) h = refl
no_separator (suc (suc (suc (suc (suc (suc (suc (suc (suc (suc (suc (suc (suc zero))))))))))))) h =
    refl
no_separator
      (suc (suc (suc (suc (suc (suc (suc (suc (suc (suc (suc (suc (suc (suc zero)))))))))))))) h =
    refl
no_separator
      (suc (suc (suc (suc (suc (suc (suc (suc (suc (suc (suc (suc (suc (suc (suc zero)))))))))))))))
      h =
    refl
no_separator
      (suc
        (suc (suc (suc (suc (suc (suc (suc (suc (suc (suc (suc (suc (suc (suc (suc i))))))))))))))))
      h =
    absurd (omega arith)

abbrev pair : ℕ → Text
pair n = digit (n / 16) ∷ digit (n % 16) ∷ []

octet-pair : (n : ℕ) → n < 256 → octet (pair n) ≡ some n
unfolding octet
octet-pair n h =
    rw (hex_value-digit (n / 16) (omega arith), hex_value-digit (n % 16) (omega arith))
      (ap some (omega arith))

mac_parts-colon :
    (n : ℕ) (rest : String)
    → n < 256
    → mac_parts (codes (show_octet n (colon rest))) ≡ pair n ∷ mac_parts (codes rest)
unfolding mac_parts show_octet
mac_parts-colon n rest h =
    rw (no_separator (n / 16) (omega arith), no_separator (n % 16) (omega arith)) refl

mac_parts-last : (n : ℕ) → n < 256 → mac_parts (codes (show_octet n "")) ≡ pair n ∷ []
unfolding mac_parts show_octet
mac_parts-last n h =
    rw (no_separator (n / 16) (omega arith), no_separator (n % 16) (omega arith)) refl

pub record IsMac (m : Mac) : Type 0 where
  pub b₁ : m.o₁ < 256
  pub b₂ : m.o₂ < 256
  pub b₃ : m.o₃ < 256
  pub b₄ : m.o₄ < 256
  pub b₅ : m.o₅ < 256
  pub b₆ : m.o₆ < 256

octets-show_mac : (m : Mac) → IsMac m → octets (mac_parts (codes (show_mac m))) ≡ some m
unfolding show_mac octets
octets-show_mac m v =
    let r₆ = show_octet m.o₆ "" in
    let r₅ = show_octet m.o₅ (colon r₆) in
    let r₄ = show_octet m.o₄ (colon r₅) in
    let r₃ = show_octet m.o₃ (colon r₄) in
    let r₂ = show_octet m.o₂ (colon r₃) in
    rw
      (
        mac_parts-colon m.o₁ r₂ v.b₁,
        mac_parts-colon m.o₂ r₃ v.b₂,
        mac_parts-colon m.o₃ r₄ v.b₃,
        mac_parts-colon m.o₄ r₅ v.b₄,
        mac_parts-colon m.o₅ r₆ v.b₅,
        mac_parts-last m.o₆ v.b₆,
        octets,
        octet-pair m.o₁ v.b₁,
        octet-pair m.o₂ v.b₂,
        octet-pair m.o₃ v.b₃,
        octet-pair m.o₄ v.b₄,
        octet-pair m.o₅ v.b₅,
        octet-pair m.o₆ v.b₆,
      )
      refl

-- What was parsed is a MAC.
hex_value_lt : (c v : ℕ) → hex_value c ≡ some v → v < 16
unfolding hex_value
hex_value_lt c v e = ground arith

octet_lt : (part : Text) (n : ℕ) → octet part ≡ some n → n < 256
unfolding octet
octet_lt [] n e = absurd (ground arith)
octet_lt (a ∷ []) n e = absurd (ground arith)
octet_lt (a ∷ b ∷ c ∷ part) n e = absurd (ground arith)
octet_lt (a ∷ b ∷ []) n e = digits (hex_value a) (hex_value b) refl refl e
  where
    digits :
        (x y : Option ℕ) → hex_value a ≡ x → hex_value b ≡ y → from_digits x y ≡ some n → n < 256
    digits none y p q e = absurd (ground arith)
    digits (some x) none p q e = absurd (ground arith)
    digits (some x) (some y) p q e = ground (arith, hex_value_lt a x p, hex_value_lt b y q)

six_parts :
    (m : Mac) (x y z w u v : Option ℕ)
    → six x y z w u v ≡ some m
    → (x ≡ some m.o₁)
      × (y ≡ some m.o₂)
      × (z ≡ some m.o₃)
      × (w ≡ some m.o₄)
      × (u ≡ some m.o₅)
      × (v ≡ some m.o₆)
six_parts m none y z w u v h = absurd (ground arith)
six_parts m (some x) none z w u v h = absurd (ground arith)
six_parts m (some x) (some y) none w u v h = absurd (ground arith)
six_parts m (some x) (some y) (some z) none u v h = absurd (ground arith)
six_parts m (some x) (some y) (some z) (some w) none v h = absurd (ground arith)
six_parts m (some x) (some y) (some z) (some w) (some u) none h = absurd (ground arith)
six_parts m (some x) (some y) (some z) (some w) (some u) (some v) h =
    (ground arith, ground arith, ground arith, ground arith, ground arith, ground arith)

octets-IsMac : (parts : List Text) (m : Mac) → octets parts ≡ some m → IsMac m
unfolding octets
octets-IsMac [] m h = absurd (ground arith)
octets-IsMac (a ∷ []) m h = absurd (ground arith)
octets-IsMac (a ∷ b ∷ []) m h = absurd (ground arith)
octets-IsMac (a ∷ b ∷ c ∷ []) m h = absurd (ground arith)
octets-IsMac (a ∷ b ∷ c ∷ d ∷ []) m h = absurd (ground arith)
octets-IsMac (a ∷ b ∷ c ∷ d ∷ e ∷ []) m h = absurd (ground arith)
octets-IsMac (a ∷ b ∷ c ∷ d ∷ e ∷ f ∷ g ∷ parts) m h = absurd (ground arith)
octets-IsMac (a ∷ b ∷ c ∷ d ∷ e ∷ f ∷ []) m h =
    let (x, y, z, w, u, v) =
      six_parts m (octet a) (octet b) (octet c) (octet d) (octet e) (octet f) h in
    record {
      b₁ = octet_lt a m.o₁ x;
      b₂ = octet_lt b m.o₂ y;
      b₃ = octet_lt c m.o₃ z;
      b₄ = octet_lt d m.o₄ w;
      b₅ = octet_lt e m.o₅ u;
      b₆ = octet_lt f m.o₆ v;
    }

mac_of-canonical :
    (trim : String → String) (o : Option Mac) (mac : String)
    → ((m : Mac) → o ≡ some m → IsMac m)
    → mac_of o ≡ some mac
    → trim mac ≡ mac
    → normalize_mac trim mac ≡ some mac
unfolding mac_of normalize_mac
mac_of-canonical trim none mac bytes e t = absurd (ground arith)
mac_of-canonical trim (some m) mac bytes e t = elim (Bool-cases (names_card m)) [
  | inr f ↦ absurd (ground arith)
  | inl names ↦
      let shown : show_mac m ≡ mac = ground arith in
      rw (t, ← shown, octets-show_mac m (bytes m refl), names) refl
]

-- An address that is taken is taken again in the form that it was given, unchanged.
pub normalize_mac_idem :
    (trim : String → String) (raw mac : String)
    → normalize_mac trim raw ≡ some mac
    → trim mac ≡ mac
    → normalize_mac trim mac ≡ some mac
unfolding normalize_mac
normalize_mac_idem trim raw mac e t =
    mac_of-canonical trim (octets (mac_parts (codes (trim raw)))) mac
      (λ m h. octets-IsMac (mac_parts (codes (trim raw))) m h) e t
