-- ===== src/Files/Laws/Trim.antt =====
-- host/src/files/mod.rs: cutting and trimming of names.
use rcdesk.Common.{
  ℕ, ◌+◌, ◌-◌, ◌≤◌, Bool, false, ◌&&◌, [], ◌∷◌, ◌++◌, leb, ◌==◌, nat_test, ◌≡◌, refl, inl, inr,
  arith, Bool-cases, All, leb→le,
}
use rcdesk.Files.Names.{
  Text, bytes, len_utf8, is_empty, trim_end_by, from_dot, extension, take_bytes,
}

pub bytes-append : (s t : Text) → bytes (s ++ t) ≡ bytes s + bytes t
bytes-append [] t = omega arith
bytes-append (c ∷ s) t = omega (arith, bytes-append s t)

pub bytes-take_bytes : (n : ℕ) (s : Text) → bytes (take_bytes n s) ≤ n
unfolding take_bytes
bytes-take_bytes n [] = omega arith
bytes-take_bytes n (c ∷ s) = elim (Bool-cases (leb (len_utf8 c) n)) [
  | inl fits ↦
      rw fits (omega (arith, bytes-take_bytes (n - len_utf8 c) s, leb→le (len_utf8 c) n fits))
  | inr over ↦ rw over (omega arith)
]

is_empty-append : (s t : Text) → is_empty t ≡ false → is_empty (s ++ t) ≡ false
is_empty-append [] t e = e
is_empty-append (c ∷ s) t e = refl

module _ (p : ℕ → Bool) where
  pub bytes-trim_end_by : (s : Text) → bytes (trim_end_by p s) ≤ bytes s
  unfolding trim_end_by
  bytes-trim_end_by [] = omega arith
  bytes-trim_end_by (c ∷ s) = ground (arith, bytes-trim_end_by s)

  pub trim_end_by_idem : (s : Text) → trim_end_by p (trim_end_by p s) ≡ trim_end_by p s
  unfolding trim_end_by
  trim_end_by_idem [] = refl
  trim_end_by_idem (c ∷ s) = elim (Bool-cases (p c && is_empty (trim_end_by p s))) [
    | inl gone ↦ rw gone refl
    | inr kept ↦ rw kept (rw (trim_end_by_idem s) (rw kept refl))
  ]

  -- A text that ends well keeps any text before it.
  pub trim_end_by-append :
      (s t : Text) → is_empty t ≡ false → trim_end_by p t ≡ t → trim_end_by p (s ++ t) ≡ s ++ t
  unfolding trim_end_by
  trim_end_by-append [] t some_left e = e
  trim_end_by-append (c ∷ s) t some_left e =
      let ih = trim_end_by-append s t some_left e in
      let not_empty = is_empty-append s t some_left in
      rw ih
        (elim (Bool-cases (p c)) [ inl cut ↦ rw cut (rw not_empty refl) | inr kept ↦ rw kept refl ])

  trim_end_by_rest : (c : ℕ) (s : Text) → trim_end_by p (c ∷ s) ≡ c ∷ s → trim_end_by p s ≡ s
  unfolding trim_end_by
  trim_end_by_rest c s e = elim (Bool-cases (p c && is_empty (trim_end_by p s))) [
    | inl gone ↦ cc (gone, e)
    | inr kept ↦ ground (arith)
  ]

  pub trim_end_by-from_dot :
      (s : Text) → trim_end_by p s ≡ s → trim_end_by p (from_dot s) ≡ from_dot s
  unfolding from_dot
  trim_end_by-from_dot [] e = e
  trim_end_by-from_dot (c ∷ s) e =
      let ih = trim_end_by-from_dot s (trim_end_by_rest c s e) in
      elim (Bool-cases (is_empty (from_dot s))) [
        | inl none_yet ↦ rw none_yet (elim (Bool-cases (c == b'.')) [
          | inl dot ↦ rw dot e
          | inr other ↦ rw other (unfold trim_end_by in refl)
        ])
        | inr found ↦ rw found ih
      ]

  pub trim_end_by-extension :
      (s : Text) → trim_end_by p s ≡ s → trim_end_by p (extension s) ≡ extension s
  unfolding extension
  trim_end_by-extension [] e = e
  trim_end_by-extension (c ∷ s) e = trim_end_by-from_dot s (trim_end_by_rest c s e)

-- What holds of every character of a text holds of those of its parts.
module _ (P : ℕ → Type 0) where
  pub All-append : (s t : Text) → All P s → All P t → All P (s ++ t)
  All-append [] t a b = b
  All-append (c ∷ s) t a b = (a.0, All-append s t a.1 b)

  pub All-trim_end_by : (p : ℕ → Bool) (s : Text) → All P s → All P (trim_end_by p s)
  unfolding trim_end_by
  All-trim_end_by p [] a = a
  All-trim_end_by p (c ∷ s) a = elim (Bool-cases (p c && is_empty (trim_end_by p s))) [
    | inl gone ↦ rw gone tt
    | inr kept ↦ rw kept (a.0, All-trim_end_by p s a.1)
  ]

  pub All-take_bytes : (n : ℕ) (s : Text) → All P s → All P (take_bytes n s)
  unfolding take_bytes
  All-take_bytes n [] a = a
  All-take_bytes n (c ∷ s) a = elim (Bool-cases (leb (len_utf8 c) n)) [
    | inl fits ↦ rw fits (a.0, All-take_bytes (n - len_utf8 c) s a.1)
    | inr over ↦ rw over tt
  ]

  All-from_dot : (s : Text) → All P s → All P (from_dot s)
  unfolding from_dot
  All-from_dot [] a = a
  All-from_dot (c ∷ s) a = elim (Bool-cases (is_empty (from_dot s))) [
    | inl none_yet ↦
        rw none_yet (elim (Bool-cases (c == b'.')) [ inl dot ↦ rw dot a | inr other ↦ rw other tt ])
    | inr found ↦ rw found (All-from_dot s a.1)
  ]

  pub All-extension : (s : Text) → All P s → All P (extension s)
  unfolding extension
  All-extension [] a = a
  All-extension (c ∷ s) a = All-from_dot s a.1
