-- ===== src/Adapt/Laws/Ladder.antt =====
-- host/src/adapt/mod.rs: the rungs of `ladder`, and the rung that `step_down` takes.
use mathlib.Core.Path.{subst}
use rcdesk.Common.{
  sym, ℕ, ◌≤◌, ◌<◌, List, [], ◌∷◌, ◌++◌, Bool, true, false, ◌&&◌, ◌||◌, ltb, leb, ◌==◌, nat_test,
  keep, any, All, ◌≡◌, ◌⊎◌, inl, inr, refl, ◌∙◌, arith, Bool-cases,
}
use rcdesk.Adapt.Ladder.{
  fps_ladder, insert_desc, sort_desc, dedup_from, dedup, ladder_steps, ladder, step_down,
}

abbrev pub has : ℕ → List ℕ → Bool
has x = any (λ s. s == x)

-- No rung is above one before it.
abbrev pub Desc : List ℕ → Type 0
Desc [] = Unit
Desc (x ∷ xs) = All (λ y. y ≤ x) xs × Desc xs

All-insert_desc : (P : ℕ → Type 0) (x : ℕ) (xs : List ℕ) → P x → All P xs → All P (insert_desc x xs)
unfolding insert_desc
All-insert_desc P x [] p a = (p, tt)
All-insert_desc P x (y ∷ ys) p a = elim (Bool-cases (leb y x)) [
  | inl t ↦ rw t (p, a)
  | inr f ↦ rw f (a.0, All-insert_desc P x ys p a.1)
]

All-sort_desc : (P : ℕ → Type 0) (xs : List ℕ) → All P xs → All P (sort_desc xs)
unfolding sort_desc
All-sort_desc P [] a = tt
All-sort_desc P (x ∷ xs) a = All-insert_desc P x (sort_desc xs) a.0 (All-sort_desc P xs a.1)

All-dedup_from : (P : ℕ → Type 0) (x : ℕ) (xs : List ℕ) → P x → All P xs → All P (dedup_from x xs)
unfolding dedup_from
All-dedup_from P x [] p a = (p, tt)
All-dedup_from P x (y ∷ ys) p a = elim (Bool-cases (x == y)) [
  | inl t ↦ rw t (All-dedup_from P y ys a.0 a.1)
  | inr f ↦ rw f (p, All-dedup_from P y ys a.0 a.1)
]

All-dedup : (P : ℕ → Type 0) (xs : List ℕ) → All P xs → All P (dedup xs)
unfolding dedup
All-dedup P [] a = tt
All-dedup P (x ∷ xs) a = All-dedup_from P x xs a.0 a.1

All-le_trans : (x y : ℕ) (xs : List ℕ) → x ≤ y → All (λ z. z ≤ x) xs → All (λ z. z ≤ y) xs
All-le_trans x y [] h a = tt
All-le_trans x y (z ∷ xs) h a = (omega arith, All-le_trans x y xs h a.1)

insert_desc-Desc : (x : ℕ) (xs : List ℕ) → Desc xs → Desc (insert_desc x xs)
unfolding insert_desc
insert_desc-Desc x [] d = (tt, tt)
insert_desc-Desc x (y ∷ ys) d = elim (Bool-cases (leb y x)) [
  | inl t ↦ rw t ((ground arith, All-le_trans y x ys (ground arith) d.0), d)
  | inr f ↦ rw f (All-insert_desc (λ z. z ≤ y) x ys (ground arith) d.0, insert_desc-Desc x ys d.1)
]

sort_desc-Desc : (xs : List ℕ) → Desc (sort_desc xs)
unfolding sort_desc
sort_desc-Desc [] = tt
sort_desc-Desc (x ∷ xs) = insert_desc-Desc x (sort_desc xs) (sort_desc-Desc xs)

dedup_from-Desc : (x : ℕ) (xs : List ℕ) → Desc (x ∷ xs) → Desc (dedup_from x xs)
unfolding dedup_from
dedup_from-Desc x [] d = d
dedup_from-Desc x (y ∷ ys) d = elim (Bool-cases (x == y)) [
  | inl t ↦ rw t (dedup_from-Desc y ys d.1)
  | inr f ↦ rw f (All-dedup_from (λ z. z ≤ x) y ys d.0.0 d.0.1, dedup_from-Desc y ys d.1)
]

dedup-Desc : (xs : List ℕ) → Desc xs → Desc (dedup xs)
unfolding dedup
dedup-Desc [] d = tt
dedup-Desc (x ∷ xs) d = dedup_from-Desc x xs d

-- A rung that is there stays there.
has-insert_desc : (z x : ℕ) (xs : List ℕ) → has z (insert_desc x xs) ≡ (x == z || has z xs)
unfolding insert_desc
has-insert_desc z x [] = refl
has-insert_desc z x (y ∷ ys) = ground (arith, has-insert_desc z x ys)

has-sort_desc : (z : ℕ) (xs : List ℕ) → has z (sort_desc xs) ≡ has z xs
unfolding sort_desc
has-sort_desc z [] = refl
has-sort_desc z (x ∷ xs) = ground (arith, has-insert_desc z x (sort_desc xs), has-sort_desc z xs)

has-dedup_from : (z x : ℕ) (xs : List ℕ) → has z (dedup_from x xs) ≡ (x == z || has z xs)
unfolding dedup_from
has-dedup_from z x [] = refl
has-dedup_from z x (y ∷ ys) = ground (arith, has-dedup_from z y ys)

has-dedup : (z : ℕ) (xs : List ℕ) → has z (dedup xs) ≡ has z xs
unfolding dedup
has-dedup z [] = refl
has-dedup z (x ∷ xs) = has-dedup_from z x xs

keep_range :
    (lo hi : ℕ) (xs : List ℕ) → All (λ s. (lo ≤ s) × (s ≤ hi)) (keep (λ s. leb lo s && leb s hi) xs)
keep_range lo hi [] = tt
keep_range lo hi (x ∷ xs) = ground (arith, keep_range lo hi xs)

append_range :
    (lo hi : ℕ) (xs : List ℕ)
    → lo ≤ hi
    → All (λ s. (lo ≤ s) × (s ≤ hi)) xs
    → All (λ s. (lo ≤ s) × (s ≤ hi)) (xs ++ (hi ∷ []))
append_range lo hi [] h a = ((h, omega arith), tt)
append_range lo hi (x ∷ xs) h a = (a.0, append_range lo hi xs h a.1)

has-append : (z : ℕ) (xs : List ℕ) → has z (xs ++ (z ∷ [])) ≡ true
has-append z [] = ground arith
has-append z (x ∷ xs) = ground (arith, has-append z xs)

-- Where the lower bound is at most the upper, the ladder is sorted, highest rung first, its rungs
-- lie within the bounds, and the upper bound is one of them.
pub ladder_lem :
    (lo hi : ℕ)
    → lo ≤ hi
    → Desc (ladder lo hi)
      × All (λ s. (lo ≤ s) × (s ≤ hi)) (ladder lo hi)
      × (has hi (ladder lo hi) ≡ true)
unfolding ladder
ladder_lem lo hi h = elim (Bool-cases (has hi (ladder_steps lo hi))) [
  | inl t ↦ rw t (
    sorted (ladder_steps lo hi),
    All-dedup _ _ (All-sort_desc _ _ (inside)),
    has-dedup hi _ ∙ has-sort_desc hi _ ∙ t,
  )
  | inr f ↦ rw f (
    sorted (ladder_steps lo hi ++ (hi ∷ [])),
    All-dedup _ _ (All-sort_desc _ _ (append_range lo hi _ h inside)),
    has-dedup hi _ ∙ has-sort_desc hi _ ∙ has-append hi (ladder_steps lo hi),
  )
]
  where
    sorted : (xs : List ℕ) → Desc (dedup (sort_desc xs))
    sorted xs = dedup-Desc (sort_desc xs) (sort_desc-Desc xs)

    inside : All (λ s. (lo ≤ s) × (s ≤ hi)) (ladder_steps lo hi)
    inside = keep_range lo hi fps_ladder

-- What a step down lands on: the nearest rung below, or where it was if there is none.
abbrev pub Below : List ℕ → ℕ → ℕ → Type 0
Below steps current r =
    ((r ≡ current) × All (λ s. current ≤ s) steps)
    ⊎ ((r < current) × (has r steps ≡ true) × All (λ s. (current ≤ s) ⊎ (s ≤ r)) steps)

lower_rungs :
    (current r : ℕ) (steps : List ℕ)
    → All (λ s. s ≤ r) steps
    → All (λ s. (current ≤ s) ⊎ (s ≤ r)) steps
lower_rungs current r [] a = tt
lower_rungs current r (s ∷ steps) a = (inr a.0, lower_rungs current r steps a.1)

step_down_here :
    (s current : ℕ) (steps : List ℕ) → ltb s current ≡ true → step_down (s ∷ steps) current ≡ s
unfolding step_down
step_down_here s current steps t = rw t refl

step_down_past :
    (s current : ℕ) (steps : List ℕ)
    → ltb s current ≡ false
    → step_down (s ∷ steps) current ≡ step_down steps current
unfolding step_down
step_down_past s current steps f = rw f refl

step_down_from :
    (steps : List ℕ) (current : ℕ) → Desc steps → Below steps current (step_down steps current)
step_down_from [] current d = inl (unfold step_down in refl, tt)
step_down_from (s ∷ steps) current d = elim (Bool-cases (ltb s current)) [
  | inl t ↦
      subst (Below (s ∷ steps) current) (sym (step_down_here s current steps t))
        (inr (ground arith, ground arith, (inr (omega arith), lower_rungs current s steps d.0)))
  | inr f ↦
      subst (Below (s ∷ steps) current) (sym (step_down_past s current steps f))
        (elim (step_down_from steps current d.1) [
          | inl (same, a) ↦ inl (same, (ground arith, a))
          | inr (less, there, a) ↦ inr (less, ground arith, (inl (ground arith), a))
        ])
]

-- On the ladder, its lower bound at most the upper, a step down takes the nearest lower rung, also
-- from a rate that is no rung, and stays only where no rung is lower.
step_down-ladder :
    (lo hi current : ℕ) → lo ≤ hi → Below (ladder lo hi) current (step_down (ladder lo hi) current)
step_down-ladder lo hi current h = step_down_from (ladder lo hi) current (ladder_lem lo hi h).0
