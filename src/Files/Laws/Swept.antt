-- ===== src/Files/Laws/Swept.antt =====
-- host/src/files/mod.rs, `sweep_stale_parts`: what it never removes.
use mathlib.Core.Path.{subst}
use rcdesk.Common.{
  Option, none, some, true, ◌&&◌, List, [], ◌∷◌, ◌++◌, ◌≡◌, refl, ◌⊎◌, inl, inr, Bool-cases,
  Option-cases, arith, ◌==◌, ==_iff, nat_test, ◌<◌,
}
use rcdesk.Registry.{Duration}
use rcdesk.Files.Names.{Text, same_text}
use rcdesk.Files.Receiver.{part_suffix}
use rcdesk.Files.Sweep.{
  Stat, Swept, Call, strip_suffix, is_stale, sweep_placeholder, after_part, sweep_part, sweep_entry,
  sweep_stale_parts,
}

same_text-eq : (s t : Text) → same_text s t ≡ true → s ≡ t
same_text-eq [] [] e = refl
same_text-eq [] (c ∷ t) e = absurd (ground arith)
same_text-eq (b ∷ s) [] e = absurd (ground arith)
same_text-eq (b ∷ s) (c ∷ t) e = elim (Bool-cases (b == c)) [
  | inl same ↦ ground (arith, same_text-eq s t, ==_iff b c)
  | inr off ↦ absurd (ground arith)
]

strip_suffix_lem :
    (name suffix front : Text) → strip_suffix name suffix ≡ some front → name ≡ front ++ suffix
unfolding strip_suffix
strip_suffix_lem [] suffix front e = elim (Bool-cases (same_text [] suffix)) [
  | inl t ↦ ground (arith, same_text-eq [] suffix)
  | inr f ↦ absurd (ground arith)
]
strip_suffix_lem (c ∷ name) suffix front e = elim (Bool-cases (same_text (c ∷ name) suffix)) [
  | inl t ↦ ground (arith, same_text-eq (c ∷ name) suffix)
  | inr f ↦ elim (Option-cases (strip_suffix name suffix)) [
    | inl a ↦ absurd (ground arith)
    | inr (rest, a) ↦ ground (arith, strip_suffix_lem name suffix rest a)
  ]
]

module _ (d : Swept) (older_than : Duration) where
  -- A part file that is a file and older than that.
  abbrev pub IsDeadPart : d.State → Text → Type 0
  IsDeadPart s name =
      (final_name : Text) × (m : Stat) × (age : Duration) × (name ≡ final_name ++ part_suffix)
      × (d.stat s name ≡ some m)
      × (m.is_file ≡ true)
      × (m.age ≡ some age)
      × (older_than < age)

  -- A file without content, whose name with the suffix is the name of a part file that was dead when
  -- it was looked at, and was removed.
  abbrev pub IsPlaceholder : d.State → Text → Type 0
  IsPlaceholder s name =
      (before : d.State) × (m : Stat) × IsDeadPart before (name ++ part_suffix)
      × ((d.remove_file (d.meanwhile before) (name ++ part_suffix)).0 ≡ true)
      × (d.stat s name ≡ some m)
      × (m.is_file ≡ true)
      × (m.len ≡ 0)

  -- Each file is removed as the next thing after it was looked at, and was dead then.
  abbrev pub AllDead : List (Call d) → Type 0
  AllDead [] = Unit {0}
  AllDead ((seen, s, name) ∷ calls) =
      (s ≡ d.meanwhile seen) × (IsDeadPart seen name ⊎ IsPlaceholder seen name) × AllDead calls

  append-AllDead : (xs ys : List (Call d)) → AllDead xs → AllDead ys → AllDead (xs ++ ys)
  append-AllDead [] ys a b = b
  append-AllDead ((seen, s, name) ∷ xs) ys (q, h, a) b = (q, h, append-AllDead xs ys a b)

  -- The part file of that final name was dead and is removed.
  abbrev GoneDead : d.State → Text → Type 0
  GoneDead before final_name =
      IsDeadPart before (final_name ++ part_suffix)
      × ((d.remove_file (d.meanwhile before) (final_name ++ part_suffix)).0 ≡ true)

  sweep_placeholder-AllDead :
      (before s : d.State) (final_name : Text) (known : Option Stat)
      → GoneDead before final_name
      → d.stat s final_name ≡ known
      → AllDead ((sweep_placeholder d s final_name known).0)
  unfolding sweep_placeholder
  sweep_placeholder-AllDead before s final_name none g e = tt
  sweep_placeholder-AllDead before s final_name (some m) (dead, gone) e =
      elim (Bool-cases (m.is_file && (m.len == 0))) [
        | inl t ↦ rw t (
          refl,
          inr (
            before,
            m,
            dead,
            gone,
            e,
            ground (arith, ==_iff m.len 0),
            ground (arith, ==_iff m.len 0),
          ),
          tt,
        )
        | inr f ↦ rw f tt
      ]

  after_part-AllDead :
      (before s : d.State) (final_name : Text)
      → GoneDead before final_name
      → AllDead ((after_part d s final_name).0)
  unfolding after_part
  after_part-AllDead before s [] g = tt
  after_part-AllDead before s (c ∷ final_name) g =
      sweep_placeholder-AllDead before s (c ∷ final_name) _ g refl

  stale_age :
      (m : Stat)
      → is_stale m older_than ≡ true
      → (age : Duration) × (m.age ≡ some age) × (older_than < age)
  unfolding is_stale
  stale_age m e = elim (Option-cases m.age) [
    | inl a ↦ absurd (ground arith)
    | inr (age, a) ↦ (age, a, ground arith)
  ]

  sweep_part-AllDead :
      (s : d.State) (name final_name : Text) (known : Option Stat)
      → name ≡ final_name ++ part_suffix
      → d.stat s name ≡ known
      → AllDead ((sweep_part d s older_than name final_name known).1.0)
  unfolding sweep_part
  sweep_part-AllDead s name final_name none part e = tt
  sweep_part-AllDead s name final_name (some m) part e =
      elim (Bool-cases (m.is_file && is_stale m older_than)) [
        | inr f ↦ rw f tt
        | inl t ↦
            let (age, known, old) = stale_age m (ground arith) in
            let dead : IsDeadPart s name =
              (final_name, m, age, part, e, ground arith, known, old) in
            elim (Bool-cases ((d.remove_file (d.meanwhile s) name).0)) [
              | inl gone ↦
                  rw (t, gone)
                    (
                      refl,
                      inl dead,
                      after_part-AllDead s _ final_name (
                          subst (λ n. IsDeadPart s n × ((d.remove_file (d.meanwhile s) n).0 ≡ true))
                            part (dead, gone)),
                    )
              | inr kept ↦ rw (t, kept) (refl, inl dead, tt)
            ]
      ]

  sweep_entry-AllDead :
      (s : d.State) (name : Text) (final_name : Option Text)
      → strip_suffix name part_suffix ≡ final_name
      → AllDead ((sweep_entry d s older_than name final_name).1.0)
  unfolding sweep_entry
  sweep_entry-AllDead s name none e = tt
  sweep_entry-AllDead s name (some final_name) e =
      sweep_part-AllDead (d.meanwhile s) name final_name _
        (strip_suffix_lem name part_suffix final_name e) refl

  -- Whatever is in the folder and however it changes between any two calls: each file that the sweep
  -- tries to remove was, when the sweep looked at it just before, a part file that was not modified for
  -- longer than `older_than`, or an empty file next to such a part file that the sweep has removed.
  pub sweep_stale_parts-AllDead :
      (names : List Text) (s : d.State) → AllDead ((sweep_stale_parts d s older_than names).1.0)
  unfolding sweep_stale_parts
  sweep_stale_parts-AllDead [] s = tt
  sweep_stale_parts-AllDead (name ∷ names) s =
      append-AllDead _ _ (sweep_entry-AllDead s name (strip_suffix name part_suffix) refl)
        (sweep_stale_parts-AllDead names _)
