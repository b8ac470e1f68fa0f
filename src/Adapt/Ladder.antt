-- ===== src/Adapt/Ladder.antt =====
-- host/src/adapt/mod.rs, the ladder of frame rates: `Controller::ladder`, `step_down`, `step_up`.
use rcdesk.Common.{
  ℕ, List, [], ◌∷◌, ◌++◌, Bool, ◌&&◌, if◌then◌else◌, ltb, leb, ◌==◌, nat_test, keep, any,
}
use mathlib.Core.List.{reverse}

abbrev pub fps_ladder : List ℕ
fps_ladder = 60 ∷ 30 ∷ 24 ∷ 20 ∷ 15 ∷ 12 ∷ 10 ∷ 8 ∷ []

-- `sort_unstable_by(|a, b| b.cmp(a))`: highest first.
unfoldable pub insert_desc : ℕ → List ℕ → List ℕ
insert_desc x [] = x ∷ []
insert_desc x (y ∷ ys) = let rest = insert_desc x ys in if leb y x then x ∷ y ∷ ys else y ∷ rest

unfoldable pub sort_desc : List ℕ → List ℕ
unfolding insert_desc
sort_desc [] = []
sort_desc (x ∷ xs) = insert_desc x (sort_desc xs)

-- `dedup`: of equal neighbours one stays.
unfoldable pub dedup_from : ℕ → List ℕ → List ℕ
dedup_from x [] = x ∷ []
dedup_from x (y ∷ ys) = let rest = dedup_from y ys in if x == y then rest else x ∷ rest

unfoldable pub dedup : List ℕ → List ℕ
unfolding dedup_from
dedup [] = []
dedup (x ∷ xs) = dedup_from x xs

unfoldable pub ladder_steps : ℕ → ℕ → List ℕ
ladder_steps min_fps max_fps = keep (λ s. leb min_fps s && leb s max_fps) fps_ladder

unfoldable pub ladder : ℕ → ℕ → List ℕ
unfolding sort_desc dedup ladder_steps
ladder min_fps max_fps =
    let steps = ladder_steps min_fps max_fps in
    dedup (sort_desc (if any (λ s. s == max_fps) steps then steps else steps ++ (max_fps ∷ [])))

-- `iter().find(..).unwrap_or(default)`
unfoldable pub find_or : (ℕ → Bool) → List ℕ → ℕ → ℕ
find_or p [] default = default
find_or p (s ∷ steps) default = if p s then s else find_or p steps default

unfoldable pub step_down : List ℕ → ℕ → ℕ
unfolding find_or
step_down steps current = find_or (λ s. ltb s current) steps current

unfoldable pub step_up : List ℕ → ℕ → ℕ
unfolding find_or
step_up steps current = find_or (λ s. ltb current s) (reverse steps) current
