-- ===== src/Tests/Sweep.antt =====
-- host/src/files/mod.rs, `sweep_stale_parts` over a folder of four files.
use rcdesk.Common.{ℕ, Option, none, some, true, List, [], ◌∷◌, ◌≡◌, refl, if◌then◌else◌, any}
use rcdesk.Files.Names.{Text, codes, same_text}
use rcdesk.Files.Sweep.{Stat, Swept, stale_part_age, strip_suffix, sweep_stale_parts}
use rcdesk.Files.Laws.Swept.{AllDead, sweep_stale_parts-AllDead}

abbrev an_hour : ℕ
an_hour = 3_600_000_000_000

abbrev files : List (Text × Stat)
files =
    (codes "a.txt", record { is_file = true; len = 0; age = some an_hour })
    ∷ (codes "a.txt.rcdesk-part", record { is_file = true; len = 9; age = some an_hour })
    ∷ (codes "b.txt", record { is_file = true; len = 4; age = some an_hour })
    ∷ (codes "b.txt.rcdesk-part", record { is_file = true; len = 2; age = some an_hour })
    ∷ []

abbrev look_up : List (Text × Stat) → Text → Option Stat
look_up [] name = none
look_up ((n, m) ∷ rest) name = if same_text n name then some m else look_up rest name

-- The folder is known by what was removed from it.
abbrev folder : Swept
folder = record {
  State = List Text;
  stat = λ gone name. if any (same_text name) gone then none else look_up files name;
  remove_file = λ gone name. (true, name ∷ gone);
  meanwhile = λ gone. gone;
}

abbrev names : List Text
names = codes "a.txt" ∷ codes "a.txt.rcdesk-part" ∷ codes "b.txt" ∷ codes "b.txt.rcdesk-part" ∷ []

sweep_stale_parts-AllDead_example :
    AllDead folder stale_part_age ((sweep_stale_parts folder [] stale_part_age names).1.0)
sweep_stale_parts-AllDead_example = sweep_stale_parts-AllDead folder stale_part_age names []

-- The empty placeholder goes with its part file; the file that has content stays.
both_parts : sweep_stale_parts folder [] stale_part_age names ≡ (
  2,
  (
    ([], [], codes "a.txt.rcdesk-part")
        ∷ (codes "a.txt.rcdesk-part" ∷ [], codes "a.txt.rcdesk-part" ∷ [], codes "a.txt")
        ∷ (
          codes "a.txt" ∷ codes "a.txt.rcdesk-part" ∷ [],
          codes "a.txt" ∷ codes "a.txt.rcdesk-part" ∷ [],
          codes "b.txt.rcdesk-part",
        )
        ∷ [],
    codes "b.txt.rcdesk-part" ∷ codes "a.txt" ∷ codes "a.txt.rcdesk-part" ∷ [],
  ),
)
unfolding sweep_stale_parts strip_suffix
both_parts = refl
