-- ===== src/Files/Sweep.antt =====
-- host/src/files/mod.rs, `sweep_stale_parts`: what is removed when a session starts.
use rcdesk.Common.{
  ℕ, suc, ◌*◌, Option, none, some, Bool, true, false, ◌&&◌, List, [], ◌∷◌, ◌++◌, if◌then◌else◌, ltb,
  ◌==◌, nat_test,
}
use mathlib.Core.Option
use rcdesk.Registry.{Duration, nanos_per_sec}
use rcdesk.Files.Names.{Text, same_text}
use rcdesk.Files.Receiver.{part_suffix}

abbrev pub stale_part_age : Duration
stale_part_age = 600 * nanos_per_sec

-- `symlink_metadata`: the age is how long ago the file was modified, where the system can tell.
pub record Stat : Type 0 where
  pub is_file : Bool
  pub len : ℕ
  pub age : Option Duration

-- The receive folder, a parameter: the files in it by name, as std::fs has them. Each call is of its
-- own: `meanwhile` is what other programs and the clock do to the folder between two calls.
pub record Swept : Type 1 where
  pub State : Type 0
  pub stat : State → Text → Option Stat
  pub remove_file : State → Text → Bool × State
  pub meanwhile : State → State

-- `str::strip_suffix`
unfoldable pub strip_suffix : Text → Text → Option Text
strip_suffix [] suffix = if same_text [] suffix then some [] else none
strip_suffix (c ∷ name) suffix =
    let rest = strip_suffix name suffix in
    if same_text (c ∷ name) suffix then some [] else Option.map (λ t. c ∷ t) rest

unfoldable pub is_stale : Stat → Duration → Bool
is_stale m older_than = elim m.age [ none ↦ false | some age ↦ ltb older_than age ]

module _ (d : Swept) where
  -- A file that is looked at and then removed: the folder as it was looked at, the folder as it was
  -- when the call to remove it came, and the file's name.
  abbrev pub Call : Type 0
  Call = d.State × d.State × Text

  -- The calls of `remove_file`, and the folder after them.
  abbrev pub Removals : Type 0
  Removals = List Call × d.State

  unfoldable pub sweep_placeholder : d.State → Text → Option Stat → Removals
  sweep_placeholder s final_name none = ([], s)
  sweep_placeholder s final_name (some m) =
      let later = d.meanwhile s in
      if m.is_file && (m.len == 0)
      then ((s, later, final_name) ∷ [], (d.remove_file later final_name).1)
      else ([], s)

  unfoldable pub after_part : d.State → Text → Removals
  unfolding sweep_placeholder
  after_part s [] = ([], s)
  after_part s (c ∷ final_name) = sweep_placeholder s (c ∷ final_name) (d.stat s (c ∷ final_name))

  -- A part file, from its name, its final name and what is known of it: whether it was removed, and
  -- the calls.
  unfoldable pub sweep_part : d.State → Duration → Text → Text → Option Stat → Bool × Removals
  unfolding after_part is_stale
  sweep_part s older_than name final_name none = (false, ([], s))
  sweep_part s older_than name final_name (some m) =
      let later = d.meanwhile s in
      let (gone, s') = d.remove_file later name in
      let (calls, s'') = after_part (d.meanwhile s') final_name in
      if m.is_file && is_stale m older_than
      then (if gone
          then (true, ((s, later, name) ∷ calls, s''))
          else (false, ((s, later, name) ∷ [], s')))
      else (false, ([], s))

  unfoldable pub sweep_entry : d.State → Duration → Text → Option Text → Bool × Removals
  unfolding sweep_part
  sweep_entry s older_than name none = (false, ([], s))
  sweep_entry s older_than name (some final_name) =
      let now = d.meanwhile s in sweep_part now older_than name final_name (d.stat now name)

  -- The loop over the names in the folder; a name that is not UTF-8 is no text and is left out.
  unfoldable pub sweep_stale_parts : d.State → Duration → List Text → ℕ × Removals
  unfolding sweep_entry strip_suffix
  sweep_stale_parts s older_than [] = (0, ([], s))
  sweep_stale_parts s older_than (name ∷ names) =
      let (gone, (calls, s')) = sweep_entry s older_than name (strip_suffix name part_suffix) in
      let (removed, (more, end)) = sweep_stale_parts s' older_than names in
      ((if gone then suc removed else removed), (calls ++ more, end))
