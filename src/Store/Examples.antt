-- ===== src/Store/Examples.antt =====
-- Two saves of a task, of which the second stops before its commit.
use chatgpt_codex_orchestrat.Prelude.{◌≡◌, ◌⊎◌, refl, true, false, none, some, List, [], ◌∷◌, ok}
use chatgpt_codex_orchestrat.Store.{
  Envelope, parsed, Files, is_future, load_task, Given, half_written, completed,
}
use chatgpt_codex_orchestrat.Store.Saves.{
  Save, made, run_saves, all_match, last_committed, saves_last,
}
use chatgpt_codex_orchestrat.Store.Trusted.{IsFrom}
use chatgpt_codex_orchestrat.Store.Loads.{load-IsTrusted}

abbrev nothing : Files
nothing = record { primary = none; backup = none; temporary = none }

abbrev given : Given
given = record {
  project_key = none;
  identity = some "user";
  workspace_root = none;
  authority = none;
  state = some (record { task_id = some "t1"; body = "step 1" });
  saved_at = none;
}

abbrev first : Save
first = record { now = "09:00"; given = given; fate = completed }

abbrev saves : List Save
saves = first ∷ record { now = "09:05"; given = given; fate = half_written } ∷ []

saves_match : all_match "t1" saves ≡ true
unfolding all_match
saves_match = refl

saves_last_example :
    load_task (some "t1") (run_saves "t1" nothing saves)
    ≡ last_committed "t1" (load_task (some "t1") nothing) saves
saves_last_example = saves_last "t1" nothing saves refl saves_match

abbrev on_disk : Files
on_disk = record { primary = none; backup = some (parsed (made "t1" first)); temporary = none }

backup_read : load_task (some "t1") on_disk ≡ ok (made "t1" first)
unfolding load_task
backup_read = refl

load-IsTrusted_example :
    (IsFrom "t1" (made "t1" first) on_disk.primary
      ⊎ (((x : Envelope) → ¬ IsFrom "t1" x on_disk.primary)
          × IsFrom "t1" (made "t1" first) on_disk.backup))
    × ((raw : Envelope)
        → on_disk.primary ≡ some (parsed raw)
        → is_future raw.schema_version ≡ false)
load-IsTrusted_example = load-IsTrusted "t1" on_disk (made "t1" first) backup_read
