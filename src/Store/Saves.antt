-- ===== src/Store/Saves.antt =====
-- What is read after saves that may stop anywhere (src/governance/store.js).
use text.Mathlib.TextPositions.{eq_refl}
use chatgpt_codex_orchestrat.Prelude.{
  String, ◌≡◌, refl, ap, ◌∙◌, Bool, true, ◌&&◌, some, List, [], ◌∷◌, if◌then◌else◌, truthy, arith,
  Result, ok, thrown,
}
use chatgpt_codex_orchestrat.Store.{
  StoreError, version, governance_task, Envelope, parsed, Files, current_version, state_matches,
  validate_envelope, migrate_envelope, loaded, load_candidate, load_task, Given, with_default,
  is_id, make_envelope, Fate, not_written, half_written, not_renamed, not_copied, half_copied,
  completed, is_committed, atomic_write, save_task,
}

-- A call of `saveTask`, and how far it gets.
pub record Save : Type 0 where
  pub now : String
  pub given : Given
  pub fate : Fate

-- The envelope that a save of the task commits.
abbrev pub made : String → Save → Envelope
made task s = record {
  schema_version = version current_version;
  kind = governance_task;
  task_id = some task;
  project_key = s.given.project_key;
  identity = s.given.identity;
  workspace_root = s.given.workspace_root;
  authority = with_default s.given.authority;
  state = s.given.state;
  saved_at = if is_id s.given.saved_at then s.given.saved_at else some s.now;
}

abbrev pub or_before : Files → Result StoreError Files → Files
or_before f (ok f') = f'
or_before f (thrown e) = f

unfoldable pub run_saves : String → Files → List Save → Files
unfolding save_task
run_saves task f [] = f
run_saves task f (s ∷ ss) =
    run_saves task (or_before f (save_task (some task) s.now s.given s.fate f)) ss

-- Every state that is saved names the task.
unfoldable pub all_match : String → List Save → Bool
all_match task [] = true
all_match task (s ∷ ss) = state_matches s.given.state (some task) && all_match task ss

-- The abstract store: one cell, which a committed save overwrites.
unfoldable pub last_committed :
    String → Result StoreError Envelope → List Save → Result StoreError Envelope
last_committed task cell [] = cell
last_committed task cell (s ∷ ss) =
    last_committed task (if is_committed s.fate then ok (made task s) else cell) ss

saved :
    (task : String) (s : Save) (f : Files)
    → truthy task ≡ true
    → or_before f (save_task (some task) s.now s.given s.fate f)
      ≡ atomic_write s.fate (made task s) f
unfolding save_task make_envelope
saved task s f t = rw t (rw t refl)

loads_made :
    (task : String) (s : Save)
    → truthy task ≡ true
    → state_matches s.given.state (some task) ≡ true
    → load_candidate (some task) (some (parsed (made task s))) ≡ loaded (made task s)
unfolding load_candidate validate_envelope migrate_envelope
loads_made task s t m = rw (t, eq_refl, m) refl

loads_primary :
    (task : String) (env : Envelope) (f : Files)
    → f.primary ≡ some (parsed env)
    → load_candidate (some task) (some (parsed env)) ≡ loaded env
    → load_task (some task) f ≡ ok env
unfolding load_task
loads_primary task env f e l = rw (e, l) refl

one_save :
    (fate : Fate) (task : String) (env : Envelope) (f : Files)
    → load_candidate (some task) (some (parsed env)) ≡ loaded env
    → load_task (some task) (atomic_write fate env f)
      ≡ (if is_committed fate then ok env else load_task (some task) f)
unfolding atomic_write load_task
one_save not_written task env f l = refl
one_save half_written task env f l = refl
one_save not_renamed task env f l = refl
one_save not_copied task env f l = rw l refl
one_save half_copied task env f l = rw l refl
one_save completed task env f l = rw l refl

-- If the id of the task is not empty and every saved state names the task, then whatever the files hold
-- at first and wherever each save stops, what is read afterwards is the envelope of the last save that
-- was committed, or else what was read at first.
pub saves_last :
    (task : String) (f : Files) (ss : List Save)
    → truthy task ≡ true
    → all_match task ss ≡ true
    → load_task (some task) (run_saves task f ss) ≡ last_committed task (load_task (some task) f) ss
unfolding run_saves all_match last_committed
saves_last task f [] t m = refl
saves_last task f (s ∷ ss) t m =
    let m' : state_matches s.given.state (some task) ≡ true = ground (arith, m) in
    let m'' : all_match task ss ≡ true = ground (arith, m) in
    let f' = atomic_write s.fate (made task s) f in
    ap (λ x. load_task (some task) (run_saves task x ss)) (saved task s f t)
    ∙ (saves_last task f' ss t m''
        ∙ ap (λ c. last_committed task c ss)
            (one_save s.fate task (made task s) f (loads_made task s t m')))
