-- ===== src/JobMap.antt =====
-- Which executor job a bootstrap may start or must recover: the preflight of
-- src/executor/job-map.js. The directory of jobs is read once; an entry that cannot be read is
-- `none`. `roots_equal` compares two paths after node:path has resolved them.
pub mod Safe
mod Examples
use chatgpt_codex_orchestrat.Prelude.{
  ℕ, zero, suc, String, Bool, true, false, not, ◌&&◌, ◌||◌, Option, none, some, List, [], ◌∷◌,
  if◌then◌else◌, truthy, ◌==◌, Result, ok, thrown, ◌>>=◌,
}

pub data JobState : Type 0 where
  created thread_ready starting running recovery_required : JobState
  completed failed interrupted pre_turn_not_materialized : JobState
  other_state : String → JobState

pub record Job : Type 0 where
  pub job_id : String
  pub task_id : Option String
  pub step_id : Option String
  pub identity : Option String
  pub workspace_id : Option String
  pub workspace_root : Option String
  pub state : JobState

-- The arguments of the preflight.
pub record Scope : Type 0 where
  pub workspace_id : Option String
  pub workspace_root : Option String
  pub task_id : Option String
  pub step_id : Option String
  pub identity : Option String

abbrev pub is_risk : JobState → Bool
is_risk created = true
is_risk thread_ready = true
is_risk starting = true
is_risk running = true
is_risk recovery_required = true
is_risk _ = false

abbrev pub is_terminal : JobState → Bool
is_terminal completed = true
is_terminal failed = true
is_terminal interrupted = true
is_terminal pre_turn_not_materialized = true
is_terminal _ = false

abbrev pub is_null : Option String → Bool
is_null none = true
is_null (some s) = false

abbrev both_said : (String → String → Bool) → Option String → Option String → Bool
both_said test (some a) (some b) = truthy a && (truthy b && test a b)
both_said test _ _ = false

-- `missingBinding`
abbrev pub is_unbound : Job → Bool
is_unbound j = is_null j.task_id && (is_null j.step_id && is_null j.identity)

-- One field of `matchesBinding`, which holds where none is supplied.
abbrev pub agrees : Option String → Option String → Bool
agrees none value = true
agrees (some s) none = false
agrees (some s) (some t) = t == s

-- `matchesBinding`
abbrev pub matches : Scope → Job → Bool
matches s j =
    agrees s.task_id j.task_id
    && (agrees s.step_id j.step_id
        && (agrees s.identity j.identity
            && not (is_null s.task_id && (is_null s.step_id && is_null s.identity))))

pub data PreflightError : Type 0 where
  bad_request corrupt foreign lifecycle_unknown : PreflightError
  ambiguous : ℕ → PreflightError

-- What the preflight allows, and of a job to recover, whether it is by its id or by its binding.
pub data Preflight : Type 0 where
  safe_to_start : Preflight
  recover_job : Job → Preflight
  recover_binding : Job → Preflight

-- The entries of the directory, if every one can be read.
pub readable : List (Option Job) → Option (List Job)
readable [] = some []
readable (none ∷ entries) = none
readable (some j ∷ entries) = elim (readable entries) [ none ↦ none | some js ↦ some (j ∷ js) ]

abbrev pub count {ℓ} : {A : Type ℓ} → List A → ℕ
count [] = 0
count (_ ∷ xs) = suc (count xs)

-- `recoveryPreflight`, for the selected jobs.
abbrev pub decide : List Job → Result PreflightError Preflight
decide [] = ok safe_to_start
decide (j ∷ []) = if is_unbound j then ok (recover_job j) else ok (recover_binding j)
decide (j ∷ k ∷ js) = thrown (ambiguous (count (j ∷ k ∷ js)))

module _ (roots_equal : String → String → Bool) where
  -- `sameWorkspace`
  abbrev pub same_workspace : Scope → Job → Bool
  same_workspace s j =
      both_said (λ a b. b == a) s.workspace_id j.workspace_id
      || both_said (λ a b. roots_equal b a) s.workspace_root j.workspace_root

  -- The first loop: a job of the same binding in another workspace.
  unfoldable pub check_foreign : Scope → List Job → Result PreflightError (Unit {0})
  check_foreign s [] = ok tt
  check_foreign s (j ∷ js) =
      let rest = check_foreign s js in
      if not (matches s j) || same_workspace s j
      then rest
      else (if is_terminal j.state
          then rest
          else (if is_risk j.state then thrown foreign else thrown lifecycle_unknown))

  -- The second loop: the jobs that may have to be recovered.
  unfoldable pub dangerous : Scope → List Job → Result PreflightError (List Job)
  dangerous s [] = ok []
  dangerous s (j ∷ js) =
      let rest = dangerous s js in
      if not (same_workspace s j) || is_terminal j.state
      then rest
      else (if not (is_unbound j) && not (matches s j)
          then rest
          else (if not (is_risk j.state)
              then thrown lifecycle_unknown
              else rest >>= λ ds. ok (j ∷ ds)))

  unfoldable pub select_jobs : Scope → Option (List Job) → Result PreflightError (List Job)
  unfolding check_foreign dangerous
  select_jobs s none = thrown corrupt
  select_jobs s (some js) = check_foreign s js >>= λ _. dangerous s js

  -- `recoveryPreflightCandidates`
  unfoldable pub preflight_candidates : Scope → List (Option Job) → Result PreflightError (List Job)
  unfolding select_jobs readable
  preflight_candidates s entries =
      if is_null s.workspace_id && is_null s.workspace_root
      then thrown bad_request
      else (if is_null s.task_id && (is_null s.step_id && is_null s.identity)
          then thrown bad_request
          else select_jobs s (readable entries))

  unfoldable pub recovery_preflight : Scope → List (Option Job) → Result PreflightError Preflight
  unfolding preflight_candidates
  recovery_preflight s entries = preflight_candidates s entries >>= decide
