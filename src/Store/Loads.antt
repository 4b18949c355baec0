-- ===== src/Store/Loads.antt =====
-- Which of its two files a task is read from (src/governance/store.js).
use chatgpt_codex_orchestrat.Prelude.{
  String, ◌≡◌, ◌≢◌, ◌⊎◌, inl, inr, refl, ap, ◌∙◌, true, false, some, ok, Bool-cases,
}
use chatgpt_codex_orchestrat.Store.{
  corrupt, schema_unsupported, bad_request, Envelope, parsed, Files, is_future, Candidate, missing,
  loaded, refused, load_candidate, resolve_backup, resolve, load_task,
}
use chatgpt_codex_orchestrat.Store.Trusted.{IsFrom, candidate-IsFrom, IsFrom-loaded}

future_refused :
    (task : String) (raw : Envelope)
    → is_future raw.schema_version ≡ true
    → load_candidate (some task) (some (parsed raw)) ≡ refused schema_unsupported
unfolding load_candidate
future_refused task raw t = rw t refl

backed : (b : Candidate) (env : Envelope) → resolve_backup b ≡ ok env → b ≡ loaded env
backed (loaded x) env e = cc
backed missing env e = absurd (cc)
backed (refused corrupt) env e = absurd (cc)
backed (refused schema_unsupported) env e = absurd (cc)
backed (refused bad_request) env e = absurd (cc)

resolved :
    (p b : Candidate) (env : Envelope)
    → resolve p b ≡ ok env
    → (p ≢ refused schema_unsupported)
      × ((p ≡ loaded env) ⊎ (((x : Envelope) → p ≢ loaded x) × (b ≡ loaded env)))
resolved (loaded x) b env e = (λ h. cc, inl (cc))
resolved missing b env e = (λ h. cc, inr (λ x h. cc, backed b env e))
resolved (refused corrupt) b env e = (λ h. cc, inr (λ x h. cc, backed b env e))
resolved (refused schema_unsupported) b env e = absurd (cc)
resolved (refused bad_request) b env e = (λ h. cc, inr (λ x h. cc, backed b env e))

-- What is read for a task comes from its primary file or, where nothing can be read from that, from its
-- backup: it is what the file holds in every field but the version and a kind that the file does not
-- name, and in these too if the file is of the current version. It is of the current version, of a known
-- kind, and of the task, which its state names; neither that file nor the primary file is of a future
-- version.
pub load-IsTrusted :
    (task : String) (f : Files) (env : Envelope)
    → load_task (some task) f ≡ ok env
    → (IsFrom task env f.primary
        ⊎ (((x : Envelope) → ¬ IsFrom task x f.primary) × IsFrom task env f.backup))
      × ((raw : Envelope) → f.primary ≡ some (parsed raw) → is_future raw.schema_version ≡ false)
unfolding load_task
load-IsTrusted task f env e =
    let r =
      resolved (load_candidate (some task) f.primary) (load_candidate (some task) f.backup) env e in
    (
      elim r.1 [
        | inl p ↦ inl (candidate-IsFrom task f.primary env p)
        | inr b ↦ inr (
          λ x h. let (y, l) = IsFrom-loaded task x f.primary h in b.0 y l,
          candidate-IsFrom task f.backup env b.1,
        )
      ],
      λ raw p. elim (Bool-cases (is_future raw.schema_version)) [
        | inr n ↦ n
        | inl t ↦ absurd (r.0 (ap (load_candidate (some task)) p ∙ future_refused task raw t))
      ],
    )
