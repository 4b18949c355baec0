-- ===== src/Store/Trusted.antt =====
-- What an envelope that is read from a file has of that file (src/governance/store.js).
use mathlib.Core.Path.{subst}
use text.Mathlib.TextPositions.{eq_refl}
use chatgpt_codex_orchestrat.Prelude.{
  ℕ, String, truthy, ◌≡◌, ◌≢◌, ◌⊎◌, inl, inr, refl, sym, ap, ◌∙◌, true, false, Option, none, some,
  eq_iff, ltb, nat_eq, arith, Result, ok, thrown, ◌>>=◌, Bool-cases, bind_returned, guard_passed,
  ok-injective,
}
use chatgpt_codex_orchestrat.Store.{
  StoreError, corrupt, schema_unsupported, Version, version, not_integer, no_number, Kind, no_kind,
  governance_task, other_kind, Envelope, Content, torn, parsed, current_version, is_id, is_expected,
  is_known_kind, state_matches, validate_envelope, migrate_version, migrate_envelope, is_future,
  loaded, refused, candidate_of, load_candidate, same_text, some_kind, migrate_first,
}

-- The kind of the file, or the kind of a Governance task where the file names none.
abbrev pub IsKindOf : Kind → Kind → Type 0
IsKindOf read written = (read ≡ written) ⊎ ((written ≡ no_kind) × (read ≡ governance_task))

-- The envelope is the one of the file, but for its version and for a kind that the file does not name.
pub record IsCopy (raw env : Envelope) : Type 0 where
  pub kind : IsKindOf env.kind raw.kind
  pub task_id : env.task_id ≡ raw.task_id
  pub project_key : env.project_key ≡ raw.project_key
  pub identity : env.identity ≡ raw.identity
  pub workspace_root : env.workspace_root ≡ raw.workspace_root
  pub authority : env.authority ≡ raw.authority
  pub state : env.state ≡ raw.state
  pub saved_at : env.saved_at ≡ raw.saved_at

IsCopy-self : (env : Envelope) → IsCopy env env
IsCopy-self env = record {
  kind = inl refl;
  task_id = refl;
  project_key = refl;
  identity = refl;
  workspace_root = refl;
  authority = refl;
  state = refl;
  saved_at = refl;
}

some_kind-IsKindOf : (k : Kind) → IsKindOf (some_kind k) k
some_kind-IsKindOf no_kind = inr (refl, refl)
some_kind-IsKindOf governance_task = inl refl
some_kind-IsKindOf other_kind = inl refl

first-IsCopy : (env : Envelope) → IsCopy env (migrate_first env)
first-IsCopy env = record {
  kind = some_kind-IsKindOf env.kind;
  task_id = refl;
  project_key = refl;
  identity = refl;
  workspace_root = refl;
  authority = refl;
  state = refl;
  saved_at = refl;
}

-- The envelope is trusted: of the current version, of the kind or none, of a task with an id, which is the
-- one asked for, and with a state that names this task.
pub record IsTrusted (task : String) (env : Envelope) : Type 0 where
  pub current : env.schema_version ≡ version current_version
  pub known : is_known_kind env.kind ≡ true
  pub named : env.task_id ≡ some task
  pub is_text : truthy task ≡ true
  pub state : state_matches env.state (some task) ≡ true

same-some : (o : Option String) (t : String) → same_text o (some t) ≡ true → o ≡ some t
same-some none t e = cc
same-some (some s) t e = ap some ((eq_iff s t).0 e)

validated :
    (task : String) (env out : Envelope)
    → validate_envelope (some task) env ≡ ok out
    → (out ≡ env)
      × (is_known_kind env.kind ≡ true)
      × (env.task_id ≡ some task)
      × (truthy task ≡ true)
      × (state_matches env.state (some task) ≡ true)
unfolding validate_envelope
validated task env out e =
    let (k, e1) = guard_passed (is_known_kind env.kind) corrupt _ e in
    let (i, e2) = guard_passed (is_id env.task_id) corrupt _ e1 in
    let (x, e3) = guard_passed (is_expected (some task) env.task_id) corrupt _ e2 in
    let (m, e4) = guard_passed (state_matches env.state env.task_id) corrupt _ e3 in
    let n = same-some env.task_id task x in (sym (ok-injective e4), k, n, rw n at i, rw n at m)

same_version : (n : ℕ) → version n ≡ version current_version → n ≡ current_version
same_version n e = cc

never_ok :
    (e : StoreError) (env : Envelope) → ◌≢◌ {A = Result StoreError Envelope} (thrown e) (ok env)
never_ok e env h = cc

kept_kind : (k : Kind) → is_known_kind k ≡ true → is_known_kind (some_kind k) ≡ true
kept_kind no_kind h = refl
kept_kind governance_task h = refl
kept_kind other_kind h = h

-- What a file of no future version may be read as: itself if it is of the current version, and a copy of
-- it otherwise.
abbrev IsRead : String → Envelope → Envelope → Type 0
IsRead task raw env =
    (n : ℕ) × (raw.schema_version ≡ version n)
    × IsTrusted task env
    × IsCopy raw env
    × (raw.schema_version ≡ version current_version → env ≡ raw)

migrated :
    (v : Version) (task : String) (env out : Envelope)
    → env.schema_version ≡ v
    → is_known_kind env.kind ≡ true
    → env.task_id ≡ some task
    → truthy task ≡ true
    → state_matches env.state (some task) ≡ true
    → migrate_version v env ≡ ok out
    → IsRead task env out
unfolding migrate_version
migrated (version n) task env out z k i y m e = elim (Bool-cases (nat_eq n current_version)) [
  | inl t ↦
      let same : ◌≡◌ {A = Result StoreError Envelope} (ok env) (ok out) = rw t at e in
      subst (IsRead task env) (ok-injective same) (
        n,
        z,
        record {
          current = z ∙ ap version (ground (arith, t));
          known = k;
          named = i;
          is_text = y;
          state = m;
        },
        IsCopy-self env,
        λ c. refl,
      )
  | inr t ↦ elim (Bool-cases (ltb current_version n)) [
    | inl above ↦ absurd (never_ok schema_unsupported out (rw (t, above) at e))
    | inr below ↦
        let same : ◌≡◌ {A = Result StoreError Envelope} (ok (migrate_first env)) (ok out) =
          rw (t, below) at e in
        subst (IsRead task env) (ok-injective same) (
          n,
          z,
          record {
            current = refl;
            known = kept_kind env.kind k;
            named = i;
            is_text = y;
            state = m;
          },
          first-IsCopy env,
          λ c. absurd (ground (arith, below, t, same_version n (sym z ∙ c))),
        )
  ]
]
migrated (not_integer above) task env out z k i y m e = cc
migrated no_number task env out z k i y m e = cc

-- The envelope comes from the content of a file, which is of no future version: it is what the file
-- holds if that is of the current version, and a copy of it of the current version otherwise.
abbrev pub IsFrom : String → Envelope → Option Content → Type 0
IsFrom task env o =
    (raw : Envelope) × (o ≡ some (parsed raw))
    × (is_future raw.schema_version ≡ false)
    × (n : ℕ) × (raw.schema_version ≡ version n)
    × IsTrusted task env
    × IsCopy raw env
    × (raw.schema_version ≡ version current_version → env ≡ raw)

candidate_ok :
    (r : Result StoreError Envelope) (env : Envelope) → candidate_of r ≡ loaded env → r ≡ ok env
candidate_ok (ok e) env h = cc
candidate_ok (thrown e) env h = cc

IsRead-parsed :
    (task : String) (raw env : Envelope)
    → (validate_envelope (some task) raw >>= migrate_envelope) ≡ ok env
    → IsRead task raw env
unfolding migrate_envelope
IsRead-parsed task raw env e =
    let (v, e1, f) = bind_returned (validate_envelope (some task) raw) migrate_envelope e in
    let (same, k, i, y, m) = validated task raw v f in
    subst (λ x. IsRead task x env) same
      (migrated v.schema_version task v env refl (rw same k) (rw same i) y (rw same m) e1)

pub candidate-IsFrom :
    (task : String) (o : Option Content) (env : Envelope)
    → load_candidate (some task) o ≡ loaded env
    → IsFrom task env o
unfolding load_candidate
candidate-IsFrom task none env e = absurd (cc)
candidate-IsFrom task (some torn) env e = absurd (cc)
candidate-IsFrom task (some (parsed raw)) env e = elim (Bool-cases (is_future raw.schema_version)) [
  | inl t ↦ let e' : refused schema_unsupported ≡ loaded env = rw t at e in absurd (cc)
  | inr t ↦
      let e' : candidate_of (validate_envelope (some task) raw >>= migrate_envelope) ≡ loaded env =
        rw t at e in
      let (n, v, h, c, same) = IsRead-parsed task raw env (candidate_ok _ env e') in
      (raw, refl, t, n, v, h, c, same)
]

known_before : (k l : Kind) → IsKindOf k l → is_known_kind k ≡ true → is_known_kind l ≡ true
known_before k l (inl e) h = rw e at h
known_before k l (inr e) h = rw e.0 refl

valid_again :
    (task : String) (raw : Envelope)
    → is_known_kind raw.kind ≡ true
    → raw.task_id ≡ some task
    → truthy task ≡ true
    → state_matches raw.state (some task) ≡ true
    → validate_envelope (some task) raw ≡ ok raw
unfolding validate_envelope
valid_again task raw k i y m = simp (k, i, y, m, eq_refl task)

migrates :
    (n : ℕ) (raw : Envelope)
    → is_future (version n) ≡ false
    → (x : Envelope) × (migrate_version (version n) raw ≡ ok x)
unfolding migrate_version
migrates n raw f = elim (Bool-cases (nat_eq n current_version)) [
  | inl t ↦ (raw, rw t refl)
  | inr t ↦ (migrate_first raw, rw (t, f) refl)
]

migrates_as :
    (n : ℕ) (raw x : Envelope)
    → raw.schema_version ≡ version n
    → migrate_version (version n) raw ≡ ok x
    → migrate_envelope raw ≡ ok x
unfolding migrate_envelope
migrates_as n raw x v g = ap (λ u. migrate_version u raw) v ∙ g

loads :
    (task : String) (raw x : Envelope)
    → is_future raw.schema_version ≡ false
    → validate_envelope (some task) raw ≡ ok raw
    → migrate_envelope raw ≡ ok x
    → load_candidate (some task) (some (parsed raw)) ≡ loaded x
unfolding load_candidate
loads task raw x f g m =
    let now : load_candidate (some task) (some (parsed raw))
        ≡ candidate_of (validate_envelope (some task) raw >>= migrate_envelope) =
      rw f refl in
    now ∙ (ap (λ r. candidate_of (r >>= migrate_envelope)) g ∙ ap candidate_of m)

-- a file that something is read from is loaded
pub IsFrom-loaded :
    (task : String) (env : Envelope) (o : Option Content)
    → IsFrom task env o
    → (x : Envelope) × (load_candidate (some task) o ≡ loaded x)
IsFrom-loaded task env o (raw, e, f, n, v, t, c, same) =
    let k = known_before env.kind raw.kind c.kind t.known in
    let i = sym c.task_id ∙ t.named in
    let m : state_matches raw.state (some task) ≡ true = rw c.state at t.state in
    let (x, g) = migrates n raw (rw v at f) in
    (
      x,
      ap (load_candidate (some task)) e
          ∙ loads task raw x f (valid_again task raw k i t.is_text m) (migrates_as n raw x v g),
    )
