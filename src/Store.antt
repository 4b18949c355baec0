-- ===== src/Store.antt =====
-- The store of Governance tasks: the envelope, the write with a backup and the reading of
-- src/governance/store.js. A file is absent, corrupt (not the JSON of an object), or the object that its
-- JSON stands for. Names of files are left out: a task has its primary file, its backup and its
-- temporary file.
pub mod Saves
pub mod Trusted
pub mod Loads
mod Examples
use chatgpt_codex_orchestrat.Prelude.{
  ℕ, suc, String, Bool, true, false, not, ◌&&◌, ◌||◌, Option, none, some, List, [], ◌∷◌,
  if◌then◌else◌, truthy, ◌==◌, ltb, nat_eq, Result, ok, thrown, ◌>>=◌, ◌>>◌, guard,
}

pub data StoreError : Type 0 where
  corrupt schema_unsupported bad_request : StoreError

-- A schema version: an integer that is not negative, a number that is not such an integer and whether it
-- is greater than the current version, or no number.
pub data Version : Type 0 where
  version : ℕ → Version
  not_integer : Bool → Version
  no_number : Version

-- `kind`: null or empty, the kind of a Governance task, or another.
pub data Kind : Type 0 where
  no_kind governance_task other_kind : Kind

pub record Authority : Type 0 where
  pub generation : Option ℕ
  pub token : Option String
  pub created_at : Option String
  pub last_takeover_at : Option String

-- The structured state of a task, of which only the task id is read here.
pub record StateObject : Type 0 where
  pub task_id : Option String
  pub body : String

pub record Envelope : Type 0 where
  pub schema_version : Version
  pub kind : Kind
  pub task_id : Option String
  pub project_key : Option String
  pub identity : Option String
  pub workspace_root : Option String
  pub authority : Option Authority
  pub state : Option StateObject
  pub saved_at : Option String

pub data Content : Type 0 where
  torn : Content
  parsed : Envelope → Content

pub record Files : Type 0 where
  pub primary : Option Content
  pub backup : Option Content
  pub temporary : Option Content

abbrev pub current_version : ℕ
current_version = 1

abbrev pub is_id : Option String → Bool
is_id none = false
is_id (some s) = truthy s

-- `a !== b` for a value that may be missing
abbrev pub same_text : Option String → Option String → Bool
same_text none none = true
same_text (some a) (some b) = a == b
same_text _ _ = false

-- `taskId != null && obj.taskId !== taskId` does not hold
abbrev pub is_expected : Option String → Option String → Bool
is_expected none id = true
is_expected (some t) id = same_text id (some t)

abbrev pub is_known_kind : Kind → Bool
is_known_kind other_kind = false
is_known_kind _ = true

abbrev pub state_matches : Option StateObject → Option String → Bool
state_matches none id = false
state_matches (some st) id = same_text st.task_id id

-- `validateEnvelope`
unfoldable pub validate_envelope : Option String → Envelope → Result StoreError Envelope
validate_envelope task env =
    guard (is_known_kind env.kind) corrupt
    >> (guard (is_id env.task_id) corrupt
        >> (guard (is_expected task env.task_id) corrupt
            >> (guard (state_matches env.state env.task_id) corrupt >> ok env)))

abbrev pub some_kind : Kind → Kind
some_kind no_kind = governance_task
some_kind k = k

-- The migration from version 0.
abbrev pub migrate_first : Envelope → Envelope
migrate_first env = record env { schema_version = version 1; kind = some_kind env.kind }

unfoldable pub migrate_version : Version → Envelope → Result StoreError Envelope
migrate_version (version n) env =
    if nat_eq n current_version
    then ok env
    else (if ltb current_version n then thrown schema_unsupported else ok (migrate_first env))
migrate_version (not_integer above) env = thrown schema_unsupported
migrate_version no_number env = thrown schema_unsupported

-- `migrateEnvelope`
unfoldable pub migrate_envelope : Envelope → Result StoreError Envelope
unfolding migrate_version
migrate_envelope env = migrate_version env.schema_version env

-- `typeof v === 'number' && v > GOVERNANCE_SCHEMA_VERSION`
abbrev pub is_future : Version → Bool
is_future (version n) = ltb current_version n
is_future (not_integer above) = above
is_future no_number = false

-- What `_loadCandidate` returns.
pub data Candidate : Type 0 where
  missing : Candidate
  loaded : Envelope → Candidate
  refused : StoreError → Candidate

abbrev pub candidate_of : Result StoreError Envelope → Candidate
candidate_of (ok env) = loaded env
candidate_of (thrown e) = refused e

-- `_loadCandidate`
unfoldable pub load_candidate : Option String → Option Content → Candidate
unfolding validate_envelope migrate_envelope
load_candidate task none = missing
load_candidate task (some torn) = refused corrupt
load_candidate task (some (parsed env)) =
    if is_future env.schema_version
    then refused schema_unsupported
    else candidate_of (validate_envelope task env >>= migrate_envelope)

-- `_resolveStateFile`, for what the backup gives.
abbrev pub resolve_backup : Candidate → Result StoreError Envelope
resolve_backup (loaded env) = ok env
resolve_backup (refused schema_unsupported) = thrown schema_unsupported
resolve_backup _ = thrown corrupt

abbrev pub resolve : Candidate → Candidate → Result StoreError Envelope
resolve (loaded env) backup = ok env
resolve (refused schema_unsupported) backup = thrown schema_unsupported
resolve _ backup = resolve_backup backup

-- `loadTask`, and with no task id a candidate of the scan.
unfoldable pub load_task : Option String → Files → Result StoreError Envelope
unfolding load_candidate
load_task task f = resolve (load_candidate task f.primary) (load_candidate task f.backup)

-- What the caller gives to `saveTask`.
pub record Given : Type 0 where
  pub project_key : Option String
  pub identity : Option String
  pub workspace_root : Option String
  pub authority : Option Authority
  pub state : Option StateObject
  pub saved_at : Option String

abbrev pub state_id : Option StateObject → Option String
state_id none = none
state_id (some st) = st.task_id

abbrev pub or_id : Option String → Option String → Option String
or_id a b = if is_id a then a else (if is_id b then b else none)

-- `{ ...defaultAuthorityMeta(), ...authority }`
abbrev pub with_default : Option Authority → Option Authority
with_default none = none
with_default (some a) =
    some (record a { generation = elim a.generation [ none ↦ some 0 | some n ↦ some n ] })

-- `makeGovernanceEnvelope`, at the time `now`.
unfoldable pub make_envelope : Option String → (now : String) → Given → Result StoreError Envelope
make_envelope task now g =
    let id = or_id task (state_id g.state) in
    if is_id id
    then ok (record {
      schema_version = version current_version;
      kind = governance_task;
      task_id = id;
      project_key = g.project_key;
      identity = g.identity;
      workspace_root = g.workspace_root;
      authority = with_default g.authority;
      state = g.state;
      saved_at = if is_id g.saved_at then g.saved_at else some now;
    })
    else thrown bad_request

-- How far `atomicWriteJsonWithBackup` gets, by a failure or the end of the process.
pub data Fate : Type 0 where
  not_written half_written not_renamed not_copied half_copied completed : Fate

-- The commit point is the rename.
abbrev pub is_committed : Fate → Bool
is_committed not_written = false
is_committed half_written = false
is_committed not_renamed = false
is_committed _ = true

-- `atomicWriteJsonWithBackup`
unfoldable pub atomic_write : Fate → Envelope → Files → Files
atomic_write not_written env f = f
atomic_write half_written env f = record f { temporary = some torn }
atomic_write not_renamed env f = record f { temporary = some (parsed env) }
atomic_write not_copied env f = record f { primary = some (parsed env); temporary = none }
atomic_write half_copied env f = record {
  primary = some (parsed env);
  backup = some torn;
  temporary = none;
}
atomic_write completed env f = record {
  primary = some (parsed env);
  backup = some (parsed env);
  temporary = none;
}

-- `saveTask`
unfoldable pub save_task :
    Option String → (now : String) → Given → Fate → Files → Result StoreError Files
unfolding make_envelope atomic_write
save_task task now g fate f = make_envelope task now g >>= λ env. ok (atomic_write fate env f)

-- The loop of `scanStrict` over the tasks of the directory: the envelopes, and how many are corrupt.
unfoldable pub scan_strict : List Files → List Envelope × ℕ
unfolding load_task
scan_strict [] = ([], 0)
scan_strict (f ∷ files) =
    let rest = scan_strict files in
    elim (load_task none f) [ ok env ↦ (env ∷ rest.0, rest.1) | thrown e ↦ (rest.0, suc rest.1) ]
