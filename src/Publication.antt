-- ===== src/Publication.antt =====
-- The Git publication transaction: src/publication-transaction.js, with checkPublishIdentity of
-- src/publish-policy.js. `git` is the injected gitRun: what a command prints, or nothing where it
-- throws, after the commands before it. `readback` is the injected readback.
pub mod Quiet
pub mod Refused
pub mod Cleared
mod Examples
use Prim.Native.String
use Prim.Native.Char.{Char, code}
use chatgpt_codex_orchestrat.Prelude.{
  ℕ, String, Bool, true, false, not, ◌&&◌, ◌||◌, Option, none, some, List, [], ◌∷◌, ◌++◌,
  if◌then◌else◌, truthy, ◌==◌, leb, nat_eq, Result, ok, thrown,
}

-- The commands that the transaction issues; `push` is of HEAD to a branch of origin.
pub data Git : Type 0 where
  current_branch get_name get_email fetch remote_main add_all head is_ancestor : Git
  set_name set_email commit push push_tag : String → Git
  make_tag : String → String → Git

pub data Stop : Type 0 where
  gate_not_passed identity_mismatch moved_before_commit moved_before_push no_fast_forward : Stop
  git_threw : Git → Stop

pub record Release : Type 0 where
  pub exists : Bool
  pub draft : Option Bool
  pub prerelease : Option Bool
  pub title : Option String
  pub body : String

pub record Required : Type 0 where
  pub exists : Bool
  pub draft : Option Bool
  pub prerelease : Option Bool
  pub title : Option String
  pub body_contains : List String

pub record External : Type 0 where
  pub remote_main_sha : Option String
  pub tag_sha : Option String
  pub release : Option Release

pub record Request : Type 0 where
  pub expected_origin_main : String
  pub target_branch : String
  pub commit_message : String
  pub name : Option String
  pub email : Option String
  pub tag : Option String
  pub required_release : Option Required
  pub gate_ok : Bool

pub record Published : Type 0 where
  pub commit : String
  pub tag_sha : Option String
  pub external_readback : Bool

-- The white space of `trim` and of `\s`.
is_space : Char → Bool
is_space c =
    let n = code c in
    (leb 9 n && leb n 13)
    || (nat_eq n 32
        || (nat_eq n 0xa0
            || (nat_eq n 0x1680
                || ((leb 0x2000 n && leb n 0x200a)
                    || (nat_eq n 0x2028
                        || (nat_eq n 0x2029
                            || (nat_eq n 0x202f
                                || (nat_eq n 0x205f || (nat_eq n 0x3000 || nat_eq n 0xfeff)))))))))

drop_spaces : String → String
unfolding is_space
drop_spaces String.[] = ""
drop_spaces (String.◌∷◌ c s) =
    let rest = drop_spaces s in if is_space c then rest else String.◌∷◌ c s

drop_last_spaces : String → String
unfolding is_space
drop_last_spaces String.[] = ""
drop_last_spaces (String.◌∷◌ c s) =
    let rest = drop_last_spaces s in
    if is_space c && not (truthy rest) then "" else String.◌∷◌ c rest

pub trim : String → String
unfolding drop_spaces drop_last_spaces
trim s = drop_last_spaces (drop_spaces s)

first_word : String → String
unfolding is_space
first_word String.[] = ""
first_word (String.◌∷◌ c s) =
    let rest = first_word s in if is_space c then "" else String.◌∷◌ c rest

unfoldable pub parse_remote_ref : String → String
unfolding trim first_word
parse_remote_ref out = first_word (trim out)

starts_with : String → String → Bool
starts_with String.[] s = true
starts_with (String.◌∷◌ c p) String.[] = false
starts_with (String.◌∷◌ c p) (String.◌∷◌ d s) = nat_eq (code c) (code d) && starts_with p s

includes : String → String → Bool
unfolding starts_with
includes p String.[] = starts_with p ""
includes p (String.◌∷◌ c s) = starts_with p (String.◌∷◌ c s) || includes p s

all_in : String → List String → Bool
unfolding includes
all_in body [] = true
all_in body (p ∷ ps) = includes p body && all_in body ps

abbrev said : Option String → Bool
said none = false
said (some s) = truthy s

abbrev same : Option String → Option String → Bool
same none none = true
same (some a) (some b) = a == b
same _ _ = false

abbrev as_declared : Option Bool → Option Bool → Bool
as_declared none real = true
as_declared (some b) none = false
as_declared (some true) (some c) = c
as_declared (some false) (some c) = not c

-- A release that is missing is an object without fields.
unfoldable pub release_ok : Option Required → Option Release → Bool
unfolding all_in
release_ok none rel = true
release_ok (some q) none =
    not q.exists
    && (as_declared q.draft none
        && (as_declared q.prerelease none && (not (said q.title) && all_in "" q.body_contains)))
release_ok (some q) (some rel) =
    (not q.exists || rel.exists)
    && (as_declared q.draft rel.draft
        && (as_declared q.prerelease rel.prerelease
            && ((not (said q.title) || same rel.title q.title) && all_in rel.body q.body_contains)))

abbrev or_commit : Option String → String → String
or_commit none sha = sha
or_commit (some t) sha = if truthy t then t else sha

-- `checkExternalReadback`, for a commit that is known.
unfoldable pub check_external_readback :
    Option External → String → Option String → Option String → Option Required → Bool
unfolding release_ok
check_external_readback none sha tag tag_sha required = false
check_external_readback (some ext) sha tag tag_sha required =
    (truthy sha && same ext.remote_main_sha (some sha))
    && ((not (said tag) || (said ext.tag_sha && same ext.tag_sha (some (or_commit tag_sha sha))))
        && release_ok required ext.release)

-- A computation that issues commands, and may stop.
abbrev pub Act : Type 0 → Type 0
Act A = List Git → Result Stop A × List Git

abbrev pub continue :
    {A B : Type 0} → Result Stop A × List Git → (A → Act B) → Result Stop B × List Git
continue (thrown e, h) f = (thrown e, h)
continue (ok a, h) f = f a h

infixl 5 ◌>>=◌
abbrev pub ◌>>=◌ : {A B : Type 0} → Act A → (A → Act B) → Act B
◌>>=◌ m f h = continue (m h) f

abbrev pub returns : {A : Type 0} → A → Act A
returns a h = (ok a, h)

abbrev pub stop : {A : Type 0} → Stop → Act A
stop e h = (thrown e, h)

abbrev pub printed : Git → Option String → Result Stop String
printed c none = thrown (git_threw c)
printed c (some out) = ok out

abbrev pub continue_if : Bool → Stop → Act (Unit {0})
continue_if b e = if b then returns tt else stop e

abbrev pub is_some : Option String → Bool
is_some none = false
is_some (some s) = true

module _ (git : List Git → Git → Option String) where
  abbrev pub ask : Git → Act String
  ask c h = (printed c (git h c), h ++ c ∷ [])

  -- a command whose failure is caught
  abbrev pub attempt : Git → Act (Option String)
  attempt c h = (ok (git h c), h ++ c ∷ [])

  abbrev pub set_given : (String → Git) → Option String → Act (Unit {0})
  set_given c none = returns tt
  set_given c (some s) = if truthy s then (ask (c s) >>= λ _. returns tt) else returns tt

  abbrev trimmed : Option String → Option String
  trimmed none = none
  trimmed (some out) = if truthy (trim out) then some (trim out) else none

  abbrev pub expected : Option String → Option String → Bool
  expected wanted actual = not (said wanted) || same (trimmed actual) wanted

  -- `checkPublishIdentity`
  unfoldable pub check_publish_identity : Request → Act Bool
  check_publish_identity q = set_given set_name q.name >>= λ _. set_given set_email q.email >>= λ _.
      attempt get_name >>= λ name.
      attempt get_email >>= λ email. returns (expected q.name name && expected q.email email)

  -- `origin/main` is where it is expected.
  unfoldable pub check_remote : Request → Stop → Act (Unit {0})
  unfolding parse_remote_ref
  check_remote q e = ask fetch >>= λ _.
      ask remote_main >>= λ out. continue_if (parse_remote_ref out == q.expected_origin_main) e

  unfoldable pub make_commit : Request → Act String
  make_commit q = ask add_all >>= λ _.
      ask (commit q.commit_message) >>= λ _. ask head >>= λ out. returns (trim out)

  unfoldable pub check_fast_forward : Act (Unit {0})
  check_fast_forward = attempt is_ancestor >>= λ out. continue_if (is_some out) no_fast_forward

  -- Everything before the push; the commit is the result.
  unfoldable pub prepare : Request → Act String
  unfolding check_publish_identity check_remote make_commit check_fast_forward
  prepare q = continue_if q.gate_ok gate_not_passed >>= λ _. attempt current_branch >>= λ _.
      check_publish_identity q >>= λ same_identity.
      continue_if same_identity identity_mismatch >>= λ _.
      check_remote q moved_before_commit >>= λ _. make_commit q >>= λ sha.
      check_remote q moved_before_push >>= λ _. check_fast_forward >>= λ _. returns sha

  abbrev pub push_given_tag : Option String → String → Act (Option String)
  push_given_tag none sha = returns none
  push_given_tag (some t) sha =
      if truthy t
      then (ask (make_tag t sha) >>= λ _. ask (push_tag t) >>= λ _. returns (some sha))
      else returns none

  module _ (readback : List Git → String → Option External) where
    -- The push, the tag and the readback of a commit.
    unfoldable pub push_commit : Request → String → Act Published
    unfolding check_external_readback
    push_commit q sha = ask (push q.target_branch) >>= λ _.
        push_given_tag q.tag sha >>= λ tag_sha h. (
          ok (record {
            commit = sha;
            tag_sha = tag_sha;
            external_readback =
                check_external_readback (readback h sha) sha q.tag tag_sha q.required_release;
          }),
          h,
        )

    -- `run`
    unfoldable pub publish_main : Request → Act Published
    unfolding prepare push_commit
    publish_main q = prepare q >>= push_commit q
