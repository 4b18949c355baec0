-- ===== src/Router/Validation.antt =====
-- Which facts the router accepts (`normalizeFacts` and `validateConsistency` of
-- src/router/decide.js).
use chatgpt_codex_orchestrat.Prelude.{
  ◌≡◌, refl, sym, ap, ◌∙◌, ◌↔◌, ◌⊎◌, inl, Bool, true, false, arith, Result, ok, thrown, ◌>>=◌,
  bind_returned, ok-injective, thrown, ◌>>=◌,
}
use chatgpt_codex_orchestrat.Router.{
  FactKey, FactValue, missing, boolean, fact, requires_native, requires_local, read_only_fact,
  mutation_required, exact_change_known, bounded_change, multi_file, unknown_root_cause, iterative,
  long_running, RawFacts, Facts, RouterError, has_local_work, validate_consistency, read_fact,
  read_facts, normalize_facts, decide_facts, decide_route, decide_strict, raw_of,
}

-- No fact about local work is claimed.
pub record NoLocalWork (f : Facts) : Type 0 where
  pub read_only : f.read_only ≡ false
  pub mutation_required : f.mutation_required ≡ false
  pub exact_change_known : f.exact_change_known ≡ false
  pub bounded_change : f.bounded_change ≡ false
  pub multi_file : f.multi_file ≡ false
  pub unknown_root_cause : f.unknown_root_cause ≡ false
  pub iterative : f.iterative ≡ false
  pub long_running : f.long_running ≡ false

-- Either no local work at all, or local work that reads or mutates, and not both.
abbrev pub IsConsistent : Facts → Type 0
IsConsistent f =
    (f.requires_local ≡ false) × NoLocalWork f
    ⊎ (f.requires_local ≡ true) × (f.read_only ≡ true) × (f.mutation_required ≡ false)
    ⊎ (f.requires_local ≡ true) × (f.read_only ≡ false) × (f.mutation_required ≡ true)

-- A missing fact reads as false, a Boolean as itself, and nothing else reads.
abbrev pub Reads : RawFacts → Facts → Type 0
Reads raw f = (k : FactKey) → (raw k ≡ boolean (fact f k)) ⊎ (raw k ≡ missing) × (fact f k ≡ false)

pub validate_ok-IsConsistent : (f g : Facts) → validate_consistency f ≡ ok g → IsConsistent f
unfolding validate_consistency has_local_work
validate_ok-IsConsistent f g h = ground arith

pub IsConsistent-validate_ok : (f : Facts) → IsConsistent f → validate_consistency f ≡ ok f
unfolding validate_consistency has_local_work
IsConsistent-validate_ok f h = ground arith

pub validate_keeps : (f g : Facts) → validate_consistency f ≡ ok g → g ≡ f
unfolding validate_consistency has_local_work
validate_keeps f g h = ground arith

pub read_facts-raw_of : (f : Facts) → read_facts (raw_of f) ≡ ok f
unfolding read_facts
read_facts-raw_of f = refl

-- what the chain of reads returned, read by read
read_each :
    (raw : RawFacts) (f : Facts)
    → read_facts raw ≡ ok f
    → (k : FactKey) → read_fact k (raw k) ≡ ok (fact f k)
unfolding read_facts
read_each raw f h =
    let (x1, h1, e1) = bind_returned (read_fact requires_native (raw requires_native)) _ h in
    let (x2, h2, e2) = bind_returned (read_fact requires_local (raw requires_local)) _ h1 in
    let (x3, h3, e3) = bind_returned (read_fact read_only_fact (raw read_only_fact)) _ h2 in
    let (x4, h4, e4) = bind_returned (read_fact mutation_required (raw mutation_required)) _ h3 in
    let (x5, h5, e5) = bind_returned (read_fact exact_change_known (raw exact_change_known)) _ h4 in
    let (x6, h6, e6) = bind_returned (read_fact bounded_change (raw bounded_change)) _ h5 in
    let (x7, h7, e7) = bind_returned (read_fact multi_file (raw multi_file)) _ h6 in
    let (x8, h8, e8) = bind_returned (read_fact unknown_root_cause (raw unknown_root_cause)) _ h7 in
    let (x9, h9, e9) = bind_returned (read_fact iterative (raw iterative)) _ h8 in
    let (x10, h10, e10) = bind_returned (read_fact long_running (raw long_running)) _ h9 in
    let at : (k : FactKey) → _ = λ k. ap (λ (g : Facts). fact g k) (ok-injective h10) in
    elim [
      | requires_native ↦ e1 ∙ ap ok (at requires_native)
      | requires_local ↦ e2 ∙ ap ok (at requires_local)
      | read_only_fact ↦ e3 ∙ ap ok (at read_only_fact)
      | mutation_required ↦ e4 ∙ ap ok (at mutation_required)
      | exact_change_known ↦ e5 ∙ ap ok (at exact_change_known)
      | bounded_change ↦ e6 ∙ ap ok (at bounded_change)
      | multi_file ↦ e7 ∙ ap ok (at multi_file)
      | unknown_root_cause ↦ e8 ∙ ap ok (at unknown_root_cause)
      | iterative ↦ e9 ∙ ap ok (at iterative)
      | long_running ↦ e10 ∙ ap ok (at long_running)
    ]

reading_of :
    (k : FactKey) (v : FactValue) (b : Bool)
    → read_fact k v ≡ ok b
    → (v ≡ boolean b) ⊎ (v ≡ missing) × (b ≡ false)
unfolding read_fact
reading_of k v b h = ground arith

-- one fact, read as the value that `Reads` gives
read_fact_of :
    (k : FactKey) (v : FactValue) (b : Bool)
    → (v ≡ boolean b) ⊎ (v ≡ missing) × (b ≡ false)
    → read_fact k v ≡ ok b
unfolding read_fact
read_fact_of k v b h = ground arith

read_facts-exact : (raw : RawFacts) (f : Facts) → Reads raw f → read_facts raw ≡ ok f
unfolding read_facts
read_facts-exact raw f h =
    let e : (k : FactKey) → read_fact k (raw k) ≡ ok (fact f k) =
      λ k. read_fact_of k (raw k) (fact f k) (h k) in
    rw
      (
        e requires_native,
        e requires_local,
        e read_only_fact,
        e mutation_required,
        e exact_change_known,
        e bounded_change,
        e multi_file,
        e unknown_root_cause,
        e iterative,
        e long_running,
      )
      refl

-- The router accepts an object of facts, and normalises it to `f`, exactly if each of the ten facts
-- reads (a missing one as false, a Boolean as itself) and `f` is consistent: without local work no
-- local fact is claimed, and with it exactly one of reading and mutating is.
pub normalize-IsConsistent :
    (raw : RawFacts) (f : Facts) → (normalize_facts raw ≡ ok f) ↔ (Reads raw f × IsConsistent f)
unfolding normalize_facts
normalize-IsConsistent raw f = (
  λ h.
      let (g, v, e) = bind_returned (read_facts raw) validate_consistency h in
      let same = validate_keeps g f v in
      (
        λ k. reading_of k (raw k) (fact f k) (read_each raw f (e ∙ ap ok (sym same)) k),
        rw same (validate_ok-IsConsistent g f v),
      ),
  λ h. rw (read_facts-exact raw f h.0) (IsConsistent-validate_ok f h.1),
)

normalize_again :
    (raw : RawFacts) (f : Facts) → normalize_facts raw ≡ ok f → normalize_facts (raw_of f) ≡ ok f
normalize_again raw f h =
    (normalize-IsConsistent (raw_of f) f).1 (λ k. inl refl, ((normalize-IsConsistent raw f).0 h).1)

strict_after :
    (r : Result RouterError Facts)
    → ((f : Facts) → r ≡ ok f → normalize_facts (raw_of f) ≡ ok f)
    → (r >>= λ f. decide_route (raw_of f)) ≡ (r >>= λ f. ok (decide_facts f))
unfolding decide_route
strict_after (ok f) again = rw (again f refl)
strict_after (thrown e) again = refl

-- `decideStrict` validates first and then decides from the normalised facts: it gives the decision
-- of `decideRoute`, or its refusal, on every input.
pub strict-route : (raw : RawFacts) → decide_strict raw ≡ decide_route raw
unfolding decide_strict decide_route
strict-route raw = strict_after (normalize_facts raw) (normalize_again raw)
