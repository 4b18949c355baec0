-- ===== src/JobMap/Safe.antt =====
-- What the recovery preflight decides, by the jobs that concern the task
-- (src/executor/job-map.js).
use mathlib.Core.Path.{subst}
use chatgpt_codex_orchestrat.Prelude.{
  String, ◌≡◌, ◌≢◌, ◌↔◌, ◌⊎◌, inl, inr, refl, Bool, true, false, not, ◌&&◌, ◌||◌, Option, none,
  some, List, [], ◌∷◌, if◌then◌else◌, Result, ok, thrown, ◌>>=◌, arith, Bool-cases,
}
use chatgpt_codex_orchestrat.JobMap.{
  Job, Scope, is_risk, is_terminal, is_null, is_unbound, matches, PreflightError, foreign,
  lifecycle_unknown, Preflight, readable, decide, same_workspace, check_foreign, dangerous,
  select_jobs, preflight_candidates, recovery_preflight, safe_to_start, recover_job,
  recover_binding,
}

abbrev is_ok {ℓ} : {A : Type ℓ} → Result PreflightError A → Bool
is_ok (ok a) = true
is_ok (thrown e) = false

-- The answer that is due for the jobs to recover: to start if there is none, and to recover the only
-- one, by its id if it has no binding and by its binding otherwise.
abbrev pub Answers : List Job → Preflight → Type 0
Answers js out =
    ((js ≡ []) × (out ≡ safe_to_start))
    ⊎ ((j : Job) × (js ≡ j ∷ [])
        × (((is_unbound j ≡ true) × (out ≡ recover_job j))
            ⊎ ((is_unbound j ≡ false) × (out ≡ recover_binding j))))

only : {j k : Job} → ◌≡◌ {A = List Job} (j ∷ []) (k ∷ []) → k ≡ j
only e = cc

not_both_values : {b : Bool} → b ≡ false → b ≡ true → ⊥
not_both_values f t = cc

-- the answer for the only job, by whether it has no binding
one-Answers :
    (j : Job) (b : Bool) (out : Preflight)
    → is_unbound j ≡ b
    → (◌≡◌ {A = Result PreflightError Preflight}
        (if b then ok (recover_job j) else ok (recover_binding j))
        (ok out))
      ↔ Answers (j ∷ []) out
one-Answers j true out u = (
  λ h. inr (j, refl, inl (u, cc)),
  λ h. elim h [
    | inl e ↦ absurd (cc (e.0))
    | inr (k, e, inl (t, o)) ↦ cc
    | inr (k, e, inr (f, o)) ↦
        absurd (not_both_values (subst (λ x. is_unbound x ≡ false) (only e) f) u)
  ],
)
one-Answers j false out u = (
  λ h. inr (j, refl, inr (u, cc)),
  λ h. elim h [
    | inl e ↦ absurd (cc (e.0))
    | inr (k, e, inr (f, o)) ↦ cc
    | inr (k, e, inl (t, o)) ↦
        absurd (not_both_values u (subst (λ x. is_unbound x ≡ true) (only e) t))
  ],
)

decide-Answers : (js : List Job) (out : Preflight) → (decide js ≡ ok out) ↔ Answers js out
decide-Answers [] out =
    (λ h. inl (refl, cc), λ h. elim h [ inl e ↦ cc (e.1) | inr e ↦ absurd (cc (e.1)) ])
decide-Answers (j ∷ []) out = one-Answers j (is_unbound j) out refl
decide-Answers (j ∷ k ∷ js) out =
    (λ h. absurd (cc), λ h. elim h [ inl e ↦ absurd (cc (e.0)) | inr e ↦ absurd (cc (e.1)) ])

module _ (roots_equal : String → String → Bool) where
  -- A job that has not ended and has the task's binding, or has none and is of the workspace.
  abbrev pub concerns : Scope → Job → Bool
  concerns s j =
      not (is_terminal j.state) && (matches s j || (same_workspace roots_equal s j && is_unbound j))

  -- The job is of the workspace, in a state that can be recovered.
  abbrev pub is_fit : Scope → Job → Bool
  is_fit s j = same_workspace roots_equal s j && is_risk j.state

  abbrev pub concerning : Scope → List Job → List Job
  concerning s [] = []
  concerning s (j ∷ js) = let rest = concerning s js in if concerns s j then j ∷ rest else rest

  abbrev pub all_fit : Scope → List Job → Bool
  all_fit s [] = true
  all_fit s (j ∷ js) = is_fit s j && all_fit s js

  -- The two loops end well exactly if every job that concerns the task fits.
  abbrev BothLoops :
      Result PreflightError (Unit {0}) → Result PreflightError (List Job) → List Job → Bool → Type 0
  BothLoops c d js fit =
      ((fit ≡ true) × (c ≡ ok tt) × (d ≡ ok js)) ⊎ (fit ≡ false) × (is_ok (c >>= λ _. d) ≡ false)

  one_job :
      (j : Job) (m u w t k : Bool) (c : Result PreflightError (Unit {0}))
      (d : Result PreflightError (List Job)) (js : List Job) (fit : Bool)
      → BothLoops c d js fit
      → BothLoops
          (if not m || w
            then c
            else (if t then c else (if k then thrown foreign else thrown lifecycle_unknown)))
          (if not w || t
            then d
            else (if not u && not m
                then d
                else (if not k then thrown lifecycle_unknown else d >>= λ ds. ok (j ∷ ds))))
          (if not t && (m || (w && u)) then j ∷ js else js)
          (if not t && (m || (w && u)) then (w && k) && fit else fit)
  one_job j m u w t k c d js fit h = ground arith

  all_fit-if :
      (s : Scope) (b : Bool) (j : Job) (js : List Job)
      → all_fit s (if b then j ∷ js else js)
        ≡ (if b then is_fit s j && all_fit s js else all_fit s js)
  all_fit-if s true j js = refl
  all_fit-if s false j js = refl

  some-same : {js ks : List Job} → some js ≡ some ks → ks ≡ js
  some-same e = cc

  moved :
      (s : Scope) (js ks : List Job) (out : Preflight)
      → ks ≡ js
      → (all_fit s (concerning s ks) ≡ true) × (decide (concerning s ks) ≡ ok out)
      → (all_fit s (concerning s js) ≡ true) × (decide (concerning s js) ≡ ok out)
  moved s js ks out e h =
      subst (λ x. (all_fit s (concerning s x) ≡ true) × (decide (concerning s x) ≡ ok out)) e h

  loops-BothLoops :
      (s : Scope) (js : List Job)
      → BothLoops
          (check_foreign roots_equal s js)
          (dangerous roots_equal s js)
          (concerning s js)
          (all_fit s (concerning s js))
  unfolding check_foreign dangerous
  loops-BothLoops s [] = inl (refl, refl, refl)
  loops-BothLoops s (j ∷ js) = rw (all_fit-if) (
      one_job j (matches s j) (is_unbound j) (same_workspace roots_equal s j) (is_terminal j.state)
        (is_risk j.state) _ _ _ _ (loops-BothLoops s js))

  never :
      (r : Result PreflightError (List Job)) (out : Preflight)
      → is_ok r ≡ false
      → (r >>= decide) ≢ ok out
  never (ok js) out e = absurd (cc)
  never (thrown e) out h = λ k. cc

  decided :
      (c : Result PreflightError (Unit {0})) (d : Result PreflightError (List Job)) (js : List Job)
      (fit : Bool) (out : Preflight)
      → BothLoops c d js fit
      → (((c >>= λ _. d) >>= decide) ≡ ok out) ↔ ((fit ≡ true) × (decide js ≡ ok out))
  decided c d js fit out (inl (f, e, k)) = rw (e, k) (λ h. (f, h), λ h. h.1)
  decided c d js fit out (inr (f, n)) =
      (λ h. absurd (never (c >>= λ _. d) out n h), λ h. absurd (cc (h.0)))

  selected :
      (s : Scope) (o : Option (List Job)) (out : Preflight)
      → ((select_jobs roots_equal s o >>= decide) ≡ ok out) ↔ (
          (js : List Job) × (o ≡ some js)
          × (all_fit s (concerning s js) ≡ true)
          × (decide (concerning s js) ≡ ok out))
  unfolding select_jobs
  selected s none out = (λ h. absurd (cc), λ h. absurd (cc (h.1)))
  selected s (some js) out =
      let d =
        decided (check_foreign roots_equal s js) (dangerous roots_equal s js) (concerning s js)
          (all_fit s (concerning s js)) out (loops-BothLoops s js) in
      (
        λ h. let k = d.0 h in (js, refl, k.0, k.1),
        λ h. d.1 (moved s js h.0 out (some-same h.1) (h.2, h.3)),
      )

  preflight-decide :
      (s : Scope) (entries : List (Option Job)) (out : Preflight)
      → (recovery_preflight roots_equal s entries ≡ ok out) ↔ (
          (is_null s.workspace_id && is_null s.workspace_root ≡ false)
          × (is_null s.task_id && (is_null s.step_id && is_null s.identity) ≡ false)
          × ((js : List Job) × (readable entries ≡ some js)
              × (all_fit s (concerning s js) ≡ true)
              × (decide (concerning s js) ≡ ok out)))
  unfolding recovery_preflight preflight_candidates
  preflight-decide s entries out =
      elim (Bool-cases (is_null s.workspace_id && is_null s.workspace_root)) [
        | inl w ↦ rw w (λ h. absurd (cc), λ h. absurd (cc (h.0)))
        | inr w ↦
            elim (Bool-cases (is_null s.task_id && (is_null s.step_id && is_null s.identity))) [
              | inl t ↦ rw (w, t) (λ h. absurd (cc), λ h. absurd (cc (h.1)))
              | inr t ↦
                  let k = selected s (readable entries) out in
                  rw (w, t) (λ h. (refl, refl, k.0 h), λ h. k.1 h.2)
            ]
      ]

  answered :
      (s : Scope) (out : Preflight) (r : Option (List Job))
      → ((js : List Job) × (r ≡ some js)
          × (all_fit s (concerning s js) ≡ true)
          × (decide (concerning s js) ≡ ok out))
        ↔ ((js : List Job) × (r ≡ some js)
            × (all_fit s (concerning s js) ≡ true)
            × Answers (concerning s js) out)
  answered s out r = (
    λ (js, e, f, d). (js, e, f, (decide-Answers (concerning s js) out).0 d),
    λ (js, e, f, d). (js, e, f, (decide-Answers (concerning s js) out).1 d),
  )

  -- The preflight answers, and does not throw, exactly if the task and the workspace are named, every
  -- entry can be read, every job that concerns the task fits, and there is at most one such job. It
  -- answers to start if there is none, and to recover the one if there is one, by its id if it has no
  -- binding and by its binding otherwise.
  pub preflight-concerning :
      (s : Scope) (entries : List (Option Job)) (out : Preflight)
      → (recovery_preflight roots_equal s entries ≡ ok out) ↔ (
          (is_null s.workspace_id && is_null s.workspace_root ≡ false)
          × (is_null s.task_id && (is_null s.step_id && is_null s.identity) ≡ false)
          × ((js : List Job) × (readable entries ≡ some js)
              × (all_fit s (concerning s js) ≡ true)
              × Answers (concerning s js) out))
  preflight-concerning s entries out =
      let p = preflight-decide s entries out in
      let a = answered s out (readable entries) in
      (λ h. let (w, t, k) = p.0 h in (w, t, a.0 k), λ h. let (w, t, k) = h in p.1 (w, t, a.1 k))
