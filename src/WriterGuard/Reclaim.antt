-- ===== src/WriterGuard/Reclaim.antt =====
-- What an acquire comes to that no other guard interferes with, and what a crash between the create
-- and the write of the slot comes to (src/governance/writer-guard.js).
use mathlib.Core.Path.{subst}
use chatgpt_codex_orchestrat.Prelude.{
  ℕ, ◌≡◌, ◌≢◌, inl, inr, refl, sym, Bool, true, false, ◌&&◌, none, List, [], ◌∷◌, nat_eq, arith,
  Bool-cases,
}
use chatgpt_codex_orchestrat.WriterGuard.{
  SlotRecord, created, written, idle, reclaimed, writer_conflict, World, Event, begins, moves,
  crashes, acquire_op, step, run, start, is_stale, same_slot_record, is_idle, begin, move, payload,
}
use chatgpt_codex_orchestrat.WriterGuard.Effect.{OwnedBy, created_stable}
use chatgpt_codex_orchestrat.WriterGuard.Moves.{IsStep, move-IsStep, begin-IsStep}
use chatgpt_codex_orchestrat.WriterGuard.Exclusive.{
  IsExclusive, step-IsExclusive, killed_dead, and_true, run-IsExclusive, start-IsExclusive,
}

eq_self : (a : ℕ) → nat_eq a a ≡ true
eq_self a = ground arith

same_self : (r : SlotRecord) → same_slot_record r (written r) ≡ true
unfolding same_slot_record
same_self r = ground arith

module _ (pid_of : ℕ → ℕ) (stale_ms : ℕ) where
  -- A live guard that holds nothing finds a record of another guard, and no token is there.
  pub record Finds (a now : ℕ) (r : SlotRecord) (w : World) : Type 0 where
    pub slot : w.slot ≡ written r
    pub token : w.token ≡ none
    pub alive : w.is_alive (pid_of a) ≡ true
    pub calm : (w.agents a).pc ≡ idle
    pub not_held : (w.agents a).held ≡ false
    pub other : r.writer_id ≢ a

  differs : (a b : ℕ) → a ≢ b → nat_eq a b ≡ false
  differs a b n = ground arith

  abbrev pub attempt : ℕ → ℕ → List Event
  attempt a now = begins acquire_op a ∷ moves a now ∷ moves a now ∷ []

  abbrev pub reclaim : ℕ → ℕ → List Event
  reclaim a now =
      moves a now ∷ moves a now ∷ moves a now ∷ moves a now ∷ moves a now ∷ moves a now ∷ []

  -- An acquire of a live guard that holds nothing and has no call under way, that finds the record of
  -- another guard and no election token, with no call of another guard in between. If the record is
  -- stale, the guard takes the slot over: it holds the slot, the slot has its record, and no token is
  -- left. If not, the acquire throws a writer conflict, and the slot and the token are as before.
  pub acquire_alone :
      (a now : ℕ) (r : SlotRecord) (w : World)
      → Finds a now r w
      → let found = run pid_of stale_ms w (attempt a now) in
        let ended = run pid_of stale_ms found (reclaim a now) in
        (is_stale w.is_alive stale_ms now r ≡ true
          → (ended.slot ≡ written (payload pid_of a now))
            × (ended.token ≡ none)
            × (ended.agents a ≡ record { held = true; pc = idle; answer = reclaimed }))
        × (is_stale w.is_alive stale_ms now r ≡ false
            → (found.slot ≡ w.slot)
              × (found.token ≡ w.token)
              × (found.agents a ≡ record { held = false; pc = idle; answer = writer_conflict }))
  unfolding run step begin move
  acquire_alone a now r w f =
      let d = differs r.writer_id a f.other in
      (
        λ s.
            simp (f.slot, f.token, f.alive, f.calm, f.not_held, d, s, eq_self a, same_self r)
              (refl, refl, refl),
        λ s.
            simp (f.slot, f.token, f.alive, f.calm, f.not_held, d, s, eq_self a) (refl, refl, refl),
      )

  -- the slot is empty, and the guard that created it is dead
  abbrev Stuck : ℕ → World → Type 0
  Stuck a w = (w.slot ≡ created a) × (w.is_alive (pid_of a) ≡ false)

  dead_apart :
      (a b : ℕ) (alive : ℕ → Bool) → alive (pid_of b) ≡ true → alive (pid_of a) ≡ false → b ≢ a
  dead_apart a b alive l d = λ e. cc

  stepped-Stuck :
      (a b : ℕ) (w w' : World)
      → w.is_alive (pid_of b) ≡ true
      → IsStep pid_of stale_ms b w w'
      → Stuck a w
      → Stuck a w'
  stepped-Stuck a b w w' l (s, t, g, e, f, h, k) (c, d) =
      subst (Stuck a) (sym e)
        (created_stable pid_of w.is_alive b a (dead_apart a b w.is_alive l d) f c, d)

  step-Stuck :
      (a : ℕ) (w : World) (e : Event)
      → IsExclusive pid_of stale_ms w
      → Stuck a w
      → Stuck a (step pid_of stale_ms w e)
  unfolding step
  step-Stuck a w (crashes p) v k = (k.0, killed_dead p (pid_of a) w.is_alive k.1)
  step-Stuck a w (moves b now) v k = elim (Bool-cases (w.is_alive (pid_of b))) [
    | inr d ↦ rw d k
    | inl l ↦
        let h = v.holds b l in
        rw l
          (elim (move-IsStep pid_of stale_ms b (w.agents b) w.is_alive w.agents now w.slot w.token
            (w.agents b).pc (l, h.0, h.1, v.known)) [
              | inl still ↦ subst (Stuck a) (sym still) k
              | inr moved ↦ stepped-Stuck a b w _ l moved k
            ])
  ]
  step-Stuck a w (begins op b) v k =
      elim (Bool-cases (w.is_alive (pid_of b) && is_idle (w.agents b).pc)) [
        | inr not_both ↦ rw not_both k
        | inl both ↦
            let l = (and_true (w.is_alive (pid_of b)) (is_idle (w.agents b).pc) both).0 in
            let h = v.holds b l in
            rw both (
              stepped-Stuck a b w (begin op b (w.agents b) w) l
                (begin-IsStep pid_of stale_ms b (w.agents b) w.is_alive w.agents op w.slot w.token
                  (l, h.0, tt, v.known))
                k)
      ]

  run-Stuck :
      (a : ℕ) (w : World) (es : List Event)
      → IsExclusive pid_of stale_ms w
      → Stuck a w
      → Stuck a (run pid_of stale_ms w es)
  unfolding run
  run-Stuck a w [] v k = k
  run-Stuck a w (e ∷ es) v k =
      run-Stuck a (step pid_of stale_ms w e) es (step-IsExclusive pid_of stale_ms w e v)
        (step-Stuck a w e v k)

  -- Once a guard's process has died between the create of the slot and the write of its record, the
  -- slot stays the empty file that it is, and no live guard ever holds it, whatever follows.
  pub crash_before_write :
      (a : ℕ) (before later : List Event)
      → let w = run pid_of stale_ms start before in
        let w' = run pid_of stale_ms w later in
        w.slot ≡ created a
        → w.is_alive (pid_of a) ≡ false
        → (w'.slot ≡ created a)
          × ((b : ℕ) → w'.is_alive (pid_of b) ≡ true → (w'.agents b).held ≢ true)
  crash_before_write a before later e d =
      let w = run pid_of stale_ms start before in
      let v = run-IsExclusive pid_of stale_ms start before (start-IsExclusive pid_of stale_ms) in
      let stays = (run-Stuck a w later v (e, d)).0 in
      let v' = run-IsExclusive pid_of stale_ms w later v in
      (stays, λ b l h. subst (OwnedBy b) stays ((v'.holds b l).0 h))
