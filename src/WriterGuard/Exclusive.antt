-- ===== src/WriterGuard/Exclusive.antt =====
-- At most one live guard of a namespace holds the writer slot
-- (src/governance/writer-guard.js).
use mathlib.Core.Path.{subst}
use chatgpt_codex_orchestrat.Prelude.{
  ℕ, ◌≡◌, ◌≢◌, ◌⊎◌, inl, inr, sym, ◌∙◌, Bool, true, false, ◌&&◌, Option, List, [], ◌∷◌, nat_eq,
  arith, Bool-cases,
}
use chatgpt_codex_orchestrat.WriterGuard.{
  Slot, missing, created, written, claimed, failed_claim, Pc, idle, opening, writing, reading,
  electing, checking, removing, recreating, rewriting, resigning, refreshing, releasing, Agent,
  World, move, begin, is_idle, Op, Event, begins, moves, crashes, kill, step, run, start,
}
use chatgpt_codex_orchestrat.WriterGuard.Effect.{OwnedBy, PcHolds, Holds, Effect, other_Holds}
use chatgpt_codex_orchestrat.WriterGuard.Moves.{after, KnowsPid, IsStep, move-IsStep, begin-IsStep}

same_or_other : (a b : ℕ) → ((a ≡ b) × (nat_eq a b ≡ true)) ⊎ ((a ≢ b) × (nat_eq a b ≡ false))
same_or_other a b = ground arith

pub is_idle-idle : (pc : Pc) → is_idle pc ≡ true → pc ≡ idle
is_idle-idle pc e = ground arith

one_owner : (s : Slot) (b a : ℕ) → OwnedBy b s → OwnedBy a s → b ≡ a
one_owner missing b a o p = absurd o
one_owner (created c) b a o p = absurd o
one_owner (written r) b a o p = sym o ∙ p

pub killed_dead : (p q : ℕ) (alive : ℕ → Bool) → alive q ≡ false → kill p alive q ≡ false
killed_dead p q alive e = ground arith

killed_alive : (p q : ℕ) (alive : ℕ → Bool) → kill p alive q ≡ true → alive q ≡ true
killed_alive p q alive e = ground arith

pub and_true : (a b : Bool) → (a && b) ≡ true → (a ≡ true) × (b ≡ true)
and_true a b e = ground arith

module _ (pid_of : ℕ → ℕ) (stale_ms : ℕ) where
  -- The invariant of a world.
  pub record IsExclusive (w : World) : Type 0 where
    pub known : KnowsPid pid_of stale_ms w.slot
    pub holds :
        (a : ℕ)
        → w.is_alive (pid_of a) ≡ true
        → Holds pid_of w.is_alive a w.slot w.token (w.agents a)

  after-IsExclusive :
      (a : ℕ) (s : Slot) (t : Option ℕ) (g : Agent) (w : World)
      → w.is_alive (pid_of a) ≡ true
      → Effect pid_of w.is_alive a w.slot w.token s t
      → Holds pid_of w.is_alive a s t g
      → KnowsPid pid_of stale_ms s
      → IsExclusive w
      → IsExclusive (after a s t g w)
  after-IsExclusive a s t g w l e h k v = record {
    known = k;
    holds = λ b m. elim (same_or_other a b) [
      | inl same ↦ rw same.1 (subst (λ x. Holds pid_of w.is_alive x s t g) same.0 h)
      | inr other ↦
          rw other.1 (other_Holds pid_of w.is_alive a b other.0 (w.agents b) l m e (v.holds b m))
    ];
  }

  -- what holds of a live guard in the worlds after the death of some process
  killed_PcHolds :
      (p a : ℕ) (alive : ℕ → Bool) (held : Bool) (s : Slot) (t : Option ℕ) (pc : Pc)
      → PcHolds pid_of alive a held s t pc
      → PcHolds pid_of (kill p alive) a held s t pc
  killed_PcHolds p a alive held s t idle h = tt
  killed_PcHolds p a alive held s t (opening n) h = tt
  killed_PcHolds p a alive held s t writing h = h
  killed_PcHolds p a alive held s t (reading n) h = tt
  killed_PcHolds p a alive held s t (electing n r) h = killed_dead p (pid_of r.writer_id) alive h
  killed_PcHolds p a alive held s t (checking n r) h =
      (killed_dead p (pid_of r.writer_id) alive h.0, h.1)
  killed_PcHolds p a alive held s t (removing n r) h =
      (killed_dead p (pid_of r.writer_id) alive h.0, h.1, h.2)
  killed_PcHolds p a alive held s t (recreating n) h = h
  killed_PcHolds p a alive held s t (rewriting n) h = h
  killed_PcHolds p a alive held s t (resigning n failed_claim) h = h
  killed_PcHolds p a alive held s t (resigning n claimed) h = h
  killed_PcHolds p a alive held s t refreshing h = h
  killed_PcHolds p a alive held s t releasing h = h

  crash-IsExclusive :
      (p : ℕ) (w : World) → IsExclusive w → IsExclusive (record w { is_alive = kill p w.is_alive })
  crash-IsExclusive p w v = record {
    known = v.known;
    holds = λ a m.
        let h = v.holds a (killed_alive p (pid_of a) w.is_alive m) in
        (h.0, killed_PcHolds p a w.is_alive (w.agents a).held w.slot w.token (w.agents a).pc h.1);
  }

  stepped-IsExclusive :
      (a : ℕ) (w w' : World)
      → w.is_alive (pid_of a) ≡ true
      → IsStep pid_of stale_ms a w w'
      → IsExclusive w
      → IsExclusive w'
  stepped-IsExclusive a w w' l (s, t, g, e, f, h, k) v =
      subst IsExclusive (sym e) (after-IsExclusive a s t g w l f h k v)

  move-IsExclusive :
      (a now : ℕ) (w : World)
      → w.is_alive (pid_of a) ≡ true
      → IsExclusive w
      → IsExclusive (move pid_of stale_ms now a (w.agents a) w (w.agents a).pc)
  move-IsExclusive a now w l v =
      let h = v.holds a l in
      elim (move-IsStep pid_of stale_ms a (w.agents a) w.is_alive w.agents now w.slot w.token
        (w.agents a).pc (l, h.0, h.1, v.known)) [
          | inl still ↦ subst IsExclusive (sym still) v
          | inr moved ↦ stepped-IsExclusive a w _ l moved v
        ]

  begin-IsExclusive :
      (op : Op) (a : ℕ) (w : World)
      → w.is_alive (pid_of a) ≡ true
      → (w.agents a).pc ≡ idle
      → IsExclusive w
      → IsExclusive (begin op a (w.agents a) w)
  begin-IsExclusive op a w l i v =
      let h = v.holds a l in
      stepped-IsExclusive a w (begin op a (w.agents a) w) l
        (begin-IsStep pid_of stale_ms a (w.agents a) w.is_alive w.agents op w.slot w.token
          (l, h.0, tt, v.known))
        v

  pub step-IsExclusive :
      (w : World) (e : Event) → IsExclusive w → IsExclusive (step pid_of stale_ms w e)
  unfolding step
  step-IsExclusive w (crashes p) v = crash-IsExclusive p w v
  step-IsExclusive w (moves a now) v = elim (Bool-cases (w.is_alive (pid_of a))) [
    | inl l ↦ rw l (move-IsExclusive a now w l v)
    | inr d ↦ rw d v
  ]
  step-IsExclusive w (begins op a) v =
      elim (Bool-cases (w.is_alive (pid_of a) && is_idle (w.agents a).pc)) [
        | inr not_both ↦ rw not_both v
        | inl both ↦
            let k = and_true (w.is_alive (pid_of a)) (is_idle (w.agents a).pc) both in
            rw both (begin-IsExclusive op a w k.0 (is_idle-idle (w.agents a).pc k.1) v)
      ]

  pub run-IsExclusive :
      (w : World) (es : List Event) → IsExclusive w → IsExclusive (run pid_of stale_ms w es)
  unfolding run
  run-IsExclusive w [] v = v
  run-IsExclusive w (e ∷ es) v =
      run-IsExclusive (step pid_of stale_ms w e) es (step-IsExclusive w e v)

  pub start-IsExclusive : IsExclusive start
  start-IsExclusive = record { known = tt; holds = λ a l. ((λ h. absurd (cc)), tt) }

  -- From an empty namespace, after any interleaving of the calls of any number of guards and of
  -- crashes, whatever the clocks say: the record in the slot of a guard that believes to hold it, and
  -- whose process is alive, is its own, and no other guard of a live process believes the same.
  pub one_live_writer :
      (es : List Event) (a : ℕ)
      → let w = run pid_of stale_ms start es in
        w.is_alive (pid_of a) ≡ true
        → (w.agents a).held ≡ true
        → OwnedBy a w.slot
          × ((b : ℕ) → w.is_alive (pid_of b) ≡ true → (w.agents b).held ≡ true → b ≡ a)
  one_live_writer es a l h =
      let w = run pid_of stale_ms start es in
      let v = run-IsExclusive start es start-IsExclusive in
      let mine = (v.holds a l).0 h in (mine, λ b m k. one_owner w.slot b a ((v.holds b m).0 k) mine)
