-- ===== src/WriterGuard/Moves.antt =====
-- Every step of a live guard is one of the effects on the two files
-- (src/governance/writer-guard.js).
use chatgpt_codex_orchestrat.Prelude.{
  ℕ, ◌≡◌, ◌≢◌, ◌⊎◌, inl, inr, refl, Bool, true, Option, none, some, if◌then◌else◌, nat_eq, ltb,
  arith, Bool-cases,
}
use chatgpt_codex_orchestrat.WriterGuard.{
  SlotRecord, Slot, missing, created, written, Claim, claimed, failed_claim, Pc, idle, opening,
  writing, reading, electing, checking, removing, recreating, rewriting, resigning, refreshing,
  releasing, Agent, acquired, World, set, goes, ends, again, is_stale, same_slot_record, owns,
  payload, fill, open_slot, inspect, elect, recreate, resign, move, begin, Op, acquire_op,
  refresh_op, release_op,
}
use chatgpt_codex_orchestrat.WriterGuard.Effect.{
  OwnedBy, IsDead, PcHolds, Holds, Effect, reads, creates, fills, removes, renews, leaves, elects,
  resigns,
}

abbrev pub after : ℕ → Slot → Option ℕ → Agent → World → World
after a s t g w = record w { slot = s; token = t; agents = set a g w.agents }

-- Two records that agree in every field are one.
same_slot-written : (r : SlotRecord) (s : Slot) → same_slot_record r s ≡ true → s ≡ written r
unfolding same_slot_record
same_slot-written r missing e = absurd (cc)
same_slot-written r (created b) e = absurd (cc)
same_slot-written r (written q) e = ground arith

owns-OwnedBy : (a : ℕ) (s : Slot) → owns a s ≡ true → OwnedBy a s
owns-OwnedBy a missing e = absurd (cc)
owns-OwnedBy a (created b) e = absurd (cc)
owns-OwnedBy a (written r) e = ground arith

module _ (pid_of : ℕ → ℕ) (stale_ms : ℕ) where
  abbrev pub KnowsPid : Slot → Type 0
  KnowsPid (written r) = r.pid ≡ some (pid_of r.writer_id)
  KnowsPid _ = Unit {0}

  -- The step of guard `a` from one world to another, and what holds for it then.
  abbrev pub IsStep : ℕ → World → World → Type 0
  IsStep a w w' =
      (s : Slot) × (t : Option ℕ) × (g : Agent) × (w' ≡ after a s t g w)
      × Effect pid_of w.is_alive a w.slot w.token s t
      × Holds pid_of w.is_alive a s t g
      × KnowsPid s

  stale-IsDead :
      (alive : ℕ → Bool) (now : ℕ) (q : SlotRecord)
      → is_stale alive stale_ms now q ≡ true
      → KnowsPid (written q)
      → IsDead pid_of alive q
  unfolding is_stale
  stale-IsDead alive now q e k = ground (arith, e, k)

  module _ (a : ℕ) (g : Agent) (alive : ℕ → Bool) (agents : ℕ → Agent) where
    abbrev world : Slot → Option ℕ → World
    world s t = record { slot = s; token = t; is_alive = alive; agents = agents }

    -- what holds for the guard where it stands
    abbrev Ready : Slot → Option ℕ → Pc → Type 0
    Ready s t pc =
        (alive (pid_of a) ≡ true)
        × (g.held ≡ true → OwnedBy a s)
        × PcHolds pid_of alive a g.held s t pc
        × KnowsPid s

    again-IsStep :
        (n : ℕ) (s : Slot) (t t' : Option ℕ)
        → Effect pid_of alive a s t s t'
        → (g.held ≡ true → OwnedBy a s)
        → KnowsPid s
        → IsStep a (world s t) (again n a g (world s t'))
    again-IsStep n s t t' e h k = elim (Bool-cases (ltb n 2)) [
      | inl more ↦ rw more (s, t', _, refl, e, (h, tt), k)
      | inr last ↦ rw last (s, t', _, refl, e, (h, tt), k)
    ]

    open-IsStep :
        (n : ℕ) (s : Slot) (t : Option ℕ)
        → Ready s t (opening n)
        → IsStep a (world s t) (open_slot a n g (world s t) s)
    open-IsStep n missing t r = (created a, t, _, refl, creates, (r.1, refl), tt)
    open-IsStep n (created b) t r = (created b, t, _, refl, reads, (r.1, tt), tt)
    open-IsStep n (written q) t r = (written q, t, _, refl, reads, (r.1, tt), r.3)

    fill-payload : (now : ℕ) → fill pid_of a now (created a) ≡ written (payload pid_of a now)
    fill-payload now = ground arith

    write-IsStep :
        (now : ℕ) (s : Slot) (t : Option ℕ)
        → s ≡ created a
        → IsStep a
            (world s t)
            (ends a true acquired (record (world s t) { slot = fill pid_of a now s }))
    write-IsStep now s t e =
        rw (e, fill-payload now)
          (
            written (payload pid_of a now),
            t,
            _,
            refl,
            fills (payload pid_of a now) refl,
            ((λ _. refl), tt),
            refl,
          )

    rewrite-IsStep :
        (now n : ℕ) (s : Slot) (t : Option ℕ)
        → s ≡ created a
        → t ≡ some a
        → IsStep a
            (world s t)
            (goes a g (resigning n claimed) (record (world s t) { slot = fill pid_of a now s }))
    rewrite-IsStep now n s t e k =
        rw (e, fill-payload now)
          (
            written (payload pid_of a now),
            t,
            _,
            refl,
            fills (payload pid_of a now) refl,
            ((λ _. refl), (k, refl)),
            refl,
          )

    inspect-IsStep :
        (now n : ℕ) (s : Slot) (t : Option ℕ)
        → Ready s t (reading n)
        → IsStep a (world s t) (inspect stale_ms now a n g (world s t) s)
    unfolding inspect
    inspect-IsStep now n missing t r = again-IsStep n missing t t reads r.1 tt
    inspect-IsStep now n (created b) t r = again-IsStep n (created b) t t reads r.1 tt
    inspect-IsStep now n (written q) t r = elim (Bool-cases (nat_eq q.writer_id a)) [
      | inl own ↦ elim (Bool-cases g.held) [
        | inl h ↦ rw (own, h) (written q, t, _, refl, reads, ((λ _. r.1 h), refl), r.3)
        | inr h ↦ rw (own, h) (written q, t, _, refl, reads, ((λ k. cc), tt), r.3)
      ]
      | inr other ↦ elim (Bool-cases (is_stale alive stale_ms now q)) [
        | inl stale ↦
            rw (other, stale)
              (written q, t, _, refl, reads, (r.1, stale-IsDead alive now q stale r.3), r.3)
        | inr fresh ↦ rw (other, fresh) (written q, t, _, refl, reads, (r.1, tt), r.3)
      ]
    ]

    elect-IsStep :
        (n : ℕ) (q : SlotRecord) (s : Slot) (t : Option ℕ)
        → Ready s t (electing n q)
        → IsStep a (world s t) (elect a n q g (world s t) t)
    elect-IsStep n q s none r = (s, some a, _, refl, elects, (r.1, (r.2, refl)), r.3)
    elect-IsStep n q s (some b) r = elim (Bool-cases (nat_eq b a)) [
      | inl own ↦ rw own (s, some b, _, refl, reads, (r.1, (r.2, ground arith)), r.3)
      | inr busy ↦ rw busy (again-IsStep n s (some b) (some b) reads r.1 r.3)
    ]

    check-IsStep :
        (now n : ℕ) (q : SlotRecord) (s : Slot) (t : Option ℕ)
        → Ready s t (checking n q)
        → IsStep a (world s t) (
            if same_slot_record q s
            then goes a g (removing n q) (world s t)
            else goes a g (resigning n failed_claim) (world s t))
    check-IsStep now n q s t r = elim (Bool-cases (same_slot_record q s)) [
      | inl same ↦
          rw same (s, t, _, refl, reads, (r.1, (r.2.0, r.2.1, same_slot-written q s same)), r.3)
      | inr changed ↦ rw changed (s, t, _, refl, reads, (r.1, r.2.1), r.3)
    ]

    -- the record that is removed is of a dead writer, so not of this guard
    not_held :
        (q : SlotRecord) (s : Slot)
        → alive (pid_of a) ≡ true
        → IsDead pid_of alive q
        → s ≡ written q
        → (g.held ≡ true → OwnedBy a s)
        → g.held ≢ true
    not_held q missing l d e o = λ h. o h
    not_held q (created b) l d e o = λ h. o h
    not_held q (written p) l d e o = λ h. cc (o h)

    remove-IsStep :
        (n : ℕ) (q : SlotRecord) (s : Slot) (t : Option ℕ)
        → Ready s t (removing n q)
        → IsStep a (world s t) (goes a g (recreating n) (record (world s t) { slot = missing }))
    remove-IsStep n q s t r =
        let no = not_held q s r.0 r.2.0 r.2.2 r.1 in
        rw (r.2.2, r.2.1)
          (missing, some a, _, refl, removes q r.2.0, ((λ h. absurd (no h)), refl), tt)

    recreate-IsStep :
        (n : ℕ) (s : Slot) (t : Option ℕ)
        → Ready s t (recreating n)
        → IsStep a (world s t) (recreate a n g (world s t) s)
    recreate-IsStep n missing t r = (created a, t, _, refl, creates, (r.1, (r.2, refl)), tt)
    recreate-IsStep n (created b) t r = (created b, t, _, refl, reads, (r.1, r.2), tt)
    recreate-IsStep n (written q) t r = (written q, t, _, refl, reads, (r.1, r.2), r.3)

    resign-IsStep :
        (n : ℕ) (c : Claim) (s : Slot) (t : Option ℕ)
        → Ready s t (resigning n c)
        → IsStep a (world s t) (resign a n g (record (world s t) { token = none }) c)
    resign-IsStep n claimed s t r = rw r.2.0 (s, none, _, refl, resigns, ((λ _. r.2.1), tt), r.3)
    resign-IsStep n failed_claim s t r = rw r.2 (again-IsStep n s (some a) none resigns r.1 r.3)

    pub move-IsStep :
        (now : ℕ) (s : Slot) (t : Option ℕ) (pc : Pc)
        → Ready s t pc
        → (move pid_of stale_ms now a g (world s t) pc ≡ world s t)
          ⊎ IsStep a (world s t) (move pid_of stale_ms now a g (world s t) pc)
    unfolding move
    move-IsStep now s t idle r = inl refl
    move-IsStep now s t (opening n) r = inr (open-IsStep n s t r)
    move-IsStep now s t writing r = inr (write-IsStep now s t r.2)
    move-IsStep now s t (reading n) r = inr (inspect-IsStep now n s t r)
    move-IsStep now s t (electing n q) r = inr (elect-IsStep n q s t r)
    move-IsStep now s t (checking n q) r = inr (check-IsStep now n q s t r)
    move-IsStep now s t (removing n q) r = inr (remove-IsStep n q s t r)
    move-IsStep now s t (recreating n) r = inr (recreate-IsStep n s t r)
    move-IsStep now s t (rewriting n) r = inr (rewrite-IsStep now n s t r.2.1 r.2.0)
    move-IsStep now s t (resigning n c) r = inr (resign-IsStep n c s t r)
    move-IsStep now s t refreshing r = inr (
      written (payload pid_of a now),
      t,
      _,
      refl,
      renews s (payload pid_of a now) (r.1 r.2) refl,
      ((λ _. refl), tt),
      refl,
    )
    move-IsStep now s t releasing r =
        inr (missing, t, _, refl, leaves s (r.1 r.2), ((λ k. absurd (cc)), tt), tt)

    pub begin-IsStep :
        (op : Op) (s : Slot) (t : Option ℕ)
        → Ready s t idle
        → IsStep a (world s t) (begin op a g (world s t))
    unfolding begin
    begin-IsStep acquire_op s t r = elim (Bool-cases g.held) [
      | inl h ↦ rw h (s, t, _, refl, reads, ((λ _. r.1 h), tt), r.3)
      | inr h ↦ rw h (s, t, _, refl, reads, ((λ k. absurd (cc)), tt), r.3)
    ]
    begin-IsStep refresh_op s t r = elim (Bool-cases g.held) [
      | inr h ↦ rw h (s, t, _, refl, reads, ((λ k. absurd (cc)), tt), r.3)
      | inl h ↦ elim (Bool-cases (owns a s)) [
        | inl o ↦ rw (h, o) (s, t, _, refl, reads, ((λ _. r.1 h), refl), r.3)
        | inr o ↦ rw (h, o) (s, t, _, refl, reads, ((λ _. r.1 h), tt), r.3)
      ]
    ]
    begin-IsStep release_op s t r = elim (Bool-cases g.held) [
      | inr h ↦ rw h (s, t, _, refl, reads, ((λ k. absurd (cc)), tt), r.3)
      | inl h ↦ elim (Bool-cases (owns a s)) [
        | inl o ↦ rw (h, o) (s, t, _, refl, reads, ((λ _. r.1 h), refl), r.3)
        | inr o ↦ rw (h, o) (s, t, _, refl, reads, ((λ k. absurd (cc)), tt), r.3)
      ]
    ]
