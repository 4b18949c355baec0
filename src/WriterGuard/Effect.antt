-- ===== src/WriterGuard/Effect.antt =====
-- What one step of a guard does to the two files (src/governance/writer-guard.js), and what it leaves
-- true for every other guard.
use chatgpt_codex_orchestrat.Prelude.{ℕ, ◌≡◌, ◌≢◌, sym, ◌∙◌, Bool, true, false, Option, none, some}
use chatgpt_codex_orchestrat.WriterGuard.{
  SlotRecord, Slot, missing, created, written, claimed, failed_claim, Pc, idle, opening, writing,
  reading, electing, checking, removing, recreating, rewriting, resigning, refreshing, releasing,
  Agent,
}

abbrev pub OwnedBy : ℕ → Slot → Type 0
OwnedBy a (written r) = r.writer_id ≡ a
OwnedBy a _ = ⊥

module _ (pid_of : ℕ → ℕ) (is_alive : ℕ → Bool) where
  -- The process of the record's writer is dead.
  abbrev pub IsDead : SlotRecord → Type 0
  IsDead r = is_alive (pid_of r.writer_id) ≡ false

  -- What holds of the files at each step of a live guard.
  abbrev pub PcHolds : ℕ → Bool → Slot → Option ℕ → Pc → Type 0
  PcHolds a held s t writing = s ≡ created a
  PcHolds a held s t (electing n r) = IsDead r
  PcHolds a held s t (checking n r) = IsDead r × (t ≡ some a)
  PcHolds a held s t (removing n r) = IsDead r × (t ≡ some a) × (s ≡ written r)
  PcHolds a held s t (recreating n) = t ≡ some a
  PcHolds a held s t (rewriting n) = (t ≡ some a) × (s ≡ created a)
  PcHolds a held s t (resigning n failed_claim) = t ≡ some a
  PcHolds a held s t (resigning n claimed) = (t ≡ some a) × OwnedBy a s
  PcHolds a held s t refreshing = held ≡ true
  PcHolds a held s t releasing = held ≡ true
  PcHolds a held s t _ = Unit {0}

  abbrev pub Holds : ℕ → Slot → Option ℕ → Agent → Type 0
  Holds a s t g = (g.held ≡ true → OwnedBy a s) × PcHolds a g.held s t g.pc

  -- The steps of guard `a` on the slot and the token.
  pub data Effect (a : ℕ) : Slot → Option ℕ → Slot → Option ℕ → Type 0 where
    reads : {s : Slot} {t : Option ℕ} → Effect a s t s t
    creates : {t : Option ℕ} → Effect a missing t (created a) t
    fills : {t : Option ℕ} (r : SlotRecord) → r.writer_id ≡ a → Effect a (created a) t (written r) t
    removes : (r : SlotRecord) → IsDead r → Effect a (written r) (some a) missing (some a)
    renews :
        {t : Option ℕ} (s : Slot) (r : SlotRecord)
        → OwnedBy a s
        → r.writer_id ≡ a
        → Effect a s t (written r) t
    leaves : {t : Option ℕ} (s : Slot) → OwnedBy a s → Effect a s t missing t
    elects : {s : Slot} → Effect a s none s (some a)
    resigns : {s : Slot} → Effect a s (some a) s none

  module _ (a b : ℕ) (differ : a ≢ b) where
    owned_apart : (s : Slot) → OwnedBy a s → OwnedBy b s → ⊥
    owned_apart missing o p = o
    owned_apart (created c) o p = o
    owned_apart (written r) o p = differ (sym o ∙ p)

    owned_created : (s : Slot) → OwnedBy a s → s ≢ created b
    owned_created missing o = absurd o
    owned_created (created c) o = absurd o
    owned_created (written r) o = λ e. cc

    live_writer :
        (s : Slot) (r : SlotRecord)
        → is_alive (pid_of a) ≡ true
        → IsDead r
        → OwnedBy a s
        → s ≢ written r
    live_writer missing r l d o = absurd o
    live_writer (created c) r l d o = absurd o
    live_writer (written q) r l d o = λ e. cc

    owned_stable :
        {s s' : Slot} {t t' : Option ℕ}
        → is_alive (pid_of b) ≡ true
        → Effect a s t s' t'
        → OwnedBy b s
        → OwnedBy b s'
    owned_stable l reads o = o
    owned_stable l creates o = absurd o
    owned_stable l (fills r e) o = absurd o
    owned_stable l (removes r d) o = cc
    owned_stable l (renews s r e f) o = absurd (owned_apart s e o)
    owned_stable l (leaves s e) o = absurd (owned_apart s e o)
    owned_stable l elects o = o
    owned_stable l resigns o = o

    pub created_stable :
        {s s' : Slot} {t t' : Option ℕ} → Effect a s t s' t' → s ≡ created b → s' ≡ created b
    created_stable reads e = e
    created_stable creates e = cc
    created_stable (fills r _) e = absurd (differ (cc))
    created_stable (removes r d) e = cc
    created_stable (renews s r o f) e = absurd (owned_created s o e)
    created_stable (leaves s o) e = absurd (owned_created s o e)
    created_stable elects e = e
    created_stable resigns e = e

    token_stable : {s s' : Slot} {t t' : Option ℕ} → Effect a s t s' t' → t ≡ some b → t' ≡ some b
    token_stable reads e = e
    token_stable creates e = e
    token_stable (fills r _) e = e
    token_stable (removes r d) e = e
    token_stable (renews s r o f) e = e
    token_stable (leaves s o) e = e
    token_stable elects e = cc
    token_stable resigns e = absurd (differ (cc))

    written_stable :
        {s s' : Slot} {t t' : Option ℕ} (r : SlotRecord)
        → is_alive (pid_of a) ≡ true
        → IsDead r
        → t ≡ some b
        → Effect a s t s' t'
        → s ≡ written r
        → s' ≡ written r
    written_stable r l d h reads e = e
    written_stable r l d h creates e = cc
    written_stable r l d h (fills q _) e = cc
    written_stable r l d h (removes q _) e = absurd (differ (cc))
    written_stable r l d h (renews s q o f) e = absurd (live_writer s r l d o e)
    written_stable r l d h (leaves s o) e = absurd (live_writer s r l d o e)
    written_stable r l d h elects e = e
    written_stable r l d h resigns e = e

    pc_stable :
        {s s' : Slot} {t t' : Option ℕ} (held : Bool) (pc : Pc)
        → is_alive (pid_of a) ≡ true
        → is_alive (pid_of b) ≡ true
        → Effect a s t s' t'
        → PcHolds b held s t pc
        → PcHolds b held s' t' pc
    pc_stable held idle l m e h = tt
    pc_stable held (opening n) l m e h = tt
    pc_stable held writing l m e h = created_stable e h
    pc_stable held (reading n) l m e h = tt
    pc_stable held (electing n r) l m e h = h
    pc_stable held (checking n r) l m e h = (h.0, token_stable e h.1)
    pc_stable held (removing n r) l m e h =
        (h.0, token_stable e h.1, written_stable r l h.0 h.1 e h.2)
    pc_stable held (recreating n) l m e h = token_stable e h
    pc_stable held (rewriting n) l m e h = (token_stable e h.0, created_stable e h.1)
    pc_stable held (resigning n failed_claim) l m e h = token_stable e h
    pc_stable held (resigning n claimed) l m e h = (token_stable e h.0, owned_stable m e h.1)
    pc_stable held refreshing l m e h = h
    pc_stable held releasing l m e h = h

    -- a step of one live guard leaves what holds for another
    pub other_Holds :
        {s s' : Slot} {t t' : Option ℕ} (g : Agent)
        → is_alive (pid_of a) ≡ true
        → is_alive (pid_of b) ≡ true
        → Effect a s t s' t'
        → Holds b s t g
        → Holds b s' t' g
    other_Holds g l m e h = (λ k. owned_stable m e (h.0 k), pc_stable g.held g.pc l m e h.1)
