-- ===== src/WriterGuard.antt =====
-- The writer guard, src/governance/writer-guard.js: many guards on the one slot file of a namespace,
-- in any interleaving of their calls of the file system, with crashes of their processes between any
-- two of them. Every call of the file system is one step. Guards are numbered: a writer id comes from
-- randomUUID and is only compared. The file system's own errors, other than EEXIST, do not occur.
pub mod Effect
pub mod Moves
pub mod Exclusive
pub mod Reclaim
mod Examples
use chatgpt_codex_orchestrat.Prelude.{
  ℕ, zero, suc, ◌-◌, Bool, true, false, not, ◌&&◌, Option, none, some, List, [], ◌∷◌, if◌then◌else◌,
  nat_eq, ltb,
}

-- What `_payload` writes. A process id that is missing or 0 is `none`.
pub record SlotRecord : Type 0 where
  pub writer_id : ℕ
  pub pid : Option ℕ
  pub at : ℕ
  pub heartbeat_at : ℕ

-- The file writer.json: missing, just created by a guard and still empty, or with a record in it.
pub data Slot : Type 0 where
  missing : Slot
  created : ℕ → Slot
  written : SlotRecord → Slot

-- How a reclaim ends, once the election token is removed.
pub data Claim : Type 0 where
  claimed : Claim
  failed_claim : Claim

-- The next call of the file system of a guard. The numbers are the attempts of `acquire`.
pub data Pc : Type 0 where
  idle : Pc
  opening : ℕ → Pc
  writing : Pc
  reading : ℕ → Pc
  electing : ℕ → SlotRecord → Pc
  checking : ℕ → SlotRecord → Pc
  removing : ℕ → SlotRecord → Pc
  recreating : ℕ → Pc
  rewriting : ℕ → Pc
  resigning : ℕ → Claim → Pc
  refreshing : Pc
  releasing : Pc

-- What the last call of a guard answered.
pub data Answer : Type 0 where
  no_answer acquired reclaimed writer_conflict refreshed released not_released : Answer

pub record Agent : Type 0 where
  pub held : Bool
  pub pc : Pc
  pub answer : Answer

-- The election token writer.json.elect holds the guard that created it.
pub record World : Type 0 where
  pub slot : Slot
  pub token : Option ℕ
  pub is_alive : ℕ → Bool
  pub agents : ℕ → Agent

abbrev pub set : ℕ → Agent → (ℕ → Agent) → ℕ → Agent
set a g f b = if nat_eq a b then g else f b

abbrev pub goes : ℕ → Agent → Pc → World → World
goes a g pc w = record w { agents = set a (record g { pc = pc }) w.agents }

abbrev pub ends : ℕ → Bool → Answer → World → World
ends a held answer w = record w {
  agents = set a (record { held = held; pc = idle; answer = answer }) w.agents;
}

abbrev or_zero : ℕ → ℕ → ℕ
or_zero zero y = y
or_zero (suc x) y = suc x

-- `_isStale`
unfoldable pub is_stale : (ℕ → Bool) → ℕ → ℕ → SlotRecord → Bool
is_stale is_alive stale_ms now r = elim r.pid [
  | some p ↦ not (is_alive p)
  | none ↦ ltb stale_ms (now - or_zero r.heartbeat_at r.at)
]

abbrev pub same_pid : Option ℕ → Option ℕ → Bool
same_pid none none = true
same_pid (some p) (some q) = nat_eq p q
same_pid _ _ = false

-- `_sameSlotRecord`, for the record that was inspected and the slot as it is now.
unfoldable pub same_slot_record : SlotRecord → Slot → Bool
same_slot_record r (written s) =
    nat_eq r.writer_id s.writer_id
    && (same_pid r.pid s.pid && (nat_eq r.at s.at && nat_eq r.heartbeat_at s.heartbeat_at))
same_slot_record r _ = false

-- The rest of the loop of `acquire`: at most three attempts.
abbrev pub again : ℕ → ℕ → Agent → World → World
again n a g w = if ltb n 2 then goes a g (opening (suc n)) w else ends a g.held writer_conflict w

-- `assertOwned`, as its first half of a refresh.
abbrev pub owns : ℕ → Slot → Bool
owns a (written r) = nat_eq r.writer_id a
owns a _ = false

pub data Op : Type 0 where
  acquire_op refresh_op release_op : Op

pub data Event : Type 0 where
  begins : Op → ℕ → Event
  moves : ℕ → ℕ → Event
  crashes : ℕ → Event

abbrev pub is_idle : Pc → Bool
is_idle idle = true
is_idle _ = false

abbrev pub kill : ℕ → (ℕ → Bool) → ℕ → Bool
kill p f q = not (nat_eq p q) && f q

-- the exclusive create of `acquire`
abbrev pub open_slot : ℕ → ℕ → Agent → World → Slot → World
open_slot a n g w missing = goes a g writing (record w { slot = created a })
open_slot a n g w _ = goes a g (reading n) w

-- what `acquire` does with the slot that it found
unfoldable pub inspect : ℕ → ℕ → ℕ → ℕ → Agent → World → Slot → World
inspect stale_ms now a n g w missing = again n a g w
inspect stale_ms now a n g w (created b) = again n a g w
inspect stale_ms now a n g w (written r) =
    if nat_eq r.writer_id a
    then (if g.held then goes a g refreshing w else ends a g.held writer_conflict w)
    else (if is_stale w.is_alive stale_ms now r
        then goes a g (electing n r) w
        else ends a g.held writer_conflict w)

-- the exclusive create of the token
abbrev pub elect : ℕ → ℕ → SlotRecord → Agent → World → Option ℕ → World
elect a n r g w none = goes a g (checking n r) (record w { token = some a })
elect a n r g w (some b) = if nat_eq b a then goes a g (checking n r) w else again n a g w

-- the exclusive create of the elected guard
abbrev pub recreate : ℕ → ℕ → Agent → World → Slot → World
recreate a n g w missing = goes a g (rewriting n) (record w { slot = created a })
recreate a n g w _ = goes a g (resigning n failed_claim) w

abbrev pub resign : ℕ → ℕ → Agent → World → Claim → World
resign a n g w claimed = ends a true reclaimed w
resign a n g w failed_claim = again n a g w

-- A call by the client of a guard that is not in a call.
unfoldable pub begin : Op → ℕ → Agent → World → World
begin acquire_op a g w = if g.held then ends a true acquired w else goes a g (opening 0) w
begin refresh_op a g w =
    if g.held && owns a w.slot then goes a g refreshing w else ends a g.held writer_conflict w
begin release_op a g w =
    if g.held
    then (if owns a w.slot then goes a g releasing w else ends a false released w)
    else ends a false not_released w

module _ (pid_of : ℕ → ℕ) where
  abbrev pub payload : ℕ → ℕ → SlotRecord
  payload a now = record { writer_id = a; pid = some (pid_of a); at = now; heartbeat_at = now }

  -- A write through a descriptor reaches the slot only while the slot is the file that was opened.
  abbrev pub fill : ℕ → ℕ → Slot → Slot
  fill a now (created b) = if nat_eq b a then written (payload a now) else created b
  fill a now s = s

module _ (pid_of : ℕ → ℕ) (stale_ms : ℕ) where
  -- The next step of a guard, by what it is about to do.
  unfoldable pub move : ℕ → ℕ → Agent → World → Pc → World
  unfolding inspect
  move now a g w idle = w
  move now a g w (opening n) = open_slot a n g w w.slot
  move now a g w writing = ends a true acquired (record w { slot = fill pid_of a now w.slot })
  move now a g w (reading n) = inspect stale_ms now a n g w w.slot
  move now a g w (electing n r) = elect a n r g w w.token
  move now a g w (checking n r) =
      if same_slot_record r w.slot
      then goes a g (removing n r) w
      else goes a g (resigning n failed_claim) w
  move now a g w (removing n r) = goes a g (recreating n) (record w { slot = missing })
  move now a g w (recreating n) = recreate a n g w w.slot
  move now a g w (rewriting n) =
      goes a g (resigning n claimed) (record w { slot = fill pid_of a now w.slot })
  move now a g w (resigning n c) = resign a n g (record w { token = none }) c
  move now a g w refreshing =
      ends a true refreshed (record w { slot = written (payload pid_of a now) })
  move now a g w releasing = ends a false released (record w { slot = missing })

  unfoldable pub step : World → Event → World
  unfolding move begin
  step w (begins op a) =
      let g = w.agents a in if w.is_alive (pid_of a) && is_idle g.pc then begin op a g w else w
  step w (moves a now) =
      let g = w.agents a in if w.is_alive (pid_of a) then move now a g w g.pc else w
  step w (crashes p) = record w { is_alive = kill p w.is_alive }

  unfoldable pub run : World → List Event → World
  unfolding step
  run w [] = w
  run w (e ∷ es) = run (step w e) es

-- No file, no token, and every process alive.
abbrev pub start : World
start = record {
  slot = missing;
  token = none;
  is_alive = λ p. true;
  agents = λ a. record { held = false; pc = idle; answer = no_answer };
}
