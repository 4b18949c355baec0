-- ===== src/WriterGuard/Examples.antt =====
-- Interleavings of writer guards, and the theorems at them.
use chatgpt_codex_orchestrat.Prelude.{
  ℕ, ◌+◌, ◌≡◌, ◌≢◌, refl, true, false, none, some, List, [], ◌∷◌,
}
use chatgpt_codex_orchestrat.WriterGuard.{
  SlotRecord, written, created, World, Event, begins, moves, crashes, acquire_op, run, start, step,
  begin, move, inspect, is_stale, same_slot_record, idle, reclaimed, writer_conflict, payload, kill,
}
use chatgpt_codex_orchestrat.WriterGuard.Effect.{OwnedBy}
use chatgpt_codex_orchestrat.WriterGuard.Exclusive.{one_live_writer}
use chatgpt_codex_orchestrat.WriterGuard.Reclaim.{
  Finds, attempt, reclaim, acquire_alone, crash_before_write,
}

abbrev pid : ℕ → ℕ
pid a = 100 + a

-- Guard 1 takes the slot and dies, and 2 and 3 try for it at once.
abbrev contended : List Event
contended =
    begins acquire_op 1
    ∷ moves 1 10
    ∷ moves 1 10
    ∷ crashes 101
    ∷ begins acquire_op 2
    ∷ begins acquire_op 3
    ∷ moves 2 20
    ∷ moves 3 20
    ∷ moves 2 20
    ∷ moves 3 20
    ∷ moves 2 20
    ∷ moves 3 20
    ∷ moves 2 20
    ∷ moves 2 20
    ∷ moves 2 20
    ∷ moves 2 20
    ∷ moves 2 20
    ∷ []

contended_alive : (run pid 5 start contended).is_alive (pid 2) ≡ true
unfolding run step begin move inspect is_stale same_slot_record
contended_alive = refl

contended_held : ((run pid 5 start contended).agents 2).held ≡ true
unfolding run step begin move inspect is_stale same_slot_record
contended_held = refl

one_live_writer_example :
    let w = run pid 5 start contended in
    OwnedBy 2 w.slot × ((b : ℕ) → w.is_alive (pid b) ≡ true → (w.agents b).held ≡ true → b ≡ 2)
one_live_writer_example = one_live_writer pid 5 contended 2 contended_alive contended_held

abbrev old : SlotRecord
old = record { writer_id = 1; pid = some 101; at = 10; heartbeat_at = 10 }

abbrev orphaned : World
orphaned = record start { slot = written old; is_alive = kill 101 start.is_alive }

finds : Finds pid 5 2 20 old orphaned
finds = record {
  slot = refl;
  token = refl;
  alive = refl;
  calm = refl;
  not_held = refl;
  other = λ e. cc;
}

acquire_alone_example :
    let found = run pid 5 orphaned (attempt pid 5 2 20) in
    let ended = run pid 5 found (reclaim pid 5 2 20) in
    (is_stale orphaned.is_alive 5 20 old ≡ true
      → (ended.slot ≡ written (payload pid 2 20))
        × (ended.token ≡ none)
        × (ended.agents 2 ≡ record { held = true; pc = idle; answer = reclaimed }))
    × (is_stale orphaned.is_alive 5 20 old ≡ false
        → (found.slot ≡ orphaned.slot)
          × (found.token ≡ orphaned.token)
          × (found.agents 2 ≡ record { held = false; pc = idle; answer = writer_conflict }))
acquire_alone_example = acquire_alone pid 5 2 20 old orphaned finds

abbrev half_open : List Event
half_open = begins acquire_op 1 ∷ moves 1 10 ∷ crashes 101 ∷ []

half_open_slot : (run pid 5 start half_open).slot ≡ created 1
unfolding run step begin move
half_open_slot = refl

half_open_dead : (run pid 5 start half_open).is_alive (pid 1) ≡ false
unfolding run step begin move
half_open_dead = refl

crash_before_write_example :
    let w = run pid 5 (run pid 5 start half_open) (begins acquire_op 2 ∷ moves 2 20 ∷ []) in
    (w.slot ≡ created 1) × ((b : ℕ) → w.is_alive (pid b) ≡ true → (w.agents b).held ≢ true)
crash_before_write_example =
    crash_before_write pid 5 1 half_open (begins acquire_op 2 ∷ moves 2 20 ∷ []) half_open_slot
      half_open_dead
