-- ===== src/Relay/Examples.antt =====
-- Runs of the relay, and its theorems at them. The digest of a text is the text.
use chatgpt_codex_orchestrat.Prelude.{
  ℕ, ◌≤◌, ◌<◌, String, ◌≡◌, ◌≢◌, inl, refl, true, false, none, some, List, [], ◌∷◌, ok, thrown,
  arith, apart,
}
use chatgpt_codex_orchestrat.Table.{is_in, lookup, store, remove, Distinct}
use chatgpt_codex_orchestrat.Relay.{
  device_revoked, Item, Envelope, Relay, no_requests, queue_of, dequeue_envelope,
}
use chatgpt_codex_orchestrat.Relay.Store.{Device, Pairing, Db, empty_db, authenticate_device}
use chatgpt_codex_orchestrat.Relay.Core.{
  Config, World, Agent, Report, Millis, millis, Response, succeeded, pending_count, of_device,
  of_account, keys, normalize_pending_limit,
}
use chatgpt_codex_orchestrat.Relay.Calls.{
  Event, connects, polls, dispatches, responds, revokes, connect_agent, poll_agent, respond_agent,
  dispatch_for_account, revoke_one, step, run,
}
use chatgpt_codex_orchestrat.Relay.Pairing.{
  Fresh, new_device, by_device_code, complete_pairing, after_pairing, PairingCall, creates,
  approves, run_pairing,
}
use chatgpt_codex_orchestrat.Relay.Bounds.{pending_bounded}
use chatgpt_codex_orchestrat.Relay.Once.{entered, answered_once, IsAccounted, never_lost}
use chatgpt_codex_orchestrat.Relay.Fence.{older_refused}
use chatgpt_codex_orchestrat.Relay.Revoked.{revoked_refused}
use chatgpt_codex_orchestrat.Relay.Paired.{pairs_once}
use chatgpt_codex_orchestrat.Relay.Credential.{complete-authenticate, issued, has_dot}
use chatgpt_codex_orchestrat.Relay.Delivered.{IsDue, IsGiven, dequeue-IsDue}

abbrev digest : String → String
digest s = s

abbrev config : Config
config = record {
  presence_window = 60000;
  supported_versions = "1" ∷ [];
  device_limit = 1;
  account_limit = 2;
}

abbrev laptop : Device
laptop = record {
  account_id = "ann";
  revoked_at = none;
  last_seen_at = none;
  connection_epoch = 3;
  last_runtime_id = none;
  executor_ready = false;
  protocol_version = none;
  agent_version = none;
}

abbrev db : Db
db = record empty_db {
  accounts = ("ann", record { issuer = "https://id"; subject = "7" }) ∷ [];
  devices = ("laptop", laptop) ∷ [];
  credentials =
      ("c1", record { device_id = "laptop"; secret_sha256 = "s1"; revoked_at = none }) ∷ [];
}

abbrev at_first : World
at_first = record { db = db; relay = no_requests }

abbrev agent : ℕ → Agent
agent n = record {
  device_id = "laptop";
  credential = "c1.s1";
  runtime_id = "run1";
  connection_epoch = n;
}

abbrev ready : Report
ready = record { executor_ready = true; protocol_version = "1"; agent_version = none }

abbrev events : List Event
events =
    connects (agent 0) ready 10
    ∷ dispatches "ann" "laptop" "r1" "read" (millis 500) 11
    ∷ dispatches "ann" "laptop" "r2" "write" (millis 500) 12
    ∷ polls (agent 4) ready (millis 0) 13
    ∷ responds (agent 4) "r1" (succeeded "text")
    ∷ []

-- The second request exceeds the limit of the device, the first one is answered.
events_answered : keys (run digest config at_first events).relay.settled ≡ "r1" ∷ []
unfolding run lookup store is_in
events_answered = refl

one_limit : normalize_pending_limit 1 ≡ some 1
unfolding normalize_pending_limit
one_limit = refl

two_limit : normalize_pending_limit 2 ≡ some 2
unfolding normalize_pending_limit
two_limit = refl

pending_bounded_example :
    let p = (run digest config at_first events).relay.pending in
    ((d : String) → pending_count (of_device d) p ≤ 1)
    × ((a : String) → pending_count (of_account a) p ≤ 2)
    × (1 ≤ 1)
    × (1 ≤ 1024)
    × (1 ≤ 2)
    × (2 ≤ 1024)
pending_bounded_example = pending_bounded digest config 1 2 db events one_limit two_limit

events-Distinct : Distinct (entered events)
unfolding entered is_in
events-Distinct = (refl, (refl, tt))

answered_once_example :
    let r = (run digest config at_first events).relay in
    Distinct (keys r.settled)
    × ((id : String) → is_in id (keys r.settled) ≡ true → lookup id r.pending ≡ none)
answered_once_example = answered_once digest config db events events-Distinct

abbrev request : Item
request = record {
  account_id = "ann";
  device_id = "laptop";
  connection_epoch = 3;
  runtime_id = "run1";
  deadline = 600;
  payload = "read";
  queued = true;
}

abbrev in_flight : World
in_flight = record {
  db = db;
  relay = record no_requests {
    pending = ("r0", request) ∷ [];
    queues = ("laptop", "r0" ∷ []) ∷ [];
  };
}

r0_is_new : is_in "r0" (entered events) ≡ false
unfolding is_in entered
r0_is_new = refl

r0_is_pending : lookup "r0" in_flight.relay.pending ≡ some request
unfolding lookup
r0_is_pending = refl

never_lost_example :
    let r = (run digest config in_flight events).relay in
    IsAccounted "r0" request r.pending r.settled
never_lost_example =
    never_lost digest config "r0" request events in_flight r0_is_new
      (inl (request, r0_is_pending, record { account = refl; device = refl; runtime = refl }))

dequeue-IsDue_example :
    ((id : String) (item : Item)
      → is_in id (queue_of "laptop" in_flight.relay) ≡ true
      → lookup id in_flight.relay.pending ≡ some item
      → IsDue 3 "run1" 20 item
      → (dequeue_envelope "laptop" 3 "run1" 20 in_flight.relay).0 ≢ none)
    × ((e : Envelope) (r' : Relay)
        → dequeue_envelope "laptop" 3 "run1" 20 in_flight.relay ≡ (some e, r')
        → IsGiven 3 "run1" 20 e r')
dequeue-IsDue_example = dequeue-IsDue "laptop" 3 "run1" 20 in_flight.relay

abbrev connected : World
connected = step digest config at_first (connects (agent 0) ready 10)

connected_now : connect_agent digest (agent 0) ready 10 at_first ≡ ok connected
unfolding connect_agent step lookup store
connected_now = refl

has_laptop : lookup "laptop" at_first.db.devices ≡ some laptop
unfolding lookup
has_laptop = refl

older_refused_example :
    let v = run digest config connected events in
    ((r : Report) (hold : Millis) (t : ℕ) (v' : World)
      → poll_agent digest (agent 3) r hold t v ≢ ok v')
    × ((id : String) (response : Response) (v' : World)
        → respond_agent digest (agent 3) id response v ≢ ok v')
older_refused_example =
    older_refused digest config (agent 0) (agent 3) ready 10 at_first connected laptop events
      connected_now has_laptop refl (omega arith)

abbrev revoked : World
revoked = step digest config in_flight (revokes "ann" "laptop" 12)

revoked_then : revoke_one "ann" "laptop" 12 in_flight ≡ ok revoked
unfolding revoke_one step lookup store remove
revoked_then = refl

revoked_refused_example :
    let v = run digest config revoked events in
    ((agent : Agent) (r : Report) (hold : Millis) (id : String) (response : Response) (t : ℕ)
      → agent.device_id ≡ "laptop"
      → (connect_agent digest agent r t v ≡ thrown device_revoked)
        × (poll_agent digest agent r hold t v ≡ thrown device_revoked)
        × (respond_agent digest agent id response v ≡ thrown device_revoked))
    × ((other id payload : String) (limit : Millis) (t : ℕ) (v' : World)
        → dispatch_for_account config other "laptop" id payload limit t v ≢ ok v')
revoked_refused_example =
    revoked_refused digest config "ann" "laptop" 12 in_flight revoked events (omega arith)
      revoked_then

abbrev drawn : Fresh
drawn = record { device_id = "phone"; credential_id = "c2"; secret = "s2" }

abbrev pairing : List PairingCall
pairing = creates "p1" "device-code" "user-code" 900 ∷ approves "user-code" "ann" 20 ∷ []

abbrev paired_db : Db
paired_db =
    after_pairing digest (run_pairing digest db pairing)
      (complete_pairing digest drawn "device-code" 30 (run_pairing digest db pairing))

paired_now :
    complete_pairing digest drawn "device-code" 30 (run_pairing digest db pairing) ≡ ok paired_db
unfolding complete_pairing run_pairing lookup store after_pairing
paired_now = refl

pairs_once_example :
    complete_pairing digest drawn "device-code" 31 (run_pairing digest paired_db pairing)
    ≢ ok paired_db
pairs_once_example =
    pairs_once digest db paired_db paired_db pairing pairing drawn drawn "device-code" 30 31 refl
      (omega arith) paired_now

no_dot : has_dot "c2" ≡ false
unfolding has_dot
no_dot = refl

complete-authenticate_example :
    (id : String) × (p : Pairing) × (account : String) × (by_device_code "device-code"
        (run_pairing digest db pairing).pairings
      ≡ some (id, p))
    × (p.approved_account_id ≡ some account)
    × (lookup account (run_pairing digest db pairing).accounts ≢ none)
    × (30 < p.expires_at)
    × (authenticate_device digest "phone" (issued drawn) paired_db ≡ ok (new_device account))
complete-authenticate_example =
    complete-authenticate digest drawn "device-code" 30 (run_pairing digest db pairing) paired_db
      no_dot (apart "c2" "" refl) (apart "s2" "" refl) paired_now
