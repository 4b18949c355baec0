-- ===== src/Relay/Bounds.antt =====
-- How many requests may be in flight (src/relay/core.js).
use mathlib.Core.Path.{subst}
use chatgpt_codex_orchestrat.Prelude.{
  ℕ, ◌+◌, ◌≤◌, String, ◌≡◌, Bool, true, not, Option, some, List, [], ◌∷◌, if◌then◌else◌, ◌==◌, leb,
  eq_iff, arith, guard_passed, guard-true, ap,
}
use chatgpt_codex_orchestrat.Table.{lookup, store, remove}
use chatgpt_codex_orchestrat.Relay.{
  Item, Relay, no_requests, device_dispatch_limit, account_dispatch_limit,
}
use chatgpt_codex_orchestrat.Relay.Store.{Db}
use chatgpt_codex_orchestrat.Relay.Core.{
  Config, World, normalize_pending_limit, pending_count, of_device, of_account, admit_dispatch,
}
use chatgpt_codex_orchestrat.Relay.Calls.{Event, step, run}
use chatgpt_codex_orchestrat.Relay.Frame.{Rewrites, Settles}
use chatgpt_codex_orchestrat.Relay.Events.{EntryKeeps, keeps_opening, entered_by, step-Keeps}

count-remove :
    (test : Item → Bool) (id : String) (p : List (String × Item))
    → pending_count test (remove id p) ≤ pending_count test p
unfolding pending_count remove
count-remove test id [] = omega arith
count-remove test id ((k, item) ∷ p) = ground (arith, count-remove test id p)

count-store :
    (test : Item → Bool) (id : String) (item : Item) (p : List (String × Item))
    → pending_count test (store id item p) ≤ pending_count test p + (if test item then 1 else 0)
unfolding pending_count store
count-store test id item [] = ground arith
count-store test id item ((k, old) ∷ p) = ground (arith, count-store test id item p)

count-store_same :
    (test : Item → Bool) (id : String) (item item' : Item) (p : List (String × Item))
    → lookup id p ≡ some item
    → test item' ≡ test item
    → pending_count test (store id item' p) ≡ pending_count test p
unfolding pending_count store lookup
count-store_same test id item item' [] e t = absurd (cc)
count-store_same test id item item' ((k, old) ∷ p) e t =
    ground (arith, t, e, count-store_same test id item item' p)

module _ (config : Config) where
  -- No device and no account has more requests pending than its limit.
  pub record IsBounded (p : List (String × Item)) : Type 0 where
    pub device : (d : String) → pending_count (of_device d) p ≤ config.device_limit
    pub account : (a : String) → pending_count (of_account a) p ≤ config.account_limit

  rewritten-IsBounded : Rewrites (λ q p s. IsBounded p)
  rewritten-IsBounded q p s id item item' e same h = record {
    device = λ d.
        rw (count-store_same (of_device d) id item item' p e (ap (λ x. x == d) same.device))
          (h.device d);
    account = λ a.
        rw (count-store_same (of_account a) id item item' p e (ap (λ x. x == a) same.account))
          (h.account a);
  }

  settled-IsBounded : Settles (λ q p s. IsBounded p)
  settled-IsBounded q p s id item out e h = record {
    device = λ d. let k = h.device d in let c = count-remove (of_device d) id p in omega arith;
    account = λ a. let k = h.account a in let c = count-remove (of_account a) id p in omega arith;
  }

  -- A key among which the count stays within the limit if the new item is admitted.
  within :
      (test : Item → Bool) (limit : ℕ) (id : String) (item : Item) (p : List (String × Item))
      → pending_count test p ≤ limit
      → (test item ≡ true → not (leb limit (pending_count test p)) ≡ true)
      → pending_count test (store id item p) ≤ limit
  within test limit id item p h k = ground (arith, count-store test id item p)

  entered-IsBounded :
      (o : Option String) (r : Relay)
      → IsBounded r.pending
      → EntryKeeps
          (λ q p s. IsBounded p)
          rewritten-IsBounded
          settled-IsBounded
          (λ q p s d k. k)
          (λ q p s k. k)
          config
          o
          r
  unfolding admit_dispatch
  entered-IsBounded o r h id item e a =
      let g =
        guard_passed
          (not (leb config.device_limit (pending_count (of_device item.device_id) r.pending)))
          device_dispatch_limit _ a in
      let g' =
        guard-true
          (not (leb config.account_limit (pending_count (of_account item.account_id) r.pending)))
          account_dispatch_limit g.1 in
      record {
        device = λ d. within (of_device d) config.device_limit id item r.pending (h.device d) (λ t.
            subst
              (λ x. not (leb config.device_limit (pending_count (of_device x) r.pending)) ≡ true)
              ((eq_iff item.device_id d).0 t) g.0);
        account = λ b.
            within (of_account b) config.account_limit id item r.pending (h.account b) (λ t.
              subst
                (λ x.
                  not (leb config.account_limit (pending_count (of_account x) r.pending)) ≡ true)
                ((eq_iff item.account_id b).0 t) g');
      }

  run-IsBounded :
      (sha256 : String → String) (w : World) (es : List Event)
      → IsBounded w.relay.pending
      → IsBounded (run sha256 config w es).relay.pending
  unfolding run
  run-IsBounded sha256 w [] h = h
  run-IsBounded sha256 w (e ∷ es) h = run-IsBounded sha256 (step sha256 config w e) es (
      step-Keeps (λ q p s. IsBounded p) rewritten-IsBounded settled-IsBounded (λ q p s d k. k)
        (λ q p s k. k) sha256 config e w (entered-IsBounded (entered_by e) w.relay h)
        (keeps_opening (λ q p s. IsBounded p) rewritten-IsBounded settled-IsBounded (λ q p s d k. k)
          (λ q p s k. k) e w (λ q. h))
        h)

limit-bound : (n m : ℕ) → normalize_pending_limit n ≡ some m → (m ≡ n) × (1 ≤ m) × (m ≤ 1024)
unfolding normalize_pending_limit
limit-bound n m e = ground arith

-- If both limits are given as numbers that the constructor accepts, and no request is pending at first,
-- then after any sequence of events no device and no account has more requests pending than its limit,
-- and the limits are between 1 and 1024.
pub pending_bounded :
    (sha256 : String → String) (config : Config) (per_device per_account : ℕ) (db : Db)
    (es : List Event)
    → normalize_pending_limit per_device ≡ some config.device_limit
    → normalize_pending_limit per_account ≡ some config.account_limit
    → let p = (run sha256 config (record { db = db; relay = no_requests }) es).relay.pending in
      ((d : String) → pending_count (of_device d) p ≤ per_device)
      × ((a : String) → pending_count (of_account a) p ≤ per_account)
      × (1 ≤ per_device)
      × (per_device ≤ 1024)
      × (1 ≤ per_account)
      × (per_account ≤ 1024)
unfolding pending_count
pending_bounded sha256 config per_device per_account db es x y =
    let d = limit-bound per_device config.device_limit x in
    let a = limit-bound per_account config.account_limit y in
    let h =
      run-IsBounded config sha256 (record { db = db; relay = no_requests }) es
        (record { device = λ k. omega arith; account = λ k. omega arith }) in
    (
      λ k. let b = h.device k in omega arith,
      λ k. let b = h.account k in omega arith,
      omega arith,
      omega arith,
      omega arith,
      omega arith,
    )
