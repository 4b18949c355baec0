-- ===== src/Publication/Examples.antt =====
-- Transactions against a concrete git.
use chatgpt_codex_orchestrat.Prelude.{
  String, ◌≡◌, refl, true, false, Option, none, some, List, [], Result, ok, thrown,
}
use chatgpt_codex_orchestrat.Publication.{
  Git, push, remote_main, head, Stop, moved_before_commit, External, Request, Published,
  publish_main, prepare,
}
use chatgpt_codex_orchestrat.Publication.Quiet.{has_push}
use chatgpt_codex_orchestrat.Publication.Refused.{publish_main-refused}
use chatgpt_codex_orchestrat.Publication.Cleared.{WasCleared, publish_main-WasCleared}

-- origin/main is at abc.
abbrev git : List Git → Git → Option String
git h remote_main = some "abc\trefs/heads/main\n"
git h head = some "def\n"
git h c = some ""

abbrev readback : List Git → String → Option External
readback h sha = some (record { remote_main_sha = some sha; tag_sha = none; release = none })

abbrev request : String → Request
request base = record {
  expected_origin_main = base;
  target_branch = "main";
  commit_message = "step";
  name = none;
  email = none;
  tag = none;
  required_release = none;
  gate_ok = true;
}

moved_is_refused : (publish_main git readback (request "xyz") []).0 ≡ thrown moved_before_commit
unfolding publish_main
moved_is_refused = refl

done_is_read_back :
    (publish_main git readback (request "abc") []).0
    ≡ ok (record { commit = "def"; tag_sha = none; external_readback = true })
unfolding publish_main
done_is_read_back = refl

publish_main-refused_example : has_push (publish_main git readback (request "xyz") []).1 ≡ false
publish_main-refused_example =
    publish_main-refused git readback (request "xyz") moved_before_commit tt moved_is_refused

abbrev whole_run : Result Stop Published × List Git
whole_run = publish_main git readback (request "abc") []

abbrev published : Published
published = record { commit = "def"; tag_sha = none; external_readback = true }

whole_run_ends : publish_main git readback (request "abc") [] ≡ (ok published, whole_run.1)
unfolding publish_main
whole_run_ends = refl

publish_main-WasCleared_example :
    (true ≡ true)
    × ((k : List Git) × WasCleared git (request "abc") k
        × (prepare git (request "abc") [] ≡ (ok "def", k))
        × ((s : String) × (git k (push "main") ≡ some s)))
publish_main-WasCleared_example =
    publish_main-WasCleared git readback (request "abc") published whole_run.1 whole_run_ends
