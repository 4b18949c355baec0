-- ===== src/Approval/Closed.antt =====
-- Only requests for a binary decision get one (src/executor/approval.js).
use chatgpt_codex_orchestrat.Prelude.{
  String, ◌≡◌, ◌↔◌, ◌⊎◌, inl, inr, refl, true, Option, none, some, eq_iff, ok, arith,
}
use chatgpt_codex_orchestrat.Approval.{
  file_change, command, approval_kind, is_approval_method, Decision, approve, deny, Wire, accept,
  map_decision, is_binary,
}

binary_method :
    (m : String)
    → is_binary m ≡ true
    → (m ≡ "item/commandExecution/requestApproval") ⊎ (m ≡ "item/fileChange/requestApproval")
binary_method m e = ground (
  arith,
  eq_iff m "item/commandExecution/requestApproval",
  eq_iff m "item/fileChange/requestApproval",
)

surfaced : (m : String) → is_binary m ≡ true → is_approval_method m ≡ true
unfolding is_approval_method
surfaced m e = elim (binary_method m e) [ inl p ↦ rw p refl | inr p ↦ rw p refl ]

kind_of_binary :
    (m : String)
    → is_binary m ≡ true
    → (approval_kind m ≡ command) ⊎ (approval_kind m ≡ file_change)
unfolding approval_kind
kind_of_binary m e = elim (binary_method m e) [ inl p ↦ rw p (inl refl) | inr p ↦ rw p (inr refl) ]

answered :
    (m : String) (d : Option Decision) (w : Wire)
    → map_decision m d ≡ ok w
    → (is_binary m ≡ true) × ((w ≡ accept) ↔ (d ≡ some approve))
unfolding map_decision
answered m none w p = absurd (cc)
answered m (some approve) w p = ground arith
answered m (some deny) w p = ground arith

-- A decision that is answered on the wire is one of a request that is surfaced as an approval, of a
-- command or of a file change; and the answer accepts exactly if the decision was to approve.
pub map_decision-answers :
    (m : String) (d : Option Decision) (w : Wire)
    → map_decision m d ≡ ok w
    → (is_approval_method m ≡ true)
      × ((approval_kind m ≡ command) ⊎ (approval_kind m ≡ file_change))
      × ((w ≡ accept) ↔ (d ≡ some approve))
map_decision-answers m d w p =
    let a = answered m d w p in (surfaced m a.0, kind_of_binary m a.0, a.1)
