-- ===== src/Enforcer/Approvals/Queues.antt =====
-- The counts of the two queues, as the requests in them are decided.
use palaestra_mcp_bridge.Common.{
  ℕ, suc, ◌≡◌, refl, ◌∙◌, ap, String, Bool, true, false, none, some, [], ◌∷◌, ◌==◌, eq_iff, sym,
  Bool-cases, inl, inr, length,
}
use palaestra_mcp_bridge.Enforcer.Approvals.{
  ApprovalRequestRow, Approvals, get_approval_request, update_where, select_where, approve_request,
  approve_row, deny_request, deny_row, pending_in, count_user_pending_approvals,
  count_admin_pending_approvals,
}
use palaestra_mcp_bridge.Enforcer.Approvals.Decided.{HasUniqueIds}

untouched :
    (id : String) (set : ApprovalRequestRow → ApprovalRequestRow) (t : Approvals)
    → get_approval_request id t ≡ none
    → update_where (λ r. r.id == id) set t ≡ t
unfolding get_approval_request update_where
untouched id set [] h = refl
untouched id set (r ∷ rs) h = elim (Bool-cases (r.id == id)) [
  | inl e ↦ let h' : some r ≡ none = simp e at h in absurd (cc h')
  | inr e ↦ simp e (ap (λ u. r ∷ u) (untouched id set rs (simp e at h)))
]

-- A row that passes the test goes, if the change makes it fail the test.
one_less :
    (test : ApprovalRequestRow → Bool) (set : ApprovalRequestRow → ApprovalRequestRow) (id : String)
    (t : Approvals) (r : ApprovalRequestRow)
    → ((q : ApprovalRequestRow) → test (set q) ≡ false)
    → HasUniqueIds t
    → get_approval_request id t ≡ some r
    → test r ≡ true
    → suc (length (select_where test (update_where (λ q. q.id == id) set t)))
      ≡ length (select_where test t)
unfolding get_approval_request update_where select_where
one_less test set id [] r off u h k = absurd (cc h)
one_less test set id (q ∷ qs) r off u h k = elim (Bool-cases (q.id == id)) [
  | inl e ↦
      let h' : some q ≡ some r = simp e at h in
      let same : q ≡ r = cc h' in
      let gone : get_approval_request id qs ≡ none =
        ap (λ i. get_approval_request i qs) (sym ((eq_iff q.id id).0 e)) ∙ u.0 in
      let passes : test q ≡ true = ap test same ∙ k in
      simp (e, off q, untouched id set qs gone, passes) refl
  | inr e ↦
      let ih = one_less test set id qs r off u.1 (simp e at h) k in
      elim (Bool-cases (test q)) [ inl p ↦ simp (e, p) (ap suc ih) | inr p ↦ simp (e, p) ih ]
]

-- In a table without duplicate ids, the approval of a request that waits in the users' queue, like
-- its denial, takes exactly one request out of that queue's count; the same holds of the admins'
-- queue.
pub count_pending_decided :
    (now : ℕ) (id approver text : String) (t : Approvals) (r : ApprovalRequestRow)
    → HasUniqueIds t
    → get_approval_request id t ≡ some r
    → (pending_in "user" r ≡ true
        → (suc (count_user_pending_approvals (approve_request now id approver text t))
            ≡ count_user_pending_approvals t)
          × (suc (count_user_pending_approvals (deny_request now id approver text t))
              ≡ count_user_pending_approvals t))
      × (pending_in "admin" r ≡ true
          → (suc (count_admin_pending_approvals (approve_request now id approver text t))
              ≡ count_admin_pending_approvals t)
            × (suc (count_admin_pending_approvals (deny_request now id approver text t))
                ≡ count_admin_pending_approvals t))
unfolding count_user_pending_approvals count_admin_pending_approvals approve_request deny_request
    approve_row deny_row
count_pending_decided now id approver text t r u h = (
  λ k. (
    one_less (pending_in "user") (approve_row now approver text) id t r (λ q. refl) u h k,
    one_less (pending_in "user") (deny_row now approver text) id t r (λ q. refl) u h k,
  ),
  λ k. (
    one_less (pending_in "admin") (approve_row now approver text) id t r (λ q. refl) u h k,
    one_less (pending_in "admin") (deny_row now approver text) id t r (λ q. refl) u h k,
  ),
)
