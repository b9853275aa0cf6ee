-- ===== src/Enforcer/Approvals/Rows.antt =====
-- What a read by id sees after an update or a selection of rows, and the ids of the rows.
use palaestra_mcp_bridge.Common.{
  ◌≡◌, refl, ◌∙◌, String, Bool, true, false, Option, none, some, [], ◌∷◌, ◌==◌, if◌then◌else◌,
  Bool-cases, inl, inr, ap, All, eq_iff, subst, sym,
}
use palaestra_mcp_bridge.Enforcer.Approvals.{
  ApprovalRequestRow, Approvals, get_approval_request, update_where, select_where,
}

-- The change of one row.
abbrev pub changed :
    (ApprovalRequestRow → Bool)
    → (ApprovalRequestRow → ApprovalRequestRow)
    → ApprovalRequestRow
    → ApprovalRequestRow
changed test set r = if test r then set r else r

abbrev pub on_row :
    (ApprovalRequestRow → ApprovalRequestRow)
    → Option ApprovalRequestRow
    → Option ApprovalRequestRow
on_row f none = none
on_row f (some r) = some (f r)

changed_id :
    (test : ApprovalRequestRow → Bool) (set : ApprovalRequestRow → ApprovalRequestRow)
    → ((r : ApprovalRequestRow) → (set r).id ≡ r.id)
    → (r : ApprovalRequestRow) → (if test r then set r else r).id ≡ r.id
changed_id test set h r = go (test r)
  where
    go : (b : Bool) → (if b then set r else r).id ≡ r.id
    go true = h r
    go false = refl

-- An update that keeps the ids changes what is read by the same function as the rows.
pub get_approval_request-update_where :
    (test : ApprovalRequestRow → Bool) (set : ApprovalRequestRow → ApprovalRequestRow)
    → ((r : ApprovalRequestRow) → (set r).id ≡ r.id)
    → (id : String) (t : Approvals)
    → get_approval_request id (update_where test set t)
      ≡ on_row (changed test set) (get_approval_request id t)
unfolding get_approval_request update_where
get_approval_request-update_where test set h id [] = refl
get_approval_request-update_where test set h id (r ∷ rs) =
    let ih = get_approval_request-update_where test set h id rs in
    elim (Bool-cases (r.id == id)) [
      | inl e ↦ rw (changed_id test set h r, e) refl
      | inr e ↦ rw (changed_id test set h r, e) ih
    ]

-- What holds of all rows after an update, by what the update does to the rows.
pub All-update_where :
    (P Q : ApprovalRequestRow → Type 0) (test : ApprovalRequestRow → Bool)
    (set : ApprovalRequestRow → ApprovalRequestRow)
    → ((r : ApprovalRequestRow) → test r ≡ true → P r → Q (set r))
    → ((r : ApprovalRequestRow) → test r ≡ false → P r → Q r)
    → (t : Approvals) → All P t
    → All Q (update_where test set t)
unfolding update_where
All-update_where P Q test set on off [] h = tt
All-update_where P Q test set on off (r ∷ rs) h =
    (go (test r) refl, All-update_where P Q test set on off rs h.1)
  where
    go : (b : Bool) → test r ≡ b → Q (if b then set r else r)
    go true e = on r e h.0
    go false e = off r e h.0

pub All-select_where :
    (P : ApprovalRequestRow → Type 0) (test : ApprovalRequestRow → Bool) (t : Approvals)
    → All P t
    → All P (select_where test t)
unfolding select_where
All-select_where P test [] h = tt
All-select_where P test (r ∷ rs) h = elim (Bool-cases (test r)) [
  | inl e ↦ rw e (h.0, All-select_where P test rs h.1)
  | inr e ↦ rw e (All-select_where P test rs h.1)
]

pub All-get_approval_request :
    (P : ApprovalRequestRow → Type 0) (id : String) (t : Approvals) (r : ApprovalRequestRow)
    → All P t
    → get_approval_request id t ≡ some r
    → P r × (r.id ≡ id)
unfolding get_approval_request
All-get_approval_request P id [] r h e = cc
All-get_approval_request P id (q ∷ rs) r h e = elim (Bool-cases (q.id == id)) [
  | inl hit ↦
      let same : q ≡ r = cc (simp hit at e) in
      (subst P same h.0, ap (λ x. x.id) (sym same) ∙ (eq_iff q.id id).0 hit)
  | inr miss ↦ All-get_approval_request P id rs r h.1 (simp miss at e)
]

-- An update of the row with an id, read at that id and at another one.
pub update_same :
    (set : ApprovalRequestRow → ApprovalRequestRow)
    → ((r : ApprovalRequestRow) → (set r).id ≡ r.id)
    → (id : String) (t : Approvals)
    → get_approval_request id (update_where (λ r. r.id == id) set t)
      ≡ on_row set (get_approval_request id t)
unfolding get_approval_request update_where
update_same set h id [] = refl
update_same set h id (r ∷ rs) = elim (Bool-cases (r.id == id)) [
  | inl e ↦ simp (e, h r) refl
  | inr e ↦ simp (e, update_same set h id rs) refl
]

pub update_other :
    (set : ApprovalRequestRow → ApprovalRequestRow)
    → ((r : ApprovalRequestRow) → (set r).id ≡ r.id)
    → (id at : String) → (id == at) ≡ false
    → (t : Approvals)
    → get_approval_request at (update_where (λ r. r.id == id) set t) ≡ get_approval_request at t
unfolding get_approval_request update_where
update_other set h id at other [] = refl
update_other set h id at other (r ∷ rs) =
    let ih = update_other set h id at other rs in
    elim (Bool-cases (r.id == id)) [
      | inl e ↦
          let miss : (r.id == at) ≡ false = rw ((eq_iff r.id id).0 e) other in
          simp (e, h r, miss) ih
      | inr e ↦ simp (e, ih) refl
    ]

pub get_approval_request-select_where :
    (test : ApprovalRequestRow → Bool) (id : String) (t : Approvals)
    → get_approval_request id t ≡ none
    → get_approval_request id (select_where test t) ≡ none
unfolding get_approval_request select_where
get_approval_request-select_where test id [] h = refl
get_approval_request-select_where test id (r ∷ rs) h = elim (Bool-cases (r.id == id)) [
  | inl e ↦ let h' : some r ≡ none = simp e at h in absurd (cc h')
  | inr e ↦
      let ih = get_approval_request-select_where test id rs (simp e at h) in
      elim (Bool-cases (test r)) [ inl k ↦ simp (k, e) ih | inr k ↦ simp k ih ]
]
