-- ===== src/Muxer/Prefixes.antt =====
-- Routing by prefix, and prefixes put on and taken off: muxer/muxer.go.
use Prim.Native.String.{◌++◌ as append}
use text.Mathlib.Text.{starts_with}
use text.Mathlib.TextPositions.{starts_with-append, slice-append_right, len-append}
use text.Mathlib.TextLemmas.{append_assoc}
use palaestra_mcp_bridge.Common.{
  ◌≡◌, ◌≢◌, refl, sym, ap, ◌∙◌, subst, String, true, false, none, some, List, [], ◌∷◌, ◌==◌, ◌⊎◌,
  inl, inr, Bool-cases, Option-cases, Occurs,
}
use palaestra_mcp_bridge.Common.Dict.{Dict}
use palaestra_mcp_bridge.Muxer.Routing.{
  ToolMuxer, has_prefix, find_prefix, only_backend, list_backend_ids, find_backend_for_tool,
  trim_prefix, strip_prefix_from_name, add_prefix,
}

trim_prefix-append : (p s : String) → trim_prefix (append p s) p ≡ s
unfolding trim_prefix
trim_prefix-append p s = rw (starts_with-append p s, len-append p s) (slice-append_right p s)

trim_prefix_absent : (s p : String) → starts_with s p ≡ false → trim_prefix s p ≡ s
unfolding trim_prefix
trim_prefix_absent s p e = rw e refl

-- A name that a prefix was put on comes back when the prefix is stripped, unless the name itself
-- begins with the prefix and a slash.
pub strip_prefix_from_name-add_prefix :
    (prefix name : String)
    → (prefix == "") ≡ false
    → starts_with name (append prefix "/") ≡ false
    → strip_prefix_from_name prefix (add_prefix prefix name) ≡ name
unfolding strip_prefix_from_name add_prefix
strip_prefix_from_name-add_prefix prefix name ne e = rw ne (
    ap (λ s. trim_prefix s (append prefix "/"))
      (ap (λ s. trim_prefix s (append prefix "_")) (sym (append_assoc prefix "_" name))
        ∙ trim_prefix-append (append prefix "_") name)
    ∙ trim_prefix_absent name (append prefix "/") e)

-- Of a name that begins with both prefixes in turn, both are taken off.
pub strip_prefix_from_name_twice :
    (prefix name : String)
    → strip_prefix_from_name prefix (append (append prefix "_") (append (append prefix "/") name))
      ≡ name
unfolding strip_prefix_from_name
strip_prefix_from_name_twice prefix name =
    ap (λ s. trim_prefix s (append prefix "/"))
      (trim_prefix-append (append prefix "_") (append (append prefix "/") name))
    ∙ trim_prefix-append (append prefix "/") name

find_prefix_sound :
    (name id prefix : String) (m : Dict String)
    → find_prefix name m ≡ some (id, prefix)
    → Occurs {A = String × String} (prefix, id) m × (has_prefix prefix name ≡ true)
unfolding find_prefix
find_prefix_sound name id prefix [] e = absurd (cc e)
find_prefix_sound name id prefix ((p, b) ∷ m) e = elim (Bool-cases (has_prefix p name)) [
  | inl h ↦
      let same : some (b, p) ≡ some (id, prefix) = rw h at e in
      (
        inl (ap (λ x. (x.1, x.0)) (sym (some_injective same))),
        subst (λ q. has_prefix q name ≡ true) (ap (λ x. x.1) (some_injective same)) h,
      )
  | inr h ↦ let (o, t) = find_prefix_sound name id prefix m (rw h at e) in (inr o, t)
]
  where
    some_injective : {x y : String × String} → some x ≡ some y → x ≡ y
    some_injective e = cc e

find_prefix_complete :
    (name id prefix : String) (m : Dict String)
    → Occurs {A = String × String} (prefix, id) m
    → has_prefix prefix name ≡ true
    → find_prefix name m ≢ none
unfolding find_prefix
find_prefix_complete name id prefix [] o h e = absurd o
find_prefix_complete name id prefix ((p, b) ∷ m) o h e = elim (Bool-cases (has_prefix p name)) [
  | inl k ↦ cc (rw k at e)
  | inr k ↦ elim o [
    | inl same ↦ cc (h, k, ap (λ x. has_prefix x.0 name) same)
    | inr later ↦ find_prefix_complete name id prefix m later h (rw k at e)
  ]
]

-- A tool goes to the backend of a prefix that its name has, or, if it has none, to the only backend
-- there is, without a prefix.
pub find_backend_for_tool_lem :
    (name id prefix : String) (m : ToolMuxer)
    → find_backend_for_tool name m ≡ some (id, prefix)
    → (Occurs {A = String × String} (prefix, id) m.backend_prefixes
        × (has_prefix prefix name ≡ true))
      ⊎ ((find_prefix name m.backend_prefixes ≡ none)
          × (list_backend_ids m ≡ id ∷ [])
          × (prefix ≡ ""))
unfolding find_backend_for_tool only_backend
find_backend_for_tool_lem name id prefix m e =
    elim (Option-cases (find_prefix name m.backend_prefixes)) [
      | inr (x, h) ↦ inl (find_prefix_sound name id prefix m.backend_prefixes (h ∙ (rw h at e)))
      | inl h ↦ let (a, b) = single (list_backend_ids m) (rw h at e) in inr (h, a, b)
    ]
  where
    single :
        (ids : List String) → only_backend ids ≡ some (id, prefix) → (ids ≡ id ∷ []) × (prefix ≡ "")
    single [] k = absurd (cc k)
    single (x ∷ []) k = (cc k, cc k)
    single (x ∷ y ∷ ids) k = absurd (cc k)

-- If all the prefixes that a tool's name has belong to one entry, the tool goes to its backend, in
-- whatever order the prefixes are walked.
pub find_backend_for_tool_unique :
    (name id prefix : String) (m : ToolMuxer)
    → Occurs {A = String × String} (prefix, id) m.backend_prefixes
    → has_prefix prefix name ≡ true
    → ((p b : String)
        → Occurs {A = String × String} (p, b) m.backend_prefixes
        → has_prefix p name ≡ true
        → (b ≡ id) × (p ≡ prefix))
    → find_backend_for_tool name m ≡ some (id, prefix)
unfolding find_backend_for_tool
find_backend_for_tool_unique name id prefix m o h u =
    elim (Option-cases (find_prefix name m.backend_prefixes)) [
      | inl e ↦ absurd (find_prefix_complete name id prefix m.backend_prefixes o h e)
      | inr ((b, p), e) ↦
          let (o2, h2) = find_prefix_sound name b p m.backend_prefixes e in
          let (x, y) = u p b o2 h2 in rw e (cc (x, y))
    ]
