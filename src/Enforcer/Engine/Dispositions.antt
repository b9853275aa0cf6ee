-- ===== src/Enforcer/Engine/Dispositions.antt =====
-- `LookupDisposition` picks an entry of the context with the least priority number.
use palaestra_mcp_bridge.Common.{
  ◌≤◌, ◌≡◌, refl, sym, ap, subst, String, Bool, true, false, ◌⊎◌, inl, inr, Option, none, some,
  List, [], ◌∷◌, arith, if◌then◌else◌, Occurs, ltb, All, Option-cases,
}
use palaestra_mcp_bridge.Common.Dict.{lookup}
use palaestra_mcp_bridge.Enforcer.Engine.{
  CelEngine, PrioritisedDisposition, best_of, lookup_disposition,
}

best_of-le :
    (b : PrioritisedDisposition) (es : List PrioritisedDisposition)
    → ((best_of b es).priority ≤ b.priority) × All (λ e. (best_of b es).priority ≤ e.priority) es
unfolding best_of
best_of-le b [] = (omega arith, tt)
best_of-le b (e ∷ es) =
    let ih = best_of-le (if ltb e.priority b.priority then e else b) es in
    (ground (arith, ih.0), (ground (arith, ih.0), ih.1))

chosen :
    {x b e : PrioritisedDisposition} (es : List PrioritisedDisposition) (t : Bool)
    → Occurs x ((if t then e else b) ∷ es)
    → Occurs x (b ∷ e ∷ es)
chosen es true (inl p) = inr (inl p)
chosen es true (inr p) = inr (inr p)
chosen es false (inl p) = inl p
chosen es false (inr p) = inr (inr p)

best_of-Occurs :
    (b : PrioritisedDisposition) (es : List PrioritisedDisposition) → Occurs (best_of b es) (b ∷ es)
unfolding best_of
best_of-Occurs b [] = inl refl
best_of-Occurs b (e ∷ es) =
    chosen es (ltb e.priority b.priority)
      (best_of-Occurs (if ltb e.priority b.priority then e else b) es)

-- The entries under a key, none for a key that is not there.
abbrev pub entries_of : Option (List PrioritisedDisposition) → List PrioritisedDisposition
entries_of none = []
entries_of (some es) = es

module _ {P : Type 0} (ctx : String) (e : CelEngine P) where
  -- A lookup among the entries fails if there are none, and else gives one with the least number.
  abbrev pub LooksUp : List PrioritisedDisposition → Type 0
  LooksUp es =
      ((lookup_disposition ctx e ≡ none) × (es ≡ []))
      ⊎ ((d : PrioritisedDisposition) × (lookup_disposition ctx e ≡ some (d.action, d.message))
          × Occurs d es
          × All (λ x. d.priority ≤ x.priority) es)

  found : (es : List PrioritisedDisposition) → lookup ctx e.dispositions ≡ some es → LooksUp es
  unfolding lookup_disposition
  found [] h = inl (rw (h, lookup_disposition), refl)
  found (x ∷ es) h =
      inr (best_of x es, rw (h, lookup_disposition), best_of-Occurs x es, best_of-le x es)

  missing : lookup ctx e.dispositions ≡ none → LooksUp []
  unfolding lookup_disposition
  missing h = inl (rw (h, lookup_disposition), refl)

  -- A lookup fails only when no entry is held for the context; otherwise it returns the action and
  -- the message of an entry of the context that has the least priority number.
  pub lookup_disposition_lem : LooksUp (entries_of (lookup ctx e.dispositions))
  lookup_disposition_lem = elim (Option-cases (lookup ctx e.dispositions)) [
    | inl h ↦ subst LooksUp (sym (ap entries_of h)) (missing h)
    | inr (es, h) ↦ subst LooksUp (sym (ap entries_of h)) (found es h)
  ]
