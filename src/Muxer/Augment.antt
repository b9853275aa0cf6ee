-- ===== src/Muxer/Augment.antt =====
-- The parameters of the bridge in the schemas of tools: muxer/augment.go. Of a schema, the names of
-- the properties and what AugmentToolList writes of them are kept.
use palaestra_mcp_bridge.Common.{
  ℕ, ◌≡◌, ◌≢◌, refl, sym, subst, String, Bool, true, false, Option, none, some, List, [], ◌∷◌, ◌++◌,
  ◌==◌, inl, inr, if◌then◌else◌, Bool-cases, arith, eq_refl, ◌&&◌, not, ltb, Occurs,
}
use palaestra_mcp_bridge.Common.Dict.{Dict, lookup, insert, lookup-insert, lookup-insert_self}

pub record AugmentSpec : Type 0 where
  pub name : String
  pub type : String
  pub description : String
  pub min_length : ℕ
  pub required : Bool
  pub exempt_backends : List String

pub record Property : Type 0 where
  pub type : String
  pub description : String
  pub min_length : Option ℕ

-- The inputSchema of a tool.
pub record Schema : Type 0 where
  pub properties : Dict Property
  pub required : List String

-- What the code takes for a schema that is missing.
abbrev pub empty_schema : Schema
empty_schema = record { properties = []; required = [] }

unfoldable pub mem : String → List String → Bool
mem x [] = false
mem x (y ∷ ys) = let rest = mem x ys in if y == x then true else rest

abbrev pub property_of : AugmentSpec → Property
property_of a = record {
  type = a.type;
  description = a.description;
  min_length = if ltb 0 a.min_length then some a.min_length else none;
}

abbrev pub with_required : Bool → String → List String → List String
with_required wanted name names =
    if wanted && not (mem name names) then names ++ (name ∷ []) else names

-- One specification on one schema.
unfoldable pub augment_schema : String → AugmentSpec → Schema → Schema
augment_schema backend a s = if mem backend a.exempt_backends then s else record {
  properties = insert a.name (property_of a) s.properties;
  required = with_required a.required a.name s.required;
}

unfoldable pub augment_all : String → List AugmentSpec → Schema → Schema
augment_all backend [] s = s
augment_all backend (a ∷ specs) s = augment_all backend specs (augment_schema backend a s)

abbrev or_schema : Option Schema → Schema
or_schema none = empty_schema
or_schema (some s) = s

-- `AugmentToolList`
unfoldable pub augment_tool_list :
    String → List AugmentSpec → List (String × Option Schema) → List (String × Option Schema)
augment_tool_list backend specs [] = []
augment_tool_list backend specs (t ∷ ts) =
    (t.0, some (augment_all backend specs (or_schema t.1))) ∷ augment_tool_list backend specs ts

mem-append : (x : String) (ys : List String) → mem x (ys ++ (x ∷ [])) ≡ true
unfolding mem
mem-append x [] = rw (eq_refl x) refl
mem-append x (y ∷ ys) = ground (arith, mem-append x ys)

mem-append_left :
    (x y : String) (ys : List String) → mem x ys ≡ true → mem x (ys ++ (y ∷ [])) ≡ true
unfolding mem
mem-append_left x y [] h = absurd (cc h)
mem-append_left x y (z ∷ ys) h = ground (arith, mem-append_left x y ys)

with_required_kept :
    (x name : String) (wanted : Bool) (names : List String)
    → mem x names ≡ true
    → mem x (with_required wanted name names) ≡ true
with_required_kept x name wanted names h = elim (Bool-cases (wanted && not (mem name names))) [
  | inl e ↦ rw e (mem-append_left x name names h)
  | inr e ↦ rw e h
]

with_required_added :
    (name : String) (names : List String) → mem name (with_required true name names) ≡ true
with_required_added name names = go (mem name names) refl
  where
    go :
        (b : Bool)
        → mem name names ≡ b
        → mem name (if not b then names ++ (name ∷ []) else names) ≡ true
    go true e = e
    go false e = mem-append name names

-- Asking twice for the same parameter changes the required names no further.
with_required_again :
    (name : String) (wanted : Bool) (names : List String)
    → with_required wanted name (with_required wanted name names) ≡ with_required wanted name names
with_required_again name false names = refl
with_required_again name true names = rw (with_required_added name names) refl

-- What a schema has for a specification.
abbrev pub IsAsked : AugmentSpec → Schema → Type 0
IsAsked a s =
    (lookup a.name s.properties ≢ none) × (a.required ≡ true → mem a.name s.required ≡ true)

IsAsked-augment_schema :
    (backend : String) (a b : AugmentSpec) (s : Schema)
    → IsAsked a s
    → IsAsked a (augment_schema backend b s)
unfolding augment_schema
IsAsked-augment_schema backend a b s (p, q) = elim (Bool-cases (mem backend b.exempt_backends)) [
  | inl e ↦ simp e (p, q)
  | inr e ↦ simp e (
    λ k. elim (Bool-cases (b.name == a.name)) [
      | inl m ↦ absurd (cc (rw (lookup-insert, m) at k))
      | inr m ↦ p (rw (lookup-insert, m) at k)
    ],
    λ k. with_required_kept a.name b.name b.required s.required (q k),
  )
]

IsAsked-augment_all :
    (backend : String) (a : AugmentSpec) (specs : List AugmentSpec) (s : Schema)
    → IsAsked a s
    → IsAsked a (augment_all backend specs s)
unfolding augment_all
IsAsked-augment_all backend a [] s h = h
IsAsked-augment_all backend a (b ∷ specs) s h =
    IsAsked-augment_all backend a specs (augment_schema backend b s)
      (IsAsked-augment_schema backend a b s h)

augment_schema-IsAsked :
    (backend : String) (a : AugmentSpec) (s : Schema)
    → mem backend a.exempt_backends ≡ false
    → IsAsked a (augment_schema backend a s)
unfolding augment_schema
augment_schema-IsAsked backend a s e = simp e (
  λ k. cc (k, lookup-insert_self a.name (property_of a) s.properties),
  λ k.
      subst (λ w. mem a.name (with_required w a.name s.required) ≡ true) (sym k)
        (with_required_added a.name s.required),
)

-- After the augmentation, the schema of every tool has the parameter of every specification from
-- which the backend is not exempt, and requires it if the specification does.
pub augment_all-IsAsked :
    (backend : String) (a : AugmentSpec) (specs : List AugmentSpec) (s : Schema)
    → Occurs a specs
    → mem backend a.exempt_backends ≡ false
    → IsAsked a (augment_all backend specs s)
unfolding augment_all
augment_all-IsAsked backend a [] s o e = absurd o
augment_all-IsAsked backend a (b ∷ specs) s (inl same) e =
    IsAsked-augment_all backend a specs (augment_schema backend b s) (
      subst (λ c. IsAsked a (augment_schema backend c s)) same
        (augment_schema-IsAsked backend a s e))
augment_all-IsAsked backend a (b ∷ specs) s (inr later) e =
    augment_all-IsAsked backend a specs (augment_schema backend b s) later e
