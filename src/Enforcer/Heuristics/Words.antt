-- ===== src/Enforcer/Heuristics/Words.antt =====
-- The loop over the occurrences of a word: the rounds it is given are enough.
use palaestra_mcp_bridge.Common.{
  ℕ, ◌+◌, ◌-◌, ◌≤◌, ◌<◌, suc, zero, ◌≡◌, refl, ap, ◌∙◌, String, false, none, some, arith,
  Bool-cases, Option-cases, inl, inr,
}
use palaestra_mcp_bridge.Enforcer.Heuristics.{at_boundaries, word_from, contains_word_or_prefix}
use Prim.Native.String.len
use Prim.Native.String.slice
use Prim.Native.Char.{Char, len_utf8}
use Prim.Native.Nat.{compare as compare_nat, Ordering}
use Prim.Native.String.{len, slice, ◌∷◌ as cons, [] as empty, ◌++◌ as append, fits}
use text.Mathlib.TextFind.{find_cases}
use text.Mathlib.TextPositions.{len-append}
use text.Mathlib.Text.{find?}

len-fits :
    (o : Ordering) (c : Char) (s : String) (b : ℕ)
    → compare_nat (len_utf8 c) b ≡ o
    → len s ≤ b - len_utf8 c
    → len (fits o c s) ≤ b
len-fits Ordering.lt c s b o h = rw (len.cons c s) (ground (arith, o, h))
len-fits Ordering.eq c s b o h = rw (len.cons c s) (ground (arith, o, h))
len-fits Ordering.gt c s b o h = omega (arith, len.nil)

len-slice : (s : String) (a b : ℕ) → len (slice s a b) ≤ b - a
len-slice empty a b = rw (slice.nil a b) (omega (arith, len.nil))
len-slice (cons c s) zero b =
    let h = len-slice s 0 (b - len_utf8 c) in
    rw (slice.cons-zero c s b) (
      omega (
        arith,
        len-fits (compare_nat (len_utf8 c) b) c (slice s 0 (b - len_utf8 c)) b refl
            (omega (arith, h)),
      ))
len-slice (cons c s) (suc a) b =
    let h = len-slice s (suc a - len_utf8 c) (b - len_utf8 c) in
    rw (slice.cons-suc c s a b) (omega (arith, h))

find?-le : (s t : String) (n : ℕ) → find? s t ≡ some n → n + len t ≤ len s
find?-le s t n h = elim (find_cases s t) [
  | inl (u, v, parts, at) ↦
      let whole = ap len parts ∙ len-append u (append t v) in
      let tail = len-append t v in ground (arith, h, whole, tail, at)
  | inr miss ↦ absurd (ground (arith, h, miss))
]

-- For a word that is not empty, rounds to spare change nothing, once there are more of them than
-- bytes from the occurrence on.
pub word_from-enough :
    (n m : ℕ) (s pat : String) (idx : ℕ)
    → 0 < len pat
    → idx ≤ len s
    → len s < n + idx
    → len s < m + idx
    → word_from n s pat idx ≡ word_from m s pat idx
unfolding word_from
word_from-enough zero m s pat idx p h k l = absurd (omega arith)
word_from-enough (suc n) zero s pat idx p h k l = absurd (omega arith)
word_from-enough (suc n) (suc m) s pat idx p h k l = elim (Bool-cases (at_boundaries s pat idx)) [
  | inl e ↦ simp e refl
  | inr e ↦ elim (Option-cases (find? (slice s (idx + 1) (len s)) pat)) [
    | inl q ↦ simp (e, q) refl
    | inr (next, q) ↦
        let b = find?-le (slice s (idx + 1) (len s)) pat next q in
        let c = len-slice s (idx + 1) (len s) in
        simp (e, q)
          (word_from-enough n m s pat (idx + 1 + next) p (omega arith) (omega arith) (omega arith))
  ]
]

-- Where the word is not empty, `containsWordOrPrefix` is the loop from the first occurrence with
-- any number of rounds from one more than the bytes of the text on.
pub contains_word_or_prefix-enough :
    (s pat : String) (rounds : ℕ)
    → 0 < len pat
    → len s < rounds
    → contains_word_or_prefix s pat
      ≡ (elim (find? s pat) [ none ↦ false | some idx ↦ word_from rounds s pat idx ])
unfolding contains_word_or_prefix
contains_word_or_prefix-enough s pat rounds p h = elim (Option-cases (find? s pat)) [
  | inl q ↦ rw (q, contains_word_or_prefix) refl
  | inr (idx, q) ↦
      let b = find?-le s pat idx q in
      rw (q, contains_word_or_prefix)
        (word_from-enough (suc (len s)) rounds s pat idx p (omega arith) (omega arith)
          (omega arith))
]
