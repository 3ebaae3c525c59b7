-- ===== src/Protocols/Feasibility/Verdict.antt =====
-- supervisor/protocols/feasibility_gate.py: what the assessment concludes, and its size.
use super_opencode.Base.{
  ℕ, suc, ◌+◌, ◌-◌, ◌≤◌, ◌<◌, ◌≡◌, ◌≢◌, ◌↔◌, ◌∙◌, refl, sym, ap, true, false, Option, none, some,
  List, [], ◌∷◌, map, keep, count_if, length-keep, count_if-le-length, arith, inl, inr, Bool-cases,
  leb, is_empty, length, length-append, length-take, take, Text, codes, rstrip,
}
use super_opencode.Utils.Excerpt.{length-rstrip}
use super_opencode.Protocols.Gates.{Scalar, Gate, parse_gates}
use super_opencode.Protocols.Feasibility.{
  Facts, FeasibilityAssessment, is_blocked, assess_gates, assess_counts, assess_facts, is_reachable,
  check_feasibility, bounded, render,
}

-- The ceiling is known to be below the required number of gates.
abbrev pub IsBelow : FeasibilityAssessment → Type 0
IsBelow a = (r : ℕ) × (c : ℕ) × (a.required_gates ≡ some r) × (a.known_ceiling ≡ some c) × (c < r)

length-map {ℓ κ} :
    {A : Type ℓ} {B : Type κ} (f : A → B) (xs : List A) → length (map f xs) ≡ length xs
length-map f [] = refl
length-map f (x ∷ xs) = ap suc (length-map f xs)

assess_gates-counts :
    (source : Text) (notes : Option Scalar) (gates : List Gate)
    → let a = assess_gates source notes gates in
      (a.required_gates ≡ some (length gates))
      × (a.known_ceiling ≡ some (length gates - count_if is_blocked gates))
      × (length a.blocked_gates ≡ count_if is_blocked gates)
      × (a.reachable ≡ is_empty a.blocked_gates)
unfolding assess_gates
assess_gates-counts source notes gates =
    let n : length (map (λ (g : Gate). g.name) (keep is_blocked gates))
        ≡ count_if is_blocked gates =
      length-map (λ (g : Gate). g.name) (keep is_blocked gates) ∙ length-keep is_blocked gates in
    (refl, ap (λ k. some (length gates - k)) n, n, refl)

assess_gates-verdict :
    (source : Text) (notes : Option Scalar) (gates : List Gate)
    → ((assess_gates source notes gates).reachable ≡ false)
      ↔ IsBelow (assess_gates source notes gates)
assess_gates-verdict source notes gates =
    let a = assess_gates source notes gates in
    let h = assess_gates-counts source notes gates in
    let le = count_if-le-length is_blocked gates in
    (
      λ stuck. (
        length gates,
        length gates - count_if is_blocked gates,
        h.0,
        h.1,
        omega (arith, le, h.2, nonempty a.blocked_gates (sym h.3 ∙ stuck)),
      ),
      λ (r, c, er, ec, lt).
          let er' : r ≡ length gates = some_inj (sym er ∙ h.0) in
          let ec' : c ≡ length gates - count_if is_blocked gates = some_inj (sym ec ∙ h.1) in
          h.3 ∙ filled a.blocked_gates (omega (arith, lt, er', ec', h.2)),
    )
  where
    nonempty : (ts : List Text) → is_empty ts ≡ false → 0 < length ts
    nonempty [] h = cc
    nonempty (t ∷ ts) h = omega arith

    filled : (ts : List Text) → 0 < length ts → is_empty ts ≡ false
    filled [] h = absurd (omega arith)
    filled (t ∷ ts) h = refl

    some_inj : {n m : ℕ} → some n ≡ some m → n ≡ m
    some_inj e = cc

is_reachable-verdict :
    (required ceiling : Option ℕ)
    → (is_reachable required ceiling ≡ false)
      ↔ ((r : ℕ) × (c : ℕ) × (required ≡ some r) × (ceiling ≡ some c) × (c < r))
is_reachable-verdict none ceiling = (λ h. cc, λ (r, c, er, ec, lt). cc er)
is_reachable-verdict (some r) none = (λ h. cc, λ (r', c, er, ec, lt). cc ec)
is_reachable-verdict (some r) (some c) =
    (λ h. (r, c, refl, refl, ground arith), λ (r', c', er, ec, lt). ground arith)

assess_counts-verdict :
    (source : Text) (f : Facts)
    → ((assess_counts source f).reachable ≡ false) ↔ IsBelow (assess_counts source f)
unfolding assess_counts
assess_counts-verdict source f = is_reachable-verdict _ _

empty_iff : (ts : List Text) (n : ℕ) → length ts ≡ n → (is_empty ts ≡ true) ↔ (n ≡ 0)
empty_iff [] n h = (λ e. omega arith, λ e. refl)
empty_iff (t ∷ ts) n h = (λ e. cc, λ e. absurd (omega arith))

-- For every facts file, of either schema or missing, the assessment says that the done condition is
-- unreachable exactly when it reports a required number of gates and a lower known ceiling.
pub unreachable_iff_IsBelow :
    (source : Text) (facts : Option Facts)
    → ((check_feasibility source facts).reachable ≡ false)
      ↔ IsBelow (check_feasibility source facts)
unfolding check_feasibility
unreachable_iff_IsBelow source none = (λ h. cc, λ (r, c, er, ec, lt). cc er)
unreachable_iff_IsBelow source (some f) = by_gates (parse_gates f.gates)
  where
    by_gates :
        (gs : List Gate)
        → ((assess_facts source f gs).reachable ≡ false) ↔ IsBelow (assess_facts source f gs)
    by_gates [] = assess_counts-verdict source f
    by_gates (g ∷ gs) = assess_gates-verdict source f.notes (g ∷ gs)

-- With a gate list, the known ceiling and the number of blocked gates add up to the required number
-- of gates, every gate of the file is required, and the run is reachable exactly when no gate is
-- blocked.
pub gates_add_up :
    (source : Text) (f : Facts)
    → parse_gates f.gates ≢ []
    → let a = check_feasibility source (some f) in
      let gates = parse_gates f.gates in
      (a.required_gates ≡ some (length gates))
      × ((c : ℕ) × (a.known_ceiling ≡ some c) × (c + length a.blocked_gates ≡ length gates))
      × ((a.reachable ≡ true) ↔ (count_if is_blocked gates ≡ 0))
unfolding check_feasibility
gates_add_up source f some_ = by_gates (parse_gates f.gates) some_
  where
    by_gates :
        (gs : List Gate)
        → gs ≢ []
        → let a = assess_facts source f gs in
          (a.required_gates ≡ some (length gs))
          × ((c : ℕ) × (a.known_ceiling ≡ some c) × (c + length a.blocked_gates ≡ length gs))
          × ((a.reachable ≡ true) ↔ (count_if is_blocked gs ≡ 0))
    by_gates [] none_ = absurd (none_ refl)
    by_gates (g ∷ gs) filled =
        let gates = g ∷ gs in
        let h = assess_gates-counts source f.notes gates in
        let le = count_if-le-length is_blocked gates in
        (
          h.0,
          (length gates - count_if is_blocked gates, h.1, omega (arith, h.2, le)),
          rw h.3 (
              empty_iff (assess_gates source f.notes gates).blocked_gates
                (count_if is_blocked gates) h.2),
        )

length-bounded : (text : Text) (cap : ℕ) → length (bounded text cap) ≤ cap + 4
unfolding bounded
length-bounded text cap = elim (Bool-cases (leb (length (rstrip text)) cap)) [
  | inl fits ↦ rw fits (ground arith)
  | inr over ↦ rw over (
      omega (
        arith,
        length-append (rstrip (take cap (rstrip text))) (codes " ..."),
        length-rstrip (take cap (rstrip text)),
        length-take cap (rstrip text),
      ))
]

-- The rendered block is never more than four characters longer than its limit.
pub length-render :
    (a : FeasibilityAssessment) (max_chars : ℕ) → length (render a max_chars) ≤ max_chars + 4
unfolding render
length-render a max_chars = length-bounded _ max_chars
