-- ===== src/Protocols/Gates/Names.antt =====
-- supervisor/protocols/feasibility_gate.py: the names of the gates that `parse_gates` returns.
use super_opencode.Base.{
  ◌≡◌, ◌≢◌, refl, Bool, true, false, ◌||◌, Option, none, some, List, [], ◌∷◌, arith, inl, inr,
  Bool-cases, is_empty, lower, mem_text, Text, text_eq_refl,
}
use super_opencode.Protocols.Gates.{Entry, Gate, name_of, gate_of, gates_from, parse_gates}

-- No gate of the list has the name `key` in lower case.
abbrev pub IsNew : Text → List Gate → Type 0
IsNew key [] = Unit {0}
IsNew key (g ∷ gs) = (lower g.name ≢ key) × IsNew key gs

-- The name is not blank, and no later gate has it in any letter case.
abbrev pub HasValidNames : List Gate → Type 0
HasValidNames [] = Unit {0}
HasValidNames (g ∷ gs) = (g.name ≢ []) × (IsNew (lower g.name) gs) × HasValidNames gs

gate_of-name : (e : Entry) → (gate_of e).name ≡ name_of e
unfolding gate_of
gate_of-name e = refl

gates_from-IsNew :
    (key : Text) (seen : List Text) (es : List (Option Entry))
    → mem_text key seen ≡ true
    → IsNew key (gates_from seen es)
unfolding gates_from
gates_from-IsNew key seen [] h = tt
gates_from-IsNew key seen (none ∷ es) h = gates_from-IsNew key seen es h
gates_from-IsNew key seen (some e ∷ es) h =
    let k = lower (name_of e) in
    elim (Bool-cases (is_empty (name_of e) || mem_text k seen)) [
      | inl skipped ↦ rw skipped (gates_from-IsNew key seen es h)
      | inr kept ↦ rw kept (
        rw gate_of-name (λ same. taken seen (k) kept (unfold mem_text in rw same h)),
        gates_from-IsNew key (k ∷ seen) es (unfold mem_text in ground (arith, h)),
      )
    ]
  where
    taken :
        (ks : List Text) (k : Text)
        → (is_empty (name_of e) || mem_text k ks) ≡ false
        → mem_text k ks ≡ true
        → ⊥
    taken ks k f t = ground arith

not_blank : (n : Text) (b : Bool) → (is_empty n || b) ≡ false → n ≢ []
not_blank [] b h e = cc
not_blank (c ∷ n) b h e = cc

gates_from-HasValidNames :
    (seen : List Text) (es : List (Option Entry)) → HasValidNames (gates_from seen es)
unfolding gates_from
gates_from-HasValidNames seen [] = tt
gates_from-HasValidNames seen (none ∷ es) = gates_from-HasValidNames seen es
gates_from-HasValidNames seen (some e ∷ es) =
    let k = lower (name_of e) in
    elim (Bool-cases (is_empty (name_of e) || mem_text k seen)) [
      | inl skipped ↦ rw skipped (gates_from-HasValidNames seen es)
      | inr kept ↦ rw kept (
        rw gate_of-name (not_blank (name_of e) (mem_text k seen) kept),
        rw gate_of-name (gates_from-IsNew k (k ∷ seen) es (unfold mem_text in rw (text_eq_refl k))),
        gates_from-HasValidNames (k ∷ seen) es,
      )
    ]

-- Whatever entries a facts file lists, the gates read from it have names that are not blank, and no
-- two of them have the same name in lower case.
pub parse_gates-HasValidNames :
    (entries : Option (List (Option Entry))) → HasValidNames (parse_gates entries)
unfolding parse_gates
parse_gates-HasValidNames none = tt
parse_gates-HasValidNames (some es) = gates_from-HasValidNames [] es
