-- ===== src/Skills/Held.antt =====
-- supervisor/core/loop_base.py: a request that is held for the next turn.
use super_opencode.Base.{
  ◌≡◌, subst, ◌≤◌, refl, ap, ◌∙◌, sym, arith, ℕ, Bool, true, false, not, Option, none, some, [],
  ◌∷◌, ◌++◌, reverse, is_space, to_lower, to_lower_idem, lower, strip, drop_spaces, Text,
  reverse-append, is_empty, mem_text, Bool-cases, inl, inr,
}
use super_opencode.Skills.{Bank}
use super_opencode.Skills.Queue.{
  key_of, has_skill, queue_pending, queue_each, queue_one, drain_pending,
}
use super_opencode.Skills.Loop.{
  SkillLoop, fulfill_from, defer_from, load_and_record, fulfill_pending_skills,
  queue_deferred_skill_requests,
}
use super_opencode.Skills.Latest.{load-latest}
use mathlib.Core.List.{map-append, reverse-reverse, reverse-cons}

is_space-to_lower : (c : ℕ) → is_space (to_lower c) ≡ is_space c
is_space-to_lower c = ground arith

drop_spaces-lower : (s : Text) → drop_spaces (lower s) ≡ lower (drop_spaces s)
unfolding drop_spaces
drop_spaces-lower [] = refl
drop_spaces-lower (c ∷ s) = ground (arith, is_space-to_lower c, drop_spaces-lower s)

reverse-lower : (s : Text) → reverse (lower s) ≡ lower (reverse s)
reverse-lower [] = refl
reverse-lower (c ∷ s) =
    reverse-cons (to_lower c) (lower s)
    ∙ ap (λ t. t ++ to_lower c ∷ []) (reverse-lower s)
    ∙ sym (map-append to_lower (reverse s) (c ∷ []))
    ∙ ap lower (sym (reverse-cons c s))

lower_idem : (s : Text) → lower (lower s) ≡ lower s
lower_idem [] = refl
lower_idem (c ∷ s) = ground (arith, to_lower_idem c, lower_idem s)

strip-lower : (s : Text) → strip (lower s) ≡ lower (strip s)
unfolding strip
strip-lower s = rw (drop_spaces-lower s) (
    rw (reverse-lower (drop_spaces s)) (
      rw (drop_spaces-lower (reverse (drop_spaces s)))
        (reverse-lower (drop_spaces (reverse (drop_spaces s))))))

drop_spaces_idem : (s : Text) → drop_spaces (drop_spaces s) ≡ drop_spaces s
unfolding drop_spaces
drop_spaces_idem [] = refl
drop_spaces_idem (c ∷ s) = ground (arith, drop_spaces_idem s)

drop_spaces-append :
    (s : Text) (c : ℕ) → is_space c ≡ false → drop_spaces (s ++ c ∷ []) ≡ drop_spaces s ++ c ∷ []
unfolding drop_spaces
drop_spaces-append [] c h = ground (arith, h)
drop_spaces-append (d ∷ s) c h = ground (arith, drop_spaces-append s c h)

-- a text that does not begin with a space
is_trimmed : Text → Bool
is_trimmed [] = true
is_trimmed (c ∷ s) = not (is_space c)

drop_spaces-trimmed : (s : Text) → is_trimmed (drop_spaces s) ≡ true
unfolding drop_spaces is_trimmed
drop_spaces-trimmed [] = refl
drop_spaces-trimmed (c ∷ s) = ground (arith, drop_spaces-trimmed s)

stays_full : (s : Text) (c : ℕ) (t : Text) → s ≡ c ∷ t → is_space c ≡ false → drop_spaces s ≡ s
unfolding drop_spaces
stays_full s c t e h = rw e (ground (arith, h))

trimmed_end :
    (s : Text)
    → is_trimmed s ≡ true
    → drop_spaces (reverse (drop_spaces (reverse s))) ≡ reverse (drop_spaces (reverse s))
unfolding drop_spaces is_trimmed
trimmed_end [] h = refl
trimmed_end (c ∷ s) h =
    let shape =
      ap (λ t. reverse (drop_spaces t)) (reverse-cons c s)
      ∙ ap reverse (drop_spaces-append (reverse s) c (ground (arith, h)))
      ∙ reverse-append (drop_spaces (reverse s)) (c ∷ []) in
    stays_full _ c _ shape (ground (arith, h))

strip_idem : (s : Text) → strip (strip s) ≡ strip s
unfolding strip
strip_idem s =
    let t = drop_spaces s in
    rw (trimmed_end t (drop_spaces-trimmed s))
      (rw (reverse-reverse (drop_spaces (reverse t))) (rw (drop_spaces_idem (reverse t)) refl))

key_of_idem : (raw : Text) → key_of (key_of raw) ≡ key_of raw
key_of_idem raw =
    ap lower (strip-lower (strip raw)) ∙ lower_idem (strip (strip raw)) ∙ ap lower (strip_idem raw)

is_resident_in : Text → Option Bank → Bool
is_resident_in name none = false
is_resident_in name (some b) = has_skill name b.resident

unfoldable pub is_resident : Text → SkillLoop → Bool
unfolding is_resident_in
is_resident name l = is_resident_in name l.bank

-- the next turn on a queue that holds one name
load_held :
    (name : Text) (b : Bank) (l : SkillLoop)
    → 1 ≤ b.max_resident
    → 1 ≤ b.max_loads_per_turn
    → is_empty (key_of name) ≡ false
    → has_skill (key_of name) b.skills ≡ true
    → b.pending ≡ name ∷ []
    → is_resident (key_of name) (fulfill_from (some b) l) ≡ true
unfolding is_resident fulfill_from load_and_record drain_pending
load_held name b l room few full h p =
    rw p (load-latest (record b { pending = [] }) [] name room few full h)

queued :
    (raw : Text) (b : Bank)
    → b.pending ≡ []
    → is_empty (key_of raw) ≡ false
    → has_skill (key_of raw) b.resident ≡ false
    → (queue_pending (raw ∷ []) b).pending ≡ key_of raw ∷ []
unfolding queue_pending queue_each queue_one mem_text
queued raw b p full h = rw p (ground (arith, full, h))

not_queued :
    (raw : Text) (b : Bank)
    → b.pending ≡ []
    → has_skill (key_of raw) b.resident ≡ true
    → (queue_pending (raw ∷ []) b).pending ≡ []
unfolding queue_pending queue_each queue_one mem_text
not_queued raw b p h = rw p (ground (arith, h))

next_turn :
    (raw : Text) (b : Bank) (l : SkillLoop)
    → b.pending ≡ []
    → 1 ≤ b.max_resident
    → 1 ≤ b.max_loads_per_turn
    → is_empty (key_of raw) ≡ false
    → has_skill (key_of raw) b.skills ≡ true
    → is_resident (key_of raw) (fulfill_from (some (queue_pending (raw ∷ []) b)) l) ≡ true
unfolding is_resident fulfill_from drain_pending queue_pending
next_turn raw b l p room few full h = elim (Bool-cases (has_skill (key_of raw) b.resident)) [
  | inl e ↦ rw (not_queued raw b p e) e
  | inr e ↦
      let held = queue_pending (raw ∷ []) b in
      subst (λ n. is_resident n (fulfill_from (some held) l) ≡ true) (key_of_idem raw)
        (load_held (key_of raw) held l room few (ap is_empty (key_of_idem raw) ∙ full)
          (ap (λ n. has_skill n b.skills) (key_of_idem raw) ∙ h) (queued raw b p full e))
]

-- A request in the verdict that judges a turn again, for a skill of the bank while no other request
-- is held, is fulfilled at the start of the next turn: the skill is then resident.
pub held_request_loads :
    (l : SkillLoop) (b : Bank) (raw : Text)
    → l.bank ≡ some b
    → b.pending ≡ []
    → 1 ≤ b.max_resident
    → 1 ≤ b.max_loads_per_turn
    → is_empty (key_of raw) ≡ false
    → has_skill (key_of raw) b.skills ≡ true
    → is_resident (key_of raw) (fulfill_pending_skills (queue_deferred_skill_requests (raw ∷ []) l))
      ≡ true
unfolding fulfill_pending_skills queue_deferred_skill_requests defer_from
held_request_loads l b raw e p room few full h =
    rw e (next_turn raw b (record l { bank = some (queue_pending (raw ∷ []) b) }) p room few full h)
