-- ===== src/Protocols/Rubric/Recorded.antt =====
-- supervisor/protocols/gate_rubric.py: a metric passes on a record only.
use super_opencode.Base.{
  ℕ, ◌≡◌, refl, Bool, true, some, [], arith, inl, inr, Option-cases, Text, codes,
}
use super_opencode.Protocols.Gates.{Gate, Check, Scalar, as_int}
use super_opencode.Protocols.Check.{
  Json, Reading, missing, unreadable, document, Workspace, pass, text_at, get_check,
}
use super_opencode.Protocols.Metric.{
  evaluate_metric, metric_by, metric_from, metric_value, compare_metric, walk, split_from,
  number_of, find_op, partition, given,
}

-- What the check compares: the number that the file has at the keys, and the threshold.
pub record IsRecorded (ws : Workspace) (op source : Text) (value : Scalar) : Type 0 where
  pub test : ℕ → ℕ → Bool
  pub doc : Json
  pub node : Json
  pub observed : ℕ
  pub threshold : ℕ
  pub known : find_op op ≡ some test
  pub read : ws.read (partition 58 source).0 ≡ document doc
  pub found : walk (split_from 46 [] (partition 58 source).1) doc ≡ some node
  pub numeric : number_of node ≡ some observed
  pub bound : as_int (some value) ≡ some threshold
  pub holds : test observed threshold ≡ true

module _ (ws : Workspace) (g : Gate) (name op source : Text) (value : Scalar) where
  compared :
      (test : ℕ → ℕ → Bool) (observed : ℕ)
      → (compare_metric g name op source test observed value).outcome ≡ pass
      → (threshold : ℕ) × (as_int (some value) ≡ some threshold) × (test observed threshold ≡ true)
  unfolding compare_metric
  compared test observed h = elim (Option-cases (as_int (some value))) [
    | inl other ↦ ground (arith, h, other)
    | inr (threshold, bound) ↦ (threshold, bound, ground (arith, h, bound))
  ]

  valued :
      (test : ℕ → ℕ → Bool) (doc : Json)
      → find_op op ≡ some test
      → ws.read (partition 58 source).0 ≡ document doc
      → (metric_value g name op source test
          (partition 58 source).0
          (partition 58 source).1
          value
          doc).outcome
        ≡ pass
      → IsRecorded ws op source value
  unfolding metric_value
  valued test doc known read h =
      elim (Option-cases (walk (split_from 46 [] (partition 58 source).1) doc)) [
        | inl lost ↦ ground (arith, h, lost)
        | inr (node, found) ↦ elim (Option-cases (number_of node)) [
          | inl other ↦ ground (arith, h, found, other)
          | inr (observed, numeric) ↦
              let (threshold, bound, holds) =
                compared test observed (ground (arith, h, found, numeric)) in
              record {
                test = test;
                doc = doc;
                node = node;
                observed = observed;
                threshold = threshold;
                known = known;
                read = read;
                found = found;
                numeric = numeric;
                bound = bound;
                holds = holds;
              }
        ]
      ]

  read_from :
      (test : ℕ → ℕ → Bool) (r : Reading)
      → find_op op ≡ some test
      → ws.read (partition 58 source).0 ≡ r
      → (metric_from g name op source test
          (partition 58 source).0
          (partition 58 source).1
          value
          r).outcome
        ≡ pass
      → IsRecorded ws op source value
  unfolding metric_from
  read_from test missing known read h = cc
  read_from test (unreadable exc) known read h = cc
  read_from test (document doc) known read h = valued test doc known read h

  recorded : (metric_by ws g name op source value).outcome ≡ pass → IsRecorded ws op source value
  unfolding metric_by
  recorded h = elim (Option-cases (find_op op)) [
    | inl unknown ↦ ground (arith, h, unknown)
    | inr (test, known) ↦
        read_from test (ws.read (partition 58 source).0) known refl (ground (arith, h, known))
  ]

-- A metric check that passes has a threshold and a known comparison, its file is there and is a JSON
-- document, the keys lead to a number in it, and the comparison holds between that number and the
-- threshold: a missing or unreadable record never passes.
pub pass-IsRecorded :
    (ws : Workspace) (g : Gate) (check : Check)
    → (evaluate_metric ws g check).outcome ≡ pass
    → (value : Scalar) × (given (get_check (codes "value") check) ≡ some value)
      × IsRecorded ws (text_at (codes "op") check) (text_at (codes "source") check) value
unfolding evaluate_metric
pass-IsRecorded ws g check h = elim (Option-cases (given (get_check (codes "value") check))) [
  | inl lost ↦ ground (arith, h, lost)
  | inr (value, found) ↦ (
    value,
    found,
    recorded ws g (text_at (codes "metric") check) (text_at (codes "op") check)
        (text_at (codes "source") check) value (ground (arith, h, found)),
  )
]
