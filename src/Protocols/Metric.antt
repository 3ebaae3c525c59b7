-- ===== src/Protocols/Metric.antt =====
-- supervisor/protocols/gate_rubric.py: the check of a gate by a number in a JSON file.
use super_opencode.Base.{
  ℕ, Bool, not, ◌||◌, Option, none, some, List, [], ◌∷◌, ◌++◌, leb, ltb, ◌==◌, if◌then◌else◌,
  is_empty, Text, codes, show_nat, text_eq,
}
use super_opencode.Protocols.Gates.{Scalar, flag, null, num, str, Check, Gate, text_or, as_int}
use super_opencode.Protocols.Check.{
  Json, Fields, scalar, array, object, no_fields, field, Reading, missing, unreadable, document,
  Workspace, pass, fail, GateEvaluation, no_record, quoted, get_check, text_at,
}

-- `_OPS`
unfoldable pub find_op : Text → Option (ℕ → ℕ → Bool)
find_op op =
    if text_eq op (codes ">")
    then some (λ a b. ltb b a)
    else if text_eq op (codes ">=")
    then some (λ a b. leb b a)
    else if text_eq op (codes "<")
    then some (λ a b. ltb a b)
    else if text_eq op (codes "<=")
    then some (λ a b. leb a b)
    else if text_eq op (codes "==")
    then some (λ a b. a == b)
    else if text_eq op (codes "=")
    then some (λ a b. a == b)
    else if text_eq op (codes "!=")
    then some (λ a b. not (a == b))
    else none

-- `s.partition(c)`, the two ends
unfoldable pub partition : ℕ → Text → Text × Text
partition c [] = ([], [])
partition c (d ∷ s) = let (a, b) = partition c s in if d == c then ([], s) else (d ∷ a, b)

-- `s.split(c)`: `part` is the part being read, in order
unfoldable pub split_from : ℕ → Text → Text → List Text
split_from c part [] = part ∷ []
split_from c part (d ∷ s) =
    let next = split_from c [] s in
    let rest = split_from c (part ++ d ∷ []) s in if d == c then part ∷ next else rest

unfoldable pub get_field : Text → Fields → Option Json
get_field key no_fields = none
get_field key (field k v rest) = if text_eq k key then some v else get_field key rest

-- a step of the walk, which ends at what is no object
unfoldable pub child : Text → Json → Option Json
child key (scalar v) = none
child key array = none
child key (object fs) = get_field key fs

unfoldable pub walk : List Text → Json → Option Json
walk [] node = some node
walk (key ∷ keys) node = elim (child key node) [ none ↦ none | some n ↦ walk keys n ]

-- `float(node)`
unfoldable pub number_of : Json → Option ℕ
number_of (scalar v) = as_int (some v)
number_of array = none
number_of (object fs) = none

abbrev pub show_float : ℕ → Text
show_float n = show_nat n ++ codes ".0"

unfoldable pub metric_fact : Text → Text → ℕ → ℕ → Bool → Text
metric_fact name op observed threshold passed =
    name
    ++ codes "="
    ++ show_float observed
    ++ (if passed then codes " satisfies " else codes " fails ")
    ++ name
    ++ codes " "
    ++ op
    ++ codes " "
    ++ show_float threshold

-- The end of `_evaluate_metric`, on the observed number and the comparison.
unfoldable pub compare_metric :
    Gate → Text → Text → Text → (ℕ → ℕ → Bool) → ℕ → Scalar → GateEvaluation
compare_metric g name op source test observed value = elim (as_int (some value)) [
  | none ↦
      no_record g
        (codes "threshold " ++ quoted (text_or [] (some value)) ++ codes " is not numeric")
        (codes "rubric")
  | some threshold ↦ record {
    name = g.name;
    outcome = if test observed threshold then pass else fail;
    fact = metric_fact name op observed threshold (test observed threshold);
    source = source;
    kind = codes "metric";
  }
]

-- `_evaluate_metric` on a document: the value at the keys
unfoldable pub metric_value :
    Gate → Text → Text → Text → (ℕ → ℕ → Bool) → Text → Text → Scalar → Json → GateEvaluation
metric_value g name op source test file keys value doc = elim (walk (split_from 46 [] keys) doc) [
  | none ↦
      no_record g (codes "no record: key " ++ quoted keys ++ codes " missing in " ++ file) source
  | some node ↦ elim (number_of node) [
    | none ↦
        no_record g
          (codes "no record: " ++ quoted keys ++ codes " in " ++ file ++ codes " is not numeric")
          source
    | some observed ↦ compare_metric g name op source test observed value
  ]
]

unfoldable pub metric_from :
    Gate → Text → Text → Text → (ℕ → ℕ → Bool) → Text → Text → Scalar → Reading → GateEvaluation
metric_from g name op source test file keys value missing =
    no_record g (codes "no record: " ++ file ++ codes " not found") source
metric_from g name op source test file keys value (unreadable exc) =
    no_record g (codes "no record: " ++ file ++ codes " unreadable (" ++ exc ++ codes ")") source
metric_from g name op source test file keys value (document doc) =
    metric_value g name op source test file keys value doc

-- `_evaluate_metric` past the test of its fields
unfoldable pub metric_by : Workspace → Gate → Text → Text → Text → Scalar → GateEvaluation
metric_by ws g name op source value = elim (find_op op) [
  | none ↦ no_record g (codes "unknown comparator " ++ quoted op) (codes "rubric")
  | some test ↦
      let (file, keys) = partition 58 source in
      if is_empty file || is_empty keys
      then no_record g (codes "bad source spec " ++ quoted source) (codes "rubric")
      else metric_from g name op source test file keys value (ws.read file)
]

-- `value is not None`
unfoldable pub given : Option Scalar → Option Scalar
given none = none
given (some null) = none
given (some (flag b)) = some (flag b)
given (some (num n)) = some (num n)
given (some (str t)) = some (str t)

unfoldable pub evaluate_metric : Workspace → Gate → Check → GateEvaluation
evaluate_metric ws g check =
    let name = text_at (codes "metric") check in
    let op = text_at (codes "op") check in
    let source = text_at (codes "source") check in
    let incomplete =
      no_record g (codes "metric check needs metric/op/value/source") (codes "rubric") in
    elim (given (get_check (codes "value") check)) [
      | none ↦ incomplete
      | some value ↦
          if is_empty name || is_empty op || is_empty source
          then incomplete
          else metric_by ws g name op source value
    ]
