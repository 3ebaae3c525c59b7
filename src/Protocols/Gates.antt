-- ===== src/Protocols/Gates.antt =====
-- supervisor/protocols/feasibility_gate.py: the gate list of a facts file. A field of an entry is a
-- JSON scalar; lists and objects inside a field, negative and fractional numbers are left out.
pub mod Names
mod Tests
use super_opencode.Base.{
  ℕ, zero, suc, ◌+◌, ◌-◌, ◌*◌, Bool, true, false, not, ◌&&◌, ◌||◌, Option, none, some, List, [],
  ◌∷◌, all, if◌then◌else◌, is_empty, is_digit, lower, mem_text, strip, Text, codes, show_nat,
  text_eq,
}

pub data Scalar : Type 0 where
  null : Scalar
  flag : Bool → Scalar
  num : ℕ → Scalar
  str : Text → Scalar

-- `str(value)`
unfoldable pub text_of : Scalar → Text
text_of null = codes "None"
text_of (flag true) = codes "True"
text_of (flag false) = codes "False"
text_of (num n) = show_nat n
text_of (str t) = t

-- `str(d.get(key, default))`
abbrev pub text_or : Text → Option Scalar → Text
text_or default none = default
text_or default (some v) = text_of v

read_digits : ℕ → Text → ℕ
read_digits n [] = n
read_digits n (c ∷ s) = read_digits (10 * n + (c - 48)) s

-- `int(text)` for a text of decimal digits
parse_int : Text → Option ℕ
unfolding read_digits
parse_int text =
    let digits = strip text in
    if not (is_empty digits) && all is_digit digits then some (read_digits 0 digits) else none

-- `_as_int`
unfoldable pub as_int : Option Scalar → Option ℕ
unfolding parse_int
as_int none = none
as_int (some null) = none
as_int (some (flag b)) = some (if b then 1 else 0)
as_int (some (num n)) = some n
as_int (some (str t)) = parse_int t

pub data Status : Type 0 where
  is_open passing blocked : Status

-- A text that is in `GATE_STATUSES`, or `open`.
unfoldable pub read_status : Text → Status
read_status t =
    if text_eq t (codes "passing")
    then passing
    else if text_eq t (codes "blocked")
    then blocked
    else is_open

unfoldable pub status_text : Status → Text
status_text is_open = codes "open"
status_text passing = codes "passing"
status_text blocked = codes "blocked"

abbrev pub Check : Type 0
Check = List (Text × Scalar)

pub record Gate : Type 0 where
  pub name : Text
  pub definition : Text
  pub status : Status
  pub evidence : Text
  pub ref : Option ℕ
  pub check : Option Check

-- An object of the `gates` list; `check` is given only where it is an object.
pub record Entry : Type 0 where
  pub name : Option Scalar
  pub definition : Option Scalar
  pub status : Option Scalar
  pub evidence : Option Scalar
  pub ref : Option Scalar
  pub check : Option Check

abbrev pub name_of : Entry → Text
name_of e = strip (text_or [] e.name)

unfoldable pub gate_of : Entry → Gate
gate_of e = record {
  name = name_of e;
  definition = strip (text_or [] e.definition);
  status = read_status (lower (strip (text_or (codes "open") e.status)));
  evidence = strip (text_or [] e.evidence);
  ref = as_int e.ref;
  check = e.check;
}

-- The loop of `parse_gates`; an item that is no object is `none`, and `seen` holds names in lower
-- case.
unfoldable pub gates_from : List Text → List (Option Entry) → List Gate
gates_from seen [] = []
gates_from seen (none ∷ es) = gates_from seen es
gates_from seen (some e ∷ es) =
    let key = lower (name_of e) in
    let skipped = is_empty (name_of e) || mem_text key seen in
    let rest = gates_from (if skipped then seen else key ∷ seen) es in
    if skipped then rest else gate_of e ∷ rest

-- `none`: the facts have no list of gates.
unfoldable pub parse_gates : Option (List (Option Entry)) → List Gate
parse_gates none = []
parse_gates (some es) = gates_from [] es
