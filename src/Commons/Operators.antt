-- ===== src/Commons/Operators.antt =====
-- `AdapterOperators` of data_commons.ts, the same values as `AdapterOperator` of the types.
use velo_external_db.Base.{String, Bool, true, false, ◌≡◌, ◌↔◌, ◌⊎◌, List, [], ◌∷◌, arith}

pub data AdapterOperator : Type 0 where
  eq gt gte include lt lte ne string_begins string_ends string_contains : AdapterOperator
  and or not urlized matches : AdapterOperator

abbrev pub operator_name : AdapterOperator → String
operator_name eq = "eq"
operator_name gt = "gt"
operator_name gte = "gte"
operator_name include = "in"
operator_name lt = "lt"
operator_name lte = "lte"
operator_name ne = "ne"
operator_name string_begins = "begins"
operator_name string_ends = "ends"
operator_name string_contains = "contains"
operator_name and = "and"
operator_name or = "or"
operator_name not = "not"
operator_name urlized = "urlized"
operator_name matches = "matches"

unfoldable pub AdapterOperator-discrete : Discrete AdapterOperator
AdapterOperator-discrete = hlevel

-- `operators.includes(operator)`
abbrev pub has_operator : List AdapterOperator → AdapterOperator → Bool
has_operator [] op = false
has_operator (o ∷ os) op =
    let rest = has_operator os op in
    elim (AdapterOperator-discrete o op) [ yes _ ↦ true | no _ ↦ rest ]

-- An operator stands in a list of operators.
abbrev pub Allowed : AdapterOperator → List AdapterOperator → Type 0
Allowed op [] = ⊥
Allowed op (o ∷ os) = (o ≡ op) ⊎ Allowed op os

pub has_operator_iff :
    (os : List AdapterOperator) (op : AdapterOperator) → (has_operator os op ≡ true) ↔ Allowed op os
has_operator_iff [] op = (λ h. cc, λ h. elim h [ ])
has_operator_iff (o ∷ os) op =
    let (to, from) = has_operator_iff os op in (λ h. ground (arith, to), λ h. ground (arith, from))
