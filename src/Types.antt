-- ===== src/Types.antt =====
-- libs/velo-external-db-types: filters, sorts, aggregations and schemas as the adapters see them.
use velo_external_db.Base.{ℕ, String, Bool, Option, List}
use velo_external_db.Commons.Values.{Value}
use velo_external_db.Commons.Operators.{AdapterOperator}

-- `empty` is `{}`, `single` has an operator, a field's name and a value, and `multi` an operator
-- and filters for its value.
mutual
  pub data AdapterFilter : Type 0 where
    empty : AdapterFilter
    single : AdapterOperator → String → Value → AdapterFilter
    multi : AdapterOperator → Filters → AdapterFilter

  pub data Filters : Type 0 where
    done : Filters
    also : AdapterFilter → Filters → Filters

-- `fieldName` is a text, but nothing checks so before `parseSort` of an adapter does.
pub record Sort : Type 0 where
  pub field_name : Value
  pub direction : String

pub data AdapterFunction : Type 0 where
  avg max min sum count : AdapterFunction

pub record ColumnCapabilities : Type 0 where
  pub sortable : Bool
  pub column_query_operators : List String

pub record ResponseField : Type 0 where
  pub field : String
  pub type : String
  pub subtype : Option String
  pub precision : Option ℕ
  pub is_primary : Bool
  pub capabilities : Option ColumnCapabilities

pub record InputField : Type 0 where
  pub name : String
  pub type : String
  pub subtype : Option String
  pub precision : Option ℕ
  pub is_primary : Option Bool
