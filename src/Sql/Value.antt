-- ===== src/Sql/Value.antt =====
-- sql/types.rs: values and rows.
use mynode.Base.{String, Bool, true, false, List}
use mynode.Base.Int.{ℤ, int_to_string}

-- `f64`, of the language and its library, with the operations that expressions use, and whether the
-- build checks the arithmetic of integers for overflow.
pub record Float (F : Type 0) : Type 0 where
  pub overflow_checks : Bool
  -- `i as f64`, and `f as i32`.
  pub of_integer : ℤ → F
  pub as_i32 : F → ℤ
  pub eq : F → F → Bool
  pub lt : F → F → Bool
  pub le : F → F → Bool
  pub add : F → F → F
  pub sub : F → F → F
  pub mul : F → F → F
  pub div : F → F → F
  pub rem : F → F → F
  pub neg : F → F
  pub powi : F → ℤ → F
  pub powf : F → F → F
  pub to_string : F → String

pub data Value (F : Type 0) : Type 0 where
  null : Value F
  boolean : Bool → Value F
  integer : ℤ → Value F
  float : F → Value F
  text : String → Value F

abbrev pub Row : Type 0 → Type 0
Row F = List (Value F)

-- `Display` of a value.
unfoldable pub display : {F : Type 0} → Float F → Value F → String
display f Value.null = "NULL"
display f (Value.boolean true) = "TRUE"
display f (Value.boolean false) = "FALSE"
display f (Value.integer i) = int_to_string i
display f (Value.float x) = f.to_string x
display f (Value.text s) = s
