-- ===== src/Float.antt =====
-- `f64`: all that the code does with one is taken as an interface, whose laws each theorem names.
use skaldberg.Base.{ℕ, Bool, Option, List}
use skaldberg.Base.Int.{ℤ}
use skaldberg.Text.{Text}

pub record Float (F : Type 0) : Type 0 where
  pub zero : F
  pub one : F
  pub infinity : F
  pub neg_infinity : F
  pub is_finite : F → Bool
  pub is_nan : F → Bool
  pub is_infinite : F → Bool
  pub feq : F → F → Bool
  pub flt : F → F → Bool
  pub fle : F → F → Bool
  pub add : F → F → F
  pub sub : F → F → F
  pub mul : F → F → F
  pub div : F → F → F
  pub rem : F → F → F
  pub powf : F → F → F
  pub fmin : F → F → F
  pub fmax : F → F → F
  -- `n as f64`
  pub of_count : ℕ → F
  -- `x as usize`
  pub as_usize : F → ℕ
  -- `s.parse::<f64>().ok()`
  pub parse : Text → Option F
  -- `iter().sum()`
  pub sum : List F → F
  -- `n as f64` of an integer, `x as i64`, and `to_string`
  pub of_i64 : ℤ → F
  pub as_i64 : F → ℤ
  pub show : F → Text
  -- `{:?}`
  pub debug : F → Text
