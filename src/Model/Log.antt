-- ===== src/Model/Log.antt =====
-- Severities and the entries of the log (internal/model/log.go). Components and stages are Go
-- strings, and so are times.
use x_divine_ray.Prelude.{Bool, List, Text, leb, ℕ}

-- A Go string with four named values; `other` holds any string that is none of them.
pub data Level : Type 0 where
  debug info warn error : Level
  other : Text → Level

unfoldable pub rank : Level → ℕ
rank debug = 0
rank info = 1
rank warn = 2
rank error = 3
rank (other s) = 1

unfoldable pub at_least : Level → Level → Bool
at_least l min = leb (rank min) (rank l)

pub record LogEntry : Type 0 where
  pub time : Text
  pub level : Level
  pub source : Text
  pub step : Text
  pub message : Text

pub record ErrorEntry : Type 0 where
  pub time : Text
  pub source : Text
  pub step : Text
  pub message : Text
  pub detail : Text
  pub hint : Text
  pub code : Text
  pub args : List Text
  pub hint_code : Text
  pub hint_args : List Text
  pub repeats : ℕ

pub record LastError : Type 0 where
  pub time : Text
  pub step : Text
  pub message : Text
  pub hint : Text
  pub code : Text
  pub args : List Text
  pub hint_code : Text
  pub hint_args : List Text
