-- ===== src/Monitor/Check.antt =====
-- The health checks as data (monitor/check/*.py): the shared parameters and those of each type.
use mathlib.Core.Bool.{decide, decide_iff}
use powergslb.Base.{◌≡◌, ◌↔◌, ℕ, Bool, true, false, List, Text, ℕ_discrete}

pub data CheckKind : Type 0 where
  exec : List Text → ℕ → Text → Bool → CheckKind
  http : Text → Text → Text → Text → Bool → Text → CheckKind
  icmp : Text → CheckKind
  nothing : CheckKind
  tcp : Text → ℕ → CheckKind
  tls : Text → ℕ → Bool → Text → CheckKind

pub record Check : Type 0 where
  pub interval : ℕ
  pub timeout : ℕ
  pub fall : ℕ
  pub rise : ℕ
  pub kind : CheckKind

-- `check.skip`
abbrev skips : CheckKind → Bool
skips nothing = true
skips _ = false

unfoldable pub skip : Check → Bool
skip check = skips check.kind

unfoldable pub Check-discrete : Discrete Check
unfolding ℕ_discrete
Check-discrete = hlevel ℕ_discrete

-- `==` of two dataclasses
unfoldable pub check_eq : Check → Check → Bool
unfolding Check-discrete decide
check_eq a b = decide (Check-discrete a b)

pub check_eq_iff : (a b : Check) → (check_eq a b ≡ true) ↔ (a ≡ b)
unfolding check_eq
check_eq_iff a b = decide_iff (Check-discrete a b)
