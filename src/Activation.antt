-- ===== src/Activation.antt =====
-- src/tab_activation.rs: the request to make another tab active.
use zorya.Common.{ℕ, Option}

pub data TabCycleDirection : Type 0 where
  next previous : TabCycleDirection

pub record TabActivationIntent : Type 0 where
  pub id : ℕ
  pub from : ℕ
  pub to : ℕ

pub record TabActivationStart : Type 0 where
  pub intent : TabActivationIntent
  pub superseded : Option TabActivationIntent
