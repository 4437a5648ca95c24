-- ===== src/Nodes.antt =====
-- crates/api-gateway/src/nodes.rs: the nodes as the gateway keeps them. Times are nanoseconds.
use infer_platform.Base.{ℕ, ◌*◌, ◌≡◌, List, Bool, true, false, Text, arith}

pub data NodeStatus : Type 0 where
  online offline busy degraded : NodeStatus

-- `==` of the derived `PartialEq`.
abbrev pub status_eq : NodeStatus → NodeStatus → Bool
status_eq online online = true
status_eq offline offline = true
status_eq busy busy = true
status_eq degraded degraded = true
status_eq _ _ = false

pub record NodeInfo : Type 0 where
  pub id : Text
  pub name : Text
  pub host : Text
  pub port : ℕ
  pub agent_port : ℕ
  pub gpu_name : Text
  pub vram_mb : ℕ
  pub status : NodeStatus
  pub registered_at : ℕ
  pub last_seen : ℕ

pub record ModelRegistration : Type 0 where
  pub name : Text
  pub license : Text

pub record RegisterNodeRequest : Type 0 where
  pub name : Text
  pub host : Text
  pub port : ℕ
  pub agent_port : ℕ
  pub gpu_name : Text
  pub vram_mb : ℕ
  pub models : List ModelRegistration

abbrev pub seconds : ℕ → ℕ
seconds n = n * 1000000000

pub status_eq→eq : (s t : NodeStatus) → status_eq s t ≡ true → s ≡ t
status_eq→eq s t h = ground arith

pub status_eq_refl : (s : NodeStatus) → status_eq s s ≡ true
status_eq_refl s = ground arith
