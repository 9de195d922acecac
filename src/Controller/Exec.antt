-- ===== src/Controller/Exec.antt =====
-- The calls that the controller makes, and functions that make them and may fail.
use tiproxy_machine_operator.Api.{Link, MachineGroup, MachinePort}
use tiproxy_machine_operator.Cloud.{Manager}
use tiproxy_machine_operator.Effects.{Effect, call, to_result}
use tiproxy_machine_operator.Kube.{ApiError, Helpers, NamespacedName}
use tiproxy_machine_operator.Prelude.{List, Option, Result, String, ℤ}
use tiproxy_machine_operator.Prelude.Assoc.{Map}

-- A call of the API server or of a cloud manager, with its arguments. A patch has the object and
-- the base of `client.MergeFrom`: what is sent is their difference.
pub data Call : Type 0 where
  get_group : NamespacedName → Call
  list_links : String → Option String → Call
  list_ports : String → Call
  patch_group : MachineGroup → MachineGroup → Call
  patch_group_status : MachineGroup → MachineGroup → Call
  patch_port_status : MachinePort → MachinePort → Call
  patch_link_status : Link → Link → Call
  ensure_group : MachineGroup → List MachinePort → Map String ℤ → Call
  delete_group : MachineGroup → Call

-- The calls made so far, the latest first.
abbrev pub History : Type 0
History = List Call

-- What surrounds a MachineGroupReconciler: its fields, and the answers of the API server and of
-- the clock, which may depend on the history.
pub record Environment : Type 0 where
  pub helpers : Helpers
  pub open helpers use *
  pub provider : String
  pub cloud_manager : Option (Manager Call)
  pub machine_status_stale_after : ℤ
  pub answer_get : History → NamespacedName → Result ApiError MachineGroup
  pub answer_links : History → String → Option String → Result ApiError (List Link)
  pub answer_ports : History → String → Result ApiError (List MachinePort)
  pub answer_patch : History → Call → Option ApiError
  pub selector_error : String → Option String
  pub now : History → ℤ
  -- crypto/sha256, in hexadecimal
  pub sha256_hex : String → String

abbrev pub Exec {ℓ} : Type ℓ → Type ℓ
Exec A = Effect Call ApiError A

-- r.Patch and r.Status().Patch
abbrev pub patch : Environment → Call → Exec (Unit {0})
patch env c = call (λ h. to_result (env.answer_patch h c)) c
