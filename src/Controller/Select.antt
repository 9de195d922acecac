-- ===== src/Controller/Select.antt =====
-- listManagedLinks and listManagedMachinePorts, after the List calls.
pub mod Watch
use tiproxy_machine_operator.Api.{Link, MachineGroup, MachinePort, ObjectReference, namespaced_name}
use tiproxy_machine_operator.Controller.Assign.{key_of}
use tiproxy_machine_operator.Kube.{NamespacedName, ObjectMeta}
use tiproxy_machine_operator.Prelude.{
  Bool, List, String, [], filter_by, if◌then◌else◌, int_eq, nat_eq, not, sort_by, string_eq,
  text_ltb, ◌&&◌, ◌==◌, ◌∷◌,
}

unfoldable pub refers_to : MachineGroup → ObjectReference → String → Bool
unfolding namespaced_name
refers_to mg r namespace =
    let ref = namespaced_name r namespace in
    ref.name == mg.meta.name && ref.namespace == mg.meta.namespace

-- The conditions of the loop's two `continue`s.
unfoldable pub manages_link : MachineGroup → Link → Bool
manages_link mg l = not l.spec.disabled && refers_to mg l.spec.machine_group_ref l.meta.namespace

unfoldable pub manages_port : MachineGroup → MachinePort → Bool
manages_port mg m = refers_to mg m.spec.machine_group_ref m.meta.namespace

abbrev by_key {ℓ} : {A : Type ℓ} → (A → ObjectMeta) → A → A → Bool
by_key meta a b = text_ltb (key_of (meta a)) (key_of (meta b))

unfoldable pub select_links : MachineGroup → List Link → List Link
select_links mg items = sort_by (by_key (λ l. l.meta)) (filter_by (manages_link mg) items)

unfoldable pub select_ports : MachineGroup → List MachinePort → List MachinePort
select_ports mg items = sort_by (by_key (λ m. m.meta)) (filter_by (manages_port mg) items)

-- mapToMachineGroup of SetupWithManager, for a link or a machine port: the group to reconcile when
-- the object changes.
unfoldable pub map_to_machine_group : ObjectReference → String → List NamespacedName
map_to_machine_group r namespace =
    let ref = namespaced_name r namespace in if ref.name == "" then [] else ref ∷ []
