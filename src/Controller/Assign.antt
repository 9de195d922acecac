-- ===== src/Controller/Assign.antt =====
-- assignPortsToLinks
pub mod Ports
pub mod Sources
pub mod Errors
use tiproxy_machine_operator.Allocator.Capacity.{ports}
use tiproxy_machine_operator.Api.{Link, MachinePort}
use tiproxy_machine_operator.Kube.{ObjectMeta}
use tiproxy_machine_operator.Prelude.{
  List, String, [], if◌then◌else◌, int_eq, is_some, length, lez, ltb, ltz, none, pos, some, sort_by,
  string_eq, ℕ, ℤ, ◌||◌, ◌∷◌,
}
use tiproxy_machine_operator.Prelude.Assoc.{Map, contains, get, put, remove}
use tiproxy_machine_operator.Text.{concat, show_ℕ}

-- machinePortAllocation
pub record MachinePortAllocation : Type 0 where
  pub port : ℤ
  pub key : String

-- `namespace + "/" + name`
unfoldable pub key_of : ObjectMeta → String
key_of m = concat (m.namespace ∷ "/" ∷ m.name ∷ [])

-- The first loop: the machine ports that have an allocated port, in order.
unfoldable pub ordered_available : List MachinePort → Map String ℤ → List MachinePortAllocation
ordered_available [] allocated = []
ordered_available (m ∷ ms) allocated =
    let rest = ordered_available ms allocated in
    elim (get m.meta.uid allocated) [
      | none ↦ rest
      | some port ↦
          if lez port (pos 0) then rest else record { port = port; key = key_of m.meta } ∷ rest
    ]

-- The second loop: portByName, from what is not used. The first entry of a key stays.
unfoldable pub index_by_name : List ℤ → List MachinePortAllocation → Map String ℤ → Map String ℤ
index_by_name used [] m = m
index_by_name used (a ∷ rest) m =
    index_by_name used rest
      (if contains used a.port || is_some (get a.key m) then m else put a.key a.port m)

-- The maps that the loops change: `assigned`, `used` and `portByName`.
pub record Assignment : Type 0 where
  pub assigned : Map String ℤ
  pub used : List ℤ
  pub port_by_name : Map String ℤ

-- One round of the third loop: a link takes the machine port of its own name.
unfoldable pub assign_by_name : Link → Assignment → Assignment
assign_by_name l s =
    if is_some (get l.meta.uid s.assigned) then s else elim (get (key_of l.meta) s.port_by_name) [
      | none ↦ s
      | some port ↦ record {
        assigned = put l.meta.uid port s.assigned;
        used = port ∷ s.used;
        port_by_name = remove (key_of l.meta) s.port_by_name;
      }
    ]

unfoldable pub assign_all_by_name : List Link → Assignment → Assignment
assign_all_by_name [] s = s
assign_all_by_name (l ∷ ls) s = assign_all_by_name ls (assign_by_name l s)

-- The fourth loop: the ports that nobody took by name.
unfoldable pub remaining_ports : List ℤ → List MachinePortAllocation → List ℤ
remaining_ports used [] = []
remaining_ports used (a ∷ rest) =
    let later = remaining_ports used rest in if contains used a.port then later else a.port ∷ later

-- The fifth loop: the other links take the remaining ports, lowest first. The list is what
-- `remaining[next:]` is in the source.
unfoldable pub assign_rest : List Link → List ℤ → Map String ℤ → Map String ℤ
assign_rest [] ports assigned = assigned
assign_rest (l ∷ ls) [] assigned =
    if is_some (get l.meta.uid assigned) then assign_rest ls [] assigned else assigned
assign_rest (l ∷ ls) (p ∷ ps) assigned =
    let skipped = assign_rest ls (p ∷ ps) assigned in
    let taken = assign_rest ls ps (put l.meta.uid p assigned) in
    if is_some (get l.meta.uid assigned) then skipped else taken

-- The loops that fill `errors`: a text for each link without a port.
unfoldable pub errors_for :
    String → List Link → Map String ℤ → Map String String → Map String String
errors_for msg [] assigned errors = errors
errors_for msg (l ∷ ls) assigned errors =
    errors_for msg ls assigned
      (if is_some (get l.meta.uid assigned) then errors else put l.meta.uid msg errors)

unfoldable pub insufficient_text : ℕ → ℕ → String
insufficient_text links available = concat (
    "insufficient TiProxyMachinePort resources: "
    ∷ show_ℕ links
    ∷ " link(s), "
    ∷ show_ℕ available
    ∷ " allocated port(s)"
    ∷ [])

-- What is assigned once both loops over the links are done.
unfoldable pub assigned_ports : List Link → List MachinePortAllocation → Map String ℤ
assigned_ports links available =
    let named =
      assign_all_by_name links
        (record { assigned = []; used = []; port_by_name = index_by_name [] available [] }) in
    assign_rest links (sort_by ltz (remaining_ports named.used available)) named.assigned

-- assignPortsToLinks
unfoldable pub assign_ports_to_links :
    List Link → List MachinePort → Map String ℤ → Map String ℤ × Map String String
assign_ports_to_links [] machine_ports allocated = ([], [])
assign_ports_to_links (l ∷ ls) machine_ports allocated =
    let available = ordered_available machine_ports allocated in
    elim available [
      | [] ↦ ([], errors_for "no TiProxyMachinePort has an allocated port" (l ∷ ls) [] [])
      | a ∷ rest ↦
          let assigned = assigned_ports (l ∷ ls) (a ∷ rest) in
          (
            assigned,
            if ltb (length assigned) (length (l ∷ ls))
                then errors_for (insufficient_text (length (l ∷ ls)) (length (a ∷ rest))) (l ∷ ls)
                    assigned []
                else [],
          )
    ]
