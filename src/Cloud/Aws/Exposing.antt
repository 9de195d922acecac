-- ===== src/Cloud/Aws/Exposing.antt =====
-- The pure parts of ensureLoadBalancerExposure. Where the source loops over a map, the order is that
-- of the list; the verb %q is written with plain quotes. slices.SortFunc leaves the order of load
-- balancers with one name open, and the model keeps theirs.
pub mod Wanted
use Prim.Native.String
use Prim.Native.Char.{Char, code}
use Prim.Native.String.{char_at}
use tiproxy_machine_operator.Api.{
  LoadBalancerCloudStatus, LoadBalancerExposureSpec, MachinePort, MachinePortCloudStatus,
  MachinePortLoadBalancerCloudStatus, set_port_primary_compat,
}
use tiproxy_machine_operator.Cloud.Aws.Calls.{Listener, LoadBalancer, TargetGroup, to_string}
use tiproxy_machine_operator.Cloud.Aws.Errors.{AwsError, plain}
use tiproxy_machine_operator.Prelude.{
  Bool, List, Option, Result, String, [], eqb, err, false, if◌then◌else◌, int_eq, is_some, leb, lez,
  nat_eq, none, not, ok, pos, some, sort_by, string_eq, text_ltb, ℤ, ◌&&◌, ◌++◌, ◌-◌, ◌==◌, ◌>>=◌,
  ◌∷◌,
}
use tiproxy_machine_operator.Prelude.Assoc.{Map, get, put}
use tiproxy_machine_operator.Text.{concat, show_int, trim_space}

-- strings.ToUpper, of the code of a character. Outside ASCII the model knows the two letters whose
-- upper case is an ASCII one.
abbrev upper_char : Char → Char
upper_char c =
    if leb b'a' (code c) && leb (code c) b'z'
    then char_at "ABCDEFGHIJKLMNOPQRSTUVWXYZ" (code c - b'a')
    else if eqb (code c) 0x131
    then char_at "I" 0
    else if eqb (code c) 0x17f
    then char_at "S" 0
    else c

unfoldable pub to_upper : String → String
to_upper String.[] = String.[]
to_upper (String.◌∷◌ c s) = String.◌∷◌ (upper_char c) (to_upper s)

-- The protocol of a port, TCP if it has none.
unfoldable pub protocol_of : MachinePort → String
protocol_of p =
    let protocol = to_upper (trim_space p.spec.protocol) in
    if protocol == "" then "TCP" else protocol

abbrev unsupported : String → MachinePort → AwsError
unsupported protocol p = plain (
    concat (
      "unsupported protocol \"" ∷ protocol ∷ "\" on TiProxyMachinePort " ∷ p.meta.namespace ∷ "/"
      ∷ p.meta.name ∷ []))

abbrev conflicting : ℤ → String → String → AwsError
conflicting port other uid = plain (
    concat (
      "allocated port "
      ∷ show_int port
      ∷ " conflicts between machinePort UID "
      ∷ other
      ∷ " and "
      ∷ uid
      ∷ []))

-- One machine port that has an allocated port.
unfoldable pub want_port : MachinePort → ℤ → Map ℤ String → Result AwsError (Map ℤ String)
want_port p port wanted =
    if not (protocol_of p == "TCP")
    then err (unsupported (protocol_of p) p)
    else elim (get port wanted) [
      | some other ↦ err (conflicting port other p.meta.uid)
      | none ↦ ok (put port p.meta.uid wanted)
    ]

-- One round of the loop, by the port's allocation.
unfoldable pub want_if : MachinePort → Option ℤ → Map ℤ String → Result AwsError (Map ℤ String)
want_if p none wanted = ok wanted
want_if p (some port) wanted = if lez port (pos 0) then ok wanted else want_port p port wanted

-- desiredByPort: the machine port's UID of each port. The protocol is always TCP.
unfoldable pub wanted_ports :
    List MachinePort → Map String ℤ → Map ℤ String → Result AwsError (Map ℤ String)
wanted_ports [] allocated wanted = ok wanted
wanted_ports (p ∷ ps) allocated wanted = do
  more ← want_if p (get p.meta.uid allocated) wanted
  wanted_ports ps allocated more

-- tgByPort of the groups that are described: a later group of the same port takes the place.
unfoldable pub groups_by_port : List TargetGroup → Map ℤ TargetGroup → Map ℤ TargetGroup
groups_by_port [] m = m
groups_by_port (tg ∷ tgs) m = elim tg.port [
  | none ↦ groups_by_port tgs m
  | some port ↦ groups_by_port tgs (put port tg m)
]

-- The ARNs that the loop adds to managedTGARNs.
unfoldable pub managed_arns : List TargetGroup → List String
managed_arns [] = []
managed_arns (tg ∷ tgs) =
    let rest = managed_arns tgs in
    elim tg.port [ none ↦ rest | some port ↦ to_string tg.arn ∷ rest ]

unfoldable pub listeners_by_port : List Listener → Map ℤ Listener → Map ℤ Listener
listeners_by_port [] m = m
listeners_by_port (l ∷ ls) m = elim l.port [
  | none ↦ listeners_by_port ls m
  | some port ↦ listeners_by_port ls (put port l m)
]

abbrev no_listener : Listener
no_listener = record { arn = none; port = none; is_tcp = false; default_actions = [] }

-- What a map reads without the key: the zero value.
abbrev pub group_arn : ℤ → Map ℤ TargetGroup → String
group_arn port groups = elim (get port groups) [ none ↦ "" | some tg ↦ to_string tg.arn ]

abbrev pub listener_at : ℤ → Map ℤ Listener → Listener
listener_at port m = elim (get port m) [ none ↦ no_listener | some l ↦ l ]

-- desiredTGARNs of one load balancer.
unfoldable pub wanted_arns : Map ℤ String → Map ℤ TargetGroup → List String
wanted_arns [] groups = []
wanted_arns ((port, uid) ∷ wanted) groups = group_arn port groups ∷ wanted_arns wanted groups

-- The listeners and the target groups of ports that are not wanted.
unfoldable pub stale_listeners : Map ℤ String → List Listener → List String
stale_listeners wanted [] = []
stale_listeners wanted (l ∷ ls) =
    let rest = stale_listeners wanted ls in
    elim l.port [
      | none ↦ rest
      | some port ↦ elim l.arn [
        | none ↦ rest
        | some arn ↦ if is_some (get port wanted) then rest else arn ∷ rest
      ]
    ]

unfoldable pub stale_groups : Map ℤ String → List TargetGroup → List String
stale_groups wanted [] = []
stale_groups wanted (tg ∷ tgs) =
    let rest = stale_groups wanted tgs in
    elim tg.port [
      | none ↦ rest
      | some port ↦ elim tg.arn [
        | none ↦ rest
        | some arn ↦ if is_some (get port wanted) then rest else arn ∷ rest
      ]
    ]

-- What the loop over the load balancers carries.
pub record Exposed : Type 0 where
  pub managed : List String
  pub desired : List String
  pub clouds : Map String MachinePortCloudStatus
  pub statuses : List LoadBalancerCloudStatus

abbrev pub nothing_exposed : Exposed
nothing_exposed = record { managed = []; desired = []; clouds = []; statuses = [] }

abbrev pub status_of_lb : LoadBalancerExposureSpec → LoadBalancer → LoadBalancerCloudStatus
status_of_lb spec lb = record {
  name = spec.name;
  scope = spec.scope;
  load_balancer_id = to_string lb.arn;
  load_balancer_address = lb.dns_name;
}

abbrev pub with_lb :
    LoadBalancerExposureSpec
    → LoadBalancer
    → String
    → String
    → MachinePortCloudStatus
    → MachinePortCloudStatus
with_lb spec lb listener_arn tg_arn s = record s {
  load_balancers =
      s.load_balancers
      ++ record {
        name = spec.name;
        scope = spec.scope;
        load_balancer_id = to_string lb.arn;
        load_balancer_address = lb.dns_name;
        listener_id = listener_arn;
        backend_id = tg_arn;
      }
        ∷ [];
}

abbrev pub lb_less : LoadBalancerCloudStatus → LoadBalancerCloudStatus → Bool
lb_less a b = text_ltb a.name b.name

abbrev pub port_lb_less :
    MachinePortLoadBalancerCloudStatus → MachinePortLoadBalancerCloudStatus → Bool
port_lb_less a b = text_ltb a.name b.name

-- The last loop: every status with its load balancers in order.
unfoldable pub finish_clouds : Map String MachinePortCloudStatus → Map String MachinePortCloudStatus
finish_clouds [] = []
finish_clouds ((uid, s) ∷ clouds) =
    (
      uid,
      set_port_primary_compat (record s { load_balancers = sort_by port_lb_less s.load_balancers }),
    )
    ∷ finish_clouds clouds
