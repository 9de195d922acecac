-- ===== src/Cloud/Aws/Exposing/Wanted.antt =====
-- The ports that the load balancers are to listen on.
use tiproxy_machine_operator.Api.{MachinePort}
use tiproxy_machine_operator.Cloud.Aws.Exposing.{protocol_of, want_if, want_port, wanted_ports}
use tiproxy_machine_operator.Prelude.{
  >>=-eq-ok, All, Bool-cases, List, Option, Option-cases, String, [], arith, beq_refl, false, inl,
  inr, int_eq, lez, nat_eq, none, ok, pos, refl, some, string_eq, subst, ℤ, ◌==◌, ◌∙◌, ◌∷◌, ◌≡◌,
}
use tiproxy_machine_operator.Prelude.Assoc.{Map, get, get-put, put}

-- The ports that are wanted already stay, with their machine ports.
abbrev Within : Map ℤ String → Map ℤ String → Type 0
Within m n = (port : ℤ) (uid : String) → get port m ≡ some uid → get port n ≡ some uid

-- A machine port that has an allocated port is wanted there.
abbrev pub Listens : Map String ℤ → Map ℤ String → MachinePort → Type 0
Listens allocated wanted p =
    (port : ℤ)
    → get p.meta.uid allocated ≡ some port
    → lez port (pos 0) ≡ false
    → get port wanted ≡ some p.meta.uid

put-Within :
    (port : ℤ) (uid : String) (m : Map ℤ String)
    → get port m ≡ none
    → Within m (put port uid m) × (get port (put port uid m) ≡ some uid)
put-Within port uid m free = (
  λ other owner taken. elim (Bool-cases (port == other)) [
    | inl same ↦
        let equal : port ≡ other = (int_eq.beq_iff port other).0 same in
        ground (arith, taken, rw equal at free)
    | inr differs ↦ get-put port other uid m ∙ rw differs taken
  ],
  get-put port port uid m ∙ rw (beq_refl port) refl,
)

want_port-Within :
    (p : MachinePort) (port : ℤ) (m n : Map ℤ String)
    → want_port p port m ≡ ok n
    → Within m n × (get port n ≡ some p.meta.uid)
unfolding want_port
want_port-Within p port m n wants = elim (Bool-cases (protocol_of p == "TCP")) [
  | inr other ↦ ground (arith, other, wants)
  | inl tcp ↦ elim (Option-cases (get port m)) [
    | inr (uid, taken) ↦ ground (arith, tcp, taken, wants)
    | inl free ↦
        let equal : put port p.meta.uid m ≡ n = ground (arith, tcp, free, wants) in
        subst (λ n'. Within m n' × (get port n' ≡ some p.meta.uid)) equal
          (put-Within port p.meta.uid m free)
  ]
]

-- What a round does, by what the port's allocation is.
abbrev Placed : MachinePort → Option ℤ → Map ℤ String → Type 0
Placed p none n = Unit {0}
Placed p (some port) n = lez port (pos 0) ≡ false → get port n ≡ some p.meta.uid

want_if-Within :
    (p : MachinePort) (allocation : Option ℤ) (m n : Map ℤ String)
    → want_if p allocation m ≡ ok n
    → Within m n × Placed p allocation n
unfolding want_if
want_if-Within p none m n wants =
    let equal : m ≡ n = ground (arith, wants) in
    (subst (λ n'. Within m n') equal (λ port uid there. there), tt)
want_if-Within p (some port) m n wants = elim (Bool-cases (lez port (pos 0))) [
  | inl nonpositive ↦
      let equal : m ≡ n = ground (arith, nonpositive, wants) in
      (
        subst (λ n'. Within m n') equal (λ other uid there. there),
        λ positive. ground (arith, nonpositive, positive),
      )
  | inr positive ↦
      let (kept, there) = want_port-Within p port m n (rw positive at wants) in
      (kept, λ given. there)
]

Placed-Listens :
    (p : MachinePort) (allocated : Map String ℤ) (allocation : Option ℤ) (m n : Map ℤ String)
    → get p.meta.uid allocated ≡ allocation
    → Placed p allocation m
    → Within m n
    → Listens allocated n p
Placed-Listens p allocated none m n absent placed within port given positive =
    ground (arith, absent, given)
Placed-Listens p allocated (some at) m n found_at placed within port given positive =
    let equal : at ≡ port = ground (arith, found_at, given) in
    subst (λ q. get q n ≡ some p.meta.uid) equal (within at p.meta.uid (placed (rw equal positive)))

wanted_ports-Within :
    (ps : List MachinePort) (allocated : Map String ℤ) (m n : Map ℤ String)
    → wanted_ports ps allocated m ≡ ok n
    → Within m n × All (Listens allocated n) ps
unfolding wanted_ports
wanted_ports-Within [] allocated m n wants =
    let equal : m ≡ n = ground (arith, wants) in
    (subst (λ n'. Within m n') equal (λ port uid there. there), tt)
wanted_ports-Within (p ∷ ps) allocated m n wants =
    let (more, first, rest) =
      >>=-eq-ok (want_if p (get p.meta.uid allocated) m) (wanted_ports ps allocated) wants in
    let (kept, placed) = want_if-Within p (get p.meta.uid allocated) m more first in
    let (later, all) = wanted_ports-Within ps allocated more n rest in
    (
      λ port uid old. later port uid (kept port uid old),
      (Placed-Listens p allocated (get p.meta.uid allocated) more n refl placed later, all),
    )

-- If ensureLoadBalancerExposure accepts the machine ports, every machine port with a positive
-- allocated port is the one whose UID its port stands for: no two machine ports share a port.
pub wanted_ports-Listens :
    (ps : List MachinePort) (allocated : Map String ℤ) (wanted : Map ℤ String)
    → wanted_ports ps allocated [] ≡ ok wanted
    → All (Listens allocated wanted) ps
wanted_ports-Listens ps allocated wanted wants =
    (wanted_ports-Within ps allocated [] wanted wants).1
