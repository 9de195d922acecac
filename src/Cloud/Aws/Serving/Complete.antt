-- ===== src/Cloud/Aws/Serving/Complete.antt =====
-- The statuses that ensureLoadBalancerExposure returns.
use tiproxy_machine_operator.Api.{
  LoadBalancerExposureSpec, MachinePortCloudStatus, MachinePortLoadBalancerCloudStatus,
}
use tiproxy_machine_operator.Cloud.Aws.Calls.{LoadBalancer}
use tiproxy_machine_operator.Cloud.Aws.Exposing.{finish_clouds, port_lb_less, with_lb}
use tiproxy_machine_operator.Cloud.Contract.{Shown, cloud_at, listening, primary-same}
use tiproxy_machine_operator.Prelude.{
  Bool-cases, List, false, String, [], arith, beq_refl, inl, inr, insert_by, int_eq, nat_eq, not,
  refl, sort_by, string_eq, ℤ, ◌++◌, ◌==◌, ◌&&◌, ◌||◌, ◌∷◌, ◌≡◌,
}
use tiproxy_machine_operator.Prelude.Assoc.{Map, contains, get, get-put, put}
use tiproxy_machine_operator.Text.{trim_space}

abbrev pub wanted_uids : Map ℤ String → List String
wanted_uids [] = []
wanted_uids ((port, uid) ∷ wanted) = uid ∷ wanted_uids wanted

-- What stays shown.
abbrev pub Kept : Map String MachinePortCloudStatus → Map String MachinePortCloudStatus → Type 0
Kept m n = (uid name : String) → Shown m uid name → Shown n uid name

names-append :
    (n : String) (xs ys : List MachinePortLoadBalancerCloudStatus)
    → contains (listening (xs ++ ys)) n ≡ (contains (listening xs) n || contains (listening ys) n)
unfolding contains
names-append n [] ys = refl
names-append n (x ∷ xs) ys = ground (arith, names-append n xs ys)

names-insert_by :
    (n : String) (x : MachinePortLoadBalancerCloudStatus)
    (xs : List MachinePortLoadBalancerCloudStatus)
    → contains (listening (insert_by port_lb_less x xs)) n
      ≡ ((not (trim_space x.listener_id == "") && x.name == n) || contains (listening xs) n)
unfolding contains insert_by
names-insert_by n x [] = ground arith
names-insert_by n x (y ∷ xs) = ground (arith, names-insert_by n x xs)

names-sort_by :
    (n : String) (xs : List MachinePortLoadBalancerCloudStatus)
    → contains (listening (sort_by port_lb_less xs)) n ≡ contains (listening xs) n
unfolding contains sort_by
names-sort_by n [] = refl
names-sort_by n (x ∷ xs) =
    ground (arith, names-sort_by n xs, names-insert_by n x (sort_by port_lb_less xs))

pub finish_clouds-Shown :
    (m : Map String MachinePortCloudStatus) (uid name : String)
    → Shown m uid name
    → Shown (finish_clouds m) uid name
unfolding finish_clouds get
finish_clouds-Shown [] uid name shown = shown
finish_clouds-Shown ((j, s) ∷ m) uid name shown = elim (Bool-cases (j == uid)) [
  | inl same ↦
      rw
        (
          same,
          primary-same (record s { load_balancers = sort_by port_lb_less s.load_balancers }),
          names-sort_by name s.load_balancers,
        )
        (rw same at shown)
  | inr other ↦ rw other (finish_clouds-Shown m uid name (rw other at shown))
]

module _ (spec : LoadBalancerExposureSpec) (lb : LoadBalancer) (listener_arn tg_arn uid : String)
    (clouds : Map String MachinePortCloudStatus) where
  abbrev pub added : Map String MachinePortCloudStatus
  added = put uid (with_lb spec lb listener_arn tg_arn (cloud_at uid clouds)) clouds

  pub added-Kept : Kept clouds added
  added-Kept other name shown = elim (Bool-cases (uid == other)) [
    | inl same ↦
        let equal : uid ≡ other = (string_eq.beq_iff uid other).0 same in
        rw
          (
            get-put uid other (with_lb spec lb listener_arn tg_arn (cloud_at uid clouds)) clouds,
            same,
            names-append name (cloud_at uid clouds).load_balancers _,
          )
          (ground (arith, rw (← equal) at shown))
    | inr differs ↦
        rw
          (
            get-put uid other (with_lb spec lb listener_arn tg_arn (cloud_at uid clouds)) clouds,
            differs,
          )
          shown
  ]

  pub added-Shown : (trim_space listener_arn == "") ≡ false → Shown added uid spec.name
  unfolding contains
  added-Shown given =
      rw
        (
          get-put uid uid (with_lb spec lb listener_arn tg_arn (cloud_at uid clouds)) clouds,
          beq_refl uid,
          names-append spec.name (cloud_at uid clouds).load_balancers _,
        )
        (ground (arith, given, beq_refl spec.name))
