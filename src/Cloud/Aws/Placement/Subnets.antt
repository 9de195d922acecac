-- ===== src/Cloud/Aws/Placement/Subnets.antt =====
-- What selectPlacementSubnets selects.
use text.Mathlib.TextEquality.{eq_iff}
use tiproxy_machine_operator.Allocator.Loops.{requested}
use tiproxy_machine_operator.Cloud.Aws.Errors.{AwsError}
use tiproxy_machine_operator.Cloud.Aws.Placement.{
  PlacementSelection, Progress, Subnet, by_id, choose, conclude, consider, consider_all,
  consider_found, drop_zone, no_selection, select_placement_subnets, with_vpc, zone_set,
}
use tiproxy_machine_operator.Prelude.{
  >>=-eq-ok, Bool-cases, List, Option-cases, Result, String, [], arith, eqb_iff, err, inl, inr,
  int_eq, length, nat_eq, not, ok, refl, some, string_eq, subst, sym, true, ◌&&◌, ◌++◌, ◌<◌, ◌==◌,
  ◌||◌, ◌∙◌, ◌∷◌, ◌≡◌, ◌≢◌, ◌⊎◌,
}
use tiproxy_machine_operator.Prelude.Assoc.{Map, contains, get}
use tiproxy_machine_operator.Text.{trim_space}

contains-snoc :
    (xs : List String) (x y : String) → contains (xs ++ (x ∷ [])) y ≡ (contains xs y || x == y)
unfolding contains
contains-snoc [] x y = ground arith
contains-snoc (z ∷ zs) x y = ground (arith, contains-snoc zs x y)

contains-drop_zone :
    (z y : String) (zs : List String)
    → contains (drop_zone z zs) y ≡ (contains zs y && not (z == y))
unfolding contains drop_zone
contains-drop_zone z y [] = refl
contains-drop_zone z y (x ∷ xs) =
    ground (arith, contains-drop_zone z y xs, eq_iff x z, eq_iff x y, eq_iff z y)

err-ok : {p : Progress} {e : AwsError} → Path (Result AwsError Progress) (err e) (ok p) → ⊥
err-ok h = cc

ok-inj : {p q : Progress} → Path (Result AwsError Progress) (ok p) (ok q) → p ≡ q
ok-inj h = ground arith

module _ (allowed : List String) (subnets : Map String Subnet) where
  -- A subnet that may be selected: it was described, lies in the one VPC, and in an allowed zone.
  pub record Usable (vpc id : String) : Type 0 where
    pub subnet : Subnet
    pub described : get id subnets ≡ some subnet
    pub vpc_given : vpc ≢ ""
    pub in_vpc : trim_space subnet.vpc_id ≡ vpc
    pub in_zone :
        (length allowed ≡ 0) ⊎ (contains allowed (trim_space subnet.availability_zone) ≡ true)

  -- That a zone has a selected subnet.
  pub record Served (ids : List String) (zone : String) : Type 0 where
    pub id : String
    pub subnet : Subnet
    pub chosen : contains ids id ≡ true
    pub described : get id subnets ≡ some subnet
    pub lies : trim_space subnet.availability_zone ≡ zone

  -- The loop's invariant.
  record Sofar (requested : List String) (p : Progress) : Type 0 where
    usable :
        (id : String)
        → contains p.selected.subnet_ids id ≡ true
        → Usable p.selected.vpc_id id × (contains requested id ≡ true)
    served :
        (zone : String)
        → contains allowed zone ≡ true
        → (contains p.missing zone ≡ true) ⊎ Served p.selected.subnet_ids zone

  module _ (requested : List String) where
    with_vpc-Sofar :
        (vpc : String) (p : Progress)
        → (p.selected.vpc_id ≡ "") ⊎ (p.selected.vpc_id ≡ vpc)
        → Sofar requested p
        → Sofar requested (with_vpc vpc p)
    with_vpc-Sofar vpc p (inr same) s = record {
      usable = λ id here. rw (← same) (s.usable id here);
      served = s.served;
    }
    with_vpc-Sofar vpc p (inl blank) s = record {
      usable = λ id here. absurd ((s.usable id here).0.vpc_given blank);
      served = s.served;
    }

    -- A zone that is still missing, or has a subnet, after one more subnet is chosen.
    choose-Served :
        (id zone : String) (s : Subnet) (p : Progress)
        → get id subnets ≡ some s
        → trim_space s.availability_zone ≡ zone
        → (z : String) → (contains p.missing z ≡ true) ⊎ Served p.selected.subnet_ids z
        → (contains (choose id zone allowed p).missing z ≡ true)
          ⊎ Served (choose id zone allowed p).selected.subnet_ids z
    unfolding choose
    choose-Served id zone s p described lies z (inr by) = inr (record {
      id = by.id;
      subnet = by.subnet;
      chosen = rw (contains-snoc p.selected.subnet_ids id by.id, by.chosen) refl;
      described = by.described;
      lies = by.lies;
    })
    choose-Served id zone s p described lies z (inl missing) = elim (Bool-cases (zone == z)) [
      | inl this ↦ inr (record {
        id = id;
        subnet = s;
        chosen = rw (contains-snoc p.selected.subnet_ids id id) (ground (arith, eq_iff id id));
        described = described;
        lies = lies ∙ (eq_iff zone z).0 this;
      })
      | inr other ↦ inl (elim (Bool-cases (length allowed == 0)) [
        | inl none_asked ↦ rw none_asked missing
        | inr asked ↦ rw (asked, contains-drop_zone zone z p.missing, missing, other) refl
      ])
    ]

    choose-Sofar :
        (id zone : String) (s : Subnet) (p : Progress)
        → get id subnets ≡ some s
        → trim_space s.availability_zone ≡ zone
        → Usable p.selected.vpc_id id
        → contains requested id ≡ true
        → Sofar requested p
        → Sofar requested (choose id zone allowed p)
    unfolding choose
    choose-Sofar id zone s p described lies fit asked so = record {
      usable = λ i here. elim (Bool-cases (id == i)) [
        | inl this ↦ rw (← (eq_iff id i).0 this) (fit, asked)
        | inr other ↦ so.usable i (ground (arith, contains-snoc p.selected.subnet_ids id i, here))
      ];
      served = λ z named. choose-Served id zone s p described lies z (so.served z named);
    }

    consider-Sofar :
        (id : String) (s : Subnet) (p next : Progress)
        → get id subnets ≡ some s
        → contains requested id ≡ true
        → consider allowed id s p ≡ ok next
        → Sofar requested p
        → Sofar requested next
    unfolding consider
    consider-Sofar id s p next described asked h so =
        let vpc = trim_space s.vpc_id in
        let zone = trim_space s.availability_zone in
        elim (Bool-cases (vpc == "")) [
          | inl blank ↦ absurd (err-ok (rw (consider, blank) at h))
          | inr given ↦
              elim (Bool-cases (not (p.selected.vpc_id == "") && not (p.selected.vpc_id == vpc))) [
                | inl clash ↦ absurd (err-ok (rw (consider, given, clash) at h))
                | inr fits ↦
                    let q : Sofar requested (with_vpc vpc p) =
                      with_vpc-Sofar vpc p
                        (ground (arith, eq_iff p.selected.vpc_id "", eq_iff p.selected.vpc_id vpc))
                        so in
                    elim (Bool-cases (not (length allowed == 0) && not (contains allowed zone))) [
                      | inl beyond ↦
                          subst (Sofar requested) (ok-inj (sym (rw (given, fits, beyond) refl) ∙ h))
                            q
                      | inr inside ↦
                          subst (Sofar requested) (ok-inj (sym (rw (given, fits, inside) refl) ∙ h))
                            (choose-Sofar id zone s (with_vpc vpc p) described refl
                              (record {
                                subnet = s;
                                described = described;
                                vpc_given = ground (arith, eq_iff vpc "");
                                in_vpc = refl;
                                in_zone = ground (arith, eqb_iff (length allowed) 0);
                              })
                              asked q)
                    ]
              ]
        ]

    consider_all-Sofar :
        (ids : List String) (p next : Progress)
        → ((id : String) → contains ids id ≡ true → contains requested id ≡ true)
        → consider_all allowed subnets ids p ≡ ok next
        → Sofar requested p
        → Sofar requested next
    unfolding consider_all consider_found contains
    consider_all-Sofar [] p next within h so = subst (Sofar requested) (ok-inj h) so
    consider_all-Sofar (id ∷ ids) p next within h so =
        let (q, first, rest) = >>=-eq-ok (consider_found allowed id (get id subnets) p) _ h in
        elim (Option-cases (get id subnets)) [
          | inl none_found ↦ absurd (err-ok (rw none_found at first))
          | inr (s, described) ↦
              consider_all-Sofar ids q next (λ i here. within i (ground arith)) rest
                (consider-Sofar id s p q described (within id (ground (arith, eq_iff id id)))
                  (rw described at first) so)
        ]

-- What a selection from the described subnets is for: subnets that were asked for, in one VPC, in
-- the allowed zones, and one in each of these.
pub record Selects (requested : List String) (described : List Subnet) (domains : List String)
    (s : PlacementSelection) : Type 0 where
  pub some_chosen : 0 < length s.subnet_ids
  pub usable :
      (id : String)
      → contains s.subnet_ids id ≡ true
      → Usable (zone_set domains) (by_id described []) s.vpc_id id × (contains requested id ≡ true)
  pub served :
      (zone : String)
      → contains (zone_set domains) zone ≡ true
      → Served (zone_set domains) (by_id described []) s.subnet_ids zone

conclude-Selects :
    (requested : List String) (described : List Subnet) (domains : List String) (p : Progress)
    (s : PlacementSelection)
    → Sofar (zone_set domains) (by_id described []) requested p
    → conclude (zone_set domains) p ≡ ok s
    → Selects requested described domains s
unfolding conclude contains
conclude-Selects requested described domains p s so h =
    elim (Bool-cases (length p.selected.subnet_ids == 0)) [
      | inl nothing ↦ absurd (elim (Bool-cases (length (zone_set domains) == 0)) [
        | inl any ↦ err-selection (rw (nothing, any) at h)
        | inr asked ↦ err-selection (rw (nothing, asked) at h)
      ])
      | inr something ↦ elim (Bool-cases (length p.missing == 0)) [
        | inr lacking ↦ absurd (err-selection (rw (something, lacking) at h))
        | inl complete ↦
            subst (Selects requested described domains)
              (ok-selection (rw (something, complete) at h))
              (record {
                some_chosen = ground (arith, eqb_iff (length p.selected.subnet_ids) 0);
                usable = so.usable;
                served = λ zone named. elim (so.served zone named) [
                  | inl missing ↦ absurd (none-missing p.missing zone complete missing)
                  | inr by ↦ by
                ];
              })
      ]
    ]
  where
    err-selection : {e : AwsError} → Path (Result AwsError PlacementSelection) (err e) (ok s) → ⊥
    err-selection h = cc

    ok-selection :
        {a b : PlacementSelection} → Path (Result AwsError PlacementSelection) (ok a) (ok b) → a ≡ b
    ok-selection h = ground arith

    none-missing :
        (zs : List String) (z : String) → (length zs == 0) ≡ true → contains zs z ≡ true → ⊥
    none-missing [] z h m = cc
    none-missing (x ∷ xs) z h m = ground (arith, eqb_iff (length (x ∷ xs)) 0)

-- selectPlacementSubnets that succeeds selects at least one subnet; each of them was asked for, was
-- described, lies in the one VPC of the selection and, if failure domains are given, in one of
-- them; and each failure domain has a selected subnet.
pub select_placement_subnets-Selects :
    (requested : List String) (described : List Subnet) (domains : List String)
    (s : PlacementSelection)
    → select_placement_subnets requested described domains ≡ ok s
    → Selects requested described domains s
unfolding select_placement_subnets contains
select_placement_subnets-Selects requested described domains s h =
    elim (Bool-cases (length requested == 0)) [
      | inl nothing ↦ absurd (fails (rw nothing at h))
      | inr asked ↦ elim (Bool-cases (length described == 0)) [
        | inl unknown ↦ absurd (fails (rw (asked, unknown) at h))
        | inr known ↦
            let start : Progress = record { selected = no_selection; missing = zone_set domains } in
            let (p, loop, rest) =
              >>=-eq-ok (consider_all (zone_set domains) (by_id described []) requested start) _
                (rw (asked, known) at h) in
            conclude-Selects requested described domains p s
              (consider_all-Sofar (zone_set domains) (by_id described []) requested requested start
                p (λ id here. here) loop
                (record { usable = λ id here. absurd (cc); served = λ zone named. inl named }))
              rest
      ]
    ]
  where
    fails : {e : AwsError} → Path (Result AwsError PlacementSelection) (err e) (ok s) → ⊥
    fails h = cc
