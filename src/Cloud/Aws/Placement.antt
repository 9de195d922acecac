-- ===== src/Cloud/Aws/Placement.antt =====
-- selectPlacementSubnets, normalizeSpreadPolicy and availabilityZoneDistributionForSpreadPolicy.
pub mod Subnets
use Prim.Native.String
use Prim.Native.Char.{code}
use tiproxy_machine_operator.Allocator.Loops.{requested}
use tiproxy_machine_operator.Cloud.Aws.Errors.{AwsError, plain}
use tiproxy_machine_operator.Cloud.Aws.Names.{dash}
use tiproxy_machine_operator.Prelude.{
  Bool, List, Option, Result, String, [], eqb, err, false, if◌then◌else◌, int_eq, length, nat_eq,
  none, not, ok, some, sort_by, string_eq, text_ltb, true, ◌&&◌, ◌++◌, ◌==◌, ◌>>=◌, ◌||◌, ◌∷◌,
}
use tiproxy_machine_operator.Prelude.Assoc.{Map, contains, get, put}
use tiproxy_machine_operator.Text.{concat, join, to_lower, trim_space}

-- What is read of an ec2 Subnet; a nil string reads as "".
pub record Subnet : Type 0 where
  pub subnet_id : String
  pub vpc_id : String
  pub availability_zone : String

-- The capacity distribution strategies that are used.
pub data Distribution : Type 0 where
  balanced_best_effort balanced_only : Distribution

-- placementSelection
pub record PlacementSelection : Type 0 where
  pub subnet_ids : List String
  pub availability_zones : List String
  pub vpc_id : String
  pub distribution : Option Distribution

abbrev pub no_selection : PlacementSelection
no_selection = record { subnet_ids = []; availability_zones = []; vpc_id = ""; distribution = none }

-- The map byID. Of two subnets with one id the later stays.
unfoldable pub by_id : List Subnet → Map String Subnet → Map String Subnet
by_id [] m = m
by_id (s ∷ ss) m = let id = trim_space s.subnet_id in by_id ss (if id == "" then m else put id s m)

-- The set allowedZones, as a list without repetition.
unfoldable pub zone_set : List String → List String
zone_set [] = []
zone_set (z ∷ zs) =
    let rest = zone_set zs in
    let zone = trim_space z in if zone == "" || contains rest zone then rest else zone ∷ rest

-- delete on a set.
unfoldable pub drop_zone : String → List String → List String
drop_zone zone [] = []
drop_zone zone (z ∷ zs) = let rest = drop_zone zone zs in if z == zone then rest else z ∷ rest

-- What the loop changes: `selected` and missingZones. selectedZones has the zones of `selected`.
pub record Progress : Type 0 where
  pub selected : PlacementSelection
  pub missing : List String

abbrev pub add_zone : String → List String → List String
add_zone zone zones =
    if zone == "" then zones else if contains zones zone then zones else zones ++ (zone ∷ [])

-- The end of the loop's body: a subnet that is selected.
unfoldable pub choose : String → String → List String → Progress → Progress
choose id zone allowed p = record {
  selected = record p.selected {
    subnet_ids = p.selected.subnet_ids ++ (id ∷ []);
    availability_zones = add_zone zone p.selected.availability_zones;
  };
  missing = if length allowed == 0 then p.missing else drop_zone zone p.missing;
}

abbrev pub with_vpc : String → Progress → Progress
with_vpc vpc p = record p { selected = record p.selected { vpc_id = vpc } }

-- The body of the loop for a subnet that was found.
unfoldable pub consider : List String → String → Subnet → Progress → Result AwsError Progress
consider allowed id s p =
    let vpc = trim_space s.vpc_id in
    let zone = trim_space s.availability_zone in
    if vpc == ""
    then err (plain (concat ("subnet " ∷ id ∷ " has empty vpc id" ∷ [])))
    else if not (p.selected.vpc_id == "") && not (p.selected.vpc_id == vpc)
    then err (
        plain
          (concat ("subnets belong to different vpcs: " ∷ p.selected.vpc_id ∷ " and " ∷ vpc ∷ [])))
    else if not (length allowed == 0) && not (contains allowed zone)
    then ok (with_vpc vpc p)
    else ok (choose id zone allowed (with_vpc vpc p))

unfoldable pub consider_found :
    List String → String → Option Subnet → Progress → Result AwsError Progress
consider_found allowed id none p = err (plain (concat ("subnet " ∷ id ∷ " not found" ∷ [])))
consider_found allowed id (some s) p = consider allowed id s p

-- The loop over the requested ids.
unfoldable pub consider_all :
    List String → Map String Subnet → List String → Progress → Result AwsError Progress
consider_all allowed subnets [] p = ok p
consider_all allowed subnets (id ∷ ids) p = do
  next ← consider_found allowed id (get id subnets) p
  consider_all allowed subnets ids next

-- sortedKeys, with %v.
abbrev sorted_text : List String → String
sorted_text zones = concat ("[" ∷ join (sort_by text_ltb zones) " " ∷ "]" ∷ [])

-- What follows the loop.
unfoldable pub conclude : List String → Progress → Result AwsError PlacementSelection
conclude allowed p =
    if length p.selected.subnet_ids == 0
    then (if length allowed == 0
        then err (plain "no usable subnets selected from spec.network.subnetIDs")
        else err (
            plain (
              concat (
                "none of spec.network.subnetIDs are in requested failure domains "
                ∷ sorted_text allowed
                ∷ []))))
    else if length p.missing == 0
    then ok p.selected
    else err (
        plain (
          concat (
            "requested failure domains "
            ∷ sorted_text p.missing
            ∷ " do not have matching subnets in spec.network.subnetIDs"
            ∷ [])))

-- selectPlacementSubnets
unfoldable pub select_placement_subnets :
    List String → List Subnet → List String → Result AwsError PlacementSelection
select_placement_subnets requested subnets failure_domains =
    let allowed = zone_set failure_domains in
    if length requested == 0
    then err (plain "subnetIDs is empty")
    else if length subnets == 0
    then err (plain "describe subnets returned no result")
    else do
      p ←
          consider_all allowed (by_id subnets []) requested
            (record { selected = no_selection; missing = allowed })
      conclude allowed p

-- strings.ReplaceAll(s, "_", "-")
unfoldable pub underscores_to_dashes : String → String
underscores_to_dashes String.[] = String.[]
underscores_to_dashes (String.◌∷◌ c s) =
    String.◌∷◌ (if eqb (code c) b'_' then dash else c) (underscores_to_dashes s)

unfoldable pub one_of : String → List String → Bool
one_of s [] = false
one_of s (t ∷ ts) = let rest = one_of s ts in if s == t then true else rest

-- normalizeSpreadPolicy
unfoldable pub normalize_spread_policy : String → String
normalize_spread_policy policy =
    let p = to_lower (underscores_to_dashes (trim_space policy)) in
    if one_of p ("" ∷ "none" ∷ [])
    then ""
    else if one_of p ("balanced" ∷ "balanced-best-effort" ∷ "balancedbesteffort" ∷ [])
    then "balanced-best-effort"
    else if one_of p ("balanced-only" ∷ "balancedonly" ∷ "strict-balanced" ∷ [])
    then "balanced-only"
    else p

-- availabilityZoneDistributionForSpreadPolicy; %q is written with plain quotes.
unfoldable pub distribution_for_spread_policy : String → Result AwsError (Option Distribution)
distribution_for_spread_policy policy =
    let p = normalize_spread_policy policy in
    if p == ""
    then ok none
    else if one_of p ("balanced" ∷ "balanced-best-effort" ∷ [])
    then ok (some balanced_best_effort)
    else if p == "balanced-only"
    then ok (some balanced_only)
    else err (plain (concat ("unsupported spec.placement.spreadPolicy \"" ∷ policy ∷ "\"" ∷ [])))
