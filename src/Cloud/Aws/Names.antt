-- ===== src/Cloud/Aws/Names.antt =====
-- awsResourceName, loadBalancerName and targetGroupName. The length of a cleaned name is counted in
-- characters, which are ASCII there, so it is Go's length in bytes.
pub mod Shape
pub mod Bounds
use Prim.Native.String
use Prim.Native.Char.{Char, code}
use Prim.Native.String.{char_at}
use tiproxy_machine_operator.Api.{LoadBalancerExposureSpec, MachineGroup}
use tiproxy_machine_operator.Prelude.{
  Bool, String, [], eqb, false, if◌then◌else◌, int_eq, leb, ltb, nat_eq, string_eq, suc, true, zero,
  ℕ, ℤ, ◌&&◌, ◌-◌, ◌==◌, ◌∷◌,
}
use tiproxy_machine_operator.Text.{concat, show_int, to_lower, trim_space}

-- len of an ASCII text.
abbrev pub size : String → ℕ
size String.[] = 0
size (String.◌∷◌ c s) = suc (size s)

abbrev pub dash : Char
dash = char_at "-" 0

abbrev pub is_dash : Char → Bool
is_dash c = eqb (code c) b'-'

abbrev pub is_letter : Char → Bool
is_letter c = leb b'a' (code c) && leb (code c) b'z'

abbrev pub is_digit : Char → Bool
is_digit c = leb b'0' (code c) && leb (code c) b'9'

-- The switch of the loop, for one character.
unfoldable pub clean_char : Char → Char
clean_char c = if is_letter c then c else if is_digit c then c else if is_dash c then c else dash

unfoldable pub clean : String → String
clean String.[] = String.[]
clean (String.◌∷◌ c s) = String.◌∷◌ (clean_char c) (clean s)

-- strings.Trim with the cutset "-".
unfoldable pub trim_left_dash : String → String
trim_left_dash String.[] = String.[]
trim_left_dash (String.◌∷◌ c s) =
    let rest = trim_left_dash s in if is_dash c then rest else String.◌∷◌ c s

unfoldable pub trim_right_dash : String → String
trim_right_dash String.[] = String.[]
trim_right_dash (String.◌∷◌ c s) =
    let rest = trim_right_dash s in if is_dash c && rest == "" then "" else String.◌∷◌ c rest

unfoldable pub trim_dash : String → String
trim_dash s = trim_right_dash (trim_left_dash s)

-- strings.Contains(name, "--") and strings.ReplaceAll(name, "--", "-").
unfoldable pub has_double : String → Bool
has_double String.[] = false
has_double (String.◌∷◌ c String.[]) = false
has_double (String.◌∷◌ c (String.◌∷◌ d s)) =
    let rest = has_double (String.◌∷◌ d s) in if is_dash c && is_dash d then true else rest

unfoldable pub replace_double : String → String
replace_double String.[] = String.[]
replace_double (String.◌∷◌ c String.[]) = String.◌∷◌ c String.[]
replace_double (String.◌∷◌ c (String.◌∷◌ d s)) =
    let after = replace_double s in
    let rest = replace_double (String.◌∷◌ d s) in
    if is_dash c && is_dash d then String.◌∷◌ dash after else String.◌∷◌ c rest

-- The loop that replaces until there is nothing to replace, with fuel for the rounds.
unfoldable pub collapse : ℕ → String → String
collapse zero s = s
collapse (suc fuel) s =
    let rest = collapse fuel (replace_double s) in if has_double s then rest else s

-- s[:n]
unfoldable pub prefix : ℕ → String → String
prefix zero s = String.[]
prefix (suc n) String.[] = String.[]
prefix (suc n) (String.◌∷◌ c s) = String.◌∷◌ c (prefix n s)

abbrev pub starts_with_letter : String → Bool
starts_with_letter String.[] = false
starts_with_letter (String.◌∷◌ c s) = is_letter c

abbrev pub or_tpm : String → String
or_tpm s = if s == "" then "tpm" else s

abbrev pub lead : String → String
lead s = if starts_with_letter s then s else concat ("tpm-" ∷ s ∷ [])

-- The name before its length is looked at.
unfoldable pub long_name : String → String
long_name raw =
    let name = lead (or_tpm (trim_dash (clean (to_lower (trim_space raw))))) in
    collapse (size name) name

-- awsResourceName. `sha256_hex` is crypto/sha256, in hexadecimal. The suffix has at least as many
-- characters as the length allows where the source finds `prefixLen` negative.
module _ (sha256_hex : String → String) where
  unfoldable pub shorten : String → ℕ → String
  shorten name max_len =
      let suffix = concat ("-" ∷ prefix 8 (sha256_hex name) ∷ []) in
      let prefix_len = max_len - size suffix in
      if leb (size name) max_len
      then name
      else if ltb prefix_len 3
      then prefix max_len name
      else concat (or_tpm (trim_dash (prefix prefix_len name)) ∷ suffix ∷ [])

  unfoldable pub aws_resource_name : String → ℕ → String
  aws_resource_name raw max_len = if eqb max_len 0 then "" else shorten (long_name raw) max_len

  -- Manager.loadBalancerName
  unfoldable pub load_balancer_name : MachineGroup → LoadBalancerExposureSpec → String
  load_balancer_name mg lb =
      let name = trim_space lb.load_balancer_name in
      let made = concat ("tpm-" ∷ mg.meta.namespace ∷ "-" ∷ mg.meta.name ∷ "-" ∷ lb.name ∷ []) in
      aws_resource_name (if name == "" then made else name) 32

  -- Manager.targetGroupName
  unfoldable pub target_group_name : MachineGroup → LoadBalancerExposureSpec → ℤ → String
  target_group_name mg lb port =
      aws_resource_name
        (concat (
          "tpm-"
          ∷ mg.meta.namespace
          ∷ "-"
          ∷ mg.meta.name
          ∷ "-"
          ∷ lb.name
          ∷ "-p"
          ∷ show_int port
          ∷ []))
        32
