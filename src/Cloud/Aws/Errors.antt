-- ===== src/Cloud/Aws/Errors.antt =====
-- Errors of the AWS clients, and what isNotFound and isInstanceRefreshInProgress read of them.
use Prim.Native.Char.{code}
use tiproxy_machine_operator.Prelude.{
  Bool, List, Option, String, [], eqb, false, if◌then◌else◌, int_eq, nat_eq, none, some, string_eq,
  true, ◌==◌, ◌||◌, ◌∷◌,
}
use tiproxy_machine_operator.Text.{concat, to_lower}

-- An error: its text, and the code and the message of the smithy.APIError in its chain.
pub record AwsError : Type 0 where
  pub text : String
  pub api : Option (String × String)

-- fmt.Errorf without and with %w: a wrapped error keeps the chain.
abbrev pub plain : String → AwsError
plain s = record { text = s; api = none }

abbrev pub wrap : List String → AwsError → AwsError
wrap pieces e = record e { text = concat (concat pieces ∷ ": " ∷ e.text ∷ []) }

abbrev pub starts_with : String → String → Bool
starts_with String.[] s = true
starts_with (String.◌∷◌ c t) String.[] = false
starts_with (String.◌∷◌ c t) (String.◌∷◌ d s) =
    let rest = starts_with t s in if eqb (code c) (code d) then rest else false

-- strings.Contains(s, t)
unfoldable pub contains_text : String → String → Bool
contains_text String.[] t = t == ""
contains_text (String.◌∷◌ c s) t =
    let rest = contains_text s t in if starts_with t (String.◌∷◌ c s) then true else rest

abbrev speaks_of_absence : String → Bool
speaks_of_absence msg =
    let low = to_lower msg in contains_text low "not found" || contains_text low "does not exist"

unfoldable pub is_not_found : AwsError → Bool
is_not_found e = if speaks_of_absence e.text then true else elim e.api [
  | none ↦ false
  | some (code', message) ↦
      if contains_text (to_lower code') "notfound"
      then true
      else if to_lower code' == "validationerror"
      then speaks_of_absence message
      else false
]

-- strings.EqualFold of a code in ASCII, as the codes of AWS are, is equality of the lower cases.
unfoldable pub is_instance_refresh_in_progress : AwsError → Bool
is_instance_refresh_in_progress e = elim e.api [
  | none ↦ false
  | some (code', message) ↦ to_lower code' == to_lower "InstanceRefreshInProgress"
]
