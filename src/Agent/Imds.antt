-- ===== src/Agent/Imds.antt =====
-- internal/agent/imds/imds.go
use tiproxy_machine_operator.Prelude.{
  Bool, Bool-cases, Option, Result, String, err, false, if◌then◌else◌, inl, inr, int_eq, leb, ltb,
  nat_eq, none, not, ok, refl, some, string_eq, ℕ, ◌&&◌, ◌==◌, ◌≡◌,
}
use tiproxy_machine_operator.Text.{trim_space}

-- A response: its status and its body, whose first 4096 bytes are read.
pub record Response : Type 0 where
  pub status : ℕ
  pub body : Result String String

-- What the environment answers: the variable TIPROXY_MACHINE_ID ("" if it is not set), the two
-- requests of the metadata server (the second with a token, if one was given), and the host name.
pub record ProcessEnvironment : Type 0 where
  pub machine_id_variable : String
  pub answer_token : Option Response
  pub answer_instance_id : Option String → Result String Response
  pub host_name : Result String String

abbrev pub is_success : ℕ → Bool
is_success status = leb 200 status && ltb status 300

-- The token; an error of reading the body is dropped.
unfoldable pub token_of : Option Response → String
token_of none = ""
token_of (some r) =
    if is_success r.status then elim r.body [ ok s ↦ trim_space s | err e ↦ "" ] else ""

unfoldable pub instance_id_of : Result String Response → Result String String
instance_id_of (err e) = err e
instance_id_of (ok r) = elim r.body [
  | err e ↦ err e
  | ok s ↦
      if is_success r.status
      then ok (trim_space s)
      else err "metadata server returned non-success status"
]

-- queryInstanceID
unfoldable pub query_instance_id : ProcessEnvironment → Result String String
query_instance_id env =
    let token = token_of env.answer_token in
    instance_id_of (env.answer_instance_id (if token == "" then none else some token))

-- `err == nil && v != ""`
abbrev pub text_or : Result String String → String → String
text_or (err e) fallback = fallback
text_or (ok s) fallback = if s == "" then fallback else s

-- ResolveMachineID
unfoldable pub resolve_machine_id : ProcessEnvironment → String → String
resolve_machine_id env explicit =
    if not (explicit == "")
    then explicit
    else if not (env.machine_id_variable == "")
    then env.machine_id_variable
    else text_or (query_instance_id env) (text_or env.host_name "unknown-machine")

text_or-nonempty :
    (r : Result String String) (fallback : String)
    → fallback == "" ≡ false
    → text_or r fallback == "" ≡ false
text_or-nonempty (err e) fallback given = given
text_or-nonempty (ok s) fallback given = elim (Bool-cases (s == "")) [
  | inl empty_text ↦ rw empty_text given
  | inr some_text ↦ rw (some_text, some_text) refl
]

-- The id that ResolveMachineID finds is never empty, whatever the environment answers, so a machine
-- always has an entry to report its status in.
pub resolve_machine_id-nonempty :
    (env : ProcessEnvironment) (explicit : String) → resolve_machine_id env explicit == "" ≡ false
unfolding resolve_machine_id
resolve_machine_id-nonempty env explicit = elim (Bool-cases (explicit == "")) [
  | inr given ↦ rw (given, given) refl
  | inl absent ↦ elim (Bool-cases (env.machine_id_variable == "")) [
    | inr given ↦ rw (absent, given, given) refl
    | inl unset ↦
        rw (absent, unset)
          (text_or-nonempty (query_instance_id env) (text_or env.host_name "unknown-machine")
            (text_or-nonempty env.host_name "unknown-machine" refl))
  ]
]
