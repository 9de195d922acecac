-- ===== src/Kube.antt =====
-- What the program sees of Kubernetes: the parts of apimachinery's data that it reads or writes,
-- the errors of the API server, and an interface for the helpers of apimachinery and
-- controller-runtime, whose code is not in the repository.
use tiproxy_machine_operator.Prelude.{
  Bool, List, Option, String, [], false, if◌then◌else◌, int_eq, nat_eq, none, some, string_eq, true,
  ℤ, ◌==◌, ◌∷◌, ◌≡◌, ◌≢◌,
}

-- types.NamespacedName
pub record NamespacedName : Type 0 where
  pub namespace : String
  pub name : String

-- metav1.Time in nanoseconds; `none` is the zero time.
abbrev pub Time : Type 0
Time = Option ℤ

-- metav1.ObjectMeta; a nil deletion timestamp is `none`.
pub record ObjectMeta : Type 0 where
  pub name : String
  pub namespace : String
  pub uid : String
  pub generation : ℤ
  pub deletion_timestamp : Time
  pub finalizers : List String

-- metav1.ConditionStatus
pub data ConditionStatus : Type 0 where
  condition_true condition_false condition_unknown : ConditionStatus

-- metav1.Condition
pub record Condition : Type 0 where
  pub kind : String
  pub status : ConditionStatus
  pub reason : String
  pub text : String
  pub observed_generation : ℤ
  pub last_transition_time : Time

-- An error of a call: `IsNotFound` and `IsConflict` of apierrors tell the first two kinds apart.
pub data ApiError : Type 0 where
  not_found : String → ApiError
  conflict : String → ApiError
  api_failure : String → ApiError

-- err.Error()
abbrev pub text_of : ApiError → String
text_of (not_found s) = s
text_of (conflict s) = s
text_of (api_failure s) = s

-- The condition of a type among the conditions of an object.
unfoldable pub find_condition : String → List Condition → Option Condition
find_condition kind [] = none
find_condition kind (c ∷ cs) = if c.kind == kind then some c else find_condition kind cs

-- That a condition is there with the status, reason, message and generation that were set. The
-- transition time is not spoken of: SetStatusCondition keeps the old one if the status is the same.
abbrev pub Shows : Condition → Option Condition → Type 0
Shows c none = ⊥
Shows c (some d) =
    (d.kind ≡ c.kind)
    × (d.status ≡ c.status)
    × (d.reason ≡ c.reason)
    × (d.text ≡ c.text)
    × (d.observed_generation ≡ c.observed_generation)

-- apimeta.SetStatusCondition, and controllerutil's ContainsFinalizer, AddFinalizer and
-- RemoveFinalizer, with what their documentation says.
pub record Helpers : Type 0 where
  pub set_status_condition : List Condition → Condition → List Condition
  pub contains_finalizer : List String → String → Bool
  pub add_finalizer : List String → String → List String
  pub remove_finalizer : List String → String → List String
  pub find-set :
      (cs : List Condition) (c : Condition)
      → Shows c (find_condition c.kind (set_status_condition cs c))
  pub find-set_other :
      (cs : List Condition) (c : Condition) (kind : String)
      → kind ≢ c.kind
      → find_condition kind (set_status_condition cs c) ≡ find_condition kind cs
  pub contains-add :
      (fs : List String) (f : String) → contains_finalizer (add_finalizer fs f) f ≡ true
  pub contains-remove :
      (fs : List String) (f : String) → contains_finalizer (remove_finalizer fs f) f ≡ false
