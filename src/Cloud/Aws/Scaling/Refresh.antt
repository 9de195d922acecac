-- ===== src/Cloud/Aws/Scaling/Refresh.antt =====
-- ensureImageRollingRefresh and the sizes of ensureAutoScalingGroup.
use tiproxy_machine_operator.Api.{MachineGroupSpec}
use tiproxy_machine_operator.Cloud.Aws.Calls.{
  AutoScalingGroup, Aws, AwsHistory, RefreshStatus, describe_refreshes, do_call, start_refresh,
  tag_asg,
}
use tiproxy_machine_operator.Cloud.Aws.Errors.{AwsError, is_instance_refresh_in_progress}
use tiproxy_machine_operator.Cloud.Aws.Scaling.{
  any_active, ensure_image_rolling_refresh, has_active_instance_refresh, image_hash_tag,
  set_asg_tag, sizes_of, start_rolling,
}
use tiproxy_machine_operator.Cloud.Aws.Template.{asg_tag_value}
use tiproxy_machine_operator.Effects.{call, continue, lift, ◌>>=◌}
use tiproxy_machine_operator.Prelude.{
  Bool-cases, List, Option-cases, Result-cases, String, arith, false, inl, inr, int_eq, nat_eq,
  none, ok, some, string_eq, true, ◌==◌, ◌∷◌, ◌≡◌, ◌≤ℤ◌,
}

-- The calls of a group that has instances of another image, by what AWS answered: it waits while a
-- refresh is active, the refresh is refused, or it has started, and then the tag is set.
pub data Rolled (aws : Aws) (name : String) (hash : String) (h : AwsHistory)
    : AwsHistory → Type 0 where
  waits :
      ((ss : List RefreshStatus) → aws.answer_refreshes h name ≡ ok ss → any_active ss ≡ true)
      → Rolled aws name hash h (describe_refreshes name ∷ h)
  refused :
      (e : AwsError)
      → aws.answer_done (describe_refreshes name ∷ h) (start_refresh name) ≡ some e
      → Rolled aws name hash h (start_refresh name ∷ describe_refreshes name ∷ h)
  rolled :
      aws.answer_done (describe_refreshes name ∷ h) (start_refresh name) ≡ none
      → Rolled aws name hash h
          (tag_asg name image_hash_tag hash ∷ start_refresh name ∷ describe_refreshes name ∷ h)

module _ (aws : Aws) (name : String) (hash : String) where
  refused-Rolled :
      (e : AwsError) (h : AwsHistory)
      → aws.answer_done (describe_refreshes name ∷ h) (start_refresh name) ≡ some e
      → Rolled aws name hash h ((start_rolling aws name hash false (describe_refreshes name ∷ h)).1)
  unfolding start_rolling ◌>>=◌ continue call lift
  refused-Rolled e h answer = elim (Bool-cases (is_instance_refresh_in_progress e)) [
    | inl busy ↦ rw (answer, busy) (refused e answer)
    | inr other ↦ rw (answer, other) (refused e answer)
  ]

  idle-Rolled :
      (h : AwsHistory)
      → Rolled aws name hash h ((start_rolling aws name hash false (describe_refreshes name ∷ h)).1)
  unfolding start_rolling ◌>>=◌ continue call set_asg_tag do_call
  idle-Rolled h =
      elim (Option-cases (aws.answer_done (describe_refreshes name ∷ h) (start_refresh name))) [
        | inl answer ↦ rw answer (rolled answer)
        | inr (e, answer) ↦ refused-Rolled e h answer
      ]

  -- A group that has instances and is tagged with another image hash gets the new hash as its tag
  -- only right after an instance refresh has been started; it is not started only if AWS does not
  -- say that none is active, and the tag is not set only if it is not started or AWS refuses it.
  pub ensure_image_rolling_refresh-Rolled :
      (asg : AutoScalingGroup) (h : AwsHistory)
      → hash == "" ≡ false
      → asg_tag_value asg.tags image_hash_tag == "" ≡ false
      → asg_tag_value asg.tags image_hash_tag == hash ≡ false
      → asg.instances == 0 ≡ false
      → Rolled aws name hash h ((ensure_image_rolling_refresh aws name asg hash h).1)
  unfolding ensure_image_rolling_refresh has_active_instance_refresh ◌>>=◌ continue call lift
      start_rolling
  ensure_image_rolling_refresh-Rolled asg h some_hash tagged differs running =
      elim (Result-cases (aws.answer_refreshes h name)) [
        | inl (ss, answer) ↦ elim (Bool-cases (any_active ss)) [
          | inl busy ↦
              rw (some_hash, tagged, differs, running, answer, busy)
                (waits (λ tt' other. ground (arith, answer, other, busy)))
          | inr free ↦ rw (some_hash, tagged, differs, running, answer, free) (idle-Rolled h)
        ]
        | inr (e, failed) ↦
            rw (some_hash, tagged, differs, running, failed)
              (waits (λ ss answer. ground (arith, failed, answer)))
      ]

-- The sizes are in order: the minimum, the desired capacity, the maximum.
pub sizes_of-bounds :
    (spec : MachineGroupSpec)
    → ((sizes_of spec).min_size ≤ℤ (sizes_of spec).desired)
      × ((sizes_of spec).desired ≤ℤ (sizes_of spec).max_size)
unfolding sizes_of
sizes_of-bounds spec = ground arith
