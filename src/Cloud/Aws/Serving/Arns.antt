-- ===== src/Cloud/Aws/Serving/Arns.antt =====
-- The ARNs of the listeners that ensureListener returns.
use tiproxy_machine_operator.Cloud.Aws.Balancers.{describe_listeners_by_lb, head_of}
use tiproxy_machine_operator.Cloud.Aws.Calls.{
  Aws, AwsCall, AwsHistory, Listener, or_absent, to_string, wrapped,
}
use tiproxy_machine_operator.Cloud.Aws.Errors.{AwsError, is_not_found}
use tiproxy_machine_operator.Cloud.Aws.Exposing.{listener_at, listeners_by_port}
use tiproxy_machine_operator.Cloud.Aws.Targets.{adapt_listener, ensure_listener, new_listener}
use tiproxy_machine_operator.Effects.Hoare.{
  Anything, Post, Runs, bind-Runs, call-Runs, frame-Runs, lift-Runs, then-Runs,
}
use tiproxy_machine_operator.Prelude.{
  All, Bool, Bool-cases, List, Option-cases, Result, String, [], arith, err, false, inl, inr,
  int_eq, nat_eq, ok, refl, some, string_eq, true, ℤ, ◌==◌, ◌∷◌, ◌≡◌,
}
use tiproxy_machine_operator.Prelude.Assoc.{Map, get, get-put, put}
use tiproxy_machine_operator.Text.{trim_space}

-- What the documentation of Elastic Load Balancing says of its answers: a listener that is described
-- or created has an ARN, and that is not blank.
abbrev pub HasArn : Listener → Type 0
HasArn l = (trim_space (to_string l.arn) == "") ≡ false

abbrev pub NamesListeners : Aws → Type 0
NamesListeners aws =
    (h : AwsHistory) (c : AwsCall) (ls : List Listener)
    → aws.answer_listeners h c ≡ ok ls
    → All HasArn ls

-- Each listener that a map by port has.
abbrev pub AllNamed : Map ℤ Listener → Type 0
AllNamed m = (port : ℤ) (l : Listener) → get port m ≡ some l → HasArn l

pub listeners_by_port-AllNamed :
    (ls : List Listener) (m : Map ℤ Listener)
    → All HasArn ls
    → AllNamed m
    → AllNamed (listeners_by_port ls m)
unfolding listeners_by_port
listeners_by_port-AllNamed [] m named had = had
listeners_by_port-AllNamed (l ∷ ls) m named had = elim (Option-cases l.port) [
  | inl none_given ↦ rw none_given (listeners_by_port-AllNamed ls m named.1 had)
  | inr (port, given) ↦ rw given (
      listeners_by_port-AllNamed ls (put port l m) named.1 (λ q k found.
        elim (Bool-cases (port == q)) [
          | inl same ↦
              let equal : l ≡ k = ground (arith, get-put port q l m, same, found) in
              rw (← equal) named.0
          | inr other ↦ had q k (ground (arith, get-put port q l m, other, found))
        ]))
]

module _ (aws : Aws) (names : NamesListeners aws) where
  described :
      (pieces : List String) (c : AwsCall) (h : AwsHistory) (r : Result AwsError (List Listener))
      → aws.answer_listeners h c ≡ r
      → Post (λ ls h'. All HasArn ls) Anything (or_absent pieces r, c ∷ h)
  described pieces c h (ok ls) answered = names h c ls answered
  described pieces c h (err e) answered = elim (Bool-cases (is_not_found e)) [
    | inl absent ↦ rw absent tt
    | inr other ↦ rw other tt
  ]

  pub describe_listeners_by_lb-HasArn :
      (arn : String)
      → Runs (λ h. Unit {0}) (describe_listeners_by_lb aws arn) (λ ls h. All HasArn ls) Anything
  unfolding describe_listeners_by_lb
  describe_listeners_by_lb-HasArn arn = elim (Bool-cases (arn == "")) [
    | inl blank ↦ rw blank (lift-Runs _ (λ h p. tt))
    | inr given ↦ rw given (call-Runs _ _ (λ h p. described _ _ h _ refl))
  ]

  created :
      (pieces : List String) (c : AwsCall) (h : AwsHistory) (r : Result AwsError (List Listener))
      → aws.answer_listeners h c ≡ r
      → Post (λ ls h'. All HasArn ls) Anything (wrapped pieces r, c ∷ h)
  created pieces c h (ok ls) answered = names h c ls answered
  created pieces c h (err e) answered = tt

  first_named :
      (text : String) (ls : List Listener) (h : AwsHistory)
      → All HasArn ls
      → Post (λ l h'. HasArn l) Anything (head_of text ls, h)
  first_named text [] h named = tt
  first_named text (l ∷ ls) h named = named.0

  new_listener-HasArn :
      (lb_arn : String) (port : ℤ) (tg_arn : String)
      → Runs
          (λ h. Unit {0})
          (new_listener aws lb_arn port tg_arn)
          (λ arn h. (trim_space arn == "") ≡ false)
          Anything
  new_listener-HasArn lb_arn port tg_arn =
      bind-Runs (λ ls h. All HasArn ls) (call-Runs _ _ (λ h p. created _ _ h _ refl))
        (λ ls.
          bind-Runs (λ l h. HasArn l) (lift-Runs _ (λ h named. first_named _ ls h named))
            (λ l. lift-Runs _ (λ h named. named)))

  adapt_listener-HasArn :
      (arn : String) (port : ℤ) (tg_arn : String) (need_modify : Bool)
      → (trim_space arn == "") ≡ false
      → Runs
          (λ h. Unit {0})
          (adapt_listener aws arn port tg_arn need_modify)
          (λ found h. (trim_space found == "") ≡ false)
          Anything
  unfolding adapt_listener
  adapt_listener-HasArn arn port tg_arn true given =
      then-Runs (λ h. Unit {0}) (frame-Runs (Unit {0}) _) (lift-Runs _ (λ h p. given))
  adapt_listener-HasArn arn port tg_arn false given = lift-Runs _ (λ h p. given)

  pub ensure_listener-HasArn :
      (lb_arn : String) (port : ℤ) (tg_arn : String) (listeners : Map ℤ Listener)
      → AllNamed listeners
      → Runs
          (λ h. Unit {0})
          (ensure_listener aws lb_arn port tg_arn (listener_at port listeners))
          (λ arn h. (trim_space arn == "") ≡ false)
          Anything
  unfolding ensure_listener
  ensure_listener-HasArn lb_arn port tg_arn listeners named =
      elim (Option-cases (get port listeners)) [
        | inl nothing ↦ rw (ensure_listener, nothing) (new_listener-HasArn lb_arn port tg_arn)
        | inr (l, there) ↦
            rw (ensure_listener, there)
              (elim (Option-cases l.arn) [
                | inl unnamed ↦ rw unnamed (new_listener-HasArn lb_arn port tg_arn)
                | inr (arn, given) ↦
                    rw given
                      (adapt_listener-HasArn arn port tg_arn _ (rw given at (named port l there)))
              ])
      ]
