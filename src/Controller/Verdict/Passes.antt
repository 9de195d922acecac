-- ===== src/Controller/Verdict/Passes.antt =====
-- The last status that a pass of Reconcile writes.
use tiproxy_machine_operator.Controller.Exec.{Environment, History}
use tiproxy_machine_operator.Controller.Reconcile.{Outcome}
use tiproxy_machine_operator.Controller.Verdict.{LastReady, is_done}
use tiproxy_machine_operator.Kube.{ObjectMeta}

module _ (env : Environment) where
  -- What a pass ends with, and what it has written last.
  abbrev Agrees : ObjectMeta → Outcome → History → Type 0
  Agrees meta out h = LastReady meta (is_done out) h
