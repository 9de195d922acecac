-- ===== src/Controller/Select/Watch.antt =====
-- The watches of SetupWithManager against the lists of Reconcile.
use tiproxy_machine_operator.Prelude.{string_eq}
