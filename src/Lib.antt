-- ===== src/Lib.antt =====
-- A model of the TiProxy machine operator: a Kubernetes controller that gives the machine ports of a
-- group their numbers, sets the group up in a cloud, and tells the machines' agents which links
-- (resource pools of TiDB clusters) to serve at which port.
--
-- - Prelude, Text: lists, tests, machine integers, association lists for Go's maps, results with an
--   error, and the texts of fmt and strings. trim_space trims what unicode.IsSpace names. to_lower
--   changes the ASCII letters and the two other letters whose lower case is one of them: its result
--   is compared with ASCII words, or its other characters become dashes, but for the texts of two
--   errors.
-- - Allocator: internal/portallocator/allocator.go. reconcile_ports is ReconcilePorts; requests_of
--   is its first loop and its sort, pin_all, keep_all and fill_all are its three other loops, and
--   find_next is findNext. An int32 is an integer, and inc_int32 is `next++` with its wrap. find_next
--   runs on fuel: each round but the last meets a used port, so one round more than there are used
--   ports is enough for ranges that end below the largest int32.
-- - Effects: functions that make calls of other systems and may fail. Such a function takes the
--   history of the calls made so far, the latest first, and returns a result or an error, and the
--   longer history; what the other systems answer is a function of the history.
-- - Kube: the data of Kubernetes that the program uses, the errors of its API, and an interface for
--   the helpers of apimachinery and controller-runtime, with the laws that their documentation gives.
-- - Api, Exposure: api/v1alpha1. The types, their small methods, and NormalizeLoadBalancers.
-- - Cloud: internal/cloud/manager.go, the interface of cloud managers; Cloud/Contract, what a client
--   may rely on in a manager that returns no error; and Cloud/Noop: internal/cloud/noop/manager.go.
-- - Cloud/Aws: internal/cloud/aws/manager.go. Calls has the calls of the SDK and, in the record Aws,
--   their answers. Names is awsResourceName and what uses it, Errors is isNotFound, Placement is
--   selectPlacementSubnets, Template has the tags, the launch template's data and the user data,
--   Balancers the load balancers, Deletion their deletion, Targets the target groups and listeners,
--   Scaling the launch template, the auto scaling group and the instance refresh, Exposing and
--   Serving ensureLoadBalancerExposure, Group EnsureMachineGroup and DeleteMachineGroup. What AWS
--   answers is not restricted, but for NamesListeners of Serving/Arns: a theorem that needs it takes
--   as a hypothesis that the listeners AWS describes or creates have an ARN. aws_manager
--   is the manager as the controller has it. The loop of awsResourceName over "--" runs on fuel: each round
--   makes the name shorter, so its length is enough.
-- - Controller: internal/controller/machinegroup_controller.go. Exec has the calls of the controller;
--   what the API server, the cloud and the clock answer is in the record Environment. Select is
--   listManagedLinks and listManagedMachinePorts, Assign is assignPortsToLinks, Resolve is buildResolvedLinks and
--   resolvedLinkHash, Prune is pruneStaleMachineStatuses, PortStatus has the statuses of ports and
--   links, Reconcile the functions below Reconcile, Group the handler Reconcile itself. Sound and
--   Provision follow the calls over any sequence of passes, Undone and Verdict those of one pass.
-- - Agent/Render: internal/agent/config/render.go. build_tiproxy_config is BuildTiProxyConfig; the
--   verb %q of fmt is its parameter.
-- - Agent: internal/agent/agent.go. Settings is runtimeSettings and the image's name; Host has the
--   calls of the agent and their answers; Status is upsertMachineStatus and removeMachineStatus;
--   Sync is syncOnce and Run, whose rounds are counted, and Sync/Held follows the configuration file.
--   Docker is internal/agent/docker/runner.go,
--   and Imds is internal/agent/imds/imds.go.
--
-- A merge patch is a call with the object and its base; what the server makes of it is its answer.
-- A group that the controller reads is a value: what the controller changes in it is written out.
-- A map is an association list. Where the order of a loop over a Go map shows, in the calls of AWS,
-- it is the order of that list. The lengths of names and of slices are counted in characters.
--
-- Not modelled: the entry points (cmd), the generated deep copies, NewManager's loading of the SDK's
-- configuration, logs, contexts, tickers and time limits.
pub mod Prelude
pub mod Text
pub mod Effects
pub mod Allocator
pub mod Kube
pub mod Api
pub mod Exposure
pub mod Cloud
pub mod Controller
pub mod Agent
