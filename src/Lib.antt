-- ===== src/Lib.antt =====
-- Fence Agents Remediation (FAR), medik8s/fence-agents-remediation: a Kubernetes operator that
-- fences an unhealthy node with a fence agent and then frees its workload.
--
-- The parts and how they interact. A user or the Node Healthcheck operator makes a resource
-- FenceAgentsRemediation named after a node. The remediation controller reconciles it: it adds a
-- finalizer and a taint, builds the agent's parameters and hands the command to the executer, whose
-- goroutine runs it with retries and records the outcome as the resource's conditions; a later
-- reconciliation sees the success and deletes the node's pods or adds the out-of-service taint; the
-- deletion of the resource stops the agent and takes the taints and the finalizer away. The template
-- controller tests the parameters of a FenceAgentsRemediationTemplate by a status command on a sample
-- of the nodes. The two controllers and the executer meet in the resource's status and in the
-- executer's table.
--
-- Which file models which part:
--   Objects, Api           the Kubernetes objects and api/v1alpha1/*_types.go
--   Api/Params             api/v1alpha1/fenceagentsremediation_params.go: validateFenceAgentParams,
--                          validateFenceAction, GetNodeName; what they give: Precedence, Actions
--   Api/Secrets            the same file: collectAllSecretParams and what it calls,
--                          BuildFenceAgentParams; what they give: Layers, Build
--   Template               pkg/template/template.go
--   Utils/Conditions       pkg/utils/conditions.go: UpdateConditions; Progress is an abstract step on
--                          the three statuses; Requests, Refinement and Identity relate the two
--   Utils/Nodes            pkg/utils/nodes.go
--   Utils/Taints           pkg/utils/taints.go; Lists, Effects and Cluster say what it does
--   Utils/Pods             pkg/utils/pods.go and pkg/utils/namespaces.go
--   Cli/Routines           pkg/cli/cliexecuter.go: NewExecuter, Exists, AsyncExecute, Remove; Liveness
--   Cli/Executer           the same file: runWithRetry, SyncExecute, fenceAgentRoutine,
--                          updateStatusWithRetry, updateStatus, getFenceAgentsRemediationByUID;
--                          Attempts, Records and Bounds say what a goroutine does
--   Remediation            internal/controller/fenceagentsremediation_controller.go: the state,
--                          updateStatus, isTimedOutByNHC, mapToSliceConvert; Deletion has
--                          handleFARDeletion and Phases has Reconcile; Executers, Starts, Calls,
--                          Within, Ready, Workload, OutOfService, Lifecycle, Cleanup, Release and
--                          Status say what they do
--   Templates              internal/controller/fenceagentsremediationtemplate_controller.go:
--                          runFenceStatus; Sample has calculateSampleSize and GetNodeNamesFromSpec,
--                          Validate has validateFenceStatusForTemplate, Reconcile has Reconcile;
--                          Outputs, Status and Validate/Progress say what one does, and
--                          Validate/Names, Missing and Rounds what several in a row do
--   Admission              validateSpec and the validators of fenceagentsremediation_params.go; Refusals
--                          says when they accept; Defaults has the defaulters of
--                          internal/webhook/v1alpha1
--   Validation             pkg/validation/validation.go: the check for an agent and the version check;
--                          Numbers has strconv.Atoi, Version says what the check decides
--   Startup                cmd/main.go: main and configureWebhookOpts; Runs says what a started program
--                          has and when main panics, Tls which protocols it offers, Support on which
--                          versions the webhooks accept the strategy OutOfServiceTaint
--   Operator               the controller and the executer together: Safety has the steps of the operator
--                          and what holds after any sequence of them; Ledger, Phases, Reconciles,
--                          Routines and Ends say what one step writes to the status of a resource;
--                          History and Covered relate that to the commands that have been run
--   Errors, Prelude        Go's errors, results and panics; maps, lists and signed integers
--   Libraries              the libraries that the program calls, as interfaces with documented laws
--   Tests                  concrete libraries and clusters, and the theorems at concrete inputs
--
-- The state is passed explicitly. `W` is the cluster, and every call of the client takes it and gives
-- it back, so that anything may have changed between two calls; a theorem that needs a cluster on which
-- nobody else writes nodes takes `QuietNodes`, one about pods takes `Workload`, and one about the
-- out-of-service taint takes `TaintHistory`. Logging is left out, except where it dereferences a nil
-- pointer. The executer's lock makes its operations follow one another, so interleavings are sequences
-- of operations (`Reached`). A method on a pointer returns the changed record. A Go map is an association list whose order is that of `range`; theorems hold for every order.
-- A panic is `panicked`, or `none` in UpdateConditions.
--
-- A step of the operator is a whole reconciliation or the whole work of a goroutine; in each call of the
-- client others may change the cluster, as long as they do not make FenceAgentActionSucceeded True
-- (`Quiet`). A goroutine of the steps has a positive number of attempts and a context that is not over
-- at its start or has been canceled. What the template controller does is a step of others.
--
-- Bounds and fuel. Nothing runs on fuel of its own: the backoff's rounds are the number of attempts
-- that the program passes, and loops are structural recursions. Go's int is ℤ, and strconv.Atoi refuses
-- what does not fit 64 bits; no other operation of the program reaches them. Times are ℕ.
--
-- Not modelled: what the registrations of the controllers and webhooks do in the libraries, and the
-- version that main prints; generated and vendored code. The operating system's run of a command, its
-- files and the version of Kubernetes are parameters.
pub mod Prelude
pub mod Errors
pub mod Objects
pub mod Libraries
pub mod Api
pub mod Utils
pub mod Template
pub mod Cli
pub mod Remediation
pub mod Templates
pub mod Validation
pub mod Admission
pub mod Startup
pub mod Operator
mod Tests
