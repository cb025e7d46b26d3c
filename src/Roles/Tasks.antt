-- ===== src/Roles/Tasks.antt =====
-- The tasks of an Aggregator, and their configuration by Taskprov (`resolve_taskprov` in
-- crates/daphne/src/roles/mod.rs). The methods of `DapAggregator` that it calls belong to the
-- deployment. The advertised configuration (`resolve_advertised_task_config` in
-- crates/daphne/src/taskprov.rs) is a parameter.
use daphne.Common.{◌≡◌, Option, none, some, if◌then◌else◌}
use daphne.Codec.Base.{Bytes}
use daphne.Errors.{Outcome, ok, err, abort, unrecognized_task}
use daphne.Messages.Ids.{TaskId}
use daphne.Messages.Hpke.{HpkeConfig}
use daphne.Task.{DapTaskConfig, DapGlobalConfig}
use daphne.Request.{DapRequest}
use daphne.Roles.Calls.{Call, ◌>>=◌, returns, lift, reads}

pub record DapTasks (S Store : Type 0) : Type 1 where
  pub NeedsOptIn : Type 0
  pub get_global_config : Store → Outcome DapGlobalConfig
  pub get_task_config_for : TaskId → Store → Outcome (Option DapTaskConfig)
  pub taskprov_vdaf_verify_key_init : Option Bytes
  pub taskprov_collector_hpke_config : Option HpkeConfig
  pub resolve_advertised_task_config :
      DapRequest S → Bytes → HpkeConfig → TaskId → Outcome (Option NeedsOptIn)
  pub taskprov_opt_in : TaskId → NeedsOptIn → DapGlobalConfig → Call Store DapTaskConfig
  pub taskprov_put : DapRequest S → DapTaskConfig → Call Store (Unit {0})

-- `ok_or(DapAbort::UnrecognizedTask)`
unfoldable pub or_unrecognized : Option DapTaskConfig → Outcome DapTaskConfig
or_unrecognized (some t) = ok t
or_unrecognized none = err (abort unrecognized_task)

module _ {S Store : Type 0} (tasks : DapTasks S Store) (task_id : TaskId) (req : DapRequest S)
    (g : DapGlobalConfig) where
  put_advertised : Option tasks.NeedsOptIn → Call Store (Unit {0})
  put_advertised none = returns tt
  put_advertised (some advertised) = do
    t ← tasks.taskprov_opt_in task_id advertised g
    tasks.taskprov_put req t

  advertise : Option Bytes → Option HpkeConfig → Call Store (Unit {0})
  unfolding put_advertised
  advertise none collector_hpke_config = returns tt
  advertise (some vdaf_verify_key_init) none = returns tt
  advertise (some vdaf_verify_key_init) (some collector_hpke_config) = do
    advertised ← lift (
        tasks.resolve_advertised_task_config req vdaf_verify_key_init collector_hpke_config task_id)
    put_advertised advertised

  unless_configured : Option DapTaskConfig → Call Store (Unit {0})
  unfolding advertise
  unless_configured (some t) = returns tt
  unless_configured none =
      advertise tasks.taskprov_vdaf_verify_key_init tasks.taskprov_collector_hpke_config

  unfoldable pub resolve_taskprov : Call Store (Unit {0})
  unfolding unless_configured
  resolve_taskprov = do
    configured ← reads (tasks.get_task_config_for task_id)
    unless_configured configured

  -- The tasks are resolved before the look-up, if Taskprov is allowed: `between` is the state that
  -- this leaves.
  abbrev pub IsResolved : Store → Store → Type 0
  IsResolved store between =
      (tasks.get_global_config store ≡ ok g)
      × ((if g.allow_taskprov then resolve_taskprov else returns tt) store ≡ (ok tt, between))
