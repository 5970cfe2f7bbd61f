-- ===== src/Mesos/Tasks.antt =====
-- cluster/mesos/task: the states of a task, and the table of the tasks that wait for an offer. The
-- `launcher` of the code is a parameter, as there; Build, which fills in what the driver is told, is not
-- modelled.
use cattle.Prelude.{
  Bool, true, false, not, ◌&&◌, List, [], ◌∷◌, ◌++◌, Option, none, some, Text, text, contains,
  if◌then◌else◌,
}
use cattle.Cluster.Data.{lookup, insert, delete}
use cattle.Mesos.Agents.{Task, remove_task, is_some}
use cattle.Mesos.Offers.{Mesos}

-- mesosproto.TaskState
pub data TaskState : Type 0 where
  staging starting running finished failed killed lost task_error : TaskState

-- mesosproto.TaskStatus
pub record TaskStatus : Type 0 where
  pub state : TaskState
  pub data_of : Option Text
  pub message_of : Text

-- The three results of Monitor: whether the task is at its end, its data, and its error.
pub record Monitored : Type 0 where
  pub at_end : Bool
  pub status_data : Option Text
  pub error_text : Option Text

abbrev pub ended_with : Text → Monitored
ended_with message = record { at_end = true; status_data = none; error_text = some message }

abbrev pub advice : Text
advice = text " : please verify your SWARM_MESOS_USER is correctly set"

unfoldable pub failed_message : Text → Text
unfolding contains
failed_message message =
    if contains message (text "Abnormal executor termination") then message ++ advice else message

-- Monitor, by the status that comes.
unfoldable pub by_state : TaskState → Option Text → Text → Monitored
unfolding failed_message
by_state staging d m = record { at_end = false; status_data = d; error_text = none }
by_state starting d m = record { at_end = false; status_data = d; error_text = none }
by_state running d m = record { at_end = false; status_data = d; error_text = none }
by_state finished d m = record { at_end = true; status_data = d; error_text = none }
by_state failed d m = ended_with (failed_message m)
by_state killed d m = record { at_end = true; status_data = d; error_text = none }
by_state lost d m = ended_with m
by_state task_error d m = ended_with m

unfoldable pub monitor : TaskStatus → Monitored
unfolding by_state
monitor s = by_state s.state s.data_of s.message_of

-- suicide: whether a task is given an error when its time is over.
unfoldable pub times_out : Task → Bool
times_out t = not t.done && not (is_some t.launched_on)

-- Stop
unfoldable pub stop : Task → Task
stop t = record t { done = true }

-- The loop of LaunchTask over the statuses of a task that runs; `none` where none of them ends it.
unfoldable pub watch : List TaskStatus → Option (Option Text)
unfolding monitor
watch [] = none
watch (s ∷ rest) =
    let later = watch rest in
    elim (monitor s).error_text [
      | some x ↦ some (some x)
      | none ↦ if (monitor s).at_end then some none else later
    ]

module _ {W : Type 0} where
  -- removeTask of the agent of LaunchTask.
  unfoldable pub drop_task : Text → Text → Mesos W → Mesos W
  unfolding lookup insert remove_task
  drop_task key id c = elim (lookup key c.agents) [
    | none ↦ c
    | some a ↦ record c { agents = insert key (remove_task id a).0 c.agents }
  ]

  -- LaunchTask after the first status: an error takes the task from its agent. Where the task runs on, the
  -- thread that waits for its end changes nothing.
  unfoldable pub first_status : Text → Text → TaskStatus → Mesos W → Mesos W
  unfolding drop_task monitor
  first_status key id s c = elim (monitor s).error_text [ some x ↦ drop_task key id c | none ↦ c ]

-- Tasks, with `launch` for LaunchTask on a state `S`.
module _ {S : Type 0} (launch : Task → S → Bool × S) where
  -- Add
  unfoldable pub add : Task → List (Text × Task) → S → List (Text × Task) × S
  unfolding insert
  add t ts s =
      let (launched, s') = launch t s in ((if launched then ts else insert t.task_id t ts), s')

  -- Process: the tasks that could be launched.
  unfoldable pub launch_all : List (Text × Task) → S → List Task × S
  launch_all [] s = ([], s)
  launch_all ((_, t) ∷ ts) s =
      let (launched, s') = launch t s in
      let (others, s'') = launch_all ts s' in ((if launched then t ∷ others else others), s'')

-- remove, with the tasks that it stops.
unfoldable pub remove : List Task → List (Text × Task) → List Task × List (Text × Task)
unfolding delete stop
remove [] ts = ([], ts)
remove (t ∷ gone) ts =
    let (stopped, left) = remove gone (delete t.task_id ts) in (stop t ∷ stopped, left)

-- Process
unfoldable pub process :
    {S : Type 0}
    → (Task → S → Bool × S)
    → List (Text × Task)
    → S
    → (List Task × List (Text × Task)) × S
unfolding launch_all remove
process launch ts s = let (launched, s') = launch_all launch ts s in (remove launched ts, s')
