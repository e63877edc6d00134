-- ===== src/PthreadModel/Tests.antt =====
-- A thread in its routine, with a model of either kind.
use general_purpose_library.Prelude.{◌+◌, ◌≤◌, ◌≡◌, refl, Bool, true, false, some}
use general_purpose_library.PthreadModel.{
  Model, working, ended, testing, System, pthread_model_destory, pthread_model_execute, goes_on,
  Steps, stays, moves,
}
use general_purpose_library.PthreadModel.Stopping.{
  Faults, pthread_model_destory_lem, pthread_model_destory_fault,
}

abbrev model_of : Bool → Model
model_of is_dynamic = record { has_routine = true; running = true; is_dynamic = is_dynamic }

abbrev in_routine : Bool → System
in_routine is_dynamic = record {
  model = some (model_of is_dynamic);
  thread = working;
  is_cancelled = false;
  calls = 4;
  faulted = false;
}

abbrev left : System
left = record {
  model = some (record (model_of false) { running = false });
  thread = ended;
  is_cancelled = true;
  calls = 5;
  faulted = false;
}

abbrev returned : System
returned = record left { thread = testing }

run_to_end : Steps (pthread_model_destory (in_routine false)).1 left
unfolding pthread_model_destory pthread_model_execute
run_to_end =
    moves _ returned left (goes_on _) (moves returned left left (goes_on returned) (stays left))

pthread_model_destory_lem_example : (left.faulted ≡ false) × (left.calls ≤ 4 + 1)
pthread_model_destory_lem_example =
    pthread_model_destory_lem (in_routine false) left (model_of false) refl refl refl run_to_end

pthread_model_destory_fault_example : Faults (pthread_model_destory (in_routine true)).1
pthread_model_destory_fault_example =
    pthread_model_destory_fault (in_routine true) (model_of true) refl refl tt
