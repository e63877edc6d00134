-- ===== src/PthreadModel.antt =====
-- pthread/pthread_model.c: a thread that calls a routine again and again until its owner ends it. A
-- state is the model, the thread and what both have done; `none` in place of the model is memory that
-- was freed, and reading it is a fault.
pub mod Stopping
mod Tests
use general_purpose_library.Prelude.{
  ℕ, suc, ◌+◌, ◌≡◌, Bool, true, false, not, Option, none, some, if◌then◌else◌, ℤ, pos, negsuc,
  eqb_ℤ,
}

-- pthread_model_t with the handle in its priv; `running` and `is_dynamic` are the bits 0 and 1 of the
-- handle's running.
pub record Model : Type 0 where
  pub has_routine : Bool
  pub running : Bool
  pub is_dynamic : Bool

-- Where the thread is in pthread_model_execute: before the test of start_routine, before the test of
-- the loop, in the routine, or after the end
pub data Thread : Type 0 where
  absent entering testing working ended : Thread

pub record System : Type 0 where
  pub model : Option Model
  pub thread : Thread
  pub is_cancelled : Bool
  pub calls : ℕ
  pub faulted : Bool

-- What malloc and pthread_attr_init answer; a model that is returned has an initialised attribute.
unfoldable pub pthread_model_create : Bool → ℤ → Bool → Option Model
pthread_model_create has_memory ret has_routine =
    if has_memory
    then (if eqb_ℤ ret (pos 0)
        then some (record { has_routine = has_routine; running = false; is_dynamic = true })
        else none)
    else none

unfoldable pub pthread_model_init : Model → Bool → ℤ × Model
pthread_model_init model has_routine =
    (pos 0, record { has_routine = has_routine; running = false; is_dynamic = false })

abbrev pub with_fault : System → System
with_fault s = record s { faulted = true }

-- What pthread_create answers; the thread is there if it answers 0.
abbrev pub start_model : ℤ → System → Option Model → ℤ × System
start_model ret s none = (negsuc 0, with_fault s)
start_model ret s (some model) =
    let marked = record s { model = some (record model { running = true }) } in
    if eqb_ℤ ret (pos 0) then (pos 0, record marked { thread = entering }) else (negsuc 0, marked)

unfoldable pub pthread_model_start : ℤ → System → ℤ × System
pthread_model_start ret s = start_model ret s s.model

abbrev pub destroy_model : System → Option Model → System
destroy_model s none = with_fault s
destroy_model s (some model) = record s {
  model = if model.is_dynamic then none else some (record model { running = false });
  is_cancelled = true;
}

pub pthread_model_destory : System → ℤ × System
pthread_model_destory s = (pos 0, destroy_model s s.model)

-- One step of pthread_model_execute, which reads the model
abbrev pub execute_on : System → Option Model → Thread → System
execute_on s model absent = s
execute_on s none entering = with_fault s
execute_on s (some model) entering = record s {
  thread = if model.has_routine then testing else ended;
}
execute_on s none testing = with_fault s
execute_on s (some model) testing = record s { thread = if model.running then working else ended }
execute_on s model working = record s { thread = testing; calls = s.calls + 1 }
execute_on s model ended = s

pub pthread_model_execute : System → System
pthread_model_execute s = execute_on s s.model s.thread

-- What can happen once the owner has called pthread_model_destory: the thread goes on, or it is
-- cancelled.
pub data Step : System → System → Type 0 where
  goes_on : (s : System) → Step s (pthread_model_execute s)
  is_ended : (s : System) → s.is_cancelled ≡ true → Step s (record s { thread = ended })

pub data Steps : System → System → Type 0 where
  stays : (s : System) → Steps s s
  moves : (s t u : System) → Step s t → Steps t u → Steps s u
