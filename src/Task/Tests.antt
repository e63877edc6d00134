-- ===== src/Task/Tests.antt =====
-- Threads that never start, over a state that counts the attributes.
use general_purpose_library.Prelude.{ℕ, suc, ◌-◌, ◌≡◌, refl, true, some, pos, negsuc}
use general_purpose_library.Task.{Task, Pthread, task_create, task_init, cleared, set_pthread_attr}
use general_purpose_library.Task.Creating.{CountsAttrs, task_create_lem}

abbrev no_threads : Pthread ℕ
no_threads = record {
  malloc = λ w. (true, w);
  free = λ w. w;
  attr_init = λ w. (pos 0, suc w);
  attr_setschedpolicy = λ w. (pos 0, w);
  attr_setschedparam = λ p w. (pos 22, w);
  attr_setaffinity_np = λ c w. (pos 0, w);
  attr_destroy = λ w. w - 1;
  create = λ task body w. (pos 11, w);
  setname_np = λ name w. w;
  detach = λ w. w;
  signal = λ s w. w;
}

abbrev counts_attrs : CountsAttrs no_threads
counts_attrs = record {
  attrs = λ w. w;
  attr_init = λ w. refl;
  attr_setschedpolicy = λ w. refl;
  attr_setschedparam = λ p w. refl;
  attr_setaffinity_np = λ c w. refl;
  attr_destroy = λ w. refl;
  create = λ task body w. refl;
  create_answers = λ task body w. refl;
  setname_np = λ name w. refl;
  detach = λ w. refl;
}

abbrev worker : Task
worker = record cleared { cpuid = pos 1; name = some 100; is_detach = true }

task_create_lem_example :
    ((task_create no_threads worker 0).0 ≡ pos 0) × ((task_create no_threads worker 0).1 ≡ 1)
unfolding set_pthread_attr task_create
task_create_lem_example = task_create_lem no_threads counts_attrs worker 0

-- A priority that pthread refuses leaves nothing behind.
refused_priority : task_create no_threads (record worker { priority = pos 99 }) 0 ≡ (negsuc 0, 0)
unfolding set_pthread_attr task_create
refused_priority = refl

processor_of_new : (task_init worker).1.cpuid ≡ negsuc 0
unfolding task_init
processor_of_new = refl
