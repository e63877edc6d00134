-- ===== src/Task.antt =====
-- linux/utils/src/basic_task.c: threads with a name, a priority and a processor, in the build without
-- _ANDROID_. The calls of pthread and malloc are the fields of `Pthread`, over a state `W`; a name, an
-- argument and an entry are numbers that stand for pointers. The stack dump, which only prints, is
-- left out.
pub mod Creating
mod Tests
use general_purpose_library.Prelude.{
  ℕ, Bool, true, false, ◌&&◌, not, Option, none, some, if◌then◌else◌, ℤ, pos, negsuc, ltb_ℤ, eqb_ℤ,
  List, [], ◌∷◌,
}

-- task_t
pub record Task : Type 0 where
  pub name : Option ℕ
  pub cpuid : ℤ
  pub priority : ℤ
  pub arg : Option ℕ
  pub entry : Option ℕ
  pub is_detach : Bool
  pub debug_on : Bool

-- What a new thread runs: signal_task on the task, or the entry of the task on its argument
pub data Body : Type 0 where
  signal_task : Body
  entry_of : Option ℕ → Option ℕ → Body

pub record Pthread {ℓ} (W : Type ℓ) : Type ℓ where
  pub malloc : W → Bool × W
  pub free : W → W
  pub attr_init : W → ℤ × W
  pub attr_setschedpolicy : W → ℤ × W
  pub attr_setschedparam : ℤ → W → ℤ × W
  pub attr_setaffinity_np : ℤ → W → ℤ × W
  pub attr_destroy : W → W
  pub create : Task → Body → W → ℤ × W
  pub setname_np : ℕ → W → W
  pub detach : W → W
  pub signal : ℤ → W → W

-- A call of pthread has failed where it answers something but 0.
abbrev pub is_error : ℤ → Bool
is_error ret = not (eqb_ℤ ret (pos 0))

abbrev pub cleared : Task
cleared = record {
  name = none;
  cpuid = pos 0;
  priority = pos 0;
  arg = none;
  entry = none;
  is_detach = false;
  debug_on = false;
}

pub task_init : Task → ℤ × Task
task_init task = (pos 0, record cleared { cpuid = negsuc 0 })

unfoldable pub task_set_param : Task → Option ℕ → Option ℕ → Option ℕ → ℤ × Task
task_set_param task name entry arg = (pos 0, record task { name = name; arg = arg; entry = entry })

module _ {ℓ} {W : Type ℓ} (pthread : Pthread W) where
  unfoldable pub task_alloc_init : W → Option Task × W
  task_alloc_init w =
      let (ok, w1) = pthread.malloc w in if ok then (some (task_init cleared).1, w1) else (none, w1)

  unfoldable pub task_free : Option Task → W → ℤ × W
  task_free none w = (pos 0, w)
  task_free (some task) w = (pos 0, pthread.free w)

  -- One setting of the attributes, which are destroyed where it fails
  abbrev pub or_destroy : ℤ × W → (W → ℤ × W) → ℤ × W
  or_destroy (ret, w) next = if is_error ret then (negsuc 0, pthread.attr_destroy w) else next w

  abbrev pub set_policy : W → ℤ × W
  set_policy w = pthread.attr_setschedpolicy w

  abbrev pub set_priority : ℤ → W → ℤ × W
  set_priority priority w =
      if eqb_ℤ priority (pos 0) then (pos 0, w) else pthread.attr_setschedparam priority w

  abbrev pub set_cpu : ℤ → W → ℤ × W
  set_cpu cpuid w =
      if eqb_ℤ cpuid (negsuc 0) then (pos 0, w) else pthread.attr_setaffinity_np cpuid w

  abbrev pub set_attrs : ℤ → ℤ → W → ℤ × W
  set_attrs priority cpuid w = or_destroy (set_policy w) (λ w1.
      or_destroy (set_priority priority w1)
        (λ w2. or_destroy (set_cpu cpuid w2) (λ w3. (pos 0, w3))))

  abbrev pub after_attr_init : ℤ → ℤ → ℤ × W → ℤ × W
  after_attr_init priority cpuid (ret, w) =
      if is_error ret then (negsuc 0, w) else set_attrs priority cpuid w

  pub set_pthread_attr : ℤ → ℤ → W → ℤ × W
  set_pthread_attr priority cpuid w = after_attr_init priority cpuid (pthread.attr_init w)

  abbrev pub body_of : Task → Body
  body_of task = if task.debug_on then signal_task else entry_of task.entry task.arg

  abbrev pub set_name : Option ℕ → W → W
  set_name none w = w
  set_name (some name) w = pthread.setname_np name w

  -- `ret < 0` is the test for a failure of pthread_create.
  abbrev pub after_create : Task → ℤ × W → ℤ × W
  after_create task (ret, w) =
      if ltb_ℤ ret (pos 0)
      then (negsuc 0, pthread.attr_destroy w)
      else let named = set_name task.name w in
        (pos 0, if task.is_detach then pthread.detach named else named)

  abbrev pub after_attr : Task → ℤ × W → ℤ × W
  after_attr task (ret, w) =
      if ltb_ℤ ret (pos 0)
      then (ret, w)
      else after_create task (pthread.create task (body_of task) w)

  pub task_create : Task → W → ℤ × W
  task_create task w = after_attr task (set_pthread_attr task.priority task.cpuid w)

  abbrev pub signals : List ℤ
  signals = pos 11 ∷ pos 4 ∷ pos 6 ∷ pos 7 ∷ pos 8 ∷ pos 31 ∷ []

  abbrev pub handle_all : List ℤ → W → W
  handle_all [] w = w
  handle_all (s ∷ ss) w = handle_all ss (pthread.signal s w)

  unfoldable pub task_register_signal : W → ℤ × W
  task_register_signal w = (pos 0, handle_all signals w)

  -- What the new thread does; `call` is the call of an entry on its argument.
  unfoldable pub run_body : (Option ℕ → Option ℕ → W → W) → Task → Body → W → W
  run_body call task signal_task w = call task.entry task.arg (handle_all signals w)
  run_body call task (entry_of entry arg) w = call entry arg w
