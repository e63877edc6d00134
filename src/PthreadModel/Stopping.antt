-- ===== src/PthreadModel/Stopping.antt =====
-- What the thread of pthread/pthread_model.c does after pthread_model_destory.
use mathlib.Core.Path.{subst}
use mathlib.Core.Option.{some-injective, some-ne-none}
use general_purpose_library.Prelude.{
  ℕ, ◌+◌, ◌≤◌, ◌≡◌, refl, sym, ap, ◌∙◌, arith, Bool, true, false, Option, none, some, if◌then◌else◌,
}
use general_purpose_library.PthreadModel.{
  Model, Thread, absent, entering, testing, working, ended, System, destroy_model,
  pthread_model_destory, execute_on, pthread_model_execute, Step, goes_on, is_ended, Steps, stays,
  moves,
}

-- The calls of the routine that are under way
abbrev under_way : Thread → ℕ
under_way absent = 0
under_way entering = 0
under_way testing = 0
under_way working = 1
under_way ended = 0

-- A model that stays in memory and does not run, where `n` calls can be complete
record IsStopped (n : ℕ) (s : System) : Type 0 where
  model : Model
  there : s.model ≡ some model
  stopped : model.running ≡ false
  sound : s.faulted ≡ false
  bounded : s.calls + under_way s.thread ≤ n

moved :
    (n : ℕ) (s : System) (thread : Thread) (calls : ℕ)
    → IsStopped n s
    → calls + under_way thread ≤ n
    → IsStopped n (record s { thread = thread; calls = calls })
moved n s thread calls h small = record {
  model = h.model;
  there = h.there;
  stopped = h.stopped;
  sound = h.sound;
  bounded = small;
}

quiet : (b : Bool) → under_way (if b then testing else ended) ≡ 0
quiet true = refl
quiet false = refl

execute_keeps :
    (n : ℕ) (s : System) (model : Option Model) (thread : Thread)
    → s.model ≡ model
    → s.thread ≡ thread
    → IsStopped n s
    → IsStopped n (execute_on s model thread)
execute_keeps n s model absent m t h = h
execute_keeps n s none entering m t h = absurd (some-ne-none h.model (sym h.there ∙ m))
execute_keeps n s (some model) entering m t h =
    let q = quiet model.has_routine in
    let small = h.bounded in
    moved n s (if model.has_routine then testing else ended) s.calls h (omega arith)
execute_keeps n s none testing m t h = absurd (some-ne-none h.model (sym h.there ∙ m))
execute_keeps n s (some model) testing m t h =
    let same = some-injective model h.model (sym m ∙ h.there) in
    let stopped = ap (λ (x : Model). x.running) same ∙ h.stopped in
    let small = h.bounded in rw stopped (moved n s ended s.calls h (omega arith))
execute_keeps n s model working m t h =
    let small = h.bounded in
    let u = ap under_way t in moved n s testing (s.calls + 1) h (omega arith)
execute_keeps n s model ended m t h = h

step_keeps : (n : ℕ) (s t : System) → Step s t → IsStopped n s → IsStopped n t
unfolding pthread_model_execute
step_keeps n _ _ (goes_on s) h = execute_keeps n s s.model s.thread refl refl h
step_keeps n _ _ (is_ended s c) h = let small = h.bounded in moved n s ended s.calls h (omega arith)

steps_keep : (n : ℕ) (s t : System) → Steps s t → IsStopped n s → IsStopped n t
steps_keep n _ _ (stays s) h = h
steps_keep n _ _ (moves s t u step rest) h = steps_keep n t u rest (step_keeps n s t step h)

under_way_at_most : (thread : Thread) → under_way thread ≤ 1
under_way_at_most absent = omega arith
under_way_at_most entering = omega arith
under_way_at_most testing = omega arith
under_way_at_most working = omega arith
under_way_at_most ended = omega arith

at_most : (calls more n : ℕ) → calls + more ≤ n → calls ≤ n
at_most calls more n h = omega arith

destroyed_static :
    (s : System) (model : Model)
    → model.is_dynamic ≡ false
    → s.faulted ≡ false
    → IsStopped (s.calls + 1) (destroy_model s (some model))
destroyed_static s model static sound =
    let small = under_way_at_most s.thread in
    record {
      model = record model { running = false };
      there = rw static refl;
      stopped = refl;
      sound = sound;
      bounded = omega arith;
    }

-- After pthread_model_destory of a model that pthread_model_init set up, whatever steps the thread
-- takes and wherever it is cancelled, it reads no freed memory and completes at most one more call
-- of the routine.
pub pthread_model_destory_lem :
    (s t : System) (model : Model)
    → s.model ≡ some model
    → model.is_dynamic ≡ false
    → s.faulted ≡ false
    → Steps (pthread_model_destory s).1 t
    → (t.faulted ≡ false) × (t.calls ≤ s.calls + 1)
unfolding pthread_model_destory
pthread_model_destory_lem s t model there static sound steps =
    let start : IsStopped (s.calls + 1) (destroy_model s s.model) =
      subst (λ (m : Option Model). IsStopped (s.calls + 1) (destroy_model s m)) (sym there)
        (destroyed_static s model static sound) in
    let kept : IsStopped (s.calls + 1) t =
      steps_keep (s.calls + 1) (destroy_model s s.model) t steps start in
    (kept.sound, at_most (t.calls) (under_way t.thread) (s.calls + 1) kept.bounded)

-- A thread that has to read the model before it ends
abbrev pub IsLive : Thread → Type 0
IsLive absent = ⊥
IsLive entering = Unit {0}
IsLive testing = Unit {0}
IsLive working = Unit {0}
IsLive ended = ⊥

-- A run that ends in a fault
abbrev pub Faults : System → Type 0
Faults s = (t : System) × Steps s t × (t.faulted ≡ true)

one_step : (s : System) → (pthread_model_execute s).faulted ≡ true → Faults s
one_step s h =
    (pthread_model_execute s, moves s _ _ (goes_on s) (stays (pthread_model_execute s)), h)

freed_testing : (s : System) → s.model ≡ none → s.thread ≡ testing → Faults s
unfolding pthread_model_execute
freed_testing s m t = one_step s (rw (m, t) refl)

goes_wrong :
    (s : System) (thread : Thread) → s.model ≡ none → s.thread ≡ thread → IsLive thread → Faults s
unfolding pthread_model_execute
goes_wrong s absent m t live = absurd live
goes_wrong s entering m t live = one_step s (rw (m, t) refl)
goes_wrong s testing m t live = freed_testing s m t
goes_wrong s working m t live =
    let (u, steps, fault) = freed_testing (pthread_model_execute s) (rw (t, m) refl) (rw t refl) in
    (u, moves s _ u (goes_on s) steps, fault)
goes_wrong s ended m t live = absurd live

-- After pthread_model_destory of a model that is dynamic while its thread has still to test it or
-- is in the routine, the thread can read freed memory before its cancellation takes effect.
pub pthread_model_destory_fault :
    (s : System) (model : Model)
    → s.model ≡ some model
    → model.is_dynamic ≡ true
    → IsLive s.thread
    → Faults (pthread_model_destory s).1
unfolding pthread_model_destory
pthread_model_destory_fault s model there dynamic live =
    rw (there, dynamic) (goes_wrong _ s.thread refl refl live)
