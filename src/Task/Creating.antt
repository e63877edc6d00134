-- ===== src/Task/Creating.antt =====
-- task_create of linux/utils/src/basic_task.c: its answers, and the attributes that stay initialised.
use mathlib.Core.Path.{subst}
use general_purpose_library.Prelude.{
  ℕ, suc, ◌-◌, ◌≡◌, refl, ap, ◌∙◌, arith, Bool, true, false, Option, none, some, if◌then◌else◌, ℤ,
  pos, negsuc, ltb_ℤ, eqb_ℤ, ◌⊎◌, inl, inr, Bool-cases,
}
use general_purpose_library.Task.{
  Task, Body, Pthread, is_error, or_destroy, set_priority, set_cpu, set_attrs, after_attr_init,
  set_pthread_attr, set_name, body_of, after_create, after_attr, task_create,
}

module _ {ℓ} {W : Type ℓ} (pthread : Pthread W) where
  -- How many attributes are initialised and not destroyed. The calls that fail answer a number above 0.
  pub record CountsAttrs : Type ℓ where
    pub attrs : W → ℕ
    pub attr_init :
        (w : W)
        → attrs (pthread.attr_init w).1
          ≡ (if is_error (pthread.attr_init w).0 then attrs w else suc (attrs w))
    pub attr_setschedpolicy : (w : W) → attrs (pthread.attr_setschedpolicy w).1 ≡ attrs w
    pub attr_setschedparam : (p : ℤ) (w : W) → attrs (pthread.attr_setschedparam p w).1 ≡ attrs w
    pub attr_setaffinity_np : (c : ℤ) (w : W) → attrs (pthread.attr_setaffinity_np c w).1 ≡ attrs w
    pub attr_destroy : (w : W) → attrs (pthread.attr_destroy w) ≡ attrs w - 1
    pub create :
        (task : Task) (body : Body) (w : W) → attrs (pthread.create task body w).1 ≡ attrs w
    pub create_answers :
        (task : Task) (body : Body) (w : W) → ltb_ℤ (pthread.create task body w).0 (pos 0) ≡ false
    pub setname_np : (name : ℕ) (w : W) → attrs (pthread.setname_np name w) ≡ attrs w
    pub detach : (w : W) → attrs (pthread.detach w) ≡ attrs w

module _ {ℓ} {W : Type ℓ} (pthread : Pthread W) (counts : CountsAttrs pthread) where
  -- An answer with `n` attributes where it is 0, and one fewer where it is -1
  abbrev Holds : ℕ → ℤ × W → Type 0
  Holds n (ret, w) =
      ((ret ≡ pos 0) × (counts.attrs w ≡ n)) ⊎ ((ret ≡ negsuc 0) × (counts.attrs w ≡ n - 1))

  or_destroy_lem :
      (n : ℕ) (r : ℤ × W) (next : W → ℤ × W)
      → counts.attrs r.1 ≡ n
      → ((w : W) → counts.attrs w ≡ n → Holds n (next w))
      → Holds n (or_destroy pthread r next)
  or_destroy_lem n (ret, w) next same rest = elim (Bool-cases (is_error ret)) [
    | inl bad ↦ rw bad (inr (refl, counts.attr_destroy w ∙ ap (λ (k : ℕ). k - 1) same))
    | inr good ↦ rw good (rest w same)
  ]

  set_priority_attrs : (p : ℤ) (w : W) → counts.attrs (set_priority pthread p w).1 ≡ counts.attrs w
  set_priority_attrs p w = let h = counts.attr_setschedparam p w in ground arith

  set_cpu_attrs : (c : ℤ) (w : W) → counts.attrs (set_cpu pthread c w).1 ≡ counts.attrs w
  set_cpu_attrs c w = let h = counts.attr_setaffinity_np c w in ground arith

  set_attrs_lem : (p c : ℤ) (w : W) → Holds (counts.attrs w) (set_attrs pthread p c w)
  set_attrs_lem p c w =
      or_destroy_lem (counts.attrs w) (pthread.attr_setschedpolicy w) _
        (counts.attr_setschedpolicy w)
        (λ w1 e1.
          or_destroy_lem (counts.attrs w) (set_priority pthread p w1) _
            (set_priority_attrs p w1 ∙ e1)
            (λ w2 e2.
              or_destroy_lem (counts.attrs w) (set_cpu pthread c w2) _ (set_cpu_attrs c w2 ∙ e2)
                (λ w3 e3. inl (refl, e3))))

  set_pthread_attr_lem :
      (p c : ℤ) (w : W) → Holds (suc (counts.attrs w)) (set_pthread_attr pthread p c w)
  unfolding set_pthread_attr
  set_pthread_attr_lem p c w = inside (pthread.attr_init w) (counts.attr_init w)
    where
      inside :
          (r : ℤ × W)
          → counts.attrs r.1 ≡ (if is_error r.0 then counts.attrs w else suc (counts.attrs w))
          → Holds (suc (counts.attrs w)) (after_attr_init pthread p c r)
      inside (ret, w1) same = elim (Bool-cases (is_error ret)) [
        | inl bad ↦
            let e : counts.attrs w1 ≡ counts.attrs w = same ∙ rw bad refl in
            rw bad (inr (refl, e ∙ omega arith))
        | inr good ↦
            let e : counts.attrs w1 ≡ suc (counts.attrs w) = same ∙ rw good refl in
            rw good (subst (λ (k : ℕ). Holds k (set_attrs pthread p c w1)) e (set_attrs_lem p c w1))
      ]

  set_name_attrs :
      (name : Option ℕ) (w : W) → counts.attrs (set_name pthread name w) ≡ counts.attrs w
  set_name_attrs none w = refl
  set_name_attrs (some name) w = counts.setname_np name w

  ready :
      (is_detach : Bool) (w : W)
      → counts.attrs (if is_detach then pthread.detach w else w) ≡ counts.attrs w
  ready true w = counts.detach w
  ready false w = refl

  created :
      (task : Task) (n : ℕ) (r : ℤ × W)
      → ltb_ℤ r.0 (pos 0) ≡ false
      → counts.attrs r.1 ≡ n
      → ((after_create pthread task r).0 ≡ pos 0)
        × (counts.attrs (after_create pthread task r).1 ≡ n)
  created task n (ret, w) h same = rw h (
    refl,
    ready task.is_detach (set_name pthread task.name w) ∙ set_name_attrs task.name w ∙ same,
  )

  -- With a pthread_create that answers an error by a positive number, as it is documented,
  -- task_create answers what set_pthread_attr answered, whatever pthread_create answers; an
  -- attribute object stays initialised exactly where the answer is 0.
  pub task_create_lem :
      (task : Task) (w : W)
      → let (set, w1) = set_pthread_attr pthread task.priority task.cpuid w in
        let (ret, w2) = task_create pthread task w in
        (ret ≡ set)
        × (counts.attrs w2 ≡ (if eqb_ℤ ret (pos 0) then suc (counts.attrs w) else counts.attrs w))
  unfolding task_create
  task_create_lem task w =
      inside (set_pthread_attr pthread task.priority task.cpuid w)
        (set_pthread_attr_lem task.priority task.cpuid w)
    where
      inside :
          (r : ℤ × W)
          → Holds (suc (counts.attrs w)) r
          → ((after_attr pthread task r).0 ≡ r.0)
            × (counts.attrs (after_attr pthread task r).1 ≡ (
                if eqb_ℤ (after_attr pthread task r).0 (pos 0)
                then suc (counts.attrs w)
                else counts.attrs w))
      inside (ret, w1) (inl (zero, e)) =
          let started = pthread.create task (body_of pthread task) w1 in
          let (answer, kept) =
            created task (suc (counts.attrs w)) started (counts.create_answers task _ w1)
              (counts.create task _ w1 ∙ e) in
          rw (zero, answer) (refl, kept)
      inside (ret, w1) (inr (bad, e)) = rw bad (refl, e ∙ omega arith)
