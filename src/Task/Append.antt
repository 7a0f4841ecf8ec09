-- ===== src/Task/Append.antt =====
-- The list of tasks, from the head along `next`.
use boi_os.Prelude.{ℕ, ◌≡◌, ◌≢◌, refl, sym, ap, ◌∙◌, List, [], ◌∷◌, ◌++◌, ne→==, eq→==}
use mathlib.Core.Path.{subst}
use boi_os.Task.{Task, Tasks, link_tail, task_append}

-- From the address `a` on stand the tasks `ts`, and the last is `tail`.
abbrev pub Walk : (ℕ → Task) → ℕ → ℕ → List ℕ → Type 0
Walk tasks tail a [] = ⊥
Walk tasks tail a (t ∷ []) = (a ≡ t) × (t ≢ 0) × (t ≡ tail) × ((tasks t).next ≡ 0)
Walk tasks tail a (t ∷ u ∷ ts) =
    (a ≡ t) × (t ≢ 0) × (t ≢ tail) × Walk tasks tail (tasks t).next (u ∷ ts)

-- The address is none of the tasks.
abbrev pub Fresh : ℕ → List ℕ → Type 0
Fresh x [] = Unit
Fresh x (t ∷ ts) = (x ≢ t) × Fresh x ts

Walk-append :
    (ts : List ℕ) (tasks tasks' : ℕ → Task) (tail a task : ℕ)
    → Walk tasks tail a ts
    → Fresh task ts
    → task ≢ 0
    → ((b : ℕ) → b ≢ tail → b ≢ task → (tasks' b).next ≡ (tasks b).next)
    → (tasks' tail).next ≡ task
    → (tasks' task).next ≡ 0
    → Walk tasks' task a (ts ++ (task ∷ []))
Walk-append [] tasks tasks' tail a task w f nz same e z = absurd w
Walk-append (t ∷ []) tasks tasks' tail a task (q, n, l, w) (d, f) nz same e z =
    (q, n, (λ h. d (sym h)), (ap (λ x. (tasks' x).next) l ∙ e, nz, refl, z))
Walk-append (t ∷ u ∷ ts) tasks tasks' tail a task (q, n, l, w) (d, f) nz same e z = (
  q,
  n,
  (λ h. d (sym h)),
  Walk-append (u ∷ ts) tasks tasks' tail (tasks' t).next task
      (subst (λ x. Walk tasks tail x (u ∷ ts)) (sym (same t l (λ h. d (sym h)))) w) f nz same e z,
)

-- The tasks of the list, in order: none where the head is null.
abbrev pub IsTaskList : Tasks → List ℕ → Type 0
IsTaskList s [] = s.task_head ≡ 0
IsTaskList s (t ∷ ts) = Walk s.store_of s.task_tail s.task_head (t ∷ ts)

pub head-nonzero :
    (ts : List ℕ) (tasks : ℕ → Task) (tail a t : ℕ) → Walk tasks tail a (t ∷ ts) → a ≢ 0
head-nonzero [] tasks tail a t (q, n, l, w) = λ z. n (sym q ∙ z)
head-nonzero (u ∷ ts) tasks tail a t (q, n, l, w) = λ z. n (sym q ∙ z)

link_tail-others :
    (tasks : ℕ → Task) (tail task : ℕ) (t : Task) (b : ℕ)
    → b ≢ tail
    → b ≢ task
    → (link_tail tasks tail task t b).next ≡ (tasks b).next
link_tail-others tasks tail task t b nt nk = rw (ne→== b task nk, ne→== b tail nt)

link_tail-tail :
    (tasks : ℕ → Task) (tail task : ℕ) (t : Task)
    → task ≢ tail
    → (link_tail tasks tail task t tail).next ≡ task
link_tail-tail tasks tail task t ne = rw (ne→== tail task (λ q. ne (sym q)), eq→== tail tail refl)

link_tail-task :
    (tasks : ℕ → Task) (tail task : ℕ) (t : Task)
    → task ≢ tail
    → (link_tail tasks tail task t task).next ≡ t.next
link_tail-task tasks tail task t ne = rw (eq→== task task refl, ne→== task tail ne)

-- Appending a task that has no next one, and whose address is not null, not in the list and not the tail,
-- puts it at the list's end.
pub task_append-IsTaskList :
    (s : Tasks) (ts : List ℕ) (task : ℕ) (t : Task)
    → IsTaskList s ts
    → Fresh task ts
    → task ≢ 0
    → task ≢ s.task_tail
    → t.next ≡ 0
    → IsTaskList (task_append s task t) (ts ++ (task ∷ []))
unfolding task_append
task_append-IsTaskList s [] task t w f nz nt z =
    rw (eq→== s.task_head 0 w) (refl, nz, refl, rw (eq→== task task refl) z)
task_append-IsTaskList s (u ∷ ts) task t w f nz nt z =
    let behind : Tasks = record {
      store_of = link_tail s.store_of s.task_tail task t;
      current_task = s.current_task;
      task_tail = task;
      task_head = s.task_head;
    } in
    let e : task_append s task t ≡ behind =
      rw (ne→== s.task_head 0 (head-nonzero ts s.store_of s.task_tail s.task_head u w)) in
    subst (λ s'. Walk s'.store_of s'.task_tail s'.task_head ((u ∷ ts) ++ (task ∷ []))) (sym e)
      (Walk-append (u ∷ ts) s.store_of behind.store_of s.task_tail s.task_head task w f nz
        (link_tail-others s.store_of s.task_tail task t)
        (link_tail-tail s.store_of s.task_tail task t nt)
        (link_tail-task s.store_of s.task_tail task t nt ∙ z))
