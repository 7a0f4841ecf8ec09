-- ===== src/Task/Rollback.antt =====
-- task_free of the task that task_new has just put in the list gives the list back.
use boi_os.Prelude.{
  ℕ, ◌≡◌, ◌≢◌, ◌⊎◌, refl, sym, ap, ◌∙◌, inl, inr, Bool-cases, ==→eq, List, [], ◌∷◌, ◌==◌,
  if◌then◌else◌, eq→==, ne→==,
}
use mathlib.Core.Path.{subst}
use boi_os.Task.{
  Task, Tasks, link_tail, task_append, task_list_remove, unlink_prev, move_head, move_tail,
  move_current, write_task, with_next,
}
use boi_os.Task.Append.{IsTaskList, Walk, Fresh, head-nonzero}

-- A walk by the same links.
Walk-same :
    (ts : List ℕ) (tasks tasks' : ℕ → Task) (tail a task : ℕ)
    → ((b : ℕ) → b ≢ task → (tasks' b).next ≡ (tasks b).next)
    → Fresh task ts
    → Walk tasks tail a ts
    → Walk tasks' tail a ts
Walk-same [] tasks tasks' tail a task same f w = w
Walk-same (t ∷ []) tasks tasks' tail a task same (d, f) (q, n, l, z) =
    (q, n, l, same t (λ e. d (sym e)) ∙ z)
Walk-same (t ∷ u ∷ ts) tasks tasks' tail a task same (d, f) (q, n, l, w) = (
  q,
  n,
  l,
  Walk-same (u ∷ ts) tasks tasks' tail (tasks' t).next task same f
      (subst (λ x. Walk tasks tail x (u ∷ ts)) (sym (same t (λ e. d (sym e)))) w),
)

-- The tail of a walk is no null pointer, and nothing follows it.
Walk-tail :
    (ts : List ℕ) (tasks : ℕ → Task) (tail a : ℕ)
    → Walk tasks tail a ts
    → (tail ≢ 0) × ((tasks tail).next ≡ 0)
Walk-tail [] tasks tail a w = absurd w
Walk-tail (t ∷ []) tasks tail a (q, n, l, z) =
    ((λ e. n (l ∙ e)), ap (λ x. (tasks x).next) (sym l) ∙ z)
Walk-tail (t ∷ u ∷ ts) tasks tail a (q, n, l, w) = Walk-tail (u ∷ ts) tasks tail (tasks t).next w

Walk-head : (ts : List ℕ) (tasks : ℕ → Task) (tail a u : ℕ) → Walk tasks tail a (u ∷ ts) → a ≡ u
Walk-head [] tasks tail a u (q, n, l, z) = q
Walk-head (v ∷ ts) tasks tail a u (q, n, l, w) = q

link_tail-prev :
    (tasks : ℕ → Task) (tail task : ℕ) (t : Task) → (link_tail tasks tail task t task).prev ≡ tail
link_tail-prev tasks tail task t = rw (eq→== task task refl) refl

link_tail-next :
    (tasks : ℕ → Task) (tail task : ℕ) (t : Task)
    → task ≢ tail
    → (link_tail tasks tail task t task).next ≡ t.next
link_tail-next tasks tail task t ne = rw (eq→== task task refl, ne→== task tail ne) refl

-- The store behind the removal, where `prev` is the predecessor of `task`.
abbrev unlinked : (ℕ → Task) → ℕ → ℕ → ℕ → Task
unlinked tasks prev task = write_task tasks prev (with_next (tasks prev) (tasks task).next)

unlinked-next :
    (tasks : ℕ → Task) (tail task : ℕ) (t : Task) (b : ℕ)
    → (tasks tail).next ≡ 0
    → t.next ≡ 0
    → task ≢ tail
    → b ≢ task
    → (unlinked (link_tail tasks tail task t) tail task b).next ≡ (tasks b).next
unlinked-next tasks tail task t b z tz ne nb = elim (Bool-cases (b == tail)) [
  | inl q ↦ rw q (
      link_tail-next tasks tail task t ne
      ∙ tz
      ∙ sym z
      ∙ ap (λ x. (tasks x).next) (sym (==→eq b tail q)))
  | inr q ↦ rw (q, ne→== b task nb) refl
]

-- Behind a list the new task is the tail, and its removal gives the list back with its current task.
remove_behind :
    (s : Tasks) (u : ℕ) (ts : List ℕ) (task : ℕ) (t : Task)
    → IsTaskList s (u ∷ ts)
    → Fresh task (u ∷ ts)
    → task ≢ s.task_tail
    → task ≢ s.current_task
    → t.next ≡ 0
    → let r =
        task_list_remove
          (record {
            store_of = link_tail s.store_of s.task_tail task t;
            current_task = s.current_task;
            task_tail = task;
            task_head = s.task_head;
          })
          task in
      IsTaskList r (u ∷ ts) × (r.current_task ≡ s.current_task)
unfolding task_list_remove unlink_prev move_head move_tail move_current
remove_behind s u ts task t w f nt nc z =
    let store1 = link_tail s.store_of s.task_tail task t in
    let behind : Tasks = record {
      store_of = store1;
      current_task = s.current_task;
      task_tail = task;
      task_head = s.task_head;
    } in
    let (tail_ne, tail_next) = Walk-tail (u ∷ ts) s.store_of s.task_tail s.task_head w in
    let prev : (store1 task).prev ≡ s.task_tail = link_tail-prev s.store_of s.task_tail task t in
    let store2 = unlinked store1 s.task_tail task in
    let step : Tasks = record {
      store_of = store2;
      current_task = s.current_task;
      task_tail = task;
      task_head = s.task_head;
    } in
    let first : unlink_prev behind task ≡ step = rw (prev, ne→== s.task_tail 0 tail_ne) refl in
    let tail : (if task == task then (store2 task).prev else task) ≡ s.task_tail =
      rw (eq→== task task refl, ne→== task s.task_tail nt) refl in
    let not_head : task ≢ s.task_head =
      λ e. f.0 (e ∙ Walk-head ts s.store_of s.task_tail s.task_head u w) in
    let head : (if task == s.task_head then (store2 task).next else s.task_head) ≡ s.task_head =
      rw (ne→== task s.task_head not_head) refl in
    subst
      (λ x.
        IsTaskList (move_current (move_tail (move_head x task) task) task) (u ∷ ts)
        × ((move_current (move_tail (move_head x task) task) task).current_task ≡ s.current_task))
      (sym first)
      (
        subst (λ y. Walk store2 (if task == task then (store2 task).prev else task) y (u ∷ ts))
            (sym head)
            (subst (λ x. Walk store2 x s.task_head (u ∷ ts)) (sym tail)
              (Walk-same (u ∷ ts) s.store_of store2 s.task_tail s.task_head task
                (λ b nb. unlinked-next s.store_of s.task_tail task t b tail_next z nt nb) f w)),
        rw (ne→== task s.current_task nc) refl,
      )

-- The new task of an empty list is head, tail and current task, and its removal empties the list.
remove_only :
    (s : Tasks) (task : ℕ) (t : Task)
    → t.next ≡ 0
    → t.prev ≡ 0
    → (task_list_remove
        (record {
          store_of = write_task s.store_of task t;
          current_task = task;
          task_tail = task;
          task_head = task;
        })
        task).task_head
      ≡ 0
unfolding task_list_remove unlink_prev move_head move_tail move_current
remove_only s task t z p = rw (eq→== task task refl, p, eq→== task task refl) z

-- The list is as before, and so is the current task of a list that is not empty.
abbrev pub Back : Tasks → List ℕ → Tasks → Type 0
Back s ts r = IsTaskList r ts × ((ts ≡ []) ⊎ (r.current_task ≡ s.current_task))

-- Removing a task that was just appended, whose address is not in the list and is neither tail nor current
-- task, gives back the list, and the current task of a list that is not empty.
pub task_list_remove-task_append :
    (s : Tasks) (ts : List ℕ) (task : ℕ) (t : Task)
    → IsTaskList s ts
    → Fresh task ts
    → task ≢ s.task_tail
    → task ≢ s.current_task
    → t.next ≡ 0
    → t.prev ≡ 0
    → Back s ts (task_list_remove (task_append s task t) task)
unfolding task_append
task_list_remove-task_append s [] task t w f nt nc z p =
    (rw (eq→== s.task_head 0 w) (remove_only s task t z p), inl refl)
task_list_remove-task_append s (u ∷ ts) task t w f nt nc z p =
    let behind : Tasks = record {
      store_of = link_tail s.store_of s.task_tail task t;
      current_task = s.current_task;
      task_tail = task;
      task_head = s.task_head;
    } in
    let e : task_append s task t ≡ behind =
      rw (ne→== s.task_head 0 (head-nonzero ts s.store_of s.task_tail s.task_head u w)) refl in
    let (list, current) = remove_behind s u ts task t w f nt nc z in
    subst (λ x. Back s (u ∷ ts) (task_list_remove x task)) (sym e) (list, inr current)
