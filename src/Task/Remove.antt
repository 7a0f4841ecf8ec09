-- ===== src/Task/Remove.antt =====
-- What task_list_remove does to the links.
use boi_os.Prelude.{
  ℕ, ◌≡◌, sym, ap, inl, inr, List, ◌∷◌, ◌==◌, if◌then◌else◌, Bool-cases, ==→eq, eq→==, ne→==,
}
use boi_os.Task.{Tasks, task_list_remove, unlink_prev, move_head, move_tail, move_current}
use boi_os.Task.Append.{IsTaskList, Walk}
use mathlib.Core.Path.{subst}

-- task_list_remove changes the `prev` of no task: behind the removed task the next one still has it as
-- its predecessor.
pub task_list_remove-prev :
    (s : Tasks) (task b : ℕ) → ((task_list_remove s task).store_of b).prev ≡ (s.store_of b).prev
unfolding task_list_remove unlink_prev move_head move_tail move_current
task_list_remove-prev s task b = elim (Bool-cases ((s.store_of task).prev == 0)) [
  | inl z ↦ rw z
  | inr nz ↦ elim (Bool-cases (b == (s.store_of task).prev)) [
    | inl q ↦ rw (nz, q) (ap (λ x. (s.store_of x).prev) (sym (==→eq b (s.store_of task).prev q)))
    | inr q ↦ rw (nz, q)
  ]
]

-- Removing the head of a list of two tasks or more, where it has no predecessor, leaves the list of the
-- others.
pub task_list_remove-head :
    (s : Tasks) (t u : ℕ) (ts : List ℕ)
    → IsTaskList s (t ∷ u ∷ ts)
    → (s.store_of t).prev ≡ 0
    → IsTaskList (task_list_remove s t) (u ∷ ts)
unfolding task_list_remove unlink_prev move_head move_tail move_current
task_list_remove-head s t u ts (q, n, l, w) p =
    let first : unlink_prev s t ≡ s = rw (eq→== (s.store_of t).prev 0 p, unlink_prev) in
    let tail : (if t == s.task_tail then (s.store_of t).prev else s.task_tail) ≡ s.task_tail =
      rw (ne→== t s.task_tail l) in
    let head : (if t == s.task_head then (s.store_of t).next else s.task_head)
        ≡ (s.store_of t).next =
      rw (eq→== t s.task_head (sym q)) in
    subst (λ x. IsTaskList (move_current (move_tail (move_head x t) t) t) (u ∷ ts)) (sym first)
      (subst
        (λ y.
          Walk s.store_of (if t == s.task_tail then (s.store_of t).prev else s.task_tail) y
            (u ∷ ts))
        (sym head) (subst (λ x. Walk s.store_of x (s.store_of t).next (u ∷ ts)) (sym tail) w))
