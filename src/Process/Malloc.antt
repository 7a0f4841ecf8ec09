-- ===== src/Process/Malloc.antt =====
-- An allocation that a process makes and gives back.
use boi_os.Prelude.{
  ℕ, ◌+◌, ◌%◌, ◌^◌, ◌<◌, ◌≡◌, ◌≢◌, refl, ap, sym, ◌∙◌, inl, inr, true, some, ◌==◌, if◌then◌else◌,
  arith, Bool-cases, ==→eq, eq→==, ne→==,
}
use boi_os.Status.{ok}
use boi_os.Paging.{paging_align_address}
use boi_os.Prelude.Slots.{set_slot}
use boi_os.Process.{
  KernelOps, ProcessAllocation, Process, no_allocation, process_find_free_allocation_index,
  process_is_process_ptr, malloc_at, malloc_mapped, process_malloc, process_allocation_unjoin,
  process_free, user_flags,
}
use boi_os.Process.Allocations.{
  Maps, IsPaged, AllPaged, find_ptr-finds, map_allocation, process_free_lem, unjoin_lem,
}

abbrev allocated : Process → ℕ → ProcessAllocation → Process
allocated p index a = record p { allocations = set_slot p.allocations index a }

mapped_at :
    {W : Type 0} (ops : KernelOps W) (p : Process) (size ptr j : ℕ) (w w' : W)
    → ops.paging_map_to w p.page_directory ptr ptr
        (paging_align_address ((ptr + size) % 2 ^ 32))
        user_flags
      ≡ (ok 0, w')
    → malloc_at ops p ptr size (some j) w
      ≡ (ptr, allocated p j (record { ptr = ptr; size = size }), w')
unfolding malloc_at malloc_mapped
mapped_at ops p size ptr j w w' e = rw e

malloc_from :
    {W : Type 0} (ops : KernelOps W) (p : Process) (size ptr : ℕ) (w w1 : W)
    → ops.kzalloc w size ≡ (ptr, w1)
    → ptr ≢ 0
    → process_malloc ops p size w
      ≡ malloc_at ops p ptr size (process_find_free_allocation_index p) w1
unfolding process_malloc
malloc_from {W} ops p size ptr w w1 e ne =
    let result : ℕ × W → ℕ × Process × W = λ r.
      if r.0 == 0
      then (0, p, r.1)
      else malloc_at ops p r.0 size (process_find_free_allocation_index p) r.1 in
    ap result e ∙ rw (ne→== ptr 0 ne)

-- The pointer goes to a free entry.
process_malloc_lem :
    {W : Type 0} (ops : KernelOps W) (p : Process) (size ptr l : ℕ) (w w1 : W)
    → Maps ops
    → ops.kzalloc w size ≡ (ptr, w1)
    → ptr ≢ 0
    → IsPaged (record { ptr = ptr; size = size })
    → l < 1024
    → (p.allocations l).ptr ≡ 0
    → (j : ℕ) × (w' : W) × (process_malloc ops p size w
        ≡ (ptr, allocated p j (record { ptr = ptr; size = size }), w'))
      × (j < 1024)
      × ((p.allocations j).ptr ≡ 0)
unfolding process_malloc malloc_at malloc_mapped process_find_free_allocation_index
process_malloc_lem ops p size ptr l w w1 maps e ne paged lt free =
    let (j, found, small, empty) =
      find_ptr-finds 1024 0 l p.allocations 0 (omega arith) (omega arith) free in
    let (w', mapped) =
      map_allocation ops w1 p.page_directory (record { ptr = ptr; size = size }) user_flags maps
        paged in
    (
      j,
      w',
      malloc_from ops p size ptr w w1 e ne
          ∙ ap (λ o. malloc_at ops p ptr size o w1) found
          ∙ mapped_at ops p size ptr j w1 w' mapped,
      omega arith,
      empty,
    )

allocated-AllPaged :
    (p : Process) (index : ℕ) (a : ProcessAllocation)
    → AllPaged p
    → IsPaged a
    → AllPaged (allocated p index a)
allocated-AllPaged p index a all paged i lt = elim (Bool-cases (i == index)) [
  | inl t ↦ rw t paged
  | inr f ↦ rw f (all i lt)
]

-- Freed again, every entry is as before.
restored :
    (p : Process) (ptr size j i : ℕ)
    → (p.allocations j).ptr ≡ 0
    → ((i : ℕ) → i < 1024 → (p.allocations i).ptr ≢ ptr)
    → ((i : ℕ) → i < 1024 → (p.allocations i).ptr ≡ 0 → p.allocations i ≡ no_allocation)
    → i < 1024
    → (process_allocation_unjoin
          (allocated p j (record { ptr = ptr; size = size }))
          ptr).allocations
        i
      ≡ p.allocations i
restored p ptr size j i empty fresh cleared lt =
    unjoin_lem (allocated p j (record { ptr = ptr; size = size })) ptr i lt
    ∙ elim (Bool-cases (i == j)) [
      | inl t ↦
          let here = ap (λ x. (p.allocations x).ptr) (==→eq i j t) ∙ empty in
          rw (t, eq→== ptr ptr refl) (sym (cleared i lt here))
      | inr f ↦ rw (f, ne→== (p.allocations i).ptr ptr (fresh i lt))
    ]

-- Where kzalloc gives a process a page that it does not have, and the process has a free entry,
-- process_malloc returns the page as a pointer of the process, and process_free of it brings every entry back
-- to what it was; the allocations are pages, whole pages can be mapped, and a free entry has no size.
pub process_free-process_malloc :
    {W : Type 0} (ops : KernelOps W) (p : Process) (size ptr l : ℕ) (w w1 : W)
    → Maps ops
    → ops.kzalloc w size ≡ (ptr, w1)
    → ptr ≢ 0
    → IsPaged (record { ptr = ptr; size = size })
    → AllPaged p
    → l < 1024
    → (p.allocations l).ptr ≡ 0
    → ((i : ℕ) → i < 1024 → (p.allocations i).ptr ≢ ptr)
    → ((i : ℕ) → i < 1024 → (p.allocations i).ptr ≡ 0 → p.allocations i ≡ no_allocation)
    → (p' : Process) × (w' : W) × (process_malloc ops p size w ≡ (ptr, p', w'))
      × (process_is_process_ptr p' ptr ≡ true)
      × ((i : ℕ) → i < 1024 → (process_free ops p' ptr w').0.allocations i ≡ p.allocations i)
unfolding process_is_process_ptr
process_free-process_malloc {W} ops p size ptr l w w1 maps e ne paged all lt free fresh cleared =
    let a : ProcessAllocation = record { ptr = ptr; size = size } in
    let (j, w', e', small, empty) =
      process_malloc_lem ops p size ptr l w w1 maps e ne paged lt free in
    let p' = allocated p j a in
    let own : (p'.allocations j).ptr ≡ ptr = rw (eq→== j j refl) in
    let (w'', freed) =
      process_free_lem ops p' ptr j w' maps (allocated-AllPaged p j a all paged) small own in
    let (k, found, below, same) =
      find_ptr-finds 1024 0 j p'.allocations ptr (omega arith) (omega arith) own in
    (
      p',
      w',
      e',
      rw (process_is_process_ptr, found),
      λ i small_i.
          ap (λ (r : Process × W). r.0.allocations i) freed
          ∙ restored p ptr size j i empty fresh cleared small_i,
    )
