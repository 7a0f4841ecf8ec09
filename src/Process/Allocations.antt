-- ===== src/Process/Allocations.antt =====
-- The allocations of a process, from process_malloc to process_terminate_allocations.
use boi_os.Prelude.{
  ℕ, zero, suc, ◌+◌, ◌%◌, ◌^◌, ◌<◌, ◌≤◌, ◌≡◌, refl, ap, sym, ◌∙◌, inl, inr, true, some, ltb, ◌==◌,
  if◌then◌else◌, arith, Bool-cases, ==→eq, ==→ne, eq→==,
}
use mathlib.Core.Path.{subst}
use native.Mathlib.Nat.{mod-eq_of_lt}
use boi_os.Status.{ok}
use boi_os.Paging.{Chunk, paging_align_address}
use boi_os.Process.{
  KernelOps, ProcessAllocation, Process, no_allocation, find_ptr, process_get_allocation_by_addr,
  process_allocation_unjoin, free_at, free_unmapped, process_free, terminate_loop,
  process_terminate_allocations,
}

-- Whole pages map onto themselves.
abbrev pub Maps : {W : Type 0} → KernelOps W → Type 0
Maps {W} ops =
    (w : W) (directory : Chunk) (ptr end flags : ℕ)
    → ptr % 4096 ≡ 0
    → end % 4096 ≡ 0
    → ptr ≤ end
    → (w' : W) × (ops.paging_map_to w directory ptr ptr end flags ≡ (ok 0, w'))

-- A pointer to a page, with its bytes and one more page in reach of an address.
abbrev pub IsPaged : ProcessAllocation → Type 0
IsPaged a = (a.ptr % 4096 ≡ 0) × (a.ptr + a.size + 4096 < 2 ^ 32)

abbrev pub AllPaged : Process → Type 0
AllPaged p = (i : ℕ) → i < 1024 → IsPaged (p.allocations i)

-- The loop finds an index with the pointer where there is one.
pub find_ptr-finds :
    (k i l : ℕ) (allocations : ℕ → ProcessAllocation) (addr : ℕ)
    → i ≤ l
    → l < i + k
    → (allocations l).ptr ≡ addr
    → (j : ℕ) × (find_ptr allocations addr i k ≡ some j)
      × (j < i + k)
      × ((allocations j).ptr ≡ addr)
unfolding find_ptr
find_ptr-finds zero i l a addr lo hi e = absurd (omega arith)
find_ptr-finds (suc k) i l a addr lo hi e = elim (Bool-cases ((a i).ptr == addr)) [
  | inl t ↦ (i, rw (find_ptr, t), omega arith, ==→eq (a i).ptr addr t)
  | inr f ↦
      let ne = ==→ne (a i).ptr addr f in
      let later : i + 1 ≤ l = elim (Bool-cases (i == l)) [
        | inl q ↦ absurd (ne (ap (λ x. (a x).ptr) (==→eq i l q) ∙ e))
        | inr q ↦ let other = ==→ne i l q in omega (arith, other, lo)
      ] in
      let (j, found, lt, same) = find_ptr-finds k (i + 1) l a addr later (omega arith) e in
      (j, rw (find_ptr, f) found, omega arith, same)
]

aligned_end :
    (ptr size : ℕ)
    → ptr % 4096 ≡ 0
    → ptr + size + 4096 < 2 ^ 32
    → (paging_align_address ((ptr + size) % 2 ^ 32) % 4096 ≡ 0)
      × (ptr ≤ paging_align_address ((ptr + size) % 2 ^ 32))
unfolding paging_align_address
aligned_end ptr size e small =
    let whole : (ptr + size) % 2 ^ 32 ≡ ptr + size = mod-eq_of_lt (omega arith) in
    (ground (arith, whole), ground (arith, whole))

pub map_allocation :
    {W : Type 0} (ops : KernelOps W) (w : W) (directory : Chunk) (a : ProcessAllocation) (flags : ℕ)
    → Maps ops
    → IsPaged a
    → (w' : W) × (ops.paging_map_to w directory a.ptr a.ptr
          (paging_align_address ((a.ptr + a.size) % 2 ^ 32))
          flags
        ≡ (ok 0, w'))
map_allocation ops w directory a flags maps (e, small) =
    let (aligned, le) = aligned_end a.ptr a.size e small in
    maps w directory a.ptr (paging_align_address ((a.ptr + a.size) % 2 ^ 32)) flags e aligned le

-- process_free of a pointer of the process clears its entries.
pub process_free_lem :
    {W : Type 0} (ops : KernelOps W) (p : Process) (ptr i : ℕ) (w : W)
    → Maps ops
    → AllPaged p
    → i < 1024
    → (p.allocations i).ptr ≡ ptr
    → (w' : W) × (process_free ops p ptr w ≡ (process_allocation_unjoin p ptr, w'))
unfolding process_free free_at free_unmapped process_get_allocation_by_addr
process_free_lem ops p ptr i w maps paged lt e =
    let (j, found, small, same) =
      find_ptr-finds 1024 0 i p.allocations ptr (omega arith) (omega arith) e in
    let (w', mapped) =
      map_allocation ops w p.page_directory (p.allocations j) 0 maps (paged j (omega arith)) in
    (ops.kfree w' ptr, rw (found, free_at, mapped))

pub unjoin_lem :
    (p : Process) (ptr i : ℕ)
    → i < 1024
    → (process_allocation_unjoin p ptr).allocations i
      ≡ (if (p.allocations i).ptr == ptr then no_allocation else p.allocations i)
unfolding process_allocation_unjoin
unjoin_lem p ptr i lt = let inside : ltb i 1024 ≡ true = ground arith in rw inside

unjoin-AllPaged : (p : Process) (ptr : ℕ) → AllPaged p → AllPaged (process_allocation_unjoin p ptr)
unjoin-AllPaged p ptr paged i lt =
    subst IsPaged (sym (unjoin_lem p ptr i lt)) (elim (Bool-cases ((p.allocations i).ptr == ptr)) [
      | inl t ↦ rw t (omega arith)
      | inr f ↦ rw f (paged i lt)
    ])

-- An entry that is free stays free, and the ones with the pointer get free.
unjoin-free :
    (p : Process) (ptr i : ℕ)
    → i < 1024
    → (p.allocations i).ptr ≡ 0
    → ((process_allocation_unjoin p ptr).allocations i).ptr ≡ 0
unjoin-free p ptr i lt e =
    ap (λ (a : ProcessAllocation). a.ptr) (unjoin_lem p ptr i lt)
    ∙ elim (Bool-cases ((p.allocations i).ptr == ptr)) [ inl t ↦ rw t | inr f ↦ rw f e ]

unjoin-own :
    (p : Process) (i : ℕ)
    → i < 1024
    → ((process_allocation_unjoin p (p.allocations i).ptr).allocations i).ptr ≡ 0
unjoin-own p i lt =
    ap (λ (a : ProcessAllocation). a.ptr) (unjoin_lem p (p.allocations i).ptr i lt)
    ∙ rw (eq→== (p.allocations i).ptr (p.allocations i).ptr refl)

terminate_loop-free :
    {W : Type 0} (k i : ℕ) (ops : KernelOps W) (p : Process) (w : W)
    → Maps ops
    → AllPaged p
    → i + k ≤ 1024
    → ((j : ℕ) → j < i → (p.allocations j).ptr ≡ 0)
    → (j : ℕ) → j < i + k
    → ((terminate_loop ops i k (p, w)).0.allocations j).ptr ≡ 0
unfolding terminate_loop
terminate_loop-free zero i ops p w maps paged le freed j lt = freed j (omega (arith, lt))
terminate_loop-free (suc k) i ops p w maps paged le freed j lt =
    let ptr = (p.allocations i).ptr in
    let (w', e) = process_free_lem ops p ptr i w maps paged (omega arith) refl in
    let p' = process_allocation_unjoin p ptr in
    subst (λ r. ((terminate_loop ops (i + 1) k r).0.allocations j).ptr ≡ 0) (sym e)
      (terminate_loop-free k (i + 1) ops p' w' maps (unjoin-AllPaged p ptr paged) (omega arith)
        (λ l small. elim (Bool-cases (l == i)) [
          | inl q ↦
              subst (λ x. (p'.allocations x).ptr ≡ 0) (sym (==→eq l i q))
                (unjoin-own p i (omega arith))
          | inr q ↦
              let ne = ==→ne l i q in
              unjoin-free p ptr l (omega (arith, small)) (freed l (omega (arith, ne, small)))
        ])
        j (omega (arith, lt)))

-- After process_terminate_allocations the process holds no allocation, where its allocations are pages and
-- whole pages can be mapped.
pub process_terminate_allocations-free :
    {W : Type 0} (ops : KernelOps W) (p : Process) (w : W) (j : ℕ)
    → Maps ops
    → AllPaged p
    → j < 1024
    → ((process_terminate_allocations ops p w).0.allocations j).ptr ≡ 0
unfolding process_terminate_allocations
process_terminate_allocations-free ops p w j maps paged lt =
    terminate_loop-free 1024 0 ops p w maps paged (omega arith)
      (λ l small. absurd (omega (arith, small))) j (omega (arith, lt))
