-- ===== src/Process.antt =====
-- src/task/process.c: the table of processes and the memory that a process allocates. The heap and the page
-- tables are a record of operations on a state `W`, so that what a process does is stated apart from them;
-- Process/Machine fills it with the kernel's. A process is known by its address, 0 is null.
pub mod Machine
pub mod Allocations
pub mod Malloc
pub mod Slots
pub mod Image
pub mod Load
pub mod Launch
mod Tests
use boi_os.Prelude.{
  ℕ, zero, suc, ◌+◌, ◌%◌, ◌^◌, Bool, true, false, Option, none, some, List, [], ◌∷◌, ltb, leb, ◌==◌,
  if◌then◌else◌, bit_or,
}
use boi_os.Prelude.Int.{ℤ, pos, negsuc}
use boi_os.Prelude.Slots.{set_slot}
use boi_os.Status.{Response, ok, err}
use boi_os.Paging.{Chunk, paging_align_address}

abbrev pub max_program_allocations : ℕ
max_program_allocations = 1024

abbrev pub max_processes : ℕ
max_processes = 12

-- PAGING_IS_WRITABLE | PAGING_IS_PRESENT | PAGING_ACCESS_FROM_ALL
abbrev pub user_flags : ℕ
user_flags = 0b111

-- What the process code calls: kzalloc gives an address, 0 for null, and paging_map_to a response.
pub record KernelOps (W : Type 0) : Type 0 where
  pub kzalloc : W → ℕ → ℕ × W
  pub kfree : W → ℕ → W
  pub paging_map_to : W → Chunk → ℕ → ℕ → ℕ → ℕ → Response × W

-- `struct process_allocation`
pub record ProcessAllocation : Type 0 where
  pub ptr : ℕ
  pub size : ℕ

-- `struct process`, as far as its memory goes: the directory of its task, and the allocations by index.
pub record Process : Type 0 where
  pub page_directory : Chunk
  pub allocations : ℕ → ProcessAllocation

abbrev pub no_allocation : ProcessAllocation
no_allocation = record { ptr = 0x00; size = 0 }

-- The first index from `i` on whose pointer is `addr`, with `k` rounds left.
pub find_ptr : (ℕ → ProcessAllocation) → ℕ → ℕ → ℕ → Option ℕ
find_ptr allocations addr i zero = none
find_ptr allocations addr i (suc k) = elim ((allocations i).ptr == addr) [
  | true ↦ some i
  | false ↦ find_ptr allocations addr (i + 1) k
]

-- `none` is -ENOMEM.
pub process_find_free_allocation_index : Process → Option ℕ
process_find_free_allocation_index process =
    find_ptr process.allocations 0 0 max_program_allocations

-- The index of the allocation.
pub process_get_allocation_by_addr : Process → ℕ → Option ℕ
process_get_allocation_by_addr process addr =
    find_ptr process.allocations addr 0 max_program_allocations

pub process_is_process_ptr : Process → ℕ → Bool
process_is_process_ptr process ptr =
    elim (find_ptr process.allocations ptr 0 max_program_allocations) [
      | none ↦ false
      | some i ↦ true
    ]

-- Behind `out_err`, for a pointer that is not null.
malloc_failed : {W : Type 0} → KernelOps W → Process → ℕ → W → ℕ × Process × W
malloc_failed ops process ptr w = (0, process, ops.kfree w ptr)

malloc_mapped : {W : Type 0} → KernelOps W → Process → ℕ → ℕ → ℕ → Response × W → ℕ × Process × W
unfolding malloc_failed
malloc_mapped ops process ptr size index (err e, w) = malloc_failed ops process ptr w
malloc_mapped ops process ptr size index (ok r, w) = (
  ptr,
  record process {
    allocations = set_slot process.allocations index (record { ptr = ptr; size = size });
  },
  w,
)

malloc_at : {W : Type 0} → KernelOps W → Process → ℕ → ℕ → Option ℕ → W → ℕ × Process × W
unfolding malloc_mapped malloc_failed
malloc_at ops process ptr size none w = malloc_failed ops process ptr w
malloc_at ops process ptr size (some index) w = malloc_mapped ops process ptr size index (
    ops.paging_map_to w process.page_directory ptr ptr
      (paging_align_address ((ptr + size) % 2 ^ 32)) user_flags)

-- The pointer, 0 for null.
pub process_malloc : {W : Type 0} → KernelOps W → Process → ℕ → W → ℕ × Process × W
unfolding malloc_at
process_malloc ops process size w =
    let (ptr, w') = ops.kzalloc w size in
    if ptr == 0
    then (0, process, w')
    else malloc_at ops process ptr size (process_find_free_allocation_index process) w'

-- Every entry with the pointer is cleared.
unfoldable pub process_allocation_unjoin : Process → ℕ → Process
process_allocation_unjoin process ptr = record process {
  allocations = λ i.
      if ltb i max_program_allocations
      then if (process.allocations i).ptr == ptr then no_allocation else process.allocations i
      else process.allocations i;
}

free_unmapped : {W : Type 0} → KernelOps W → Process → ℕ → Response × W → Process × W
free_unmapped ops process ptr (err e, w) = (process, w)
free_unmapped ops process ptr (ok r, w) = (process_allocation_unjoin process ptr, ops.kfree w ptr)

free_at : {W : Type 0} → KernelOps W → Process → ℕ → Option ℕ → W → Process × W
unfolding free_unmapped
free_at ops process ptr none w = (process, w)
free_at ops process ptr (some i) w =
    let allocation = process.allocations i in
    free_unmapped ops process ptr (
      ops.paging_map_to w process.page_directory allocation.ptr allocation.ptr
        (paging_align_address ((allocation.ptr + allocation.size) % 2 ^ 32)) 0)

pub process_free : {W : Type 0} → KernelOps W → Process → ℕ → W → Process × W
unfolding free_at
process_free ops process ptr w =
    free_at ops process ptr (process_get_allocation_by_addr process ptr) w

-- `k` rounds are left, at the allocation `i`.
terminate_loop : {W : Type 0} → KernelOps W → ℕ → ℕ → Process × W → Process × W
terminate_loop ops i zero (process, w) = (process, w)
terminate_loop ops i (suc k) (process, w) =
    terminate_loop ops (i + 1) k (process_free ops process (process.allocations i).ptr w)

-- The response is 0.
pub process_terminate_allocations : {W : Type 0} → KernelOps W → Process → W → Process × W
unfolding terminate_loop
process_terminate_allocations ops process w =
    terminate_loop ops 0 max_program_allocations (process, w)

-- `processes` and `current_process`, by the addresses of the processes.
pub record Processes : Type 0 where
  pub processes : ℕ → ℕ
  pub current_process : ℕ

-- The pid of a process that is not in the table is out of it, or its slot is empty.
pub process_get : Processes → ℤ → ℕ
process_get s (negsuc n) = 0
process_get s (pos pid) = if leb max_processes pid then 0 else s.processes pid

-- The first index whose emptiness is `empty`, from `i` on, with `k` rounds left.
pub find_slot : (ℕ → ℕ) → Bool → ℕ → ℕ → Option ℕ
find_slot processes empty i zero = none
find_slot processes true i (suc k) = elim (processes i == 0) [
  | true ↦ some i
  | false ↦ find_slot processes true (i + 1) k
]
find_slot processes false i (suc k) = elim (processes i == 0) [
  | true ↦ find_slot processes false (i + 1) k
  | false ↦ some i
]

-- `none` is -EISTKN.
pub process_get_free_slot : Processes → Option ℕ
process_get_free_slot s = find_slot s.processes true 0 max_processes

unfoldable pub process_switch : Processes → ℕ → Processes
process_switch s process = record s { current_process = process }

-- `none` is the panic where no process is left.
pub process_switch_to_any : Processes → Option Processes
process_switch_to_any s = elim (find_slot s.processes false 0 max_processes) [
  | none ↦ none
  | some i ↦ some (process_switch s (s.processes i))
]

-- The process at an address has the pid.
pub process_unlink : Processes → ℕ → ℕ → Option Processes
process_unlink s process pid =
    let unlinked = record s { processes = set_slot s.processes pid 0x00 } in
    elim (s.current_process == process) [
      | true ↦ process_switch_to_any unlinked
      | false ↦ some unlinked
    ]

-- A list of arguments is the list of their strings.
pub process_count_command_arguments : List (List ℕ) → ℕ
process_count_command_arguments [] = 0
process_count_command_arguments (argument ∷ rest) = process_count_command_arguments rest + 1
