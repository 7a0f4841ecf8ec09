-- ===== src/Process/Tests.antt =====
-- process.c on a heap that gives the page at 0x8000, and two processes.
use boi_os.Prelude.{
  ◌*◌, ◌-◌, Option, none, List, [], ◌∷◌, get_elem?, ℕ, ◌+◌, ◌<◌, ◌≡◌, refl, true, some, ◌==◌,
  if◌then◌else◌, arith,
}
use boi_os.Prelude.Mem.{Mem}
use boi_os.Status.{Response, ok}
use boi_os.CString.Laws.{IsString}
use boi_os.File.{Filesystem, Files, FileStat, no_files, private_data}
use boi_os.Paging.{Chunk, paging_new_4gb, paging_get_physical_address}
use boi_os.Paging.Identity.{Frames, paging_new_4gb-identity}
use boi_os.Process.Image.{Program, binary_program, process_map_memory}
use boi_os.Process.Image.Translates.{process_map_memory-Translates}
use boi_os.Process.Load.{process_load_data}
use boi_os.Process.Load.Closes.{Restored, process_load_data-Restored}
use boi_os.Heap.{Heap}
use boi_os.Kheap.{kernel_heap_table}
use boi_os.Process.{
  KernelOps, Process, Processes, no_allocation, process_malloc, process_free,
  process_is_process_ptr, process_terminate_allocations,
}
use boi_os.Process.Machine.{Memory, machine, machine-Maps}
use boi_os.Process.Allocations.{Maps, process_terminate_allocations-free}
use boi_os.Process.Malloc.{process_free-process_malloc}

-- A heap that hands out one page.
abbrev one_page : KernelOps ℕ
one_page = record {
  kzalloc = λ w size. (0x8000, w + 1);
  kfree = λ w ptr. w;
  paging_map_to = λ w directory ptr phys end flags. (ok 0, w);
}

one_page-Maps : Maps one_page
one_page-Maps w directory ptr end flags p e le = (w, refl)

abbrev empty : Process
empty = record {
  page_directory = record { directory_entry = 4096 };
  allocations = λ i. no_allocation;
}

abbrev with_page : Process
with_page = record {
  page_directory = record { directory_entry = 4096 };
  allocations = λ i. if i == 3 then record { ptr = 0x8000; size = 100 } else no_allocation;
}

process_free-process_malloc_example :
    (p' : Process) × (w' : ℕ) × (process_malloc one_page empty 100 0 ≡ (0x8000, p', w'))
    × (process_is_process_ptr p' 0x8000 ≡ true)
    × ((i : ℕ) → i < 1024 → (process_free one_page p' 0x8000 w').0.allocations i ≡ no_allocation)
process_free-process_malloc_example =
    process_free-process_malloc one_page empty 100 0x8000 0 0 1 one_page-Maps refl (omega arith)
      (refl, omega arith) (λ i lt. (refl, omega arith)) (omega arith) refl (λ i lt. omega arith)
      (λ i lt e. refl)

abbrev kernel_heap : Heap
kernel_heap = record { table = kernel_heap_table; start_address = 0x01000000 }

abbrev memory : Memory
memory = (λ a. 0, λ a. 0)

process_terminate_allocations-free_example :
    ((process_terminate_allocations (machine kernel_heap) with_page memory).0.allocations 3).ptr ≡ 0
process_terminate_allocations-free_example =
    process_terminate_allocations-free (machine kernel_heap) with_page memory 3
      (machine-Maps kernel_heap) (λ i lt. ground arith) (omega arith)

-- The process at 500 in slot 0, which runs, and the one at 600 in slot 4.
abbrev two : Processes
two = record {
  processes = λ i. if i == 0 then 500 else if i == 4 then 600 else 0;
  current_process = 500;
}

abbrev frames : ℕ → ℕ
frames i = 0x02000000 + i * 4096

frames-Frames : Frames frames
frames-Frames = record {
  page = λ i li. omega arith;
  below = λ i li. omega arith;
  apart = λ i j li lj e. omega arith;
}

-- A directory as a task gets it.
abbrev directory : Chunk
directory = (paging_new_4gb frames (λ a. 0) 5).0

abbrev words : Mem
words = (paging_new_4gb frames (λ a. 0) 5).1

process_map_memory-Translates_example :
    (words' : Mem) × (process_map_memory
        (λ a. 0)
        words
        directory
        (binary_program 0x1000000 5000)
        0x1004000
      ≡ some (ok 0, words'))
    × ((x : ℕ)
        → x < 5000
        → paging_get_physical_address words' directory.directory_entry (0x400000 + x)
          ≡ 0x1000000 + x)
    × ((x : ℕ)
        → x < 16384
        → paging_get_physical_address words' directory.directory_entry (0x3FF000 - 16384 + x)
          ≡ 0x1004000 + x)
process_map_memory-Translates_example =
    process_map_memory-Translates (λ a. 0) words directory 0x1000000 5000 0x1004000
      (paging_new_4gb-identity frames (λ a. 0) 5 frames-Frames (omega arith)).0 refl (omega arith)
      (omega arith) refl (omega arith)

abbrev byte_or_zero : Option ℕ → ℕ
byte_or_zero none = 0
byte_or_zero (some c) = c

abbrev path : List ℕ
path = b'0' ∷ b':' ∷ b'/' ∷ b'a' ∷ []

-- The path at 1000, and the mode "r" at 10; the file is no ELF file.
abbrev bytes : Mem
bytes a = if a == 10 then b'r' else byte_or_zero (get_elem? path (a - 1000))

path-IsString : IsString bytes 1000 path
path-IsString = omega arith

abbrev opening : Filesystem ℕ ℕ
opening = record {
  resolve = λ w. (ok 0, w);
  open_function = λ parts mode w. (private_data w, w + 1);
  read_function = λ p size nmemb out w. (ok nmemb, w);
  seek_function = λ p offset mode w. (ok 0, w);
  stat_function = λ p stat w. (ok 0, record { flags = 0; file_size = 200 }, w);
  close_function = λ p w. (ok 0, w);
}

abbrev no_stat : FileStat
no_stat = record { flags = 0; file_size = 0 }

process_load_data-Restored_example :
    (x : Response × Option Program × Files ℕ ℕ × ℕ) × (process_load_data
        (λ w size. (4096, w))
        (λ w ptr. w)
        (λ w. bytes)
        no_stat
        no_files
        (some opening)
        0
        1000
        10
        20
      ≡ some x)
    × Restored no_files x
process_load_data-Restored_example =
    process_load_data-Restored (λ w size. (4096, w)) (λ w ptr. w) (λ w. bytes) no_stat no_files
      opening 0 path 1000 10 20 0 (λ v. path-IsString) (omega arith) refl (omega arith)
      (λ p w. (w, refl))
