-- ===== src/Process/Launch/Tests.antt =====
-- The load of a binary on a heap that hands out pages one behind the other, with two processes and a task.
use boi_os.Prelude.{
  ℕ, ◌+◌, ◌-◌, ◌*◌, ◌/◌, ◌≡◌, refl, Option, none, some, [], ◌∷◌, get_elem?, ◌==◌, if◌then◌else◌,
  arith,
}
use boi_os.Prelude.Mem.{Mem}
use boi_os.Status.{Response, ok}
use boi_os.Memory.{memset}
use boi_os.File.{no_files}
use boi_os.Paging.{paging_new_4gb, paging_map_to}
use boi_os.Paging.Identity.{Frames, paging_new_4gb-identity}
use boi_os.Task.{Tasks, first_registers}
use boi_os.Task.Append.{IsTaskList}
use boi_os.Process.Image.{binary_program}
use boi_os.Process.Launch.{LoadOps, System, load_data}
use boi_os.Process.Launch.Loads.{Loads, load_data-Loads}
use boi_os.Process.Launch.Binary.{HasRoom, Runs, load_data-Runs}

-- The bytes, the words of the page tables, the first free page, and the directory of the last chunk.
record Memory : Type 0 where
  bytes : Mem
  words : Mem
  next : ℕ
  directory : ℕ

-- The pages of a directory and its tables.
abbrev frames : ℕ → ℕ → ℕ
frames start i = start + i * 4096

frames-Frames : Frames (frames 0x1009000)
frames-Frames = record {
  page = λ i li. omega arith;
  below = λ i li. omega arith;
  apart = λ i j li lj e. omega arith;
}

abbrev heap : LoadOps Memory
heap = record {
  kernel = record {
    kzalloc = λ w size. (
      w.next,
      record w { bytes = memset w.bytes w.next 0 size; next = w.next + (size / 4096 + 1) * 4096 },
    );
    kfree = λ w ptr. w;
    paging_map_to = λ w c ptr phys end flags.
        let (r, words) = paging_map_to w.words c ptr phys end flags in
        (r, record w { words = words });
  };
  mem_of = λ w. w.bytes;
  set_mem = λ w m. record w { bytes = m };
  words_of = λ w. w.words;
  set_words = λ w m. record w { words = m };
  paging_new_4gb = λ w flags.
      let (c, words) = paging_new_4gb (frames w.next) w.words flags in
      (
        w.next + 1025 * 4096,
        record w { words = words; next = w.next + 1026 * 4096; directory = c.directory_entry },
      );
  chunk_at = λ w address. record { directory_entry = w.directory };
  paging_free_4gb = λ w address. w;
}

abbrev byte_or_zero : Option ℕ → ℕ
byte_or_zero none = 0
byte_or_zero (some c) = c

-- The path "0:/a" at 1000, and no page tables.
abbrev before : Memory
before = record {
  bytes = λ a. byte_or_zero (get_elem? (b'0' ∷ b':' ∷ b'/' ∷ b'a' ∷ []) (a - 1000));
  words = λ a. 0;
  next = 0x1003000;
  directory = 0;
}

before-HasRoom : HasRoom heap 1000 0x1000000 before
before-HasRoom = record {
  stack = omega arith;
  page = refl;
  below = omega arith;
  task = omega arith;
  directory = omega arith;
  tables = (paging_new_4gb-identity (frames 0x1009000) (λ a. 0) 5 frames-Frames (omega arith)).0;
}

-- The task at 100.
abbrev one_task : Tasks
one_task = record {
  store_of = λ a. record {
    page_directory = 1;
    registers = first_registers 0x400000;
    next = 0;
    prev = 0;
    process = 500;
  };
  current_task = 100;
  task_tail = 100;
  task_head = 100;
}

one_task-IsTaskList : IsTaskList one_task (100 ∷ [])
one_task-IsTaskList = (refl, omega arith, refl, refl)

abbrev start : System Memory ℕ
start = record {
  world = before;
  files = no_files;
  tasks = one_task;
  table = record {
    processes = λ i. if i == 0 then 500 else if i == 4 then 600 else 0;
    current_process = 500;
  };
  process_at = λ a. record { program = none; stack = 0; pid = 0; task = 0 };
}

load_data-Runs_example :
    (s' : System Memory ℕ) × (load_data heap 1000 1 0x1000000 start
        (some (ok 0, some (binary_program 0x1001000 5000), no_files, before))
      ≡ some (ok 0, 0x1000000, s'))
    × Runs heap 1 0x1000000 0x1001000 5000 s'
load_data-Runs_example =
    load_data-Runs heap 1000 1 0x1000000 0x1001000 5000 start no_files before before-HasRoom refl
      (omega arith) (omega arith)

load_data-Loads_example :
    (x : Response × ℕ × System Memory ℕ) × (load_data heap 1000 1 0x1000000 start
        (some (ok 0, some (binary_program 0x1001000 5000), no_files, before))
      ≡ some x)
    × Loads start (100 ∷ []) 1 x
load_data-Loads_example =
    load_data-Loads heap 1000 1 0x1000000 (binary_program 0x1001000 5000) start (100 ∷ []) no_files
      before one_task-IsTaskList (omega arith) ((omega arith, tt), omega arith, omega arith)
      (omega arith) tt
