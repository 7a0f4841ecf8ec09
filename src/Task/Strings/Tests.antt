-- ===== src/Task/Strings/Tests.antt =====
-- The string "boi" at 100 in a task whose directory maps addresses to themselves.
use boi_os.Prelude.{
  ℕ, ◌+◌, ◌-◌, ◌*◌, ◌%◌, ◌<◌, ◌≡◌, refl, ap, ◌∙◌, inl, none, some, Option, List, [], ◌∷◌, length,
  get_elem?, ltb, if◌then◌else◌, arith,
}
use boi_os.Prelude.Mem.{Mem}
use boi_os.Status.{ok}
use boi_os.CString.Laws.{IsString}
use boi_os.Paging.{Chunk, paging_new_4gb, paging_get, paging_get_physical_address}
use boi_os.Paging.Directory.{IsDirectory, IsPage}
use boi_os.Paging.Identity.{Frames, paging_new_4gb-identity}
use boi_os.Paging.Map.{paging_get_physical_address-paging_get}
use boi_os.Task.Strings.{Allocator, copy_string_from_task}
use boi_os.Task.Strings.Virtual.{IsTaskString}
use boi_os.Task.Strings.Delivery.{copy_string_from_task-delivers}

abbrev frames : ℕ → ℕ
frames i = 0x02000000 + i * 4096

frames-Frames : Frames frames
frames-Frames = record {
  page = λ i li. omega arith;
  below = λ i li. omega arith;
  apart = λ i j li lj e. omega arith;
}

abbrev chunk : Chunk
chunk = (paging_new_4gb frames (λ a. 0) 5).0

abbrev words : Mem
words = (paging_new_4gb frames (λ a. 0) 5).1

words-IsDirectory : IsDirectory words chunk.directory_entry
words-IsDirectory = (paging_new_4gb-identity frames (λ a. 0) 5 frames-Frames (omega arith)).0

words-identity : (va : ℕ) → IsPage va → paging_get words chunk.directory_entry va ≡ va + 5
words-identity = (paging_new_4gb-identity frames (λ a. 0) 5 frames-Frames (omega arith)).1

itself : (a : ℕ) → a < 0x1000000 → paging_get_physical_address words chunk.directory_entry a ≡ a
itself a lt =
    let z : 0 + a ≡ a = omega arith in
    let t =
      paging_get_physical_address-paging_get words chunk.directory_entry 0 0 5 a refl refl
        (omega arith) (omega arith)
        (words-identity (0 + a - (0 + a) % 4096) (omega arith) ∙ omega arith) in
    rw z at t

task_string :
    (cs : List ℕ) (m : Mem) (src : ℕ)
    → src + length cs < 0x1000000
    → IsString m src cs
    → IsTaskString words chunk.directory_entry m src cs
task_string [] m src lt s = ap m (itself src (omega arith)) ∙ s
task_string (c ∷ cs) m src lt (h, pc, s) =
    (ap m (itself src (omega arith)) ∙ h, pc, task_string cs m (src + 1) (omega arith) s)

abbrev boi : List ℕ
boi = b'b' ∷ b'o' ∷ b'i' ∷ []

abbrev byte_or_zero : Option ℕ → ℕ
byte_or_zero none = 0
byte_or_zero (some c) = c

abbrev bytes : Mem
bytes a = if ltb a 100 then 0 else byte_or_zero (get_elem? boi (a - 100))

bytes-IsString : IsString bytes 100 boi
bytes-IsString = omega arith

-- It gives the page at 0x8000, which is zero.
abbrev one_page : Allocator
one_page = record { kzalloc = λ m size. (0x8000, m); kfree = λ m ptr. m }

copy_string_from_task-delivers_example :
    (bytes2 : Mem) × (words2 : Mem) × (copy_string_from_task one_page bytes words chunk 100 200 128
      ≡ (ok 0, bytes2, words2))
    × IsString bytes2 200 boi
    × ((wa : ℕ)
        → IsPage wa
        → paging_get words2 chunk.directory_entry wa ≡ paging_get words chunk.directory_entry wa)
copy_string_from_task-delivers_example =
    copy_string_from_task-delivers boi one_page bytes words chunk 100 200 128 0x8000 bytes
      words-IsDirectory refl (omega arith) (omega arith) (omega arith) (omega arith) (omega arith)
      (omega arith) (inl (omega arith)) (task_string boi bytes 100 (omega arith) bytes-IsString)
      (λ a lo hi. inl (omega (arith, itself a (omega arith)))) (inl (omega arith))
