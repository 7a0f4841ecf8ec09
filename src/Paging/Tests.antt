-- ===== src/Paging/Tests.antt =====
-- paging.c on the directory that paging_new_4gb builds from the pages behind 32 MB.
use boi_os.Prelude.{ℕ, ◌+◌, ◌*◌, ◌≡◌, refl, arith}
use boi_os.Prelude.Mem.{Mem}
use boi_os.Status.{ok}
use boi_os.Paging.{
  Chunk, paging_new_4gb, paging_get, paging_map_range, paging_map_to, paging_get_physical_address,
  paging_align_address,
}
use boi_os.Paging.Directory.{IsDirectory, IsPage}
use boi_os.Paging.Map.{Mapped, paging_map_range-Mapped, paging_get_physical_address-paging_map_to}
use boi_os.Paging.Identity.{Frames, paging_new_4gb-identity}

abbrev frames : ℕ → ℕ
frames i = 0x02000000 + i * 4096

frames-Frames : Frames frames
frames-Frames = record {
  page = λ i li. omega arith;
  below = λ i li. omega arith;
  apart = λ i j li lj e. omega arith;
}

abbrev chunk : Chunk
chunk = record { directory_entry = 0x02000000 }

mem : Mem
mem = (paging_new_4gb frames (λ a. 0) 5).1

paging_new_4gb-identity_example :
    let (c, m') = paging_new_4gb frames (λ a. 0) 5 in
    IsDirectory m' c.directory_entry
    × ((va : ℕ) → IsPage va → paging_get m' c.directory_entry va ≡ va + 5)
paging_new_4gb-identity_example =
    paging_new_4gb-identity frames (λ a. 0) 5 frames-Frames (omega arith)

mem-IsDirectory : IsDirectory mem 0x02000000
unfolding mem paging_new_4gb
mem-IsDirectory = (paging_new_4gb-identity frames (λ a. 0) 5 frames-Frames (omega arith)).0

paging_map_range-Mapped_example :
    Mapped chunk 0x400000 0x1000000 2 7 mem (paging_map_range mem chunk 0x400000 0x1000000 2 7)
paging_map_range-Mapped_example =
    paging_map_range-Mapped 2 mem chunk 0x400000 0x1000000 7 mem-IsDirectory refl refl (omega arith)
      (omega arith) (omega arith)

aligns_up : paging_align_address 0x1001 ≡ 0x2000
unfolding paging_align_address
aligns_up = refl

paging_get_physical_address-paging_map_to_example :
    let (r, m') = paging_map_to mem chunk 0x400000 0x1000000 0x1003000 7 in
    (r ≡ ok 0)
    × (paging_get_physical_address m' chunk.directory_entry (0x400000 + 5000) ≡ 0x1000000 + 5000)
paging_get_physical_address-paging_map_to_example =
    paging_get_physical_address-paging_map_to mem chunk 0x400000 0x1000000 0x1003000 7 5000
      mem-IsDirectory refl refl refl (omega arith) (omega arith) (omega arith) (omega arith)
      (omega arith)
