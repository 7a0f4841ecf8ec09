-- ===== src/Process/Image/Translates.antt =====
-- Where the addresses of a binary program and of its stack lead.
use boi_os.Prelude.{
  ℕ, ◌+◌, ◌-◌, ◌/◌, ◌%◌, ◌^◌, ◌<◌, ◌≤◌, ◌≡◌, refl, ap, ◌∙◌, true, false, Option, some, arith,
}
use native.Mathlib.Nat.{mod-eq_of_lt}
use boi_os.Prelude.Mem.{Mem}
use boi_os.Status.{Response, ok, err}
use boi_os.Paging.{
  Chunk, paging_map_to, paging_get, paging_align_address, paging_get_physical_address,
}
use boi_os.Paging.Directory.{IsDirectory}
use boi_os.Paging.Map.{in_pages, paging_map_to-Mapped, paging_get_physical_address-paging_get}
use boi_os.Process.Image.{
  binary_program, map_next, process_map_binary, process_map_stack, process_map_program, then_stack,
  process_map_memory,
}

-- The end of a range, aligned up.
range_end :
    (ptr size : ℕ)
    → ptr % 4096 ≡ 0
    → ptr + size + 4096 < 2 ^ 32
    → (end : ℕ) × (paging_align_address ((ptr + size) % 2 ^ 32) ≡ end)
      × (end % 4096 ≡ 0)
      × (ptr + size ≤ end)
      × (end < ptr + size + 4096)
unfolding paging_align_address
range_end ptr size e small =
    let whole : (ptr + size) % 2 ^ 32 ≡ ptr + size = mod-eq_of_lt (omega arith) in
    (
      paging_align_address ((ptr + size) % 2 ^ 32),
      refl,
      ground (arith, whole),
      ground (arith, whole),
      ground (arith, whole),
    )

-- The stack's map, behind the program's, leaves what the program's did.
both :
    (words : Mem) (c : Chunk) (ptr end stack stack_end : ℕ)
    → IsDirectory words c.directory_entry
    → ptr % 4096 ≡ 0
    → end % 4096 ≡ 0
    → ptr ≤ end
    → 0x400000 + (end - ptr) ≤ 2 ^ 32
    → end < 2 ^ 32
    → stack % 4096 ≡ 0
    → stack_end ≡ stack + 16384
    → stack_end + 4096 < 2 ^ 32
    → let (r, m1) = paging_map_to words c 0x400000 ptr end 7 in
      let (r', m2) = paging_map_to m1 c 0x3FB000 stack stack_end 7 in
      (r ≡ ok 0)
      × (r' ≡ ok 0)
      × ((x : ℕ)
          → x < end - ptr
          → ptr + x + 4096 < 2 ^ 32
          → paging_get_physical_address m2 c.directory_entry (0x400000 + x) ≡ ptr + x)
      × ((x : ℕ)
          → x < 16384
          → paging_get_physical_address m2 c.directory_entry (0x3FB000 + x) ≡ stack + x)
both words c ptr end stack stack_end d pa ea le fits below sa se small =
    let first =
      paging_map_to-Mapped words c 0x400000 ptr end 7 d refl pa ea le (omega arith) fits
        (omega arith) in
    let m1 = (paging_map_to words c 0x400000 ptr end 7).1 in
    let second =
      paging_map_to-Mapped m1 c 0x3FB000 stack stack_end 7 first.keeps refl sa
        (omega (arith, sa, se)) (omega arith) (omega arith) (omega arith) (omega arith) in
    let m2 = (paging_map_to m1 c 0x3FB000 stack stack_end 7).1 in
    (
      first.succeeds,
      second.succeeds,
      λ x lt room.
          let page : ℕ = 0x400000 + x - (0x400000 + x) % 4096 in
          let hit : in_pages 0x400000 ((end - ptr) / 4096) page ≡ true = ground arith in
          let miss : in_pages 0x3FB000 ((stack_end - stack) / 4096) page ≡ false = ground arith in
          let old : paging_get m1 c.directory_entry page ≡ ptr + (page - 0x400000) + 7 =
            first.entries page (omega arith) ∙ rw hit in
          let word : paging_get m2 c.directory_entry page ≡ ptr + (page - 0x400000) + 7 =
            second.entries page (omega arith) ∙ rw miss old in
          paging_get_physical_address-paging_get m2 c.directory_entry 0x400000 ptr 7 x refl pa
            (omega arith) room word,
      λ x lt.
          let page : ℕ = 0x3FB000 + x - (0x3FB000 + x) % 4096 in
          let hit : in_pages 0x3FB000 ((stack_end - stack) / 4096) page ≡ true = ground arith in
          let word : paging_get m2 c.directory_entry page ≡ stack + (page - 0x3FB000) + 7 =
            second.entries page (omega arith) ∙ rw hit in
          paging_get_physical_address-paging_get m2 c.directory_entry 0x3FB000 stack 7 x refl sa
            (omega arith) (omega arith) word,
    )

map_next-ok :
    (mapped : Response × Mem) (rest : Mem → Option (Response × Mem))
    → mapped.0 ≡ ok 0
    → map_next mapped rest ≡ rest mapped.1
unfolding map_next
map_next-ok (ok r, words) rest e = refl
map_next-ok (err e, words) rest h = cc

-- After process_map_memory of a binary, on a well-formed directory, every virtual address of the program leads
-- to its byte where it was loaded, and every one of the stack to the stack's, which come to lie in front of it;
-- the program and the stack start pages, and lie below 4 GiB with a page to spare, the program also where it is
-- mapped.
pub process_map_memory-Translates :
    (m words : Mem) (c : Chunk) (ptr size stack : ℕ)
    → IsDirectory words c.directory_entry
    → ptr % 4096 ≡ 0
    → ptr + size + 4096 < 2 ^ 32
    → 0x400000 + size + 4096 < 2 ^ 32
    → stack % 4096 ≡ 0
    → stack + 16384 + 4096 < 2 ^ 32
    → (words' : Mem) × (process_map_memory m words c (binary_program ptr size) stack
        ≡ some (ok 0, words'))
      × ((x : ℕ)
          → x < size
          → paging_get_physical_address words' c.directory_entry (0x400000 + x) ≡ ptr + x)
      × ((x : ℕ)
          → x < 16384
          → paging_get_physical_address words' c.directory_entry (0x3FF000 - 16384 + x) ≡ stack + x)
unfolding process_map_memory then_stack process_map_program process_map_binary process_map_stack
process_map_memory-Translates m words c ptr size stack d pa small fits sa room =
    let (end, e, ea, le, lt) = range_end ptr size pa small in
    let (stack_end, e', ea', le', lt') = range_end stack 16384 sa room in
    let se : stack_end ≡ stack + 16384 = omega (arith, ea', le', lt', sa) in
    let (r, r', program, top) =
      both words c ptr end stack stack_end d pa ea (omega arith) (omega (arith, lt))
        (omega (arith, lt)) sa se (omega (arith, se)) in
    let m1 = (paging_map_to words c 0x400000 ptr end 7).1 in
    let m2 = (paging_map_to m1 c 0x3FB000 stack stack_end 7).1 in
    (
      m2,
      rw (e, e')
          (map_next-ok (paging_map_to words c 0x400000 ptr end 7)
              (λ w. some (paging_map_to w c 0x3FB000 stack stack_end 7)) r
            ∙ ap (λ x. some (x, m2)) r'),
      λ x lx. program x (omega (arith, le)) (omega arith),
      top,
    )
