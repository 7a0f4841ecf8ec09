-- ===== src/Paging.antt =====
-- src/memory/paging/paging.c: page directories. Memory is read and written in 32-bit words here, all
-- of whose addresses are multiples of four.
pub mod Directory
pub mod Map
pub mod Identity
mod Tests
use boi_os.Prelude.{
  ℕ, zero, suc, ◌+◌, ◌-◌, ◌*◌, ◌/◌, ◌%◌, ◌^◌, Bool, true, false, not, ◌&&◌, ◌||◌, List, [], ◌∷◌,
  ◌++◌, ltb, ◌==◌, if◌then◌else◌, bit_and, bit_or,
}
use boi_os.Prelude.Mem.{Mem, store}
use boi_os.Status.{Response, ok, err, einvarg}

abbrev pub page_size : ℕ
page_size = 4096

abbrev pub total_entries_per_table : ℕ
total_entries_per_table = 1024

abbrev pub access_from_all : ℕ
access_from_all = 0b00000100

abbrev pub is_writable : ℕ
is_writable = 0b00000010

abbrev pub is_present : ℕ
is_present = 0b00000001

-- `struct paging_4gb_chunk`, by the address of its directory.
pub record Chunk : Type 0 where
  pub directory_entry : ℕ

-- The address of element `i` of an array of words.
abbrev pub elem_at : ℕ → ℕ → ℕ
elem_at array i = array + 4 * i

-- The table of a directory entry, without its flags.
abbrev pub table_of : ℕ → ℕ
table_of entry = bit_and entry 0xFFFFF000

pub paging_is_aligned : ℕ → Bool
paging_is_aligned address = address % page_size == 0

-- The response, and what `directory_index_out` and `table_index_out` hold afterwards.
pub paging_get_indexes : ℕ → ℕ → ℕ → Response × ℕ × ℕ
unfolding paging_is_aligned
paging_get_indexes virtual_address directory_index table_index =
    if paging_is_aligned virtual_address
    then (
      ok 0,
      virtual_address / (total_entries_per_table * page_size),
      virtual_address % (total_entries_per_table * page_size) / page_size,
    )
    else (err einvarg, directory_index, table_index)

set_at : Mem → ℕ → ℕ → Response × ℕ × ℕ → Response × Mem
set_at m directory value (err e, _, _) = (err e, m)
set_at m directory value (ok _, directory_index, table_index) =
    let table = table_of (m (elem_at directory directory_index)) in
    (ok 0, store m (elem_at table table_index) value)

pub paging_set : Mem → ℕ → ℕ → ℕ → Response × Mem
unfolding paging_is_aligned paging_get_indexes set_at
paging_set m directory virtual_address value_of_entry =
    if paging_is_aligned virtual_address
    then set_at m directory value_of_entry (paging_get_indexes virtual_address 0 0)
    else (err einvarg, m)

-- A virtual address that is not aligned is read as the first one.
pub paging_get : Mem → ℕ → ℕ → ℕ
unfolding paging_get_indexes
paging_get m directory virtual_address =
    let (_, directory_index, table_index) = paging_get_indexes virtual_address 0 0 in
    m (elem_at (table_of (m (elem_at directory directory_index))) table_index)

unfoldable pub paging_align_address : ℕ → ℕ
paging_align_address ptr =
    if ptr % page_size == 0 then ptr else (ptr + page_size - ptr % page_size) % 2 ^ 32

unfoldable pub paging_align_to_lower_page : ℕ → ℕ
paging_align_to_lower_page addr = addr - addr % page_size

pub paging_get_physical_address : Mem → ℕ → ℕ → ℕ
unfolding paging_align_to_lower_page
paging_get_physical_address m directory virt_addr =
    let virt_addr_new = paging_align_to_lower_page virt_addr in
    let difference = virt_addr - virt_addr_new in
    (bit_and (paging_get m directory virt_addr_new) 0xFFFFF000 + difference) % 2 ^ 32

pub paging_map : Mem → Chunk → ℕ → ℕ → ℕ → Response × Mem
paging_map m directory virtual_address physical_address flags =
    if not (virtual_address % page_size == 0) || not (physical_address % page_size == 0)
    then (err einvarg, m)
    else paging_set m directory.directory_entry virtual_address (bit_or physical_address flags)

range_next : Response × Mem → (Mem → Response × Mem) → Response × Mem
range_next (err e, m) rest = (err e, m)
range_next (ok _, m) rest = rest m

-- `total_pages` rounds are left.
pub paging_map_range : Mem → Chunk → ℕ → ℕ → ℕ → ℕ → Response × Mem
unfolding range_next
paging_map_range m directory virtual_address physical_address zero flags = (ok 0, m)
paging_map_range m directory virtual_address physical_address (suc total_pages) flags =
    range_next (paging_map m directory virtual_address physical_address flags) (λ m'.
      paging_map_range m' directory ((virtual_address + page_size) % 2 ^ 32)
        ((physical_address + page_size) % 2 ^ 32) total_pages flags)

pub paging_map_to : Mem → Chunk → ℕ → ℕ → ℕ → ℕ → Response × Mem
paging_map_to m directory virtual_address physical_address physical_end_address flags =
    if not (virtual_address % page_size == 0)
      || not (physical_address % page_size == 0)
      || not (physical_end_address % page_size == 0)
    then (err einvarg, m)
    else if ltb physical_end_address physical_address
    then (err einvarg, m)
    else let total_pages = (physical_end_address - physical_address) / page_size in
      paging_map_range m directory virtual_address physical_address total_pages flags

-- The words that kzalloc clears, with `k` left; nothing at the null pointer.
zero_words : Mem → ℕ → ℕ → Mem
zero_words m ptr zero = m
zero_words m ptr (suc k) = zero_words (store m ptr 0) (ptr + 4) k

kzalloc_words : Mem → ℕ → ℕ → Mem
unfolding zero_words
kzalloc_words m ptr k = if ptr == 0 then m else zero_words m ptr k

-- The inner loop, with `k` rounds left at the entry `j`.
fill_table : Mem → ℕ → ℕ → ℕ → ℕ → ℕ → Mem
fill_table m entry offset flags j zero = m
fill_table m entry offset flags j (suc k) =
    fill_table (store m (elem_at entry j) (bit_or ((offset + j * page_size) % 2 ^ 32) flags)) entry
      offset flags (j + 1) k

-- The outer loop, with `k` rounds left at the entry `i`. `kzalloc` gives the address of its call
-- `i + 1`, which is the table's.
fill_directory : (ℕ → ℕ) → Mem → ℕ → ℕ → ℕ → ℕ → ℕ → Mem
unfolding fill_table kzalloc_words
fill_directory kzalloc m directory offset flags i zero = m
fill_directory kzalloc m directory offset flags i (suc k) =
    let entry = kzalloc (i + 1) in
    let m' =
      fill_table (kzalloc_words m entry total_entries_per_table) entry offset flags 0
        total_entries_per_table in
    fill_directory kzalloc
      (store m' (elem_at directory i) (bit_or (bit_or entry flags) is_writable)) directory
      ((offset + total_entries_per_table * page_size) % 2 ^ 32) flags (i + 1) k

-- `kzalloc n` is the address that the call `n` of kzalloc returns: the directory, the tables in order,
-- the chunk, which is given by what it holds.
pub paging_new_4gb : (ℕ → ℕ) → Mem → ℕ → Chunk × Mem
unfolding fill_directory kzalloc_words
paging_new_4gb kzalloc m flags =
    let directory = kzalloc 0 in
    let m' =
      fill_directory kzalloc (kzalloc_words m directory total_entries_per_table) directory 0 flags 0
        total_entries_per_table in
    let chunk_4gb = kzalloc (total_entries_per_table + 1) in
    (
      record { directory_entry = directory },
      store (kzalloc_words m' chunk_4gb 1) chunk_4gb directory,
    )

-- The tables that the loop hands to kfree, with `k` rounds left at the entry `i`.
free_tables : Mem → ℕ → ℕ → ℕ → List ℕ
free_tables m directory i zero = []
free_tables m directory i (suc k) =
    table_of (m (elem_at directory i)) ∷ free_tables m directory (i + 1) k

-- What paging_free_4gb hands to kfree, in order, for the chunk at `address`.
pub paging_free_4gb : Mem → Chunk → ℕ → List ℕ
unfolding free_tables
paging_free_4gb m chunk address =
    free_tables m chunk.directory_entry 0 total_entries_per_table
    ++ (chunk.directory_entry ∷ address ∷ [])
