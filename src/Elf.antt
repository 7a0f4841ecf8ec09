-- ===== src/Elf.antt =====
-- src/loader/formats/elf.h, elf.c and elfloader.c. Headers stand in memory and are decoded from there; an
-- address is a number below 2 ^ 32, and sums of addresses and offsets wrap there.
pub mod Load
pub mod Validate
pub mod Segments
mod Tests
use boi_os.Prelude.{
  ℕ, zero, suc, ◌+◌, ◌*◌, ◌%◌, ◌^◌, Bool, true, false, ◌&&◌, ◌||◌, not, Option, none, some, leb,
  ◌==◌, if◌then◌else◌, List, [], ◌∷◌, get_elem?, ltb, ◌-◌,
}
use boi_os.Prelude.Int.{is_zero}
use boi_os.Memory.{memcmp}
use boi_os.Prelude.Mem.{Mem, read16, read32}
use boi_os.Status.{Response, ok, err, einformat}

-- `struct elf32_header`, packed; `e_ident` by index.
pub record Elf32Header : Type 0 where
  pub e_ident : ℕ → ℕ
  pub e_type : ℕ
  pub e_machine : ℕ
  pub e_version : ℕ
  pub e_entry : ℕ
  pub e_phoff : ℕ
  pub e_shoff : ℕ
  pub e_flags : ℕ
  pub e_ehsize : ℕ
  pub e_phentsie : ℕ
  pub e_phnum : ℕ
  pub e_shentsize : ℕ
  pub e_shnum : ℕ
  pub e_shstrndx : ℕ

abbrev pub header_at : Mem → ℕ → Elf32Header
header_at m a = record {
  e_ident = λ i. m (a + i);
  e_type = read16 m (a + 16);
  e_machine = read16 m (a + 18);
  e_version = read32 m (a + 20);
  e_entry = read32 m (a + 24);
  e_phoff = read32 m (a + 28);
  e_shoff = read32 m (a + 32);
  e_flags = read32 m (a + 36);
  e_ehsize = read16 m (a + 40);
  e_phentsie = read16 m (a + 42);
  e_phnum = read16 m (a + 44);
  e_shentsize = read16 m (a + 46);
  e_shnum = read16 m (a + 48);
  e_shstrndx = read16 m (a + 50);
}

-- `struct elf32_phdr`, packed.
pub record Elf32Phdr : Type 0 where
  pub p_type : ℕ
  pub p_offset : ℕ
  pub p_vaddr : ℕ
  pub p_paddr : ℕ
  pub p_filesz : ℕ
  pub p_memsz : ℕ
  pub p_flags : ℕ
  pub p_align : ℕ

abbrev pub size_of_phdr : ℕ
size_of_phdr = 32

abbrev pub phdr_at : Mem → ℕ → Elf32Phdr
phdr_at m a = record {
  p_type = read32 m a;
  p_offset = read32 m (a + 4);
  p_vaddr = read32 m (a + 8);
  p_paddr = read32 m (a + 12);
  p_filesz = read32 m (a + 16);
  p_memsz = read32 m (a + 20);
  p_flags = read32 m (a + 24);
  p_align = read32 m (a + 28);
}

-- `struct elf32_shdr`, packed.
pub record Elf32Shdr : Type 0 where
  pub sh_name : ℕ
  pub sh_type : ℕ
  pub sh_flags : ℕ
  pub sh_addr : ℕ
  pub sh_offset : ℕ
  pub sh_size : ℕ
  pub sh_link : ℕ
  pub sh_info : ℕ
  pub sh_addralign : ℕ
  pub sh_entsize : ℕ

abbrev pub size_of_shdr : ℕ
size_of_shdr = 40

abbrev pub shdr_at : Mem → ℕ → Elf32Shdr
shdr_at m a = record {
  sh_name = read32 m a;
  sh_type = read32 m (a + 4);
  sh_flags = read32 m (a + 8);
  sh_addr = read32 m (a + 12);
  sh_offset = read32 m (a + 16);
  sh_size = read32 m (a + 20);
  sh_link = read32 m (a + 24);
  sh_info = read32 m (a + 28);
  sh_addralign = read32 m (a + 32);
  sh_entsize = read32 m (a + 36);
}

-- elf_get_entry and elf_get_entry_pointer
unfoldable pub elf_get_entry : Elf32Header → ℕ
elf_get_entry header = header.e_entry

-- PT_LOAD and ET_EXEC
abbrev pub pt_load : ℕ
pt_load = 1

abbrev pub et_exec : ℕ
et_exec = 2

-- `struct elf_file`, with the addresses that loading sets; 0 is one that is not set.
pub record ElfFile : Type 0 where
  pub elf_memory : ℕ
  pub virtual_base_address : ℕ
  pub virtual_end_address : ℕ
  pub physical_base_address : ℕ
  pub physical_end_address : ℕ

abbrev elf_signature : List ℕ
elf_signature = 0x7F ∷ b'E' ∷ b'L' ∷ b'F' ∷ []

-- The identification of a header, and the signature behind its 16 bytes.
beside_signature : (ℕ → ℕ) → Mem
beside_signature e_ident a =
    if ltb a 16
    then e_ident a
    else elim (get_elem? elf_signature (a - 16)) [ none ↦ 0 | some c ↦ c ]

elf_valid_signature : Elf32Header → Bool
unfolding beside_signature
elf_valid_signature header = is_zero (memcmp (beside_signature header.e_ident) 0 16 4)

-- ELFCLASSNONE or ELFCLASS32
elf_valid_class : Elf32Header → Bool
elf_valid_class header = (header.e_ident 4 == 0) || (header.e_ident 4 == 1)

-- ELFDATANONE or ELFDATA2LSB
elf_valid_encoding : Elf32Header → Bool
elf_valid_encoding header = (header.e_ident 5 == 0) || (header.e_ident 5 == 1)

-- Nothing calls it.
pub elf_is_executable : Elf32Header → Bool
elf_is_executable header = (header.e_type == et_exec) && leb 0x400000 header.e_entry

pub elf_has_program_header : Elf32Header → Bool
elf_has_program_header header = not (header.e_phoff == 0)

-- The address of the section headers of a header at an address.
pub elf_sheader : Mem → ℕ → ℕ
elf_sheader m header = (header + (header_at m header).e_shoff) % 2 ^ 32

pub elf_pheader : Mem → ℕ → Option ℕ
unfolding elf_has_program_header
elf_pheader m header =
    if elf_has_program_header (header_at m header)
    then some ((header + (header_at m header).e_phoff) % 2 ^ 32)
    else none

pub elf_program_header : Mem → ℕ → ℕ → Option ℕ
unfolding elf_pheader
elf_program_header m header index = elim (elf_pheader m header) [
  | none ↦ none
  | some phdrs ↦ some ((phdrs + index * size_of_phdr) % 2 ^ 32)
]

pub elf_section : Mem → ℕ → ℕ → ℕ
elf_section m header index = (elf_sheader m header + index * size_of_shdr) % 2 ^ 32

pub elf_str_table : Mem → ℕ → ℕ
elf_str_table m header =
    (header + (shdr_at m (elf_section m header (header_at m header).e_shstrndx)).sh_offset) % 2 ^ 32

pub elf_validate_loaded : Elf32Header → Response
unfolding elf_valid_signature elf_valid_class elf_valid_encoding elf_has_program_header
elf_validate_loaded header =
    if elf_valid_signature header
      && elf_valid_class header
      && elf_valid_encoding header
      && elf_has_program_header header
    then ok 0
    else err einformat

unfoldable pub elf_phdr_phys_address : ElfFile → Elf32Phdr → ℕ
elf_phdr_phys_address file phdr = (file.elf_memory + phdr.p_offset) % 2 ^ 32

with_base : ElfFile → Elf32Phdr → ElfFile
with_base elf_file phdr =
    if leb phdr.p_vaddr elf_file.virtual_base_address || (elf_file.virtual_base_address == 0x00)
    then record elf_file {
      virtual_base_address = phdr.p_vaddr;
      physical_base_address = (elf_file.elf_memory + phdr.p_offset) % 2 ^ 32;
    }
    else elf_file

with_end : ElfFile → Elf32Phdr → ElfFile
with_end elf_file phdr =
    let end_virtual_address = (phdr.p_vaddr + phdr.p_filesz) % 2 ^ 32 in
    if leb elf_file.virtual_end_address end_virtual_address
      || (elf_file.virtual_end_address == 0x00)
    then record elf_file {
      virtual_end_address = end_virtual_address;
      physical_end_address = (elf_file.elf_memory + phdr.p_offset + phdr.p_filesz) % 2 ^ 32;
    }
    else elf_file

-- The response is 0.
pub elf_process_phdr_pt_load : ElfFile → Elf32Phdr → ElfFile
unfolding with_base with_end
elf_process_phdr_pt_load elf_file phdr = with_end (with_base elf_file phdr) phdr

pub elf_process_pheader : ElfFile → Elf32Phdr → ElfFile
elf_process_pheader elf_file phdr =
    if phdr.p_type == pt_load then elf_process_phdr_pt_load elf_file phdr else elf_file

-- `k` program headers are left, from the one number `i` on. `none` is a read through a null pointer.
pheaders_loop : Mem → ℕ → ElfFile → ℕ → ℕ → Option ElfFile
unfolding elf_program_header
pheaders_loop m header elf_file i zero = some elf_file
pheaders_loop m header elf_file i (suc k) = elim (elf_program_header m header i) [
  | none ↦ none
  | some phdr ↦ pheaders_loop m header (elf_process_pheader elf_file (phdr_at m phdr)) (i + 1) k
]

pub elf_process_pheaders : Mem → ElfFile → Option ElfFile
unfolding pheaders_loop
elf_process_pheaders m elf_file =
    pheaders_loop m elf_file.elf_memory elf_file 0 (header_at m elf_file.elf_memory).e_phnum

processed : ElfFile → Option ElfFile → Option (Response × ElfFile)
processed elf_file none = none
processed elf_file (some file) = some (ok 0, file)

pub elf_process_loaded : Mem → ElfFile → Option (Response × ElfFile)
unfolding elf_validate_loaded processed
elf_process_loaded m elf_file = elim (elf_validate_loaded (header_at m elf_file.elf_memory)) [
  | err e ↦ some (err e, elf_file)
  | ok r ↦ processed elf_file (elf_process_pheaders m elf_file)
]
