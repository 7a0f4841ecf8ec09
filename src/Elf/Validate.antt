-- ===== src/Elf/Validate.antt =====
-- What elf_validate_loaded has checked of a header.
use boi_os.Prelude.{ℕ, ◌≡◌, true, arith}
use boi_os.Status.{ok}
use boi_os.Elf.{
  Elf32Header, elf_valid_class, elf_valid_encoding, elf_has_program_header, elf_validate_loaded,
}

pub accepts_header :
    (header : Elf32Header) (r : ℕ)
    → elf_validate_loaded header ≡ ok r
    → elf_has_program_header header ≡ true
unfolding elf_validate_loaded elf_valid_class elf_valid_encoding elf_has_program_header
accepts_header header r e = ground arith
