-- ===== src/Gdt/Tests.antt =====
-- gdt.c on the kernel's code segment of src/kernel.c.
use boi_os.Prelude.{◌≡◌, inr, refl, arith, some}
use boi_os.Gdt.{GdtStructured, encode_gdt_entry}
use boi_os.Gdt.Decode.{decode_entry, decode-encode_gdt_entry}

abbrev kernel_code : GdtStructured
kernel_code = record { base = 0; limit = 0xFFFFFFFF; access = 0x9A }

decode-encode_gdt_entry_example :
    decode_entry (encode_gdt_entry kernel_code) ≡ some (0, 0xFFFFFFFF, 0x9A)
decode-encode_gdt_entry_example =
    decode-encode_gdt_entry kernel_code (omega arith) (omega arith) (inr (omega arith, refl))
