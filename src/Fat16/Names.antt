-- ===== src/Fat16/Names.antt =====
-- The names of directory items as strings.
pub mod Laws
use boi_os.Prelude.{ℕ, zero, suc, ◌+◌, ◌-◌, Bool, true, false, ◌&&◌, not, ◌==◌, leb, if◌then◌else◌}
use boi_os.Prelude.Mem.{Mem, store}
use boi_os.Memory.{memset}
use boi_os.Fat16.Layout.{FatDirectoryItem}

-- A character that goes on a name.
abbrev pub goes_on : ℕ → Bool
goes_on c = not (c == 0) && not (c == 0x20)

-- The characters from `name i` on, with `k` rounds left before the break: the memory and `*out`.
string_loop : Mem → (ℕ → ℕ) → ℕ → ℕ → ℕ → Mem × ℕ
string_loop m name out i zero = (m, out)
string_loop m name out i (suc k) = elim (goes_on (name i)) [
  | true ↦ string_loop (store m out (name i)) name (out + 1) (i + 1) k
  | false ↦ (m, out)
]

terminated : Mem × ℕ → Mem × ℕ
terminated (m, out) = (store m out 0, out)

-- The memory and `*out` afterwards. The break behind character `size - 1` leaves `size` rounds.
pub fat16_to_proper_string : Mem → ℕ → (ℕ → ℕ) → ℕ → Mem × ℕ
unfolding string_loop terminated
fat16_to_proper_string m out name size = terminated (string_loop m name out 0 size)

with_ext : FatDirectoryItem → Mem × ℕ → Mem
unfolding fat16_to_proper_string
with_ext item (m, out_tmp) =
    if goes_on (item.ext 0)
    then (fat16_to_proper_string (store m out_tmp b'.') (out_tmp + 1) item.ext 3).0
    else m

pub fat16_get_full_relative_filename : Mem → FatDirectoryItem → ℕ → ℕ → Mem
unfolding fat16_to_proper_string with_ext
fat16_get_full_relative_filename m item out max_len =
    with_ext item (fat16_to_proper_string (memset m out 0x00 max_len) out item.file_name 8)
