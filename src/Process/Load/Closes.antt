-- ===== src/Process/Load/Closes.antt =====
-- process_load_data gives back the descriptors that it opens.
use boi_os.Prelude.{
  ℕ, zero, suc, ◌+◌, ◌<◌, ◌≡◌, refl, ap, sym, ◌∙◌, inl, inr, Option, none, some, List, length,
  arith,
}
use mathlib.Core.Path.{subst}
use boi_os.Prelude.Int.{pos}
use boi_os.Prelude.Mem.{Mem}
use boi_os.Status.{
  Response, ok, err, eio, einvarg, enomem, ebadpath, efsnotus, erdonly, eunimp, eistkn, einformat,
}
use boi_os.CString.Laws.{IsString}
use boi_os.File.{Files, Filesystem, FileStat, fstat}
use boi_os.File.Table.{Adds, Opens, Closes, fopen-Opens, fclose-zero, fclose-Adds, Adds-below}
use boi_os.Elf.{ElfFile}
use boi_os.Elf.Load.Closes.{SameSlots, elf_load-SameSlots}
use boi_os.Process.Image.{Program}
use boi_os.Process.Load.{
  binary_stat, binary_close, binary_opened, process_load_binary, as_program, or_binary,
  process_load_data,
}

-- The slots of the descriptors are the same.
abbrev pub Restored :
    {W P : Type 0} → Files W P → Response × Option Program × Files W P × W → Type 0
Restored files (res, program, files', w) =
    (l : ℕ) → files'.file_descriptors l ≡ files.file_descriptors l

close-zero :
    {W P : Type 0} (files files1 : Files W P) (x : Response × Option Program × W)
    → files1 ≡ files
    → Restored files (binary_close files1 0 x)
unfolding binary_close
close-zero files files1 (res, program, w) e l =
    rw (fclose-zero files1 w) (ap (λ f. f.file_descriptors l) e)

close-Adds :
    {W P : Type 0} (fs : Filesystem W P) (files files1 : Files W P) (i : ℕ)
    (x : Response × Option Program × W)
    → Adds (some fs) files i files1
    → i + 1 < 512
    → Closes fs
    → Restored files (binary_close files1 (i + 1) x)
unfolding binary_close
close-Adds fs files files1 i (res, program, w) a small c = fclose-Adds fs files files1 i w a small c

opened-Restored :
    {W P : Type 0} (kzalloc : W → ℕ → ℕ × W) (kfree : W → ℕ → W) (stat : FileStat)
    (fs : Filesystem W P) (files : Files W P) (l : ℕ) (r : ℕ × Files W P × W)
    → files.file_descriptors l ≡ none
    → l < 511
    → Closes fs
    → Opens (some fs) files r
    → Restored files (binary_opened kzalloc kfree stat r)
unfolding binary_opened
opened-Restored kzalloc kfree stat fs files l (zero, files1, w) free small c (inl (e, same)) =
    close-zero files files1 (err eio, none, w) same
opened-Restored kzalloc kfree stat fs files l (zero, files1, w) free small c (inr (i, e, a)) =
    absurd (omega (arith, e))
opened-Restored kzalloc kfree stat fs files l (suc n, files1, w) free small c (inl (e, same)) =
    absurd (omega (arith, e))
opened-Restored kzalloc kfree stat fs files l (suc n, files1, w) free small c (inr (i, e, a)) =
    let x = binary_stat kzalloc kfree files1 (suc n) (fstat files1 w (pos (suc n)) stat) in
    subst (λ fd. Restored files (binary_close files1 fd x)) (sym e)
      (close-Adds fs files files1 i x a (Adds-below i l a free small) c)

binary-Restored :
    {W P : Type 0} (kzalloc : W → ℕ → ℕ × W) (kfree : W → ℕ → W) (mem_of : W → Mem)
    (stat : FileStat) (files : Files W P) (fs : Filesystem W P) (w : W) (cs : List ℕ)
    (filename mode_r fuel l : ℕ)
    → IsString (mem_of w) filename cs
    → length cs + 1 < fuel
    → files.file_descriptors l ≡ none
    → l < 511
    → Closes fs
    → (x : Response × Option Program × Files W P × W) × (process_load_binary kzalloc kfree mem_of
          stat files
          (some fs)
          w
          filename
          mode_r
          fuel
        ≡ some x)
      × Restored files x
unfolding process_load_binary
binary-Restored kzalloc kfree mem_of stat files fs w cs filename mode_r fuel l s lt free small c =
    let (r, e, opens) = fopen-Opens files (some fs) w cs (mem_of w) filename mode_r fuel s lt in
    (
      binary_opened kzalloc kfree stat r,
      rw (process_load_binary, e),
      opened-Restored kzalloc kfree stat fs files l r free small c opens,
    )

-- What or_binary gives is restored where the file of the ELF loader was, and the binary's load restores.
or_binary-Restored :
    {W P : Type 0} (files : Files W P)
    (binary : Files W P → W → Option (Response × Option Program × Files W P × W))
    (result : Response × Option ElfFile × Files W P × W)
    → SameSlots files result
    → ((files' : Files W P) (w : W)
        → ((l : ℕ) → files'.file_descriptors l ≡ files.file_descriptors l)
        → (x : Response × Option Program × Files W P × W) × (binary files' w ≡ some x)
          × Restored files' x)
    → (x : Response × Option Program × Files W P × W) × (or_binary binary result ≡ some x)
      × Restored files x
unfolding or_binary
or_binary-Restored files binary (ok n, file, files', w) same rest =
    ((ok n, as_program file, files', w), refl, same)
or_binary-Restored files binary (err eio, file, files', w) same rest =
    ((err eio, as_program file, files', w), refl, same)
or_binary-Restored files binary (err einvarg, file, files', w) same rest =
    ((err einvarg, as_program file, files', w), refl, same)
or_binary-Restored files binary (err enomem, file, files', w) same rest =
    ((err enomem, as_program file, files', w), refl, same)
or_binary-Restored files binary (err ebadpath, file, files', w) same rest =
    ((err ebadpath, as_program file, files', w), refl, same)
or_binary-Restored files binary (err efsnotus, file, files', w) same rest =
    ((err efsnotus, as_program file, files', w), refl, same)
or_binary-Restored files binary (err erdonly, file, files', w) same rest =
    ((err erdonly, as_program file, files', w), refl, same)
or_binary-Restored files binary (err eunimp, file, files', w) same rest =
    ((err eunimp, as_program file, files', w), refl, same)
or_binary-Restored files binary (err eistkn, file, files', w) same rest =
    ((err eistkn, as_program file, files', w), refl, same)
or_binary-Restored files binary (err einformat, file, files', w) same rest =
    let (x, e, back) = rest files' w same in (x, e, λ l. back l ∙ same l)

-- process_load_data of a path that stays in memory ends, with fuel for the path's length, and on every way out
-- of both loaders the slots of the descriptors are as they were. A slot other than the last is free, and the
-- filesystem's close succeeds.
pub process_load_data-Restored :
    {W P : Type 0} (kzalloc : W → ℕ → ℕ × W) (kfree : W → ℕ → W) (mem_of : W → Mem)
    (stat : FileStat) (files : Files W P) (fs : Filesystem W P) (w : W) (cs : List ℕ)
    (filename mode_r fuel l : ℕ)
    → ((v : W) → IsString (mem_of v) filename cs)
    → length cs + 1 < fuel
    → files.file_descriptors l ≡ none
    → l < 511
    → Closes fs
    → (x : Response × Option Program × Files W P × W) × (process_load_data kzalloc kfree mem_of stat
          files
          (some fs)
          w
          filename
          mode_r
          fuel
        ≡ some x)
      × Restored files x
unfolding process_load_data
process_load_data-Restored kzalloc kfree mem_of stat files fs w cs filename mode_r fuel l s lt free
      small c =
    let (r, e, same) =
      elf_load-SameSlots kzalloc mem_of stat files fs w cs filename mode_r fuel l
        (s (kzalloc w 152).1) lt free small c in
    let (x, e', back) =
      or_binary-Restored files
        (λ files' w'.
          process_load_binary kzalloc kfree mem_of stat files' (some fs) w' filename mode_r fuel)
        r same
        (λ files' v slots.
          binary-Restored kzalloc kfree mem_of stat files' fs v cs filename mode_r fuel l (s v) lt
            (slots l ∙ free) small c) in
    (x, rw (process_load_data, e) e', back)
