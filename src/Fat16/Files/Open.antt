-- ===== src/Fat16/Files/Open.antt =====
-- Files in the root directory, opened by name.
use boi_os.Prelude.{ℕ, ◌≡◌, refl, true, Bool, Option, none, some, List, []}
use boi_os.Status.{eio}
use boi_os.Disk.{Controller}
use boi_os.File.{read, or_zero, Opened, private_data, open_error}
use boi_os.Fat16.Layout.{FatPrivate, FatDirectory, FatFileDescriptor, directory_item}
use boi_os.Fat16.Entries.Find.{
  last_match, item_found, FilesMatch, fat16_get_directory_entry-last_match,
}
use boi_os.Fat16.Files.{fat16_open, opened_as}
use boi_os.Fat16.Files.Position.{open_at}

-- The descriptor of an item that was found, at its first byte.
abbrev pub open_found : FatDirectory → Option ℕ → Opened FatFileDescriptor
open_found root none = open_error eio
open_found root (some i) = private_data (open_at (directory_item root i) 0)

-- For a path of one part and the mode "r", fat16_open gives a descriptor at the first byte of the last item of
-- the root directory that has the name, and -EIO where none has, with room for what it allocates and where the
-- items with the name are files; the volume stays as it is.
pub fat16_open-last_match :
    (controller : Controller) (room : ℕ → Bool) (p : FatPrivate) (part : List ℕ) (fuel : ℕ)
    → ((n : ℕ) → room n ≡ true)
    → FilesMatch p.root_directory part (or_zero p.root_directory.total_items)
    → fat16_open controller room p part [] read fuel
      ≡ some (
        open_found p.root_directory
            (last_match p.root_directory part (or_zero p.root_directory.total_items)),
        p,
      )
unfolding fat16_open opened_as
fat16_open-last_match controller room p part fuel space files =
    rw
      (
        fat16_open,
        space 8,
        fat16_get_directory_entry-last_match controller room p part fuel space files,
      )
      (as_opened (last_match p.root_directory part (or_zero p.root_directory.total_items)))
  where
    as_opened :
        (found : Option ℕ)
        → some (opened_as (item_found p.root_directory found, p))
          ≡ some (open_found p.root_directory found, p)
    as_opened none = refl
    as_opened (some i) = refl
