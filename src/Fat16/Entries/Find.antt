-- ===== src/Fat16/Entries/Find.antt =====
-- Which item a name finds.
use boi_os.Prelude.{
  ℕ, zero, suc, ◌+◌, ◌-◌, ◌<◌, ◌≡◌, ◌↔◌, refl, ap, sym, ◌∙◌, Bool, true, false, inl, inr, Option,
  none, some, List, [], ◌∷◌, take, arith, Bool-cases, if◌then◌else◌, get_elem?, ◌==◌, ==→eq, ==→ne,
}
use mathlib.Core.Path.{subst}
use boi_os.Prelude.Int.{ℤ, pos, negsuc, is_zero}
use boi_os.Prelude.Mem.{Mem}
use boi_os.CString.{istrncmp}
use boi_os.CString.Laws.{IsString}
use boi_os.CString.Compare.{map_lower, istrncmp-zero_iff}
use boi_os.Disk.{Controller}
use boi_os.File.{or_zero}
use boi_os.Fat16.Layout.{
  FatDirectoryItem, FatDirectory, FatItem, file_item, FatPrivate, directory_item, is_subdirectory,
}
use boi_os.Fat16.Names.{fat16_get_full_relative_filename}
use boi_os.Fat16.Names.Laws.{
  full_name, fat16_get_full_relative_filename-full_name, fat16_get_full_relative_filename-after,
}
use boi_os.Fat16.Entries.{
  matches, name_buffer, byte_or_zero, fat16_clone_directory_item,
  fat16_new_fat_item_or_directory_item, find_loop, found_next, fat16_find_item_in_directory,
  fat16_get_directory_entry, from_root, entry_loop,
}

-- The bytes of a part of a path, none of them zero.
abbrev pub IsText : List ℕ → Type 0
IsText [] = Unit
IsText (c ∷ cs) = (0 < c) × IsText cs

-- Memory that agrees with the list from `p` on, with zeros behind it.
shown-IsString :
    (cs : List ℕ) (m : Mem) (p : ℕ)
    → IsText cs
    → ((i : ℕ) → m (p + i) ≡ byte_or_zero (get_elem? cs i))
    → IsString m p cs
unfolding byte_or_zero
shown-IsString [] m p t h = ap m (omega arith) ∙ h 0
shown-IsString (c ∷ cs) m p (pc, t) h = (
  ap m (omega arith) ∙ h 0,
  pc,
  shown-IsString cs m (p + 1) t (λ i. ap m (omega arith) ∙ h (suc i)),
)

part-IsString :
    (item : FatDirectoryItem) (part : List ℕ)
    → IsText part
    → IsString (fat16_get_full_relative_filename (name_buffer part) item 0 128) 128 part
unfolding name_buffer
part-IsString item part t =
    shown-IsString part (fat16_get_full_relative_filename (name_buffer part) item 0 128) 128 t (λ i.
      fat16_get_full_relative_filename-after (name_buffer part) item 0 128 (128 + i) (omega arith)
        (omega arith)
      ∙ behind i)
  where
    behind : (i : ℕ) → name_buffer part (128 + i) ≡ byte_or_zero (get_elem? part i)
    behind i = ground (arith, ap (λ x. byte_or_zero (get_elem? part x)) (same i))
      where
        same : (i : ℕ) → 128 + i - 128 ≡ i
        same i = omega arith

is_zero-eq : (z : ℤ) → is_zero z ≡ true → z ≡ pos 0
is_zero-eq (pos n) e = ap pos (ground arith)
is_zero-eq (negsuc n) e = absurd (ground arith)

-- An item has the name of a part exactly when the two are the same but for the case of letters, in the
-- first 128 bytes.
pub matches_iff :
    (item : FatDirectoryItem) (part : List ℕ)
    → IsText part
    → (matches item part ≡ true)
      ↔ (map_lower (take 128 (full_name item)) ≡ map_lower (take 128 part))
unfolding matches
matches_iff item part t =
    let m = fat16_get_full_relative_filename (name_buffer part) item 0 128 in
    let (to, from) =
      istrncmp-zero_iff 128 (full_name item) part m 0 128
        (fat16_get_full_relative_filename-full_name (name_buffer part) item 0 128)
        (part-IsString item part t) in
    (λ e. to (is_zero-eq (istrncmp m 0 128 128) e), λ e. ap is_zero (from e))

-- The last of the first `k` items with the name, looked for from the end.
pub last_match : FatDirectory → List ℕ → ℕ → Option ℕ
last_match directory part zero = none
last_match directory part (suc k) =
    let rest = last_match directory part k in
    if matches (directory_item directory k) part then some k else rest

abbrev pub item_found : FatDirectory → Option ℕ → Option FatItem
item_found directory none = none
item_found directory (some i) = some (file_item (some (directory_item directory i)))

-- The items with the name are files.
abbrev pub FilesMatch : FatDirectory → List ℕ → ℕ → Type 0
FilesMatch directory part total =
    (i : ℕ)
    → i < total
    → matches (directory_item directory i) part ≡ true
    → is_subdirectory (directory_item directory i) ≡ false

new_item-file :
    (controller : Controller) (room : ℕ → Bool) (p : FatPrivate) (item : FatDirectoryItem)
    (fuel : ℕ)
    → ((n : ℕ) → room n ≡ true)
    → is_subdirectory item ≡ false
    → fat16_new_fat_item_or_directory_item controller room p item fuel
      ≡ some (some (file_item (some item)), p)
unfolding fat16_new_fat_item_or_directory_item fat16_clone_directory_item
new_item-file controller room p item fuel space file =
    rw (fat16_new_fat_item_or_directory_item, space 8, file, fat16_clone_directory_item, space 32)

-- The loop's result at its end.
abbrev pub loop_end : FatDirectory → List ℕ → FatPrivate → ℕ → Option (Option FatItem × FatPrivate)
loop_end directory part p total = some (item_found directory (last_match directory part total), p)

last_match-next :
    (directory : FatDirectory) (part : List ℕ) (i : ℕ)
    → last_match directory part (i + 1)
      ≡ (if matches (directory_item directory i) part then some i else last_match directory part i)
unfolding last_match
last_match-next directory part i = ap (last_match directory part) (suc_one i)
  where
    suc_one : (i : ℕ) → i + 1 ≡ suc i
    suc_one i = omega arith

find_loop-last_match :
    (k i : ℕ) (controller : Controller) (room : ℕ → Bool) (p : FatPrivate)
    (directory : FatDirectory) (part : List ℕ) (fuel : ℕ)
    → ((n : ℕ) → room n ≡ true)
    → FilesMatch directory part (i + k)
    → find_loop controller room p directory part fuel
        (item_found directory (last_match directory part i))
        i
        k
      ≡ loop_end directory part p (i + k)
unfolding find_loop last_match found_next
find_loop-last_match zero i controller room p directory part fuel space files =
    ap (λ x. loop_end directory part p x) (omega arith)
find_loop-last_match (suc k) i controller room p directory part fuel space files =
    let rest =
      find_loop-last_match k (i + 1) controller room p directory part fuel space
        (λ j lt. files j (omega arith)) in
    let all : loop_end directory part p (i + 1 + k) ≡ loop_end directory part p (i + suc k) =
      ap (λ x. loop_end directory part p x) (omega arith) in
    let next = last_match-next directory part i in
    let from : Option FatItem → Option (Option FatItem × FatPrivate) =
      λ f_item. find_loop controller room p directory part fuel f_item (i + 1) k in
    elim (Bool-cases (matches (directory_item directory i) part)) [
      | inl t ↦
          let e =
            new_item-file controller room p (directory_item directory i) fuel space
              (files i (omega arith) t) in
          let found : last_match directory part (i + 1) ≡ some i = next ∙ rw t in
          rw (t, find_loop, e) (ap (λ f. from (item_found directory f)) (sym found) ∙ rest ∙ all)
      | inr f ↦
          let found : last_match directory part (i + 1) ≡ last_match directory part i =
            next ∙ rw f in
          rw (f, find_loop) (ap (λ g. from (item_found directory g)) (sym found) ∙ rest ∙ all)
    ]

pub fat16_find_item_in_directory-last_match :
    (controller : Controller) (room : ℕ → Bool) (p : FatPrivate) (directory : FatDirectory)
    (part : List ℕ) (fuel : ℕ)
    → ((n : ℕ) → room n ≡ true)
    → FilesMatch directory part (or_zero directory.total_items)
    → fat16_find_item_in_directory controller room p directory part fuel
      ≡ some (item_found directory (last_match directory part (or_zero directory.total_items)), p)
unfolding fat16_find_item_in_directory last_match
fat16_find_item_in_directory-last_match controller room p directory part fuel space files =
    let total = or_zero directory.total_items in
    let zero_plus : 0 + total ≡ total = omega arith in
    find_loop-last_match total 0 controller room p directory part fuel space
      (λ i lt. files i (omega (arith, lt)))
    ∙ ap (λ x. loop_end directory part p x) zero_plus

-- An item's name, with a dot in front of its extension, and a text are the same but for the case of the letters
-- A to Z, in the first 128 bytes.
abbrev pub Named : FatDirectoryItem → List ℕ → Type 0
Named item part = map_lower (take 128 (full_name item)) ≡ map_lower (take 128 part)

-- The last of the first `total` items with the name, or that none has it.
abbrev pub LastNamed : FatDirectory → List ℕ → ℕ → Option ℕ → Type 0
LastNamed directory part total none =
    (i : ℕ) → i < total → ¬ Named (directory_item directory i) part
LastNamed directory part total (some k) =
    (k < total)
    × Named (directory_item directory k) part
    × ((i : ℕ) → k < i → i < total → ¬ Named (directory_item directory i) part)

-- The items with the name are files.
abbrev pub FilesNamed : FatDirectory → List ℕ → ℕ → Type 0
FilesNamed directory part total =
    (i : ℕ)
    → i < total
    → Named (directory_item directory i) part
    → is_subdirectory (directory_item directory i) ≡ false

unnamed :
    (item : FatDirectoryItem) (part : List ℕ)
    → IsText part
    → matches item part ≡ false
    → ¬ Named item part
unnamed item part t f named = let m = (matches_iff item part t).1 named in absurd (cc)

LastNamed-next :
    (directory : FatDirectory) (part : List ℕ) (total : ℕ) (found : Option ℕ)
    → ¬ Named (directory_item directory total) part
    → LastNamed directory part total found
    → LastNamed directory part (suc total) found
LastNamed-next directory part total none differs h = λ i lt. elim (Bool-cases (i == total)) [
  | inl t ↦
      let e = ==→eq i total t in
      subst (λ x. ¬ Named (directory_item directory x) part) (sym e) differs
  | inr f ↦ let ne = ==→ne i total f in h i (omega arith)
]
LastNamed-next directory part total (some k) differs (lt, named, none_behind) = (
  omega arith,
  named,
  λ i lo hi. elim (Bool-cases (i == total)) [
    | inl t ↦
        let e = ==→eq i total t in
        subst (λ x. ¬ Named (directory_item directory x) part) (sym e) differs
    | inr f ↦ let ne = ==→ne i total f in none_behind i lo (omega arith)
  ],
)

last_match-LastNamed :
    (total : ℕ) (directory : FatDirectory) (part : List ℕ)
    → IsText part
    → LastNamed directory part total (last_match directory part total)
unfolding last_match
last_match-LastNamed zero directory part t = λ i lt. absurd (omega arith)
last_match-LastNamed (suc k) directory part t =
    elim (Bool-cases (matches (directory_item directory k) part)) [
      | inl same ↦ rw same (
        omega arith,
        (matches_iff (directory_item directory k) part t).0 same,
        λ i lo hi. absurd (omega arith),
      )
      | inr other ↦ rw other (
          LastNamed-next directory part k (last_match directory part k)
            (unnamed (directory_item directory k) part t other)
            (last_match-LastNamed k directory part t))
    ]

-- With room for what it allocates, and where the items with the name are files, fat16_find_item_in_directory
-- gives the last of the directory's items whose name is the text but for the case of letters, or null where
-- there is none; the volume stays as it is. Names are compared in their first 128 bytes.
pub fat16_find_item_in_directory-LastNamed :
    (controller : Controller) (room : ℕ → Bool) (p : FatPrivate) (directory : FatDirectory)
    (part : List ℕ) (fuel : ℕ)
    → ((n : ℕ) → room n ≡ true)
    → IsText part
    → FilesNamed directory part (or_zero directory.total_items)
    → (found : Option ℕ) × (fat16_find_item_in_directory controller room p directory part fuel
        ≡ some (item_found directory found, p))
      × LastNamed directory part (or_zero directory.total_items) found
fat16_find_item_in_directory-LastNamed controller room p directory part fuel space t files =
    let total = or_zero directory.total_items in
    (
      last_match directory part total,
      fat16_find_item_in_directory-last_match controller room p directory part fuel space
          (λ i lt e. files i lt ((matches_iff (directory_item directory i) part t).0 e)),
      last_match-LastNamed total directory part t,
    )

pub fat16_get_directory_entry-last_match :
    (controller : Controller) (room : ℕ → Bool) (p : FatPrivate) (part : List ℕ) (fuel : ℕ)
    → ((n : ℕ) → room n ≡ true)
    → FilesMatch p.root_directory part (or_zero p.root_directory.total_items)
    → fat16_get_directory_entry controller room p part [] fuel
      ≡ loop_end p.root_directory part p (or_zero p.root_directory.total_items)
unfolding fat16_get_directory_entry from_root entry_loop
fat16_get_directory_entry-last_match controller room p part fuel space files =
    rw
      (fat16_find_item_in_directory-last_match controller room p p.root_directory part fuel space
        files)
      (alone (last_match p.root_directory part (or_zero p.root_directory.total_items)))
  where
    alone :
        (found : Option ℕ)
        → from_root controller room fuel [] (item_found p.root_directory found, p)
          ≡ some (item_found p.root_directory found, p)
    alone none = refl
    alone (some i) = refl
