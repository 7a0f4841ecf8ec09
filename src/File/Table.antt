-- ===== src/File/Table.antt =====
-- The descriptors that fopen hands out and fclose takes back.
use boi_os.Prelude.{
  ℕ, zero, suc, ◌+◌, ◌-◌, ◌<◌, ◌≡◌, ◌≢◌, ◌⊎◌, inl, inr, refl, ap, sym, ◌∙◌, Option, none, some,
  List, length, ltb, ◌==◌, if◌then◌else◌, ◌||◌, leb, false, arith, ne→==, ==→eq, ==→ne, eq→==,
  Bool-cases, [], ◌∷◌,
}
use mathlib.Core.Path.{subst}
use boi_os.Prelude.Int.{ℤ, pos, negsuc}
use boi_os.Prelude.Mem.{Mem}
use boi_os.Prelude.Slots.{
  set_slot, first_free, Found, FirstFree, first_free-Found, first_free-FirstFree,
}
use boi_os.Status.{Response, ok, err, eio}
use boi_os.CString.Laws.{IsString}
use boi_os.PathParser.{PathRoot}
use boi_os.PathParser.Laws.{root_of, pathparser_parse-root_of}
use boi_os.File.{
  Files, Filesystem, FileDescriptor, FileMode, read, write, append, invalid, Opened, private_data,
  open_error, file_new_descriptor, file_get_descriptor, file_free_descriptor, or_zero,
  descriptor_at, describe, open_parts, open_root, fopen, fclose, closed, file_get_mode_by_string,
}

-- The descriptor is the lowest free one, for the disk's filesystem, and the only change.
pub record Adds {W P : Type 0} (disk_filesystem : Option (Filesystem W P)) (files : Files W P)
    (i : ℕ) (files' : Files W P) : Type 0 where
  pub lowest : FirstFree files.file_descriptors 0 512 i
  pub added :
      (desc : FileDescriptor W P) × (files'.file_descriptors i ≡ some desc)
      × (desc.index ≡ i + 1)
      × (disk_filesystem ≡ some desc.filesystem)
  pub others : (l : ℕ) → l ≢ i → files'.file_descriptors l ≡ files.file_descriptors l

-- The outcome of fopen: 0 and the same tables, or the number of a descriptor that it added.
abbrev pub Opens : {W P : Type 0} → Option (Filesystem W P) → Files W P → ℕ × Files W P × W → Type 0
Opens disk_filesystem files (n, files', w) =
    ((n ≡ 0) × (files' ≡ files)) ⊎ ((i : ℕ) × (n ≡ i + 1) × Adds disk_filesystem files i files')

descriptor_at-Opens :
    {W P : Type 0} (files : Files W P) (fs : Filesystem W P) (p : P) (w : W) (r : Option ℕ)
    → Found files.file_descriptors 0 512 r
    → let (response, files') = descriptor_at files fs p r in
      Opens (some fs) files (or_zero response, files', w)
unfolding descriptor_at
descriptor_at-Opens files fs p w none f = inl (refl, refl)
descriptor_at-Opens files fs p w (some i) f = inr (
  i,
  refl,
  record {
    lowest = f;
    added = (
      record { index = i + 1; filesystem = fs; private_of = p },
      rw (eq→== i i refl),
      refl,
      refl,
    );
    others = λ l ne. rw (ne→== l i ne);
  },
)

describe-Opens :
    {W P : Type 0} (files : Files W P) (fs : Filesystem W P) (o : Opened P) (w : W)
    → Opens (some fs) files (describe files fs (o, w))
unfolding describe file_new_descriptor
describe-Opens files fs (open_error e) w = inl (refl, refl)
describe-Opens files fs (private_data p) w =
    descriptor_at-Opens files fs p w (first_free files.file_descriptors 0 512)
      (first_free-Found 512 files.file_descriptors 0)

open_parts-Opens :
    {W P : Type 0} (files : Files W P) (disk_filesystem : Option (Filesystem W P)) (w : W)
    (drive_no : ℤ) (parts : List (List ℕ)) (mode : FileMode)
    → Opens disk_filesystem files (open_parts files disk_filesystem w drive_no parts mode)
unfolding open_parts
open_parts-Opens files o w d [] mode = inl (refl, refl)
open_parts-Opens files o w (negsuc n) (part ∷ parts) mode = inl (refl, refl)
open_parts-Opens files o w (pos (suc n)) (part ∷ parts) mode = inl (refl, refl)
open_parts-Opens files none w (pos zero) (part ∷ parts) mode = inl (refl, refl)
open_parts-Opens files (some fs) w (pos zero) (part ∷ parts) invalid = inl (refl, refl)
open_parts-Opens files (some fs) w (pos zero) (part ∷ parts) read =
    let (o, w') = fs.open_function (part ∷ parts) read w in describe-Opens files fs o w'
open_parts-Opens files (some fs) w (pos zero) (part ∷ parts) write =
    let (o, w') = fs.open_function (part ∷ parts) write w in describe-Opens files fs o w'
open_parts-Opens files (some fs) w (pos zero) (part ∷ parts) append =
    let (o, w') = fs.open_function (part ∷ parts) append w in describe-Opens files fs o w'

open_root-Opens :
    {W P : Type 0} (files : Files W P) (disk_filesystem : Option (Filesystem W P)) (w : W)
    (root_path : Option PathRoot) (mode : FileMode)
    → Opens disk_filesystem files (open_root files disk_filesystem w root_path mode)
unfolding open_root
open_root-Opens files o w none mode = inl (refl, refl)
open_root-Opens files o w (some root) mode =
    open_parts-Opens files o w root.drive_no root.parts mode

-- fopen of a path in memory ends, with fuel for the path's length: it fails with 0 and leaves the tables
-- as they were, or it adds a descriptor for the disk's filesystem in the lowest free slot, returns the
-- slot's number plus one, and changes no other slot.
pub fopen-Opens :
    {W P : Type 0} (files : Files W P) (disk_filesystem : Option (Filesystem W P)) (w : W)
    (cs : List ℕ) (m : Mem) (filename mode_str fuel : ℕ)
    → IsString m filename cs
    → length cs + 1 < fuel
    → (r : ℕ × Files W P × W) × (fopen files disk_filesystem w m filename mode_str fuel ≡ some r)
      × Opens disk_filesystem files r
unfolding fopen
fopen-Opens files o w cs m filename mode_str fuel s lt =
    let root_path = if ltb 128 (length cs) then none else root_of cs in
    let mode = file_get_mode_by_string m mode_str in
    (
      open_root files o w root_path mode,
      rw (pathparser_parse-root_of cs m filename fuel s lt, fopen),
      open_root-Opens files o w root_path mode,
    )

get_added :
    {W P : Type 0} (files : Files W P) (fs : Filesystem W P) (p : P) (i : ℕ)
    → i + 1 < 512
    → file_get_descriptor (descriptor_at files fs p (some i)).1 (pos (i + 1))
      ≡ some (record { index = i + 1; filesystem = fs; private_of = p })
unfolding file_get_descriptor descriptor_at
get_added files fs p i small =
    let inside : ((i + 1 == 0) || leb 512 (i + 1)) ≡ false = ground arith in
    let back : i + 1 - 1 ≡ i = omega arith in rw (inside, back, eq→== i i refl)

set_back {ℓ} :
    {A : Type ℓ} (slots : ℕ → Option A) (i : ℕ) (x : A)
    → slots i ≡ none
    → (l : ℕ) → set_slot (set_slot slots i (some x)) (i + 1 - 1) none l ≡ slots l
set_back slots i x free l = elim (Bool-cases (l == i)) [
  | inl q ↦ let e = ==→eq l i q in rw (eq→== l (i + 1 - 1) (omega arith)) (sym (ap slots e ∙ free))
  | inr q ↦ rw (ne→== l (i + 1 - 1) (let ne = ==→ne l i q in omega arith), q)
]

-- fclose of what file_new_descriptor made leaves the slots as they were.
abbrev pub ClosesBack : {W P : Type 0} → Files W P → W → W → ℕ → Response × Files W P → Type 0
ClosesBack files w w' i (r, files') =
    let (r', files'', w'') = fclose files' w (pos (i + 1)) in
    (r ≡ ok (i + 1))
    × (r' ≡ ok 0)
    × (w'' ≡ w')
    × ((l : ℕ) → files''.file_descriptors l ≡ files.file_descriptors l)

descriptor_at-ClosesBack :
    {W P : Type 0} (files : Files W P) (fs : Filesystem W P) (p : P) (w w' : W) (i : ℕ)
    → files.file_descriptors i ≡ none
    → i + 1 < 512
    → fs.close_function p w ≡ (ok 0, w')
    → ClosesBack files w w' i (descriptor_at files fs p (some i))
unfolding fclose closed file_free_descriptor descriptor_at
descriptor_at-ClosesBack files fs p w w' i free small c =
    rw (get_added files fs p i small, c, fclose)
      (refl, refl, refl, set_back files.file_descriptors i _ free)

-- A descriptor below 512 that file_new_descriptor added in the lowest free slot is taken back by fclose,
-- if the filesystem's close succeeds: every slot is as before.
pub fclose-file_new_descriptor :
    {W P : Type 0} (files : Files W P) (fs : Filesystem W P) (p : P) (w w' : W) (i : ℕ)
    → FirstFree files.file_descriptors 0 512 i
    → i + 1 < 512
    → fs.close_function p w ≡ (ok 0, w')
    → ClosesBack files w w' i (file_new_descriptor files fs p)
unfolding file_new_descriptor
fclose-file_new_descriptor files fs p w w' i free small c =
    subst (λ r. ClosesBack files w w' i (descriptor_at files fs p r))
      (sym (first_free-FirstFree 512 files.file_descriptors 0 i free))
      (descriptor_at-ClosesBack files fs p w w' i free.free small c)

-- Where only the last slot is free, file_new_descriptor gives the number 512, which fclose refuses.
pub fclose-last :
    {W P : Type 0} (files : Files W P) (fs : Filesystem W P) (p : P) (w : W)
    → FirstFree files.file_descriptors 0 512 511
    → let (r, files') = file_new_descriptor files fs p in
      (r ≡ ok 512) × (fclose files' w (pos 512) ≡ (err eio, files', w))
unfolding file_new_descriptor fclose file_get_descriptor
fclose-last files fs p w free =
    rw (first_free-FirstFree 512 files.file_descriptors 0 511 free) (refl, refl)

pub fclose-zero :
    {W P : Type 0} (files : Files W P) (w : W) → fclose files w (pos 0) ≡ (err eio, files, w)
unfolding fclose file_get_descriptor
fclose-zero files w = refl

-- A filesystem whose close always succeeds.
abbrev pub Closes : {W P : Type 0} → Filesystem W P → Type 0
Closes {W} {P} fs = (p : P) (w : W) → (w' : W) × (fs.close_function p w ≡ (ok 0, w'))

get_inside :
    {W P : Type 0} (files : Files W P) (i : ℕ)
    → i + 1 < 512
    → file_get_descriptor files (pos (i + 1)) ≡ files.file_descriptors i
unfolding file_get_descriptor
get_inside files i small =
    let inside : ((i + 1 == 0) || leb 512 (i + 1)) ≡ false = ground arith in
    let back : i + 1 - 1 ≡ i = omega arith in rw (inside, back)

-- fclose undoes what fopen added to the slots.
pub fclose-Adds :
    {W P : Type 0} (fs : Filesystem W P) (files files1 : Files W P) (i : ℕ) (w : W)
    → Adds (some fs) files i files1
    → i + 1 < 512
    → Closes fs
    → (l : ℕ) → (fclose files1 w (pos (i + 1))).1.file_descriptors l ≡ files.file_descriptors l
unfolding fclose closed file_free_descriptor
fclose-Adds fs files files1 i w a small closes l =
    let (desc, e, index, same) = a.added in
    let (w', c) = closes desc.private_of w in
    let here = get_inside files1 i small ∙ e in
    let taken : desc.filesystem.close_function desc.private_of w ≡ (ok 0, w') =
      ap (λ o. elim o [ none ↦ (ok 0, w') | some f ↦ f.close_function desc.private_of w ])
        (sym same)
      ∙ c in
    rw (fclose, here, taken)
      (elim (Bool-cases (l == i)) [
        | inl q ↦
            let el = ==→eq l i q in
            rw (eq→== l (desc.index - 1) (omega (arith, el, index)))
              (sym (ap files.file_descriptors el ∙ a.lowest.free))
        | inr q ↦
            let ne = ==→ne l i q in
            rw (ne→== l (desc.index - 1) (omega (arith, ne, index))) (a.others l ne)
      ])

-- The descriptor is not the last one where another slot is free.
pub Adds-below :
    {W P : Type 0} {disk_filesystem : Option (Filesystem W P)} {files files1 : Files W P} (i l : ℕ)
    → Adds disk_filesystem files i files1
    → files.file_descriptors l ≡ none
    → l < 511
    → i + 1 < 512
Adds-below {files} i l a free small = elim (Bool-cases (ltb l i)) [
  | inl t ↦ let (x, e) = a.lowest.taken l (omega arith) (ground arith) in absurd (refuted free e)
  | inr t ↦ ground arith
]
  where
    refuted : {A : Type 0} {o : Option A} {x : A} → o ≡ none → o ≡ some x → ⊥
    refuted n e = cc
