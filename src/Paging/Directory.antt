-- ===== src/Paging/Directory.antt =====
-- A directory whose tables lie apart: paging_set and paging_get.
use boi_os.Prelude.{
  ℕ, ◌*◌, ◌/◌, ◌%◌, ◌^◌, ◌<◌, ◌≡◌, ◌≢◌, refl, sym, ap, ◌∙◌, ◌==◌, if◌then◌else◌, arith, Bool-cases,
  inl, inr, eq→==, ne→==, ==→eq, ==→ne,
}
use boi_os.Prelude.Bits.{bit_and-page}
use boi_os.Prelude.Mem.{Mem, store}
use boi_os.Status.{ok}
use boi_os.Paging.{
  elem_at, table_of, paging_is_aligned, paging_get_indexes, set_at, paging_set, paging_get,
}

-- The table of entry `i`.
abbrev pub table : Mem → ℕ → ℕ → ℕ
table m directory i = table_of (m (elem_at directory i))

-- The entries are 32-bit words, and the tables are other pages than each other and the directory.
pub record IsDirectory (m : Mem) (directory : ℕ) : Type 0 where
  pub page : directory % 4096 ≡ 0
  pub word : (i : ℕ) → i < 1024 → m (elem_at directory i) < 2 ^ 32
  pub away : (i : ℕ) → i < 1024 → table m directory i ≢ directory
  pub apart : (i j : ℕ) → i < 1024 → j < 1024 → table m directory i ≡ table m directory j → i ≡ j

-- A virtual address that starts a page.
abbrev pub IsPage : ℕ → Type 0
IsPage va = (va % 4096 ≡ 0) × (va < 2 ^ 32)

abbrev pub dir_index : ℕ → ℕ
dir_index va = va / 4194304

abbrev pub table_index : ℕ → ℕ
table_index va = va % 4194304 / 4096

-- The word that holds the mapping of `va`.
abbrev pub slot : Mem → ℕ → ℕ → ℕ
slot m directory va = elem_at (table m directory (dir_index va)) (table_index va)

pub paging_get_lem :
    (m : Mem) (directory va : ℕ) → IsPage va → paging_get m directory va ≡ m (slot m directory va)
unfolding paging_get
paging_get_lem m directory va (al, _) = rw (eq→== (va % 4096) 0 al, paging_get)

pub paging_set_lem :
    (m : Mem) (directory va v : ℕ)
    → IsPage va
    → paging_set m directory va v ≡ (ok 0, store m (slot m directory va) v)
unfolding paging_set
paging_set_lem m directory va v (al, _) = rw (eq→== (va % 4096) 0 al, paging_set)

module _ (m : Mem) (directory : ℕ) (d : IsDirectory m directory) where
  table-page : (i : ℕ) → i < 1024 → table m directory i % 4096 ≡ 0
  table-page i lt = omega (arith, bit_and-page (m (elem_at directory i)) (d.word i lt))

  -- No entry of the directory lies in a table.
  slot-ne-elem_at : (va i : ℕ) → IsPage va → i < 1024 → slot m directory va ≢ elem_at directory i
  slot-ne-elem_at va i (al, lt) li e =
      d.away (dir_index va) (omega arith)
        (omega (arith, table-page (dir_index va) (omega arith), d.page))

  -- Different pages have different slots.
  slot-injective :
      (va wa : ℕ) → IsPage va → IsPage wa → slot m directory va ≡ slot m directory wa → va ≡ wa
  slot-injective va wa (al, lt) (al', lt') e =
      let tables : table m directory (dir_index va) ≡ table m directory (dir_index wa) =
        omega (
          arith,
          table-page (dir_index va) (omega arith),
          table-page (dir_index wa) (omega arith),
        ) in
      let dirs = d.apart (dir_index va) (dir_index wa) (omega arith) (omega arith) tables in
      omega arith

  abbrev updated : ℕ → ℕ → Mem
  updated va v = store m (slot m directory va) v

  entry-updated :
      (va v i : ℕ)
      → IsPage va
      → i < 1024
      → updated va v (elem_at directory i) ≡ m (elem_at directory i)
  entry-updated va v i pg li =
      rw (
        ne→== (elem_at directory i) (slot m directory va) (λ e. slot-ne-elem_at va i pg li (sym e)))

  updated-IsDirectory : (va v : ℕ) → IsPage va → IsDirectory (updated va v) directory
  updated-IsDirectory va v pg = record {
    page = d.page;
    word = λ i li. rw (entry-updated va v i pg li) (d.word i li);
    away = λ i li e. d.away i li (ap table_of (sym (entry-updated va v i pg li)) ∙ e);
    apart = λ i j li lj e. d.apart i j li lj (
        ap table_of (sym (entry-updated va v i pg li))
        ∙ e
        ∙ ap table_of (entry-updated va v j pg lj));
  }

  get-updated :
      (va wa v : ℕ)
      → IsPage va
      → IsPage wa
      → paging_get (updated va v) directory wa ≡ (if wa == va then v else paging_get m directory wa)
  get-updated va wa v pg pg' =
      let same : slot (updated va v) directory wa ≡ slot m directory wa =
        ap (λ e. elem_at (table_of e) (table_index wa))
          (entry-updated va v (dir_index wa) pg (omega arith)) in
      paging_get_lem (updated va v) directory wa pg'
      ∙ ap (updated va v) same
      ∙ elim (Bool-cases (wa == va)) [
        | inl h ↦ rw (h, ==→eq wa va h, eq→== (slot m directory va) _ refl)
        | inr h ↦
            rw
              (
                h,
                ne→== (slot m directory wa) (slot m directory va)
                    (λ e. ==→ne wa va h (slot-injective wa va pg' pg e)),
              )
              (sym (paging_get_lem m directory wa pg'))
      ]

-- On a well-formed directory paging_set of a page succeeds and keeps the directory well formed;
-- afterwards paging_get returns the value at that page, and what it returned before at any other.
pub paging_get-paging_set :
    (m : Mem) (directory va wa v : ℕ)
    → IsDirectory m directory
    → IsPage va
    → IsPage wa
    → let (r, m') = paging_set m directory va v in
      (r ≡ ok 0)
      × IsDirectory m' directory
      × (paging_get m' directory wa ≡ (if wa == va then v else paging_get m directory wa))
paging_get-paging_set m directory va wa v d pg pg' =
    rw (paging_set_lem m directory va v pg)
      (refl, updated-IsDirectory m directory d va v pg, get-updated m directory d va wa v pg pg')

-- A page of any directory can be set.
pub paging_set-succeeds :
    (m : Mem) (directory va value : ℕ)
    → va % 4096 ≡ 0
    → (m' : Mem) × (paging_set m directory va value ≡ (ok 0, m'))
unfolding paging_set paging_is_aligned paging_get_indexes set_at
paging_set-succeeds m directory va value av =
    let table_at = table m directory (va / (1024 * 4096)) in
    (
      store m (elem_at table_at (va % (1024 * 4096) / 4096)) value,
      rw (paging_set, paging_get_indexes, eq→== (va % 4096) 0 av),
    )
