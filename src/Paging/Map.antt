-- ===== src/Paging/Map.antt =====
-- paging_map, paging_map_range and paging_map_to: which pages are mapped where.
use boi_os.Prelude.{
  ℕ, zero, suc, ◌+◌, ◌-◌, ◌*◌, ◌/◌, ◌%◌, ◌^◌, ◌≤◌, ◌<◌, ◌≡◌, ◌≢◌, ◌⊎◌, refl, ap, ◌∙◌, Bool, true,
  false, ◌&&◌, ◌==◌, if◌then◌else◌, arith, eq→==, leb, ltb, bit_or,
}
use boi_os.Prelude.Bits.{bit_and-page, bit_or-page}
use boi_os.Prelude.Mem.{Mem}
use boi_os.Status.{Response, ok, err, einvarg}
use boi_os.Paging.{
  Chunk, paging_set, paging_get, paging_map, range_next, paging_map_range, paging_map_to,
  paging_get_physical_address,
}
use boi_os.Paging.Directory.{IsDirectory, IsPage, paging_get-paging_set, paging_set-succeeds}

-- `wa` is one of the `n` pages from `va` on.
abbrev pub in_pages : ℕ → ℕ → ℕ → Bool
in_pages va n wa = leb va wa && ltb wa (va + n * 4096)

-- The outcome of mapping the `n` pages from `va` on to those from `pa` on.
pub record Mapped (directory : Chunk) (va pa n flags : ℕ) (m : Mem) (out : Response × Mem)
    : Type 0 where
  pub succeeds : out.0 ≡ ok 0
  pub keeps : IsDirectory out.1 directory.directory_entry
  pub entries :
      (wa : ℕ)
      → IsPage wa
      → paging_get out.1 directory.directory_entry wa ≡ (
          if in_pages va n wa
          then pa + (wa - va) + flags
          else paging_get m directory.directory_entry wa)

flags_join : (pa flags : ℕ) → pa % 4096 ≡ 0 → flags < 4096 → bit_or pa flags ≡ pa + flags
flags_join pa flags al lt =
    let e : pa / 4096 * 4096 ≡ pa = omega arith in
    omega (arith, bit_or-page (pa / 4096) flags lt, ap (λ t. bit_or t flags) e)

pub paging_map-Mapped :
    (m : Mem) (c : Chunk) (va pa flags : ℕ)
    → IsDirectory m c.directory_entry
    → IsPage va
    → IsPage pa
    → flags < 4096
    → Mapped c va pa 1 flags m (paging_map m c va pa flags)
unfolding paging_map
paging_map-Mapped m c va pa flags d pv pp lt =
    rw (paging_map, eq→== (va % 4096) 0 pv.0, eq→== (pa % 4096) 0 pp.0, flags_join pa flags pp.0 lt)
      (record {
        succeeds = (set va pv).0;
        keeps = (set va pv).1;
        entries = λ wa pw. (set wa pw).2 ∙ one wa pw;
      })
  where
    set :
        (wa : ℕ)
        → IsPage wa
        → let (r, m') = paging_set m c.directory_entry va (pa + flags) in
          (r ≡ ok 0)
          × IsDirectory m' c.directory_entry
          × (paging_get m' c.directory_entry wa
              ≡ (if wa == va then pa + flags else paging_get m c.directory_entry wa))
    set wa pw = paging_get-paging_set m c.directory_entry va wa (pa + flags) d pv pw

    one :
        (wa : ℕ)
        → IsPage wa
        → (if wa == va then pa + flags else paging_get m c.directory_entry wa)
          ≡ (if in_pages va 1 wa then pa + (wa - va) + flags else paging_get m c.directory_entry wa)
    one wa pw = ground arith

-- Mapping one page and then the `n` behind it maps them all.
Mapped-suc :
    (m m' : Mem) (r : ℕ) (c : Chunk) (va pa n flags : ℕ) (out : Response × Mem)
    → va + suc n * 4096 ≤ 2 ^ 32
    → pa + suc n * 4096 ≤ 2 ^ 32
    → Mapped c va pa 1 flags m (ok r, m')
    → Mapped c ((va + 4096) % 2 ^ 32) ((pa + 4096) % 2 ^ 32) n flags m' out
    → Mapped c va pa (suc n) flags m out
Mapped-suc m m' r c va pa n flags out fv fp first rest = record {
  succeeds = rest.succeeds;
  keeps = rest.keeps;
  entries = λ wa pw. rest.entries wa pw ∙ ground (arith, first.entries wa pw);
}

range_next-Mapped :
    (m : Mem) (c : Chunk) (va pa n flags : ℕ) (out : Response × Mem) (rest : Mem → Response × Mem)
    → va + suc n * 4096 ≤ 2 ^ 32
    → pa + suc n * 4096 ≤ 2 ^ 32
    → Mapped c va pa 1 flags m out
    → ((m' : Mem)
        → IsDirectory m' c.directory_entry
        → Mapped c ((va + 4096) % 2 ^ 32) ((pa + 4096) % 2 ^ 32) n flags m' (rest m'))
    → Mapped c va pa (suc n) flags m (range_next out rest)
unfolding range_next
range_next-Mapped m c va pa n flags (ok r, m') rest fv fp first later =
    Mapped-suc m m' r c va pa n flags (rest m') fv fp first (later m' first.keeps)
range_next-Mapped m c va pa n flags (err e, m') rest fv fp first later = cc (first.succeeds)

-- Where the directory is well formed, the addresses are aligned, the flags lie below a page and
-- neither range wraps, paging_map_range succeeds, keeps the directory well formed, and maps exactly the
-- `n` pages from `va` on to those from `pa` on.
pub paging_map_range-Mapped :
    (n : ℕ) (m : Mem) (c : Chunk) (va pa flags : ℕ)
    → IsDirectory m c.directory_entry
    → va % 4096 ≡ 0
    → pa % 4096 ≡ 0
    → va + n * 4096 ≤ 2 ^ 32
    → pa + n * 4096 ≤ 2 ^ 32
    → flags < 4096
    → Mapped c va pa n flags m (paging_map_range m c va pa n flags)
unfolding paging_map_range
paging_map_range-Mapped zero m c va pa flags d av ap' fv fp lt = record {
  succeeds = refl;
  keeps = d;
  entries = λ wa pw. ground arith;
}
paging_map_range-Mapped (suc n) m c va pa flags d av ap' fv fp lt =
    range_next-Mapped m c va pa n flags _ _ fv fp
      (paging_map-Mapped m c va pa flags d (omega arith) (omega arith) lt)
      (λ m' d'.
        paging_map_range-Mapped n m' c ((va + 4096) % 2 ^ 32) ((pa + 4096) % 2 ^ 32) flags d'
          (omega arith) (omega arith) (omega arith) (omega arith) lt)

-- Where paging_map_to is given aligned addresses on a well-formed directory, the end is not in front of
-- the start and neither range wraps, it maps exactly the pages of the physical range.
pub paging_map_to-Mapped :
    (m : Mem) (c : Chunk) (va pa pend flags : ℕ)
    → IsDirectory m c.directory_entry
    → va % 4096 ≡ 0
    → pa % 4096 ≡ 0
    → pend % 4096 ≡ 0
    → pa ≤ pend
    → pend ≤ 2 ^ 32
    → va + (pend - pa) ≤ 2 ^ 32
    → flags < 4096
    → Mapped c va pa ((pend - pa) / 4096) flags m (paging_map_to m c va pa pend flags)
unfolding paging_map_to
paging_map_to-Mapped m c va pa pend flags d av ap' ae le small fv lt =
    let inside : ltb pend pa ≡ false = ground arith in
    rw (paging_map_to, eq→== _ 0 av, eq→== _ 0 ap', eq→== _ 0 ae, inside)
      (paging_map_range-Mapped ((pend - pa) / 4096) m c va pa flags d av ap' (omega arith)
        (omega arith) lt)

-- paging_map_to refuses an address that is not aligned, and a range that ends in front of its start,
-- and then changes nothing.
pub paging_map_to-einvarg :
    (m : Mem) (c : Chunk) (va pa pend flags : ℕ)
    → (va % 4096 ≢ 0) ⊎ (pa % 4096 ≢ 0) ⊎ (pend % 4096 ≢ 0) ⊎ (pend < pa)
    → paging_map_to m c va pa pend flags ≡ (err einvarg, m)
unfolding paging_map_to
paging_map_to-einvarg m c va pa pend flags bad = ground arith

-- Where the directory is well formed, the three addresses are aligned and in order, the flags lie below a
-- page and neither range wraps, paging_map_to succeeds, and every virtual address of the range is then
-- translated to the physical address at the same offset.
pub paging_get_physical_address-paging_map_to :
    (m : Mem) (c : Chunk) (va pa pend flags x : ℕ)
    → IsDirectory m c.directory_entry
    → va % 4096 ≡ 0
    → pa % 4096 ≡ 0
    → pend % 4096 ≡ 0
    → pa ≤ pend
    → pend ≤ 2 ^ 32
    → va + (pend - pa) ≤ 2 ^ 32
    → flags < 4096
    → x < pend - pa
    → let (r, m') = paging_map_to m c va pa pend flags in
      (r ≡ ok 0) × (paging_get_physical_address m' c.directory_entry (va + x) ≡ pa + x)
unfolding paging_get_physical_address
paging_get_physical_address-paging_map_to m c va pa pend flags x d av ap' ae le small fv lt lx =
    let done = paging_map_to-Mapped m c va pa pend flags d av ap' ae le small fv lt in
    let page : ℕ = va + x - (va + x) % 4096 in
    let at = done.entries page (omega arith) in
    let hit : in_pages va ((pend - pa) / 4096) page ≡ true = ground arith in
    let word : paging_get (paging_map_to m c va pa pend flags).1 c.directory_entry page
        ≡ pa + (page - va) + flags =
      at ∙ rw hit in
    (done.succeeds, rw (word, bit_and-page (pa + (page - va) + flags) (omega arith)) (omega arith))

-- An address in a page that is mapped to a page at the same offset.
pub paging_get_physical_address-paging_get :
    (m : Mem) (directory va pa flags x : ℕ)
    → va % 4096 ≡ 0
    → pa % 4096 ≡ 0
    → flags < 4096
    → pa + x + 4096 < 2 ^ 32
    → paging_get m directory (va + x - (va + x) % 4096)
      ≡ pa + (va + x - (va + x) % 4096 - va) + flags
    → paging_get_physical_address m directory (va + x) ≡ pa + x
unfolding paging_get_physical_address
paging_get_physical_address-paging_get m directory va pa flags x av ap' lt small word =
    let page : ℕ = va + x - (va + x) % 4096 in
    rw (word, bit_and-page (pa + (page - va) + flags) (omega arith)) (omega arith)

range-succeeds :
    (n : ℕ) (m : Mem) (c : Chunk) (va pa flags : ℕ)
    → va % 4096 ≡ 0
    → pa % 4096 ≡ 0
    → (m' : Mem) × (paging_map_range m c va pa n flags ≡ (ok 0, m'))
unfolding paging_map_range range_next paging_map
range-succeeds zero m c va pa flags av ap' = (m, refl)
range-succeeds (suc n) m c va pa flags av ap' =
    let (m1, e) = paging_set-succeeds m c.directory_entry va (bit_or pa flags) av in
    let (m2, e') =
      range-succeeds n m1 c ((va + 4096) % 2 ^ 32) ((pa + 4096) % 2 ^ 32) flags (omega arith)
        (omega arith) in
    (m2, rw (eq→== (va % 4096) 0 av, eq→== (pa % 4096) 0 ap', e) e')

-- Whatever the directory is, mapping whole pages succeeds.
pub paging_map_to-succeeds :
    (m : Mem) (c : Chunk) (ptr pend flags : ℕ)
    → ptr % 4096 ≡ 0
    → pend % 4096 ≡ 0
    → ptr ≤ pend
    → (m' : Mem) × (paging_map_to m c ptr ptr pend flags ≡ (ok 0, m'))
unfolding paging_map_to
paging_map_to-succeeds m c ptr pend flags av ae le =
    let inside : ltb pend ptr ≡ false = ground arith in
    let (m', e) = range-succeeds ((pend - ptr) / 4096) m c ptr ptr flags av av in
    (m', rw (paging_map_to, eq→== (ptr % 4096) 0 av, eq→== (pend % 4096) 0 ae, inside) e)

-- An address is translated as the start of its page.
pub paging_get_physical_address-same :
    (m m' : Mem) (directory a : ℕ)
    → paging_get m' directory (a - a % 4096) ≡ paging_get m directory (a - a % 4096)
    → paging_get_physical_address m' directory a ≡ paging_get_physical_address m directory a
unfolding paging_get_physical_address
paging_get_physical_address-same m m' directory a e = rw e refl
