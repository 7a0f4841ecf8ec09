-- ===== src/Task/Strings/Delivery.antt =====
-- What copy_string_from_task leaves in memory and in the page tables of the task.
use boi_os.Prelude.{
  ℕ, zero, suc, ◌+◌, ◌-◌, ◌%◌, ◌^◌, ◌≤◌, ◌<◌, ◌≡◌, ◌≢◌, ◌⊎◌, refl, ap, sym, ◌∙◌, inl, inr, true,
  false, List, [], ◌∷◌, length, take, leb, ◌==◌, if◌then◌else◌, arith, ne→==, Bool-cases, ==→eq,
  ==→ne,
}
use boi_os.Prelude.Mem.{Mem}
use boi_os.Status.{Response, ok}
use boi_os.CString.{strncpy}
use boi_os.CString.Laws.{IsString, Apart, strncpy-Copied}
use boi_os.Paging.{Chunk, paging_map, paging_get, paging_set, paging_get_physical_address}
use boi_os.Paging.Directory.{IsDirectory, IsPage, paging_get-paging_set}
use boi_os.Paging.Map.{
  in_pages, Mapped, paging_map-Mapped, paging_get_physical_address-same,
  paging_get_physical_address-paging_get,
}
use boi_os.Task.Strings.{
  Allocator, tmp_flags, virtual_loop, copy_out, copy_through, copy_string_from_task,
}
use boi_os.Task.Strings.Virtual.{IsTaskString, Outside, Itself, virtual_loop-Copied}

take-all : (cs : List ℕ) (k : ℕ) → length cs ≤ k → take k cs ≡ cs
take-all [] zero le = refl
take-all [] (suc k) le = refl
take-all (c ∷ cs) zero le = absurd (omega arith)
take-all (c ∷ cs) (suc k) le = ap (c ∷◌) (take-all cs k (omega arith))

module _ (words : Mem) (c : Chunk) (tmp : ℕ) (d : IsDirectory words c.directory_entry)
    (page : IsPage tmp) where
  -- The page tables with the temporary page mapped to itself.
  abbrev lent : Mem
  lent = (paging_map words c tmp tmp tmp_flags).1

  lent-Mapped : Mapped c tmp tmp 1 tmp_flags words (paging_map words c tmp tmp tmp_flags)
  lent-Mapped = paging_map-Mapped words c tmp tmp tmp_flags d page page (omega arith)

  lent-Itself : tmp + 8192 ≤ 2 ^ 32 → Itself lent c.directory_entry tmp
  lent-Itself room x lt =
      let wa = tmp + x - (tmp + x) % 4096 in
      let hit : in_pages tmp 1 wa ≡ true = ground (arith, page.0) in
      paging_get_physical_address-paging_get lent c.directory_entry tmp tmp tmp_flags x page.0
        page.0 (omega arith) (omega arith) (lent-Mapped.entries wa (omega arith) ∙ rw hit refl)

  lent-same :
      (a : ℕ)
      → a < 2 ^ 32
      → (a < tmp) ⊎ (tmp + 4096 ≤ a)
      → paging_get_physical_address lent c.directory_entry a
        ≡ paging_get_physical_address words c.directory_entry a
  lent-same a small far =
      let wa = a - a % 4096 in
      let miss : in_pages tmp 1 wa ≡ false = ground (arith, page.0) in
      let same : paging_get lent c.directory_entry wa ≡ paging_get words c.directory_entry wa =
        lent-Mapped.entries wa (omega arith) ∙ rw miss refl in
      paging_get_physical_address-same words lent c.directory_entry a same

  lent-IsTaskString :
      (cs : List ℕ) (m : Mem) (src : ℕ)
      → src + length cs < 2 ^ 32
      → (src + length cs < tmp) ⊎ (tmp + 4096 ≤ src)
      → IsTaskString words c.directory_entry m src cs
      → IsTaskString lent c.directory_entry m src cs
  lent-IsTaskString [] m src small far s = ap m (lent-same src (omega arith) (ground arith)) ∙ s
  lent-IsTaskString (b ∷ cs) m src small far (h, pb, s) = (
    ap m (lent-same src (omega arith) (ground arith)) ∙ h,
    pb,
    lent-IsTaskString cs m (src + 1) (omega arith) (ground arith) s,
  )

  -- The word that was there is put back.
  restored :
      (words2 : Mem) × (paging_set lent c.directory_entry tmp
          (paging_get words c.directory_entry tmp)
        ≡ (ok 0, words2))
      × ((wa : ℕ)
          → IsPage wa
          → paging_get words2 c.directory_entry wa ≡ paging_get words c.directory_entry wa)
  restored =
      let old = paging_get words c.directory_entry tmp in
      let out = paging_set lent c.directory_entry tmp old in
      let (done, _, _) =
        paging_get-paging_set lent c.directory_entry tmp tmp old lent-Mapped.keeps page page in
      (
        out.1,
        ap (λ (r : Response). (r, out.1)) done,
        λ wa pw.
            let (_, _, at) =
              paging_get-paging_set lent c.directory_entry tmp wa old lent-Mapped.keeps page pw in
            at ∙ back wa pw,
      )
    where
      back :
          (wa : ℕ)
          → IsPage wa
          → (if wa == tmp
              then paging_get words c.directory_entry tmp
              else paging_get lent c.directory_entry wa)
            ≡ paging_get words c.directory_entry wa
      back wa pw = elim (Bool-cases (wa == tmp)) [
        | inl t ↦ rw t (ap (paging_get words c.directory_entry) (sym (==→eq wa tmp t)))
        | inr f ↦
            let ne = ==→ne wa tmp f in
            let miss : in_pages tmp 1 wa ≡ false = ground (arith, page.0, pw.0) in
            rw f (lent-Mapped.entries wa pw ∙ rw miss refl)
      ]

through :
    (kernel : Allocator) (bytes1 words words2 : Mem) (c : Chunk) (va pa max tmp : ℕ)
    → tmp ≢ 0
    → paging_set
        (paging_map words c tmp tmp tmp_flags).1
        c.directory_entry
        tmp
        (paging_get words c.directory_entry tmp)
      ≡ (ok 0, words2)
    → let bytes2 =
        virtual_loop
          (paging_map words c tmp tmp tmp_flags).1
          c.directory_entry
          bytes1
          tmp
          va
          (max - 1) in
      copy_through kernel words c va pa max (tmp, bytes1)
      ≡ (ok 0, kernel.kfree (strncpy bytes2 pa tmp max) tmp, words2)
unfolding copy_through copy_out
through kernel bytes1 words words2 c va pa max tmp ne set = rw (ne→== tmp 0 ne, set, copy_out) refl

-- kzalloc gives the page at `tmp`, and a string shorter than `max`, with `max` below a page, stands in the task's
-- memory, in pages other than that one and in memory outside of it; then the call succeeds, before the page is
-- freed the whole string stands at `physical_address`, which is not inside the copied part of the page, and each
-- page of the task is mapped as it was.
pub copy_string_from_task-delivers :
    (cs : List ℕ) (kernel : Allocator) (bytes words : Mem) (c : Chunk)
    (virtual_address physical_address max tmp : ℕ) (bytes1 : Mem)
    → IsDirectory words c.directory_entry
    → kernel.kzalloc bytes max ≡ (tmp, bytes1)
    → tmp ≢ 0
    → IsPage tmp
    → tmp + 8192 ≤ 2 ^ 32
    → length cs < max
    → max < 4096
    → virtual_address + length cs < 2 ^ 32
    → (virtual_address + length cs < tmp) ⊎ (tmp + 4096 ≤ virtual_address)
    → IsTaskString words c.directory_entry bytes1 virtual_address cs
    → Outside words c.directory_entry tmp virtual_address (suc (length cs))
    → Apart physical_address tmp (suc (length cs))
    → (bytes2 : Mem) × (words2 : Mem) × (copy_string_from_task kernel bytes words c virtual_address
          physical_address max
        ≡ (ok 0, kernel.kfree bytes2 tmp, words2))
      × IsString bytes2 physical_address cs
      × ((wa : ℕ)
          → IsPage wa
          → paging_get words2 c.directory_entry wa ≡ paging_get words c.directory_entry wa)
unfolding copy_string_from_task
copy_string_from_task-delivers cs kernel bytes words c va pa max tmp bytes1 d e ne page room lt
      small fits far s out ad =
    let (words2, set, back) = restored words c tmp d page in
    let whole : take (max - 1) cs ≡ cs = take-all cs (max - 1) (omega arith) in
    let out' : Outside (lent words c tmp d page) c.directory_entry tmp va (suc (length cs)) =
      λ a lo hi.
        ground (arith, lent-same words c tmp d page a (omega arith) (ground arith), out a lo hi) in
    let copied =
      virtual_loop-Copied (lent words c tmp d page) c.directory_entry tmp (max - 1) cs bytes1 0 va
        (lent-Itself words c tmp d page room) (omega arith) (omega arith) fits out'
        (lent-IsTaskString words c tmp d page cs bytes1 va fits far s) in
    let z : tmp + 0 ≡ tmp = omega arith in
    let stands = (rw (whole, z) at copied).stands in
    let second = strncpy-Copied cs _ pa tmp max stands ad in
    let below : leb 4096 max ≡ false = ground arith in
    (
      _,
      words2,
      rw below (
          ap (copy_through kernel words c va pa max) e
          ∙ through kernel bytes1 words words2 c va pa max tmp ne set),
      (rw whole at second).stands,
      back,
    )
