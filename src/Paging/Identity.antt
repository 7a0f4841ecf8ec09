-- ===== src/Paging/Identity.antt =====
-- paging_new_4gb: the directory that maps every page to itself.
use boi_os.Prelude.{
  ℕ, zero, suc, ◌+◌, ◌*◌, ◌/◌, ◌%◌, ◌^◌, ◌≤◌, ◌<◌, ◌≡◌, ◌≢◌, ◌⊎◌, refl, sym, ap, ◌∙◌, ◌==◌, arith,
  Bool-cases, inl, inr, ne→==, ==→eq, ==→ne, ltb, ltb→lt, ltb→le, bit_or,
}
use boi_os.Prelude.Bits.{bit_and-page, bit_or-page, bit_or-same_page}
use boi_os.Prelude.Mem.{Mem, store}
use boi_os.Paging.{
  elem_at, table_of, zero_words, kzalloc_words, fill_table, fill_directory, paging_new_4gb,
  paging_get, is_writable,
}
use boi_os.Paging.Directory.{IsDirectory, IsPage, table, paging_get_lem}

zero_words-outside :
    (k : ℕ) (m : Mem) (p a : ℕ) → (a < p) ⊎ (p + 4 * k ≤ a) → zero_words m p k a ≡ m a
unfolding zero_words
zero_words-outside zero m p a h = refl
zero_words-outside (suc k) m p a h =
    zero_words-outside k (store m p 0) (p + 4) a (omega arith) ∙ ground arith

kzalloc_words-outside :
    (m : Mem) (p a : ℕ) → (a < p) ⊎ (p + 4096 ≤ a) → kzalloc_words m p 1024 a ≡ m a
unfolding kzalloc_words
kzalloc_words-outside m p a h = elim (Bool-cases (p == 0)) [
  | inl z ↦ rw z
  | inr z ↦ rw z (zero_words-outside 1024 m p a h)
]

-- The chunk's own word.
chunk-outside :
    (m : Mem) (p v a : ℕ) → (a < p) ⊎ (p + 4096 ≤ a) → store (kzalloc_words m p 1) p v a ≡ m a
unfolding kzalloc_words
chunk-outside m p v a h = rw (ne→== a p (λ e. absurd (omega arith))) (elim (Bool-cases (p == 0)) [
  | inl z ↦ rw z refl
  | inr z ↦ rw z (zero_words-outside 1 m p a (omega arith))
])

-- The word for page `j` of the table that starts at `offset`.
abbrev page_word : ℕ → ℕ → ℕ → ℕ
page_word offset flags j = bit_or ((offset + j * 4096) % 2 ^ 32) flags

fill_table-outside :
    (k : ℕ) (m : Mem) (p offset flags j a : ℕ)
    → (a < p + 4 * j) ⊎ (p + 4 * (j + k) ≤ a)
    → fill_table m p offset flags j k a ≡ m a
unfolding fill_table
fill_table-outside zero m p offset flags j a h = refl
fill_table-outside (suc k) m p offset flags j a h =
    fill_table-outside k _ p offset flags (j + 1) a (omega arith) ∙ ground arith

fill_table-inside :
    (k : ℕ) (m : Mem) (p offset flags j t : ℕ)
    → j ≤ t
    → t < j + k
    → fill_table m p offset flags j k (elem_at p t) ≡ page_word offset flags t
unfolding fill_table
fill_table-inside zero m p offset flags j t lo hi = absurd (omega arith)
fill_table-inside (suc k) m p offset flags j t lo hi = elim (Bool-cases (t == j)) [
  | inl h ↦
      let e : t ≡ j = ==→eq t j h in
      rw e (
        fill_table-outside k _ p offset flags (j + 1) (elem_at p j) (inl (omega arith))
        ∙ ground arith)
  | inr h ↦
      let ne : t ≢ j = ==→ne t j h in
      fill_table-inside k _ p offset flags (j + 1) t (omega arith) (omega arith)
]

-- The 1026 pages that kzalloc gives are pages of their own, none of them the first.
pub record Frames (kzalloc : ℕ → ℕ) : Type 0 where
  pub page : (i : ℕ) → i < 1026 → kzalloc i % 4096 ≡ 0
  pub below : (i : ℕ) → i < 1026 → kzalloc i < 2 ^ 32
  pub apart : (i j : ℕ) → i < 1026 → j < 1026 → kzalloc i ≡ kzalloc j → i ≡ j

module _ (kzalloc : ℕ → ℕ) (fr : Frames kzalloc) (flags : ℕ) (small : flags < 4096) where
  abbrev dir : ℕ
  dir = kzalloc 0

  -- Two frames are a page or more apart.
  frames-apart :
      (i j : ℕ)
      → i < 1026
      → j < 1026
      → i ≢ j
      → (kzalloc i + 4096 ≤ kzalloc j) ⊎ (kzalloc j + 4096 ≤ kzalloc i)
  frames-apart i j li lj ne = elim (Bool-cases (kzalloc i == kzalloc j)) [
    | inl h ↦ absurd (ne (fr.apart i j li lj (==→eq _ _ h)))
    | inr h ↦ elim (Bool-cases (ltb (kzalloc i) (kzalloc j))) [
      | inl lt ↦ inl (omega (arith, ltb→lt _ _ lt, fr.page i li, fr.page j lj))
      | inr ge ↦ inr (omega (arith, ltb→le _ _ ge, ==→ne _ _ h, fr.page i li, fr.page j lj))
    ]
  ]

  abbrev dir_word : ℕ → ℕ
  dir_word i = bit_or (bit_or (kzalloc (i + 1)) flags) is_writable

  dir_word_page :
      (i : ℕ) → i < 1024 → (table_of (dir_word i) ≡ kzalloc (i + 1)) × (dir_word i < 2 ^ 32)
  dir_word_page i li =
      let e : dir_word i / 4096 ≡ kzalloc (i + 1) / 4096 =
        bit_or-same_page (bit_or (kzalloc (i + 1)) flags) is_writable (omega arith)
        ∙ bit_or-same_page (kzalloc (i + 1)) flags small in
      let lt : dir_word i < 2 ^ 32 = omega (arith, fr.below (i + 1) (omega arith)) in
      (omega (arith, bit_and-page (dir_word i) lt, fr.page (i + 1) (omega arith)), lt)

  -- The memory after one round at entry `i`.
  abbrev round : Mem → ℕ → ℕ → Mem
  round m offset i =
      store
        (fill_table (kzalloc_words m (kzalloc (i + 1)) 1024) (kzalloc (i + 1)) offset flags 0 1024)
        (elem_at dir i) (dir_word i)

  round-outside :
      (m : Mem) (offset i a : ℕ)
      → i < 1024
      → a ≢ elem_at dir i
      → (a < kzalloc (i + 1)) ⊎ (kzalloc (i + 1) + 4096 ≤ a)
      → round m offset i a ≡ m a
  round-outside m offset i a li ne out = rw (ne→== a (elem_at dir i) ne) (
      fill_table-outside 1024 _ (kzalloc (i + 1)) offset flags 0 a (omega arith)
      ∙ kzalloc_words-outside m (kzalloc (i + 1)) a out)

  -- The offset of the table of entry `i`.
  abbrev offset_of : ℕ → ℕ
  offset_of i = i * 4194304 % 2 ^ 32

  -- Address `a` is no entry of the directory and in no table, for the `k` entries from `i` on.
  abbrev Away : ℕ → ℕ → ℕ → Type 0
  Away i k a =
      (d : ℕ)
      → i ≤ d
      → d < i + k
      → (a ≢ elem_at dir d) × ((a < kzalloc (d + 1)) ⊎ (kzalloc (d + 1) + 4096 ≤ a))

  abbrev filled : Mem → ℕ → ℕ → Mem
  filled m i k = fill_directory kzalloc m dir (offset_of i) flags i k

  filled-suc :
      (m : Mem) (i k a : ℕ) → filled m i (suc k) a ≡ filled (round m (offset_of i) i) (i + 1) k a
  unfolding fill_directory
  filled-suc m i k a =
      let e : (offset_of i + 4194304) % 2 ^ 32 ≡ offset_of (i + 1) = omega arith in
      ap (λ o. fill_directory kzalloc (round m (offset_of i) i) dir o flags (i + 1) k a) e

  filled-outside : (k : ℕ) (m : Mem) (i a : ℕ) → i + k ≤ 1024 → Away i k a → filled m i k a ≡ m a
  unfolding fill_directory
  filled-outside zero m i a le away = refl
  filled-outside (suc k) m i a le away =
      filled-suc m i k a
      ∙ filled-outside k (round m (offset_of i) i) (i + 1) a (omega arith)
          (λ d lo hi. away d (omega arith) (omega arith))
      ∙ round-outside m (offset_of i) i a (omega arith) (away i (omega arith) (omega arith)).0
          (away i (omega arith) (omega arith)).1

  -- What an entry before `i` and its table hold is out of the way of the later rounds.
  entry-Away : (i k d : ℕ) → d < i → i + k ≤ 1024 → Away i k (elem_at dir d)
  entry-Away i k d lt le e lo hi = (
    omega arith,
    elim (frames-apart 0 (e + 1) (omega arith) (omega arith) (omega arith)) [
      | inl h ↦ inl (omega arith)
      | inr h ↦ inr (omega arith)
    ],
  )

  table-Away :
      (i k d t : ℕ) → d < i → i + k ≤ 1024 → t < 1024 → Away i k (elem_at (kzalloc (d + 1)) t)
  table-Away i k d t lt le lt' e lo hi = (
    elim (frames-apart 0 (d + 1) (omega arith) (omega arith) (omega arith)) [
      | inl h ↦ (λ (q : elem_at (kzalloc (d + 1)) t ≡ elem_at dir e). omega arith)
      | inr h ↦ (λ (q : elem_at (kzalloc (d + 1)) t ≡ elem_at dir e). omega arith)
    ],
    elim (frames-apart (d + 1) (e + 1) (omega arith) (omega arith) (omega arith)) [
      | inl h ↦ inl (omega arith)
      | inr h ↦ inr (omega arith)
    ],
  )

  filled-entry :
      (k : ℕ) (m : Mem) (i d : ℕ)
      → i + k ≤ 1024
      → i ≤ d
      → d < i + k
      → filled m i k (elem_at dir d) ≡ dir_word d
  filled-entry zero m i d le lo hi = absurd (omega arith)
  filled-entry (suc k) m i d le lo hi =
      filled-suc m i k (elem_at dir d) ∙ elim (Bool-cases (d == i)) [
        | inl h ↦
            let e : d ≡ i = ==→eq d i h in
            rw e (
              filled-outside k (round m (offset_of i) i) (i + 1) (elem_at dir i) (omega arith)
                (entry-Away (i + 1) k i (omega arith) (omega arith))
              ∙ ground arith)
        | inr h ↦
            let ne : d ≢ i = ==→ne d i h in
            filled-entry k (round m (offset_of i) i) (i + 1) d (omega arith) (omega arith)
              (omega arith)
      ]

  table-ne-dir :
      (d e t : ℕ) → d < 1024 → e < 1024 → t < 1024 → elem_at (kzalloc (d + 1)) t ≢ elem_at dir e
  table-ne-dir d e t ld le lt q =
      elim (frames-apart 0 (d + 1) (omega arith) (omega arith) (omega arith)) [
        | inl h ↦ omega arith
        | inr h ↦ omega arith
      ]

  round-table :
      (m : Mem) (i t : ℕ)
      → i < 1024
      → t < 1024
      → round m (offset_of i) i (elem_at (kzalloc (i + 1)) t) ≡ page_word (offset_of i) flags t
  round-table m i t li lt =
      rw (ne→== (elem_at (kzalloc (i + 1)) t) (elem_at dir i) (table-ne-dir i i t li li lt)) (
        fill_table-inside 1024 _ (kzalloc (i + 1)) (offset_of i) flags 0 t (omega arith)
          (omega arith))

  filled-table :
      (k : ℕ) (m : Mem) (i d t : ℕ)
      → i + k ≤ 1024
      → i ≤ d
      → d < i + k
      → t < 1024
      → filled m i k (elem_at (kzalloc (d + 1)) t) ≡ page_word (offset_of d) flags t
  filled-table zero m i d t le lo hi lt = absurd (omega arith)
  filled-table (suc k) m i d t le lo hi lt =
      filled-suc m i k (elem_at (kzalloc (d + 1)) t) ∙ elim (Bool-cases (d == i)) [
        | inl h ↦
            let e : d ≡ i = ==→eq d i h in
            rw e (
              filled-outside k (round m (offset_of i) i) (i + 1) (elem_at (kzalloc (i + 1)) t)
                (omega arith) (table-Away (i + 1) k i t (omega arith) (omega arith) lt)
              ∙ round-table m i t (omega arith) lt)
        | inr h ↦
            let ne : d ≢ i = ==→ne d i h in
            filled-table k (round m (offset_of i) i) (i + 1) d t (omega arith) (omega arith)
              (omega arith) lt
      ]

  page_word-page :
      (va : ℕ)
      → IsPage va
      → page_word (offset_of (va / 4194304)) flags (va % 4194304 / 4096) ≡ va + flags
  page_word-page va (al, lt) =
      let e : (va / 4194304 * 4194304 % 2 ^ 32 + va % 4194304 / 4096 * 4096) % 2 ^ 32
          ≡ va / 4096 * 4096 =
        omega arith in
      omega (arith, ap (λ t. bit_or t flags) e, bit_or-page (va / 4096) flags small)

  -- The memory behind the loops, and the one that paging_new_4gb leaves.
  abbrev looped : Mem → Mem
  looped m = filled (kzalloc_words m dir 1024) 0 1024

  abbrev built : Mem → Mem
  built m = store (kzalloc_words (looped m) (kzalloc 1025) 1) (kzalloc 1025) dir

  built-looped :
      (m : Mem) (i t : ℕ)
      → i < 1025
      → t < 1024
      → built m (elem_at (kzalloc i) t) ≡ looped m (elem_at (kzalloc i) t)
  built-looped m i t li lt =
      chunk-outside (looped m) (kzalloc 1025) dir (elem_at (kzalloc i) t)
        (elim (frames-apart i 1025 (omega arith) (omega arith) (omega arith)) [
          | inl h ↦ inl (omega arith)
          | inr h ↦ inr (omega arith)
        ])

  built-entry : (m : Mem) (i : ℕ) → i < 1024 → built m (elem_at dir i) ≡ dir_word i
  built-entry m i li =
      built-looped m 0 i (omega arith) li
      ∙ filled-entry 1024 (kzalloc_words m dir 1024) 0 i (omega arith) (omega arith) (omega arith)

  built-table : (m : Mem) (i : ℕ) → i < 1024 → table (built m) dir i ≡ kzalloc (i + 1)
  built-table m i li = ap table_of (built-entry m i li) ∙ (dir_word_page i li).0

  built-IsDirectory : (m : Mem) → IsDirectory (built m) dir
  built-IsDirectory m = record {
    page = fr.page 0 (omega arith);
    word = λ i li. omega (arith, built-entry m i li, (dir_word_page i li).1);
    away = λ i li e.
        let i0 = fr.apart (i + 1) 0 (omega arith) (omega arith) (sym (built-table m i li) ∙ e) in
        omega arith;
    apart = λ i j li lj e.
        let ij =
          fr.apart (i + 1) (j + 1) (omega arith) (omega arith)
            (sym (built-table m i li) ∙ e ∙ built-table m j lj) in
        omega arith;
  }

  built-get : (m : Mem) (va : ℕ) → IsPage va → paging_get (built m) dir va ≡ va + flags
  built-get m va pv =
      paging_get_lem (built m) dir va pv
      ∙ ap (λ p. built m (elem_at p (va % 4194304 / 4096)))
          (built-table m (va / 4194304) (omega arith))
      ∙ built-looped m (va / 4194304 + 1) (va % 4194304 / 4096) (omega arith) (omega arith)
      ∙ filled-table 1024 (kzalloc_words m dir 1024) 0 (va / 4194304) (va % 4194304 / 4096)
          (omega arith) (omega arith) (omega arith) (omega arith)
      ∙ page_word-page va pv

-- Where the 1026 pages that kzalloc gives are apart and the flags lie below a page, paging_new_4gb
-- builds a well-formed directory that maps every page to itself with these flags.
pub paging_new_4gb-identity :
    (kzalloc : ℕ → ℕ) (m : Mem) (flags : ℕ)
    → Frames kzalloc
    → flags < 4096
    → let (c, m') = paging_new_4gb kzalloc m flags in
      IsDirectory m' c.directory_entry
      × ((va : ℕ) → IsPage va → paging_get m' c.directory_entry va ≡ va + flags)
unfolding paging_new_4gb
paging_new_4gb-identity kzalloc m flags fr small =
    (built-IsDirectory kzalloc fr flags small m, built-get kzalloc fr flags small m)
