-- ===== src/Boot/Partition/Find.antt =====
-- `p4_part_find` against the table that the flash holds.
use esp32_p4_linux.Common.{
  ℕ, zero, suc, ◌+◌, ◌*◌, ◌≤◌, ◌<◌, ◌≡◌, ◌≢◌, refl, sym, ap, ◌∙◌, true, arith, Option, some, none,
  inl, inr, ◌⊎◌, ◌==◌, ==_iff, Bool-cases, ltb, ltb→lt, ◌%◌, Bool, [],
}
use esp32_p4_linux.Boot.Memory.{Mem, read_bytes}
use esp32_p4_linux.Boot.Rom.{Rom, IsStable}
use esp32_p4_linux.Boot.Flash.{p4_flash_read}
use esp32_p4_linux.Boot.Flash.Read.{p4_flash_read-stable, p4_flash_read-size}
use esp32_p4_linux.Boot.Partition.{
  Entry, Partition, decode, find_visit, part_walk, p4_part_find, p4_part_dump, dump_visit,
  part_table_offset, part_max_entries, part_magic, part_magic_md5,
}

-- Entry `i` of the table on flash.
abbrev pub entry_at : Mem → ℕ → Entry
entry_at image i = decode (read_bytes image (part_table_offset + i * 32) 32)

abbrev pub partition_of : Entry → Partition
partition_of e = record { offset = e.offset; size = e.size; label = e.label }

-- An entry that the search goes past: the checksum, or a partition of another type.
abbrev pub Passed : ℕ → ℕ → Entry → Type 0
Passed type subtype e =
    (e.magic ≡ part_magic_md5)
    ⊎ ((e.magic ≡ part_magic) × ((e.type ≢ type) ⊎ (e.subtype ≢ subtype)))

-- Entry `i` is the first partition of this type and subtype, before the end of the table.
pub record IsFirst (image : Mem) (type subtype i : ℕ) : Type 0 where
  pub inside : i < part_max_entries
  pub real : (entry_at image i).magic ≡ part_magic
  pub same_type : (entry_at image i).type ≡ type
  pub same_subtype : (entry_at image i).subtype ≡ subtype
  pub before : (j : ℕ) → j < i → Passed type subtype (entry_at image j)

-- What a search of the table returns.
abbrev pub Finds : Mem → ℕ → ℕ → Option Partition → Type 0
Finds image type subtype r =
    ((i : ℕ) × IsFirst image type subtype i × (r ≡ some (partition_of (entry_at image i))))
    ⊎ (((i : ℕ) → ¬ IsFirst image type subtype i) × (r ≡ none))

module _ (image : Mem) (type subtype : ℕ) where
  abbrev AllPassed : ℕ → Type 0
  AllPassed i = (j : ℕ) → j < i → Passed type subtype (entry_at image j)

  AllPassed-suc : (i : ℕ) → AllPassed i → Passed type subtype (entry_at image i) → AllPassed (i + 1)
  AllPassed-suc i h p j lt = elim (Bool-cases (j == i)) [
    | inl e ↦ rw ((==_iff j i).0 e) p
    | inr ne ↦ h j (ground arith)
  ]

  not-Passed : (i : ℕ) → IsFirst image type subtype i → ¬ Passed type subtype (entry_at image i)
  not-Passed i f (inl md5) = ground (arith, f.real)
  not-Passed i f (inr (m, inl t)) = t f.same_type
  not-Passed i f (inr (m, inr s)) = s f.same_subtype

  abbrev Ends : ℕ → Type 0
  Ends i = ((entry_at image i).magic ≢ part_magic_md5) × ((entry_at image i).magic ≢ part_magic)

  not-Ends : (i : ℕ) → Ends i → ¬ Passed type subtype (entry_at image i)
  not-Ends i e (inl md5) = e.0 md5
  not-Ends i e (inr (m, _)) = e.1 m

  -- Nothing is found in a table that ends at entry `i`.
  none_from : (i : ℕ) → AllPassed i → Ends i → (k : ℕ) → ¬ IsFirst image type subtype k
  none_from i h e k f = elim (Bool-cases (k == i)) [
    | inl same ↦ e.1 (ap (λ n. (entry_at image n).magic) (sym ((==_iff k i).0 same)) ∙ f.real)
    | inr other ↦ elim (Bool-cases (ltb k i)) [
      | inl lt ↦ not-Passed k f (h k (ltb→lt k i lt))
      | inr ge ↦ not-Ends i e (f.before i (ground arith))
    ]
  ]

  module _ {W : Type 0} {rom : Rom W} (stable : IsStable rom image) (buf : ℕ)
      (hb : buf % 4 ≡ 0) where
    find_walk :
        (n i : ℕ) (w : W)
        → i + n ≡ part_max_entries
        → 0x9000 ≤ rom.chip_size w
        → AllPassed i
        → let (good, w', f) =
            part_walk rom buf find_visit n i w
              (record { type = type; subtype = subtype; out = none }) in
          (good ≡ true) × (rom.chip_size w' ≡ rom.chip_size w) × Finds image type subtype f.out
    unfolding part_walk find_visit
    find_walk zero i w e size h =
        (refl, refl, inr (λ k f. not-Passed k f (h k (omega (arith, f.inside))), refl))
    find_walk (suc n) i w e size h =
        let entry : Entry = entry_at image i in
        let r =
          p4_flash_read-stable stable w (part_table_offset + i * 32) buf 32 (omega arith) hb refl
            (omega arith) in
        let go = λ (p : Passed type subtype entry).
          find_walk n (i + 1) (p4_flash_read rom w (part_table_offset + i * 32) buf 32).2
            (omega arith) (omega (arith, r.2)) (AllPassed-suc i h p) in
        rw (r.0, r.1)
          (elim (Bool-cases (entry.magic == part_magic_md5)) [
            | inl md5 ↦ rw md5 (let ih = go (inl ((==_iff _ _).0 md5)) in (ih.0, ih.1 ∙ r.2, ih.2))
            | inr no_md5 ↦ rw no_md5 (elim (Bool-cases (entry.magic == part_magic)) [
              | inr bad ↦ rw bad (refl, r.2, inr (none_from i h (ground arith), refl))
              | inl real ↦ rw real (elim (Bool-cases (entry.type == type)) [
                | inr other ↦ rw other (
                    let ih = go (inr ((==_iff _ _).0 real, inl (ground arith))) in
                    (ih.0, ih.1 ∙ r.2, ih.2))
                | inl same_type ↦ rw same_type (elim (Bool-cases (entry.subtype == subtype)) [
                  | inr other ↦ rw other (
                      let ih = go (inr ((==_iff _ _).0 real, inr (ground arith))) in
                      (ih.0, ih.1 ∙ r.2, ih.2))
                  | inl same_subtype ↦ rw same_subtype (
                    refl,
                    r.2,
                    inl (
                      i,
                      record {
                        inside = omega arith;
                        real = (==_iff _ _).0 real;
                        same_type = (==_iff _ _).0 same_type;
                        same_subtype = (==_iff _ _).0 same_subtype;
                        before = h;
                      },
                      refl,
                    ),
                  )
                ])
              ])
            ])
          ])

    -- On a stable flash `p4_part_find` returns the first partition of the type and subtype asked
    -- for, with its fields as they stand on flash, and nothing exactly if the table has none
    -- before its end; checksum entries are passed over.
    pub p4_part_find-Finds :
        (w : W)
        → 0x9000 ≤ rom.chip_size w
        → Finds image type subtype (p4_part_find rom buf w type subtype).0
          × (rom.chip_size (p4_part_find rom buf w type subtype).1 ≡ rom.chip_size w)
    unfolding p4_part_find
    p4_part_find-Finds w size =
        let r = find_walk part_max_entries 0 w refl size (λ j lt. absurd (omega arith)) in
        rw r.0 (r.2, r.1)

-- Two first partitions of the same type are the same.
IsFirst-unique :
    (image : Mem) (type subtype i j : ℕ)
    → IsFirst image type subtype i
    → IsFirst image type subtype j
    → i ≡ j
IsFirst-unique image type subtype i j f g = elim (Bool-cases (i == j)) [
  | inl same ↦ (==_iff i j).0 same
  | inr other ↦ elim (Bool-cases (ltb i j)) [
    | inl lt ↦ absurd (not-Passed image type subtype i f (g.before i (ltb→lt i j lt)))
    | inr ge ↦ absurd (not-Passed image type subtype j g (f.before j (ground arith)))
  ]
]

pub p4_part_find_first :
    {W : Type 0} {rom : Rom W} {image : Mem} (stable : IsStable rom image) (buf : ℕ)
    → buf % 4 ≡ 0
    → (type subtype i : ℕ) (w : W) → IsFirst image type subtype i
    → 0x9000 ≤ rom.chip_size w
    → ((p4_part_find rom buf w type subtype).0 ≡ some (partition_of (entry_at image i)))
      × (rom.chip_size (p4_part_find rom buf w type subtype).1 ≡ rom.chip_size w)
p4_part_find_first {image} stable buf hb type subtype i w f size =
    let (found, kept) = p4_part_find-Finds image type subtype stable buf hb w size in
    elim found [
      | inl (j, g, e) ↦ (
        e
            ∙ ap (λ k. some (partition_of (entry_at image k)))
                (IsFirst-unique image type subtype j i g f),
        kept,
      )
      | inr (none_there, e) ↦ absurd (none_there i f)
    ]

-- A walk leaves the size of the chip alone, whatever its visitor does.
part_walk-size {ℓ} :
    {W : Type 0} {rom : Rom W} {image : Mem} (stable : IsStable rom image) (buf : ℕ) {C : Type ℓ}
    (visit : Entry → C → Bool × C) (n i : ℕ) (w : W) (ctx : C)
    → rom.chip_size (part_walk rom buf visit n i w ctx).1 ≡ rom.chip_size w
unfolding part_walk
part_walk-size stable buf visit zero i w ctx = refl
part_walk-size {rom} stable buf visit (suc n) i w ctx =
    let r = p4_flash_read rom w (part_table_offset + i * 32) buf 32 in
    let kept = p4_flash_read-size stable w (part_table_offset + i * 32) buf 32 in
    let e = decode r.1 in
    let skip = part_walk-size stable buf visit n (i + 1) r.2 ctx in
    let next = part_walk-size stable buf visit n (i + 1) r.2 (visit e ctx).1 in
    elim (Bool-cases r.0) [
      | inr bad ↦ rw bad kept
      | inl good ↦ rw good (elim (Bool-cases (e.magic == part_magic_md5)) [
        | inl md5 ↦ rw md5 (skip ∙ kept)
        | inr other ↦ rw other (elim (Bool-cases (e.magic == part_magic)) [
          | inr end ↦ rw end kept
          | inl real ↦ rw real (elim (Bool-cases (visit e ctx).0) [
            | inl more ↦ rw more (next ∙ kept)
            | inr stop ↦ rw stop kept
          ])
        ])
      ])
    ]

pub p4_part_dump-size :
    {W : Type 0} {rom : Rom W} {image : Mem} (stable : IsStable rom image) (buf : ℕ) (w : W)
    → rom.chip_size (p4_part_dump rom buf w).1 ≡ rom.chip_size w
unfolding p4_part_dump
p4_part_dump-size stable buf w = part_walk-size stable buf dump_visit part_max_entries 0 w []
