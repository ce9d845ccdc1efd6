-- ===== src/Boot/Partition.antt =====
-- The partition table: `part_walk` and its visitors in bootloader/p4/p4_flash.c.
pub mod Find
use esp32_p4_linux.Common.{
  ℕ, zero, suc, ◌+◌, ◌*◌, ◌/◌, Bool, true, false, not, ◌||◌, ◌++◌, Option, none, some, ◌==◌,
  if◌then◌else◌, Bytes, List, [], ◌∷◌, take, drop, get_or,
}
use esp32_p4_linux.Boot.Rom.{Rom}
use esp32_p4_linux.Boot.Flash.{p4_flash_read}

abbrev pub part_table_offset : ℕ
part_table_offset = 0x8000

-- `P4_PART_TABLE_LEN / 32`
abbrev pub part_max_entries : ℕ
part_max_entries = 0x1000 / 32

abbrev pub part_magic : ℕ
part_magic = 0x50AA

abbrev pub part_magic_md5 : ℕ
part_magic_md5 = 0xEBEB

-- `p4_part_entry_t`
pub record Entry : Type 0 where
  pub magic : ℕ
  pub type : ℕ
  pub subtype : ℕ
  pub offset : ℕ
  pub size : ℕ
  pub label : Bytes
  pub flags : ℕ

-- The little-endian fields of the 32 bytes on flash.
abbrev u16 : Bytes → ℕ → ℕ
u16 bs i = get_or bs i 0 + 256 * get_or bs (i + 1) 0

abbrev u32 : Bytes → ℕ → ℕ
u32 bs i = u16 bs i + 65536 * u16 bs (i + 2)

unfoldable pub decode : Bytes → Entry
decode bs = record {
  magic = u16 bs 0;
  type = get_or bs 2 0;
  subtype = get_or bs 3 0;
  offset = u32 bs 4;
  size = u32 bs 8;
  label = take 16 (drop 12 bs);
  flags = u32 bs 28;
}

-- `p4_partition_t`; the label's terminator is the end of the list.
pub record Partition : Type 0 where
  pub offset : ℕ
  pub size : ℕ
  pub label : Bytes

-- `find_ctx_t`: what is looked for, and `out` once it is found.
pub record Search : Type 0 where
  pub type : ℕ
  pub subtype : ℕ
  pub out : Option Partition

-- A visitor returns whether to walk on.
pub find_visit : Entry → Search → Bool × Search
find_visit e f = if not (e.type == f.type) || not (e.subtype == f.subtype) then (true, f) else (
  false,
  record f { out = some (record { offset = e.offset; size = e.size; label = e.label }) },
)

-- The entries printed so far.
pub dump_visit : Entry → List Entry → Bool × List Entry
dump_visit e printed = (true, printed ++ e ∷ [])

module _ {W : Type 0} (rom : Rom W) where
  -- `n` more entries from index `i` on; `buf` is the address of the entry on the stack. The result
  -- is false if a read fails.
  pub part_walk {ℓ} : {C : Type ℓ} → ℕ → (Entry → C → Bool × C) → ℕ → ℕ → W → C → Bool × W × C
  part_walk buf visit zero i w ctx = (true, w, ctx)
  part_walk buf visit (suc n) i w ctx =
      let (good, bytes, w') = p4_flash_read rom w (part_table_offset + i * 32) buf 32 in
      let e = decode bytes in
      let (more, ctx') = visit e ctx in
      let skip = part_walk buf visit n (i + 1) w' ctx in
      let next = part_walk buf visit n (i + 1) w' ctx' in
      if not good
      then (false, w', ctx)
      else if e.magic == part_magic_md5
      then skip
      else if not (e.magic == part_magic)
      then (true, w', ctx)
      else if not more
      then (true, w', ctx')
      else next

  -- `out` is not null in any call. `none` is false.
  pub p4_part_find : ℕ → W → ℕ → ℕ → Option Partition × W
  p4_part_find buf w type subtype =
      let (good, w', f) =
        part_walk buf find_visit part_max_entries 0 w
          (record { type = type; subtype = subtype; out = none }) in
      (if good then f.out else none, w')

  -- Whether the table could be read, and the entries printed.
  pub p4_part_dump : ℕ → W → Bool × W × List Entry
  p4_part_dump buf w = part_walk buf dump_visit part_max_entries 0 w []
