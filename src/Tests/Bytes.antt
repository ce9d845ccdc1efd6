-- ===== src/Tests/Bytes.antt =====
-- bootloader/p4/p4_string.c at small ranges.
use esp32_p4_linux.Common.{◌*◌, ◌%◌, ◌≡◌}
use esp32_p4_linux.Boot.Memory.{Mem, memcmp, memmove}
use esp32_p4_linux.Boot.Memory.Moves.{moved, Compares, memmove_lem, memcmp-Compares}

abbrev memory : Mem
memory a = 10 * a % 256

memmove_lem_example : memmove memory 2 0 4 3 ≡ moved memory 2 0 4 3
memmove_lem_example = memmove_lem memory 2 0 4 3

memcmp-Compares_example : Compares memory 1 2 3 (memcmp memory 1 2 3)
memcmp-Compares_example = memcmp-Compares memory 1 2 3
