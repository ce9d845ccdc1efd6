-- ===== src/Lib.antt =====
-- Verification of the program parts of esp32-p4-linux: the bootloader of the ESP32-P4 board
-- (bootloader/) and its HTTP client (board/hget/hget.c).
--
-- The bootloader's main (bootloader/main.c) reads the partition table and the payloads from flash
-- through bootloader/p4/p4_flash.c, checks their CRCs before and after the copy to PSRAM, and jumps
-- to the kernel. hget parses a URL, connects, sends a request, reads the headers and copies the body
-- to a file, plain or chunked.
--
--   Common          shared names: tests on native numbers, lists, integers, text
--   Boot/Memory     bootloader/p4/p4_string.c over byte-addressed memory; proofs in Memory/Moves
--   Boot/Rom        the ROM's flash routines and CRC: a record of operations, and their documented
--                   behaviour as the laws of a stable flash
--   Boot/Flash      bootloader/p4/p4_flash.c less the partition table: p4_flash_read,
--                   p4_flash_crc32, p4_flash_copy, p4_flash_selftest; proofs in Flash/Crc and
--                   Flash/Copy
--   Boot/Partition  part_walk, p4_part_find, p4_part_dump; proofs in Partition/Find
--   Boot/Main       main of bootloader/main.c in stages, over a record of the other drivers; when it
--                   jumps in Main/Checks, that it boots in Main/Boots
--   Boot/Regs       reg_setbits, reg_clrsetbits, reg_read and reg_write over a bus of registers, and
--                   sequences of them; registers that hold what is written in Regs/Plain
--   Boot/Psram      bootloader/p4/p4_psram.c; p4_psram_init in Psram/Maps, p4_psram_test in
--                   Psram/Lines with its pattern in Psram/Pattern, p4_psram_alias_test in Psram/Alias
--   Boot/Emac       bootloader/p4/p4_emac.c; what p4_emac_init sets up in Emac/Ready
--                   and, register by register, in Emac/Words; its pins in Emac/Pins and Emac/Wired,
--                   the address in Emac/Address, mdio_read in Emac/Mdio, p4_emac_mdio_scan in
--                   Emac/Scan, p4_emac_refclk_probe in Emac/Clock
--   Boot/Ldo        bootloader/p4/p4_ldo.c and bootloader/p4/p4_clk.c; their order in Ldo/Order
--   Boot/Sdmmc      bootloader/p4/p4_sdmmc.c; what it sets up in Sdmmc/Slot
--   Boot/Wdt        bootloader/p4/p4_wdt.c; on protected registers in Wdt/Off
--   Boot/Analog     bootloader/p4/p4_analog.c and bootloader/p4/p4_cache.c
--   Boot/Panic      the names of bootloader/p4/p4_panic.c; read back in Panic/Names
--   Boot/Drivers    the drivers as the board of Boot/Main; that main boots with them in Drivers/Works
--   Boot/Uart       p4_uart0_set_baud of bootloader/p4/p4_uart.c; what it sets in Uart/Sets, its
--                   rates in Uart/Rates and Uart/Fast
--   Hget/CString    what hget uses of the C library's string functions and number parsers
--   Hget/Url        url_parse; its grammar in Url/Grammar, buffers in Url/Bounds
--   Hget/Conn       conn_read and conn_write; a connection as a stream in Conn/Stream
--   Hget/Output     write_all, and the state of a transfer
--   Hget/Body       body_plain and body_chunked; proofs in Body/Plain and Body/Chunked
--   Hget/Connect    tcp_connect; its candidates in Connect/Select and Connect/Among, its
--                   descriptors in Connect/Closes, the flags of the winner in Connect/Restores,
--                   the race as a collection of sockets in Connect/Rounds
--   Hget/Tls        conn_open behind tcp_connect, and conn_close; what it accepts and closes in
--                   Tls/Verifies
--   Hget/Headers    read_headers; its searches in Headers/Search, its loop in Headers/Loop, the
--                   status line in Headers/Status, the fields in Headers/Fields, the whole in
--                   Headers/Keeps, Headers/Says and Headers/Returns
--   Hget/Fetch      fetch; what it opens and closes in Fetch/Resources, what it writes in
--                   Fetch/Whole
--   Hget/Dial       conn_open and conn_close with Hget/Connect and Hget/Tls as the peers of
--                   Hget/Fetch, and bio_send and bio_recv; every descriptor of the program in
--                   Dial/Sockets, the mbedTLS contexts in Dial/Contexts
--   Hget/Main       main of hget; its command line in Main/Parses, that it ends in Main/Returns
--   Tests           the theorems at concrete inputs
--
-- State is passed explicitly. What the kernel, mbedTLS and the ROM do is an argument: a list of the
-- results of the calls to come, or a record of operations with named laws. Numbers are natural
-- numbers with the wrap-around of uint32_t written out where it can occur; long long and long are
-- signed integers, and the number parsers saturate as those of the C library.
--
-- A driver works on a bus of registers, or on a record of the operations of the vendored code that
-- it calls. What a theorem needs of the hardware is a record of laws: registers that hold what is
-- written to them, watchdogs that take a write only under their key, a management interface that is
-- busy for some polls and then answers, a memory whose address lines may be at fault. A mask of
-- reg_clrsetbits is written as the bit fields that it is made of. mdio_idle has its own bound of
-- 200000 polls, and the clock probe takes 4000 samples.
--
-- Loops take fuel. The loops over flash run for one round per 4096 bytes and two more; those of the
-- bodies need more rounds than the stream has bytes, and the theorems show that this is enough,
-- since each round takes a byte or ends.
--
-- The loop of read_headers needs one round more than the buffer has bytes, fetch one round for each
-- redirect left and one more, and the race of tcp_connect, which takes a slice of a second in each
-- round, one for each second of the timeout and one more.
--
-- The timeout of tcp_connect in milliseconds is that of a 32-bit long, which is taken to wrap. The
-- interface Board has no endless wait: in Boot/Drivers a UART that never takes its update counts as
-- one that has failed, and main-drivers excludes it. A Slot is an entry of pfd with that of flags,
-- since the code writes both at once.
--
-- Not modelled: console output; the bootloader's assembly and its halting loops. In Hget/Fetch a
-- peer is what conn_open returns and what the connection then does. The vendored
-- ESP-IDF sources, the tools, kernel patches and configuration are left out.
pub mod Common
pub mod Hget
pub mod Boot
mod Tests
