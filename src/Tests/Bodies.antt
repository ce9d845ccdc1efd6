-- ===== src/Tests/Bodies.antt =====
-- The body loops of board/hget/hget.c on connections and files that fail.
use esp32_p4_linux.Common.{[], ◌∷◌, codes}
use esp32_p4_linux.Hget.Conn.{ReadEvent, segment}
use esp32_p4_linux.Hget.Output.{FileEvent, Transfer}

abbrev reset_early : Transfer
reset_early = record {
  net = segment (codes "3\r\nab") ∷ ReadEvent.again ∷ ReadEvent.failed ∷ [];
  file = FileEvent.takes 1 ∷ FileEvent.failed ∷ [];
  out = [];
  written = 0;
}
