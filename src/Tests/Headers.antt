-- ===== src/Tests/Headers.antt =====
-- `read_headers` of board/hget/hget.c on small inputs.
use esp32_p4_linux.Common.{
  ℕ, ◌≡◌, ◌≢◌, ◌<◌, inl, inr, refl, arith, true, false, List, [], ◌∷◌, ◌++◌, codes, some, none, ◌≤◌,
  ◌+◌, length, take,
}
use esp32_p4_linux.Hget.Exit.{fail, proto}
use esp32_p4_linux.Hget.CString.{starts_with}
use esp32_p4_linux.Hget.Conn.{Net, ReadEvent, segment}
use esp32_p4_linux.Hget.Conn.Stream.{IsClean, contents}
use esp32_p4_linux.Hget.Headers.{split_at, read_headers}
use esp32_p4_linux.Hget.Headers.Status.{IsHead}
use esp32_p4_linux.Hget.Headers.Keeps.{read_headers_too_long}
use esp32_p4_linux.Hget.Headers.Fields.{
  Spells, spelled, same, capital, Differs, here, content_length, other,
}
use esp32_p4_linux.Hget.Headers.Says.{
  Block, IsBlock, head_of, Understands, read_headers-Understands,
}

-- The blank line is cut in two, and the body starts in the segment that ends it.
abbrev pub answer : Net
answer =
    segment (codes "HTTP/1.1 200 OK\r\nContent-Length: 5\r\n\r")
    ∷ ReadEvent.again
    ∷ segment (codes "\nhe")
    ∷ segment (codes "llo")
    ∷ []

pub answer-IsClean : IsClean answer
answer-IsClean = (λ e. cc, (λ e. cc, (λ e. cc, tt)))

abbrev pub answer_head : List ℕ
answer_head = codes "HTTP/1.1 200 OK\r\nContent-Length: 5"

abbrev pub answer-IsHead : IsHead answer_head
answer-IsHead = record {
  version = codes "1.1";
  digit = b'2';
  more = codes "00 OK\r\nContent-Length: 5";
  text = refl;
  version_ok = omega arith;
  is_digit = omega arith;
  no_nul = omega arith;
}

pub answer_split : split_at (codes "\r\n\r\n") (contents answer) ≡ some (answer_head, codes "hello")
unfolding split_at starts_with
answer_split = refl

-- The same answer as a block with a line that says nothing.
abbrev server_answer : Net
server_answer =
    segment (codes "HTTP/1.1 200 OK\r\nServer: x\r\nContent-Length: \t5\r\n\r")
    ∷ segment (codes "\nhello")
    ∷ []

abbrev server_block : Block
server_block = record {
  version = codes "1.1";
  digit = b'2';
  reason = codes "00 OK";
  fields =
      other (codes "Server: x")
      ∷ content_length (codes "Content-Length:") (codes " \t") (codes "5")
      ∷ [];
}

-- Letters as they are, before the rest of a name.
same_all : {xs p : List ℕ} (ys : List ℕ) → Spells xs p → Spells (ys ++ xs) (ys ++ p)
same_all [] h = h
same_all (y ∷ ys) h = same y (same_all ys h)

content_length-spelled : Spells (codes "Content-Length:") (codes "content-length:")
content_length-spelled = capital b'C' b'c' (omega arith) (omega arith) refl (
    same_all (codes "ontent-")
      (capital b'L' b'l' (omega arith) (omega arith) refl (same_all (codes "ength:") spelled)))

server-Differs : (c : ℕ) (p : List ℕ) → b'Z' < c → c ≢ b's' → Differs (codes "Server: x") (c ∷ p)
server-Differs c p small other_letter =
    here b'S' c (inr small) (λ e. omega arith) (λ _ _ e. other_letter (omega arith))

server-IsBlock : IsBlock server_block
server-IsBlock = record {
  version_ok = omega arith;
  is_digit = omega arith;
  one_line = omega arith;
  lines = (omega arith, (omega arith, tt));
  named = (
    (
      server-Differs b'c' (codes "ontent-length:") (omega arith) (λ e. omega arith),
      (
        server-Differs b't' (codes "ransfer-encoding:") (omega arith) (λ e. omega arith),
        server-Differs b'l' (codes "ocation:") (omega arith) (λ e. omega arith),
      ),
    ),
    (
      (
        content_length-spelled,
        ((inl refl, (inr refl, tt)), ((λ e. omega arith), (λ e. omega arith))),
      ),
      tt,
    ),
  );
  no_nul = omega arith;
}

server_split :
    split_at (codes "\r\n\r\n") (contents server_answer)
    ≡ some (head_of server_block, codes "hello")
unfolding split_at starts_with
server_split = refl

read_headers-Understands_example :
    Understands server_block (codes "hello") (read_headers 8192 false server_answer)
read_headers-Understands_example =
    read_headers-Understands 8192 false server_answer server_block (codes "hello") server-IsBlock
      (λ e. cc, (λ e. cc, tt)) (omega arith) server_split (omega arith)

abbrev cut_short : Net
cut_short = segment (codes "HTTP/1.1 200") ∷ []

no_blank : split_at (codes "\r\n\r\n") (take 8191 (contents cut_short)) ≡ none
unfolding split_at starts_with
no_blank = refl

read_headers_too_long_example :
    (rest : Net) × ((read_headers 8192 true cut_short ≡ some (fail proto, rest))
      × (length (contents cut_short) ≤ 8191 + length (contents rest)))
read_headers_too_long_example =
    read_headers_too_long 8192 true cut_short (λ e. cc, tt) (omega arith) no_blank

abbrev broken : Net
broken = segment (codes "HTTP") ∷ ReadEvent.failed ∷ []
