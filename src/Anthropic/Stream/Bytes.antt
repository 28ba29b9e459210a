-- ===== src/Anthropic/Stream/Bytes.antt =====
-- internal/handlers/anthropic.go, streamWriter: the bytes of the upstream, cut into lines. What
-- json.Unmarshal reads from the data of a line is the argument `parse`.
use foxrouters.Anthropic.Stream.{StreamWriter, new_stream_writer}
use foxrouters.Anthropic.Stream.Chunks.{Chunk, finalize, on_chunk}
use foxrouters.Prelude.{
  if◌then◌else◌, leb, nat_beq, is_empty, Str, trim_prefix, str_eq, has_prefix, codes, ℕ, not, ◌&&◌,
  Option, none, some, List, [], ◌∷◌, ◌++◌,
}
use foxrouters.Prelude.Space.{trim_space}

-- What the bytes change of streamWriter.
pub record Pipe : Type 0 where
  pub writer : StreamWriter
  pub carry : Str
  pub err_buf : Str
  pub status_code : ℕ

unfoldable pub new_pipe : Pipe
unfolding new_stream_writer
new_pipe = record { writer = new_stream_writer; carry = []; err_buf = []; status_code = 200 }

unfoldable pub write_header : ℕ → Pipe → Pipe
write_header code p = record p { status_code = code }

unfoldable pub extend_first : ℕ → List Str → Str → List Str × Str
extend_first b [] last = ([], b ∷ last)
extend_first b (l ∷ ls) last = ((b ∷ l) ∷ ls, last)

-- strings.Split at the line feeds: the lines that end, and what is left.
unfoldable pub split_lines : Str → List Str × Str
split_lines [] = ([], [])
split_lines (b ∷ s) =
    let (ls, last) = split_lines s in
    if nat_beq b 10 then ([] ∷ ls, last) else extend_first b ls last

-- strings.TrimRight of carriage returns
unfoldable pub trim_right_cr : Str → Str
trim_right_cr [] = []
trim_right_cr (b ∷ s) =
    let rest = trim_right_cr s in if is_empty rest && nat_beq b 13 then [] else b ∷ rest

unfoldable pub line_data : Str → Option Str
line_data line =
    let payload = trim_space (trim_prefix (trim_prefix line (codes "data: ")) (codes "data:")) in
    if not (has_prefix line (codes "data: ")) && not (has_prefix line (codes "data:"))
    then none
    else some payload

unfoldable pub on_parsed : Option Chunk → StreamWriter → StreamWriter
on_parsed none w = w
on_parsed (some c) w = on_chunk c w

unfoldable pub on_data : (Str → Option Chunk) → Option Str → StreamWriter → StreamWriter
on_data parse none w = w
on_data parse (some payload) w =
    if str_eq payload []
    then w
    else if str_eq payload (codes "[DONE]")
    then finalize w
    else on_parsed (parse payload) w

unfoldable pub process_line : (Str → Option Chunk) → Str → StreamWriter → StreamWriter
process_line parse line w = on_data parse (line_data line) w

unfoldable pub process_lines : (Str → Option Chunk) → List Str → StreamWriter → StreamWriter
process_lines parse [] w = w
process_lines parse (l ∷ ls) w = process_lines parse ls (process_line parse (trim_right_cr l) w)

unfoldable pub write : (Str → Option Chunk) → Str → Pipe → Pipe
write parse bytes p =
    let (lines, rest) = split_lines (p.carry ++ bytes) in
    if not p.writer.started && leb 400 p.status_code
    then record p { err_buf = p.err_buf ++ bytes }
    else record p { carry = rest; writer = process_lines parse lines p.writer }

-- What HandleMessages does with the writer when the proxy has returned.
unfoldable pub drain : (Str → Option Chunk) → Pipe → Pipe
drain parse p =
    let w =
      if is_empty p.carry then p.writer else process_line parse (trim_right_cr p.carry) p.writer in
    record p { carry = []; writer = if w.started && not w.stopped then finalize w else w }
