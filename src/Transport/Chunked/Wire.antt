-- ===== src/Transport/Chunked/Wire.antt =====
-- The chunked format of RFC 7230 §4.1, written down apart from src/transport/ChunkedDecoder.cpp.
use edge_llm.Base.{ℕ, ◌+◌, ◌*◌, ◌<◌, ◌≡◌, ◌≢◌, List, [], ◌∷◌, ◌++◌, Bytes, length, All}
use edge_llm.Transport.Chunked.{size_mod}

abbrev pub crlf : Bytes
crlf = b'\r' ∷ b'\n' ∷ []

-- A hexadecimal digit, in either case, and its value.
pub data HexDigit : ℕ → ℕ → Type 0 where
  decimal : {d : ℕ} → d < 10 → HexDigit (b'0' + d) d
  lower : {d : ℕ} → d < 6 → HexDigit (b'a' + d) (10 + d)
  upper : {d : ℕ} → d < 6 → HexDigit (b'A' + d) (10 + d)

-- The number that hexadecimal digits write behind `acc`.
abbrev pub HexNumber : ℕ → Bytes → ℕ → Type 0
HexNumber acc [] n = acc ≡ n
HexNumber acc (c ∷ cs) n = (d : ℕ) × (HexDigit c d × HexNumber (acc * 16 + d) cs n)

-- A size line without its CRLF: digits, and an extension that begins with `;` or is empty.
pub record SizeLine : Type 0 where
  pub digits : Bytes
  pub ext : Bytes

abbrev pub IsExt : Bytes → Type 0
IsExt [] = Unit
IsExt (c ∷ cs) = (c ≡ b';') × All (λ x. x ≢ b'\n') cs

-- The line is well formed and writes the size `n`.
pub record Writes (l : SizeLine) (n : ℕ) : Type 0 where
  pub nonempty : l.digits ≢ []
  pub value : HexNumber 0 l.digits n
  pub ext : IsExt l.ext

pub record Chunk : Type 0 where
  pub line : SizeLine
  pub payload : Bytes

pub record IsChunk (c : Chunk) : Type 0 where
  pub line : Writes c.line (length c.payload)
  pub nonempty : c.payload ≢ []
  pub fits : length c.payload < size_mod

pub record IsTrailer (l : Bytes) : Type 0 where
  pub nonempty : l ≢ []
  pub plain : All (λ x. (x ≢ b'\r') × (x ≢ b'\n')) l
  pub fits : length l < size_mod

-- A whole body: chunks, the line of the last chunk, and trailers.
pub record Message : Type 0 where
  pub chunks : List Chunk
  pub last : SizeLine
  pub trailers : List Bytes

pub record IsMessage (m : Message) : Type 0 where
  pub chunks : All IsChunk m.chunks
  pub last : Writes m.last 0
  pub trailers : All IsTrailer m.trailers

abbrev pub print_line : SizeLine → Bytes → Bytes
print_line l rest = l.digits ++ (l.ext ++ (crlf ++ rest))

abbrev pub print_chunks : List Chunk → Bytes → Bytes
print_chunks [] rest = rest
print_chunks (c ∷ cs) rest = print_line c.line (c.payload ++ (crlf ++ print_chunks cs rest))

abbrev pub print_trailers : List Bytes → Bytes → Bytes
print_trailers [] rest = rest
print_trailers (l ∷ ls) rest = l ++ (crlf ++ print_trailers ls rest)

-- The message on the wire, with `rest` behind it.
abbrev pub print : Message → Bytes → Bytes
print m rest = print_chunks m.chunks (print_line m.last (print_trailers m.trailers (crlf ++ rest)))

abbrev pub body : List Chunk → Bytes
body [] = []
body (c ∷ cs) = c.payload ++ body cs
