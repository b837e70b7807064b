-- ===== src/Python/Stream.antt =====
-- `io.BytesIO`: bytes and a position. A library that is handed a stream may leave the position
-- anywhere; the source puts it back by `seek(0)`.
use notifications_template_p.Prelude.{ℕ, max, List, drop, length}

abbrev pub Bytes : Type 0
Bytes = List ℕ

pub record BytesIo : Type 0 where
  pub contents : Bytes
  pub position : ℕ

-- `BytesIO(data)`
abbrev pub bytes_io : Bytes → BytesIo
bytes_io b = record { contents = b; position = 0 }

-- `f.seek(0)`
abbrev pub rewind : BytesIo → BytesIo
rewind f = record f { position = 0 }

-- `f.read()`: what is left, and the stream at its end.
abbrev pub read : BytesIo → Bytes × BytesIo
read f = (drop f.position f.contents, record f { position = max f.position (length f.contents) })
