-- ===== src/Job/Buffer.antt =====
-- job/growbuf.go: an append-only byte buffer with reads at an offset. A call holds the mutex, so each
-- one is a function of the buffer; a `Read` that would wait returns `blocks`, and is made again when
-- the buffer changes.
pub mod Reader
use sh.Prelude.{
  ℕ, Bool, true, false, Option, none, some, List, [], ◌++◌, length, take, drop, leb, if◌then◌else◌,
}

pub record GrowBuf : Type 0 where
  pub bytes : List ℕ
  pub closed : Bool

abbrev pub new_grow_buf : GrowBuf
new_grow_buf = record { bytes = []; closed = false }

-- io.ErrClosedPipe is `none`.
unfoldable pub write : GrowBuf → List ℕ → GrowBuf × Option ℕ
write b p = if b.closed then (b, none) else (record b { bytes = b.bytes ++ p }, some (length p))

unfoldable pub close : GrowBuf → GrowBuf
close b = if b.closed then b else record b { closed = true }

pub data ReadResult : Type 0 where
  -- the bytes copied into p
  copied : List ℕ → ReadResult
  eof cancelled blocks : ReadResult

-- `Read` of at most `size` bytes; `done` says that the context is cancelled.
unfoldable pub read : GrowBuf → Bool → ℕ → ℕ → ReadResult
read b done offset size =
    if leb (length b.bytes) offset
    then (if b.closed then eof else if done then cancelled else blocks)
    else copied (take size (drop offset b.bytes))
