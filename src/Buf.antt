-- ===== src/Buf.antt =====
-- src/buf.c: bounded reads and writes through a cursor.
use fido2_manage.Prelude.{
  ℕ, ◌-◌, List, ◌++◌, Option, none, some, length, take, drop, ltb, if◌then◌else◌,
}

-- The cursor `*buf` over `*len` bytes is the list of those bytes. The value is what `dst` gets and
-- the cursor afterwards; `none` is the C value -1, which changes nothing.
unfoldable pub fido_buf_read : List ℕ → ℕ → Option (List ℕ × List ℕ)
fido_buf_read buf count =
    if ltb (length buf) count then none else some (take count buf, drop count buf)

-- A cursor that is written: the bytes behind it, and `*len`, the room before it.
pub record Cursor : Type 0 where
  pub written : List ℕ
  pub room : ℕ

-- `src` holds `count` bytes.
unfoldable pub fido_buf_write : Cursor → List ℕ → Option Cursor
fido_buf_write c src =
    if ltb c.room (length src)
    then none
    else some (record { written = c.written ++ src; room = c.room - length src })
