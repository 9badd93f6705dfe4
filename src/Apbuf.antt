-- ===== src/Apbuf.antt =====
-- The append buffer of darkhttpd.c: `make_apbuf` and `appendl`, on memory of a known size. A write
-- outside the memory is a fault, `none`. `fresh n` is what `n` bytes of new memory hold.
pub mod Contents
use darkhttpd.Common.{
  ℕ, zero, suc, ◌+◌, ◌-◌, Option, none, some, [], ◌++◌, ltb, leb, if◌then◌else◌, Bytes, take, drop,
  length,
}

pub record Apbuf : Type 0 where
  pub length : ℕ
  pub pool : ℕ
  pub str : Bytes

abbrev pub apbuf_init : ℕ
apbuf_init = 4096

abbrev pub apbuf_grow : ℕ
apbuf_grow = apbuf_init

unfoldable pub make_apbuf : (ℕ → Bytes) → Apbuf
make_apbuf fresh = record { length = 0; pool = apbuf_init; str = fresh apbuf_init }

-- `while (buf->pool < need) buf->pool += APBUF_GROW;`. Each round adds a byte at least, so `need` is
-- fuel enough.
unfoldable pub grow : ℕ → ℕ → ℕ → ℕ
grow zero pool need = pool
grow (suc fuel) pool need =
    let more = grow fuel (pool + apbuf_grow) need in if ltb pool need then more else pool

-- `xrealloc` keeps what is there.
unfoldable pub reserve : (ℕ → Bytes) → Apbuf → ℕ → Apbuf
unfolding grow
reserve fresh buf need =
    let pool = grow need buf.pool need in
    if ltb buf.pool need
    then record buf { pool = pool; str = buf.str ++ fresh (pool - buf.pool) }
    else buf

-- `memcpy(mem + offset, s, strlen(s))`
unfoldable pub copy_to : Bytes → ℕ → Bytes → Option Bytes
copy_to mem offset s =
    if leb (offset + length s) (length mem)
    then some (take offset mem ++ (s ++ drop (offset + length s) mem))
    else none

write_part : Apbuf → Bytes → Option Bytes → Option Apbuf
write_part buf s none = none
write_part buf s (some mem) = some (record buf { length = buf.length + length s; str = mem })

unfoldable pub appendl : (ℕ → Bytes) → Apbuf → Bytes → Option Apbuf
unfolding reserve copy_to write_part
appendl fresh buf s =
    let room = reserve fresh buf (buf.length + length s) in
    write_part room s (copy_to room.str buf.length s)
