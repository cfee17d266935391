-- ===== src/DataBuffer/Chunks.antt =====
-- skynet-1.2.0/service-src/databuffer.h: `struct databuffer`, with the list from `head` to `tail` as
-- `chain`, and `struct messagepool`, whose free nodes are interchangeable: `freelist` is their number.
-- Sizes and offsets are `int`s that are not negative; their sums stay below 2 ^ 31.
use Prim.Native.Nat.{bit_or}
use skynet_sy.Common.Bytes.{slice}
use skynet_sy.Common.{
  ℕ, ◌+◌, ◌-◌, ◌*◌, ◌^◌, not, Option, none, some, List, [], ◌∷◌, ◌++◌, ◌==◌, if◌then◌else◌, ◌>>=◌,
  ◌>>◌, assert, ltb, leb, length,
}

abbrev pub message_pool : ℕ
message_pool = 1023

-- `struct message`
pub record Chunk : Type 0 where
  pub buffer : List ℕ
  pub size : ℕ

pub record DataBuffer : Type 0 where
  pub header : ℕ
  pub offset : ℕ
  pub size : ℕ
  pub chain : List Chunk

-- `blocks` is the number of `struct messagepool_list`s.
pub record MessagePool : Type 0 where
  pub blocks : ℕ
  pub freelist : ℕ

unfoldable pub messagepool_free : MessagePool → MessagePool
messagepool_free mp = record { blocks = 0; freelist = 0 }

-- `_return_message`: the first chunk is freed, and its node goes back to the pool.
unfoldable pub return_message : DataBuffer → MessagePool → Option (DataBuffer × MessagePool)
return_message db mp = elim db.chain [
  | [] ↦ none
  | m ∷ ms ↦ some (record db { chain = ms }, record mp { freelist = mp.freelist + 1 })
]

-- for (;;), by rounds of a chunk: `chunks` is the chain from `head`.
unfoldable pub read_loop :
    List Chunk → DataBuffer → MessagePool → ℕ → Option (List ℕ × DataBuffer × MessagePool)
read_loop [] db mp sz = none
read_loop (current ∷ chunks) db mp sz =
    let bsz = current.size - db.offset in
    let on =
      return_message db mp >>= λ r. read_loop chunks (record r.0 { offset = 0 }) r.1 (sz - bsz) in
    assert (leb db.offset current.size)
    >> (if ltb sz bsz
        then (slice current.buffer db.offset sz >>= λ bytes.
            some (bytes, record db { offset = db.offset + sz }, mp))
        else if bsz == sz
        then (slice current.buffer db.offset sz >>= λ bytes.
            return_message (record db { offset = 0 }) mp >>= λ r. some (bytes, r.0, r.1))
        else (slice current.buffer db.offset bsz >>= λ bytes.
            on >>= λ s. some (bytes ++ s.0, s.1, s.2)))

-- the bytes that `buffer` gets, and the state
unfoldable pub databuffer_read :
    DataBuffer → MessagePool → ℕ → Option (List ℕ × DataBuffer × MessagePool)
unfolding read_loop
databuffer_read db mp sz = do
  assert (leb sz db.size)
  read_loop db.chain (record db { size = db.size - sz }) mp sz

-- A node of the pool; an empty pool gets a block of nodes first.
unfoldable pub take_node : MessagePool → MessagePool
take_node mp =
    if not (mp.freelist == 0)
    then record mp { freelist = mp.freelist - 1 }
    else record { blocks = mp.blocks + 1; freelist = message_pool - 1 }

-- `data` are `sz` bytes.
unfoldable pub databuffer_push : DataBuffer → MessagePool → List ℕ → DataBuffer × MessagePool
unfolding take_node
databuffer_push db mp bytes = (
  record db {
    size = db.size + length bytes;
    chain = db.chain ++ record { buffer = bytes; size = length bytes } ∷ [];
  },
  take_node mp,
)

-- The header in big-endian order, of two bytes or four; a first byte of four that reaches the sign
-- bit faults.
unfoldable pub parse_header : List ℕ → Option ℕ
parse_header (a ∷ b ∷ []) = some (bit_or (a * 2 ^ 8) b)
parse_header (a ∷ b ∷ c ∷ d ∷ []) = do
  assert (ltb a 128)
  some (bit_or (bit_or (bit_or (a * 2 ^ 24) (b * 2 ^ 16)) (c * 2 ^ 8)) d)
parse_header bytes = none

-- The header, if the whole package has arrived: `none` is the result -1.
unfoldable pub databuffer_readheader :
    DataBuffer → MessagePool → ℕ → Option (Option ℕ × DataBuffer × MessagePool)
databuffer_readheader db mp header_size =
    if db.header == 0
    then (if ltb db.size header_size
        then some (none, db, mp)
        else (databuffer_read db mp header_size >>= λ r.
            parse_header r.0 >>= λ h. whole (record r.1 { header = h }) r.2))
    else whole db mp
  where
    whole : DataBuffer → MessagePool → Option (Option ℕ × DataBuffer × MessagePool)
    whole db mp = some (if ltb db.size db.header then none else some db.header, db, mp)

unfoldable pub databuffer_reset : DataBuffer → DataBuffer
databuffer_reset db = record db { header = 0 }

-- while (db->head) { … }, and the fields are set to zero
unfoldable pub clear_loop :
    List Chunk → DataBuffer → MessagePool → Option (DataBuffer × MessagePool)
clear_loop [] db mp = some (record { header = 0; offset = 0; size = 0; chain = [] }, mp)
clear_loop (c ∷ chunks) db mp = return_message db mp >>= λ r. clear_loop chunks r.0 r.1

unfoldable pub databuffer_clear : DataBuffer → MessagePool → Option (DataBuffer × MessagePool)
unfolding clear_loop
databuffer_clear db mp = clear_loop db.chain db mp
