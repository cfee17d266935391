-- ===== src/DataBuffer/Rounds.antt =====
-- What a chain of chunks holds, and the rounds of the loop of `databuffer_read`.
use skynet_sy.Common.{
  ℕ, ◌+◌, ◌-◌, ◌≡◌, ◌≤◌, ◌<◌, refl, arith, some, List, [], ◌∷◌, ◌++◌, length, le→leb, lt→ltb,
  le→ltb_false, ==_refl, ==_ne,
}
use skynet_sy.Common.Bytes.{slice}
use skynet_sy.DataBuffer.Chunks.{Chunk, DataBuffer, MessagePool, return_message, read_loop}

abbrev pub all_bytes : List Chunk → List ℕ
all_bytes [] = []
all_bytes (c ∷ cs) = c.buffer ++ all_bytes cs

abbrev pub Sized : List Chunk → Type 0
Sized [] = Unit
Sized (c ∷ cs) = (c.size ≡ length c.buffer) × Sized cs

-- The offset lies in the first chunk.
abbrev pub Inside : List Chunk → ℕ → Type 0
Inside [] offset = offset ≡ 0
Inside (c ∷ cs) offset = offset ≤ c.size

-- The chain holds `bytes` from the offset on; the bytes before were read.
pub record Chained (chain : List Chunk) (offset : ℕ) (bytes : List ℕ) : Type 0 where
  pub seen : List ℕ
  pub seen_length : length seen ≡ offset
  pub content : all_bytes chain ≡ seen ++ bytes
  pub sized : Sized chain
  pub inside : Inside chain offset

-- What a read leaves: the header, and every node of the pool.
pub record After (db db' : DataBuffer) (mp mp' : MessagePool) (bytes : List ℕ) : Type 0 where
  pub chained : Chained db'.chain db'.offset bytes
  pub header : db'.header ≡ db.header
  pub size : db'.size ≡ db.size
  pub blocks : mp'.blocks ≡ mp.blocks
  pub nodes : mp'.freelist + length db'.chain ≡ mp.freelist + length db.chain

abbrev pub one_more : MessagePool → MessagePool
one_more mp = record mp { freelist = mp.freelist + 1 }

pub return_lem :
    (db : DataBuffer) (mp : MessagePool) (c : Chunk) (cs : List Chunk)
    → db.chain ≡ c ∷ cs
    → return_message db mp ≡ some (record db { chain = cs }, one_more mp)
unfolding return_message
return_lem db mp c cs e = rw (return_message, e) refl

module _ (c : Chunk) (cs : List Chunk) (db : DataBuffer) (mp : MessagePool) (sz : ℕ)
    (inside : db.offset ≤ c.size) where
  pub read_part :
      (xs : List ℕ)
      → sz < c.size - db.offset
      → slice c.buffer db.offset sz ≡ some xs
      → read_loop (c ∷ cs) db mp sz ≡ some (xs, record db { offset = db.offset + sz }, mp)
  unfolding read_loop
  read_part xs l e = simp (le→leb db.offset c.size inside, lt→ltb sz (c.size - db.offset) l, e)

  pub read_all :
      (xs : List ℕ)
      → c.size - db.offset ≡ sz
      → slice c.buffer db.offset sz ≡ some xs
      → db.chain ≡ c ∷ cs
      → read_loop (c ∷ cs) db mp sz ≡ some (xs, record db { offset = 0; chain = cs }, one_more mp)
  unfolding read_loop
  read_all xs l e at = simp (
    le→leb db.offset c.size inside,
    l,
    le→ltb_false sz sz (omega arith),
    ==_refl sz,
    e,
    return_lem (record db { offset = 0 }) mp c cs at,
  )

  pub read_on :
      (xs ys : List ℕ) (db' : DataBuffer) (mp' : MessagePool)
      → c.size - db.offset < sz
      → slice c.buffer db.offset (c.size - db.offset) ≡ some xs
      → db.chain ≡ c ∷ cs
      → read_loop cs
          (record db { offset = 0; chain = cs })
          (one_more mp)
          (sz - (c.size - db.offset))
        ≡ some (ys, db', mp')
      → read_loop (c ∷ cs) db mp sz ≡ some (xs ++ ys, db', mp')
  unfolding read_loop
  read_on xs ys db' mp' l e at run = simp (
    le→leb db.offset c.size inside,
    le→ltb_false sz (c.size - db.offset) (omega (arith, l)),
    ==_ne (c.size - db.offset) sz (omega (arith, l)),
    e,
    return_lem db mp c cs at,
    run,
  )
