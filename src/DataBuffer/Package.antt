-- ===== src/DataBuffer/Package.antt =====
-- Packages: what arrives is appended, and a package with its header comes out whole.
use native.Mathlib.Decide.{ℕ_discrete}
use skynet_sy.Common.{
  ℕ, ◌+◌, ◌*◌, ◌^◌, ◌≡◌, ◌≤◌, ◌<◌, refl, sym, ◌∙◌, ap, arith, Option, none, some, List, [], ◌∷◌,
  ◌++◌, length, length-append, ltb, le→ltb_false, ==_iff, if◌then◌else◌,
}
use skynet_sy.Common.Bits.{bit_or_shifted, bit_or_comm}
use skynet_sy.DataBuffer.Chunks.{
  Chunk, DataBuffer, MessagePool, message_pool, take_node, clear_loop, databuffer_clear,
  databuffer_push, databuffer_read, databuffer_readheader, databuffer_reset, parse_header,
}
use skynet_sy.Common.Bytes.{append_assoc, append_nil}
use skynet_sy.DataBuffer.Rounds.{all_bytes, Sized, Inside, return_lem}
use skynet_sy.DataBuffer.Read.{Received, SameNodes, databuffer_read_lem}

all_bytes-append :
    (cs : List Chunk) (c : Chunk) → all_bytes (cs ++ c ∷ []) ≡ all_bytes cs ++ c.buffer
all_bytes-append [] c = append_nil c.buffer
all_bytes-append (d ∷ cs) c =
    ap (λ z. d.buffer ++ z) (all_bytes-append cs c)
    ∙ sym (append_assoc d.buffer (all_bytes cs) c.buffer)

Sized-append :
    (cs : List Chunk) (c : Chunk) → Sized cs → c.size ≡ length c.buffer → Sized (cs ++ c ∷ [])
Sized-append [] c s e = (e, tt)
Sized-append (d ∷ cs) c s e = (s.0, Sized-append cs c s.1 e)

Inside-append :
    (cs : List Chunk) (c : Chunk) (offset : ℕ) → Inside cs offset → Inside (cs ++ c ∷ []) offset
Inside-append [] c offset h = omega (arith, h)
Inside-append (d ∷ cs) c offset h = h

length_snoc : (cs : List Chunk) (c : Chunk) → length (cs ++ c ∷ []) ≡ length cs + 1
length_snoc cs c = length-append cs (c ∷ [])

-- Every node of the blocks is free or in the chain.
abbrev pub IsPool : DataBuffer → MessagePool → Type 0
IsPool db mp = mp.freelist + length db.chain ≡ message_pool * mp.blocks

take_node_lem :
    (mp : MessagePool)
    → (take_node mp).freelist + 1 + message_pool * mp.blocks
      ≡ mp.freelist + message_pool * (take_node mp).blocks
unfolding take_node
take_node_lem mp = elim (ℕ_discrete mp.freelist 0) [
  | yes e ↦ ground (arith, e)
  | no ne ↦ ground (arith, ne)
]

-- Where every node of the blocks is free or in the chain, a push appends its bytes to those
-- received, and every node is free or in the chain afterwards.
pub databuffer_push_lem :
    (db : DataBuffer) (mp : MessagePool) (bytes more : List ℕ)
    → Received db bytes
    → IsPool db mp
    → Received (databuffer_push db mp more).0 (bytes ++ more)
      × IsPool (databuffer_push db mp more).0 (databuffer_push db mp more).1
unfolding databuffer_push
databuffer_push_lem db mp bytes more (h, size) pool =
    let c : Chunk = record { buffer = more; size = length more } in
    let nodes = take_node_lem mp in
    (
      (
        record {
          seen = h.seen;
          seen_length = h.seen_length;
          content =
              all_bytes-append db.chain c
              ∙ ap (λ z. z ++ more) h.content
              ∙ append_assoc h.seen bytes more;
          sized = Sized-append db.chain c h.sized refl;
          inside = Inside-append db.chain c db.offset h.inside;
        },
        omega (arith, size, length-append bytes more),
      ),
      omega (arith, nodes, pool, length_snoc db.chain c),
    )

readheader_run :
    (db db' : DataBuffer) (mp mp' : MessagePool) (n h : ℕ) (bytes : List ℕ)
    → db.header ≡ 0
    → n ≤ db.size
    → databuffer_read db mp n ≡ some (bytes, db', mp')
    → parse_header bytes ≡ some h
    → databuffer_readheader db mp n
      ≡ some (if ltb db'.size h then none else some h, record db' { header = h }, mp')
unfolding databuffer_readheader
readheader_run db db' mp mp' n h bytes idle l run parse =
    simp ((==_iff db.header 0).1 idle, le→ltb_false db.size n l, run, parse)

two : (a b : ℕ) → b < 256 → parse_header (a ∷ b ∷ []) ≡ some (a * 256 + b)
unfolding parse_header
two a b low = ap some (bit_or_comm (a * 2 ^ 8) b ∙ bit_or_shifted 8 a b (omega (arith, low)))

-- In a buffer with no pending header that has received two bytes, the second below 256, and more,
-- the header is read in big-endian order and kept, the bytes that follow stay, and the header is
-- given if that many bytes follow, and otherwise -1; no node of the pool is lost.
pub readheader_lem :
    (db : DataBuffer) (mp : MessagePool) (a b : ℕ) (rest : List ℕ)
    → db.header ≡ 0
    → b < 256
    → Received db (a ∷ b ∷ rest)
    → (db' : DataBuffer) × (mp' : MessagePool) × (databuffer_readheader db mp 2
        ≡ some (if ltb (length rest) (a * 256 + b) then none else some (a * 256 + b), db', mp'))
      × Received db' rest
      × (db'.header ≡ a * 256 + b)
      × SameNodes db mp db' mp'
readheader_lem db mp a b rest idle low got =
    let (db', mp', run, left, _, nodes) =
      databuffer_read_lem db mp (a ∷ b ∷ []) rest (omega arith) got in
    (
      record db' { header = a * 256 + b },
      mp',
      readheader_run db db' mp mp' 2 (a * 256 + b) (a ∷ b ∷ []) idle (omega (arith, got.1)) run
            (two a b low)
          ∙ ap
              (λ z. some (
                if ltb z (a * 256 + b) then none else some (a * 256 + b),
                record db' { header = a * 256 + b },
                mp',
              ))
              left.1,
      left,
      refl,
      nodes,
    )

-- In a buffer with no pending header that has received a header of two bytes, the second below
-- 256, a payload of the length it tells, not empty, and more bytes, in chunks of any sizes, the
-- header is read as the length of the payload, the read of that length gives the payload, and
-- after the reset the buffer holds the bytes that follow; no node of the pool is lost.
pub package_lem :
    (db : DataBuffer) (mp : MessagePool) (a b : ℕ) (payload rest : List ℕ)
    → db.header ≡ 0
    → b < 256
    → a * 256 + b ≡ length payload
    → 0 < length payload
    → Received db (a ∷ b ∷ (payload ++ rest))
    → (db1 : DataBuffer) × (mp1 : MessagePool) × (db2 : DataBuffer) × (mp2 : MessagePool)
      × (databuffer_readheader db mp 2 ≡ some (some (length payload), db1, mp1))
      × (databuffer_read db1 mp1 (length payload) ≡ some (payload, db2, mp2))
      × Received (databuffer_reset db2) rest
      × ((databuffer_reset db2).header ≡ 0)
      × SameNodes db mp db2 mp2
unfolding databuffer_reset
package_lem db mp a b payload rest idle low size pos got =
    let (db1, mp1, run1, got1, _, nodes1) =
      readheader_lem db mp a b (payload ++ rest) idle low got in
    let (db2, mp2, run2, got2, _, nodes2) = databuffer_read_lem db1 mp1 payload rest pos got1 in
    (
      db1,
      mp1,
      db2,
      mp2,
      run1 ∙ arrived db1 mp1,
      run2,
      (
        record {
          seen = got2.0.seen;
          seen_length = got2.0.seen_length;
          content = got2.0.content;
          sized = got2.0.sized;
          inside = got2.0.inside;
        },
        got2.1,
      ),
      refl,
      (nodes2.0 ∙ nodes1.0, nodes2.1 ∙ nodes1.1),
    )
  where
    arrived :
        (db1 : DataBuffer) (mp1 : MessagePool)
        → ◌≡◌ {A = Option (Option ℕ × DataBuffer × MessagePool)}
            (some (
              if ltb (length (payload ++ rest)) (a * 256 + b) then none else some (a * 256 + b),
              db1,
              mp1,
            ))
            (some (some (length payload), db1, mp1))
    arrived db1 mp1 =
        rw
          (
            size,
            le→ltb_false (length (payload ++ rest)) (length payload)
                (omega (arith, length-append payload rest)),
          )
          refl

pub clear_loop_lem :
    (chunks : List Chunk) (db : DataBuffer) (mp : MessagePool)
    → db.chain ≡ chunks
    → clear_loop chunks db mp
      ≡ some (
        record { header = 0; offset = 0; size = 0; chain = [] },
        record mp { freelist = mp.freelist + length chunks },
      )
unfolding clear_loop
clear_loop_lem [] db mp at = ap some (
    ap (λ n. (record { header = 0; offset = 0; size = 0; chain = [] }, record mp { freelist = n }))
      (omega arith))
clear_loop_lem (c ∷ cs) db mp at = rw (return_lem db mp c cs at) (
    clear_loop_lem cs (record db { chain = cs }) (record mp { freelist = mp.freelist + 1 }) refl
    ∙ ap some (
        ap
          (λ n.
            (record { header = 0; offset = 0; size = 0; chain = [] }, record mp { freelist = n }))
          (omega arith)))

-- Where every node of the blocks is free or in the chain, the clearing of a buffer ends, empties
-- it, and leaves every node free.
pub databuffer_clear_lem :
    (db : DataBuffer) (mp : MessagePool)
    → IsPool db mp
    → databuffer_clear db mp
      ≡ some (
        record { header = 0; offset = 0; size = 0; chain = [] },
        record mp { freelist = message_pool * mp.blocks },
      )
unfolding databuffer_clear
databuffer_clear_lem db mp pool =
    clear_loop_lem db.chain db mp refl
    ∙ ap
        (λ n.
          some
            (record { header = 0; offset = 0; size = 0; chain = [] }, record mp { freelist = n }))
        pool
