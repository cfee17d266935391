-- ===== src/DataBuffer/Examples.antt =====
-- Runs of the data buffer on concrete inputs, and the theorems at such inputs.
use skynet_sy.Common.{◌≡◌, refl, arith, some, [], ◌∷◌}
use skynet_sy.DataBuffer.Chunks.{
  DataBuffer, MessagePool, databuffer_read, databuffer_readheader, databuffer_reset, read_loop,
  return_message,
}
use skynet_sy.DataBuffer.Read.{Received, SameNodes, databuffer_read_lem}
use skynet_sy.DataBuffer.Package.{package_lem}

-- The package 7, 8 with its header, and a byte of the next, in three chunks.
abbrev three_chunks : DataBuffer
three_chunks = record {
  header = 0;
  offset = 1;
  size = 5;
  chain =
      record { buffer = 9 ∷ 0 ∷ []; size = 2 }
      ∷ record { buffer = 2 ∷ 7 ∷ []; size = 2 }
      ∷ record { buffer = 8 ∷ 0 ∷ []; size = 2 }
      ∷ [];
}

abbrev one_block : MessagePool
one_block = record { blocks = 1; freelist = 1020 }

three_chunks-Received : Received three_chunks (0 ∷ 2 ∷ 7 ∷ 8 ∷ 0 ∷ [])
three_chunks-Received = (
  record {
    seen = 9 ∷ [];
    seen_length = refl;
    content = refl;
    sized = (refl, (refl, (refl, tt)));
    inside = omega arith;
  },
  refl,
)

read_run :
    databuffer_read three_chunks one_block 3
    ≡ some (
      0 ∷ 2 ∷ 7 ∷ [],
      record {
        header = 0;
        offset = 0;
        size = 2;
        chain = record { buffer = 8 ∷ 0 ∷ []; size = 2 } ∷ [];
      },
      record { blocks = 1; freelist = 1022 },
    )
unfolding databuffer_read read_loop return_message
read_run = refl

databuffer_read_lem_example :
    (db' : DataBuffer) × (mp' : MessagePool) × (databuffer_read three_chunks one_block 3
      ≡ some (0 ∷ 2 ∷ 7 ∷ [], db', mp'))
    × Received db' (8 ∷ 0 ∷ [])
    × (db'.header ≡ 0)
    × SameNodes three_chunks one_block db' mp'
databuffer_read_lem_example =
    databuffer_read_lem three_chunks one_block (0 ∷ 2 ∷ 7 ∷ []) (8 ∷ 0 ∷ []) (omega arith)
      three_chunks-Received

package_lem_example :
    (db1 : DataBuffer) × (mp1 : MessagePool) × (db2 : DataBuffer) × (mp2 : MessagePool)
    × (databuffer_readheader three_chunks one_block 2 ≡ some (some 2, db1, mp1))
    × (databuffer_read db1 mp1 2 ≡ some (7 ∷ 8 ∷ [], db2, mp2))
    × Received (databuffer_reset db2) (0 ∷ [])
    × ((databuffer_reset db2).header ≡ 0)
    × SameNodes three_chunks one_block db2 mp2
package_lem_example =
    package_lem three_chunks one_block 0 2 (7 ∷ 8 ∷ []) (0 ∷ []) refl (omega arith) refl
      (omega arith) three_chunks-Received
