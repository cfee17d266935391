-- ===== src/Gate/Examples.antt =====
-- The theorems about the gate at concrete inputs.
use skynet_sy.Common.{
  ℕ, ◌≡◌, refl, arith, false, none, some, [], ◌∷◌, ◌++◌, get_elem?, set, replicate,
}
use skynet_sy.HashId.Table.{HashId, hashid_lookup, hashid_full}
use skynet_sy.HashId.Fresh.{fresh-IsMap, fresh_free}
use skynet_sy.Gate.Service.{Connection, Gate, log, report, no_connection, accept_connection}
use skynet_sy.Gate.Forward.{payload_waits}
use skynet_sy.Gate.Message.{Dispatched, dispatch_message_lem}
use skynet_sy.Gate.Table.{IsGate, accept_connection_lem}

-- The payload of two bytes waits for its second byte.
abbrev half : Connection
half = record {
  id = some 20;
  agent = 0;
  client = 0;
  remote_name = [];
  buffer = record {
    header = 2;
    offset = 0;
    size = 1;
    chain = record { buffer = 7 ∷ []; size = 1 } ∷ [];
  };
}

abbrev empty_hash : HashId
empty_hash = record { hashmod = 15; cap = 3; count = 0; id = replicate 3 none; hash = λ h. [] }

abbrev with_broker : Gate
with_broker = record {
  listen_id = some 4;
  watchdog = 0;
  broker = 5;
  client_tag = 3;
  header_size = 2;
  hash = empty_hash;
  conn = replicate 3 no_connection;
  mp = record { blocks = 1; freelist = 1022 };
}

dispatch_message_lem_example :
    Dispatched (λ fd. []) with_broker half 20 20 (0 ∷ 2 ∷ 7 ∷ []) (8 ∷ 0 ∷ [])
dispatch_message_lem_example =
    dispatch_message_lem (λ fd. []) with_broker half 20 20 refl refl (λ e. omega (arith, e)) refl
      refl (0 ∷ 2 ∷ 7 ∷ []) (8 ∷ 0 ∷ [])
      (payload_waits 0 2 (7 ∷ []) (omega arith) (omega arith) refl
        (
          record {
            seen = [];
            seen_length = refl;
            content = refl;
            sized = (refl, tt);
            inside = omega arith;
          },
          refl,
        )
        (omega arith, tt) (omega arith))
      (omega arith, (omega arith, tt))

with_broker-IsGate : IsGate with_broker
with_broker-IsGate = record { is_map = fresh-IsMap 15 3; ids = refl }

not_full : hashid_full empty_hash ≡ false
unfolding hashid_full
not_full = refl

accept_connection_lem_example :
    (i : ℕ) × (c : Connection) × (g' : Gate) × (get_elem? with_broker.conn i ≡ some c)
    × (c.id ≡ none)
    × (accept_connection (λ fd name. name) with_broker 4 20 (1 ∷ 2 ∷ [])
        ≡ some (report with_broker (1 ∷ 2 ∷ []) ++ log ∷ [], g'))
    × (g'.conn ≡ set with_broker.conn i (record c { id = some 20; remote_name = 1 ∷ 2 ∷ [] }))
    × (hashid_lookup g'.hash 20 ≡ some (some i))
    × IsGate g'
accept_connection_lem_example =
    accept_connection_lem with_broker with_broker-IsGate (λ fd name. name) 4 20 (1 ∷ 2 ∷ []) refl
      (λ n. fresh_free 3 n 20) not_full (omega arith)
