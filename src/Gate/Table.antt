-- ===== src/Gate/Table.antt =====
-- skynet-1.2.0/service-src/service_gate.c: the connections of the gate and its map from ids of sockets
-- to them, when connections come and go.
use native.Mathlib.Decide.{ℕ_discrete}
use skynet_sy.Common.{
  ℕ, zero, suc, ◌+◌, ◌<◌, ◌≤◌, ◌≡◌, ◌≢◌, refl, sym, ◌∙◌, ap, subst, arith, false, Option, none,
  some, List, [], ◌∷◌, ◌++◌, ==_refl, length, length-append, lt→leb_false, ◌-◌, ◌^◌, get_elem?,
  get_elem?-set_self, get_elem?-set_ne, get_elem?-lt, set,
}
use skynet_sy.Common.Bytes.{take, drop, le_bytes, from_le, from_le-le_bytes}
use skynet_sy.DataBuffer.Chunks.{DataBuffer, MessagePool, databuffer_clear}
use skynet_sy.DataBuffer.Package.{clear_loop_lem}
use skynet_sy.HashId.Table.{HashId, hashid_lookup, hashid_full}
use skynet_sy.HashId.Map.{IsMap, Free}
use skynet_sy.HashId.Insert.{hashid_new_lem, hashid_present_lem, missing_run}
use skynet_sy.Gate.Service.{
  Connection, Gate, log, socket_send, client_message, report, no_connection, drop_connection,
  accept_connection,
}

abbrev pub ids_of : List Connection → List (Option ℕ)
ids_of [] = []
ids_of (c ∷ cs) = c.id ∷ ids_of cs

-- The map is in order, and each connection stands at the index of its id.
pub record IsGate (g : Gate) : Type 0 where
  pub is_map : IsMap g.hash
  pub ids : ids_of g.conn ≡ g.hash.id

ids_of-set :
    (cs : List Connection) (i : ℕ) (c : Connection) → ids_of (set cs i c) ≡ set (ids_of cs) i c.id
ids_of-set [] i c = refl
ids_of-set (d ∷ cs) zero c = refl
ids_of-set (d ∷ cs) (suc i) c = ap (λ l. d.id ∷ l) (ids_of-set cs i c)

ids_of-get_elem? :
    (cs : List Connection) (i : ℕ) (o : Option ℕ)
    → get_elem? (ids_of cs) i ≡ some o
    → (c : Connection) × (get_elem? cs i ≡ some c) × (c.id ≡ o)
ids_of-get_elem? [] i o e = cc
ids_of-get_elem? (c ∷ cs) zero o e = (c, refl, cc)
ids_of-get_elem? (c ∷ cs) (suc i) o e = ids_of-get_elem? cs i o e

get_elem?-ids_of :
    (cs : List Connection) (i : ℕ) (c : Connection)
    → get_elem? cs i ≡ some c
    → get_elem? (ids_of cs) i ≡ some c.id
get_elem?-ids_of [] i c e = cc
get_elem?-ids_of (d ∷ cs) zero c e = cc
get_elem?-ids_of (d ∷ cs) (suc i) c e = get_elem?-ids_of cs i c e

clear_empty :
    (db : DataBuffer) (mp : MessagePool)
    → (mp' : MessagePool) × (databuffer_clear db mp ≡ some (no_connection.buffer, mp'))
unfolding databuffer_clear
clear_empty db mp = (_, clear_loop_lem db.chain db mp refl)

module _ (g : Gate) (v : IsGate g) where
  -- In a gate whose map of ids is in order and has the id of each connection at its index, an id
  -- of a socket that is new, and with the capacity of the map at most 2^31, is accepted where the
  -- map is not full: a connection that was free gets the id and the first 31 bytes of the name,
  -- the others stay, the watchdog, if there is one, and the log are told, the id is found at the
  -- index of that connection, and the gate keeps that order.
  pub accept_connection_lem :
      (open_text : ℕ → List ℕ → List ℕ) (id ud : ℕ) (name : List ℕ)
      → g.listen_id ≡ some id
      → Free g.hash v.is_map ud
      → hashid_full g.hash ≡ false
      → ud + g.hash.cap ≤ 2 ^ 31
      → (i : ℕ) × (c : Connection) × (g' : Gate) × (get_elem? g.conn i ≡ some c)
        × (c.id ≡ none)
        × (accept_connection open_text g id ud name
            ≡ some (report g (open_text ud (take 31 name)) ++ log ∷ [], g'))
        × (g'.conn ≡ set g.conn i (record c { id = some ud; remote_name = take 31 name }))
        × (hashid_lookup g'.hash ud ≡ some (some i))
        × IsGate g'
  unfolding accept_connection
  accept_connection_lem open_text id ud name at new room small =
      let (lost, removed, (n, h, run, free, ids, ok)) =
        hashid_new_lem g.hash v.is_map ud new room small in
      let (c, e, has) =
        ids_of-get_elem? g.conn n none (subst (λ l. get_elem? l n ≡ some none) (sym v.ids) free) in
      let here : get_elem? h.id n ≡ some (some ud) =
        subst (λ l. get_elem? l n ≡ some (some ud)) (sym ids)
          (get_elem?-set_self g.hash.id n (some ud) (get_elem?-lt g.hash.id n none free)) in
      let c' : Connection = record c { id = some ud; remote_name = take 31 name } in
      (
        n,
        c,
        record g { hash = h; conn = set g.conn n c' },
        e,
        has,
        rw (at, ==_refl id, room, run, e) refl,
        refl,
        (hashid_present_lem h ok ud n here).0,
        record {
          is_map = ok;
          ids = ids_of-set g.conn n c' ∙ ap (λ l. set l n (some ud)) v.ids ∙ sym ids;
        },
      )

  gone :
      (id i : ℕ)
      → get_elem? g.hash.id i ≡ some (some id)
      → (h : HashId) → h.id ≡ set g.hash.id i none
      → (n : ℕ) → get_elem? h.id n ≢ some (some id)
  gone id i at h ids n f = elim (ℕ_discrete i n) [
    | yes e ↦
        let z : some none ≡ some (some id) =
          sym (get_elem?-set_self g.hash.id i none (get_elem?-lt g.hash.id i (some id) at))
          ∙ subst (λ l. get_elem? l i ≡ some (some id)) ids
              (subst (λ m. get_elem? h.id m ≡ some (some id)) (sym e) f) in
        cc
    | no ne ↦ ne (
        v.is_map.unique i n id at (
          sym (get_elem?-set_ne g.hash.id i n none ne)
          ∙ subst (λ l. get_elem? l n ≡ some (some id)) ids f))
  ]

  pub drop_connection_lem :
      (close_text : ℕ → List ℕ) (id i : ℕ) (c : Connection)
      → get_elem? g.conn i ≡ some c
      → c.id ≡ some id
      → (g' : Gate) × (drop_connection close_text g id ≡ some (report g (close_text id), g'))
        × (g'.conn ≡ set g.conn i no_connection)
        × (hashid_lookup g'.hash id ≡ some none)
        × IsGate g'
  unfolding drop_connection
  drop_connection_lem close_text id i c e has =
      let at : get_elem? g.hash.id i ≡ some (some id) =
        subst (λ l. get_elem? l i ≡ some (some id)) v.ids
          (get_elem?-ids_of g.conn i c e ∙ ap some has) in
      let (found, (h, run, ids, ok)) = hashid_present_lem g.hash v.is_map id i at in
      let (mp, clear) = clear_empty c.buffer g.mp in
      (
        record g { hash = h; conn = set g.conn i no_connection; mp = mp },
        rw (run, e, clear) refl,
        refl,
        (missing_run h ok id (gone id i at h ids)).0,
        record {
          is_map = ok;
          ids = ids_of-set g.conn i no_connection ∙ ap (λ l. set l i none) v.ids ∙ sym ids;
        },
      )

drop_front : (xs ys : List ℕ) → drop (length xs) (xs ++ ys) ≡ ys
drop_front [] ys = refl
drop_front (x ∷ xs) ys = drop_front xs ys

take_front : (xs ys : List ℕ) → take (length xs) (xs ++ ys) ≡ xs
take_front [] ys = refl
take_front (x ∷ xs) ys = ap (λ l. x ∷ l) (take_front xs ys)

pub client_message_lem :
    (g : Gate) (bytes : List ℕ) (uid i : ℕ)
    → 0 < length bytes
    → uid < 256 ^ 4
    → hashid_lookup g.hash uid ≡ some (some i)
    → client_message g (bytes ++ le_bytes 4 uid) ≡ some (socket_send uid bytes ∷ [])
unfolding client_message
client_message_lem g bytes uid i pos small known =
    let long : length (bytes ++ le_bytes 4 uid) ≡ length bytes + 4 =
      length-append bytes (le_bytes 4 uid) in
    let less : length (bytes ++ le_bytes 4 uid) - 4 ≡ length bytes = omega (arith, long) in
    let uid_of : from_le (drop (length (bytes ++ le_bytes 4 uid) - 4) (bytes ++ le_bytes 4 uid))
        ≡ uid =
      rw (less, drop_front bytes (le_bytes 4 uid)) (from_le-le_bytes 4 uid small) in
    rw (lt→leb_false (length (bytes ++ le_bytes 4 uid)) 4 (omega (arith, long, pos)), uid_of, known)
      (rw (uid_of, less, take_front bytes (le_bytes 4 uid)) refl)
