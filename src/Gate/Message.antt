-- ===== src/Gate/Message.antt =====
-- skynet-1.2.0/service-src/service_gate.c: `dispatch_message` on what a connection receives.
use native.Mathlib.Decide.{dec_lt}
use skynet_sy.Common.{
  ℕ, suc, ◌+◌, ◌*◌, ◌<◌, ◌≡◌, ◌≢◌, refl, sym, ◌∙◌, subst, arith, none, some, List, [], ◌∷◌, ◌++◌,
  ==_ne, ltb, lt→ltb, le→ltb_false, if◌then◌else◌, length,
}
use skynet_sy.Common.Bytes.{take, drop, take-append-drop, length-take, length-drop}
use skynet_sy.DataBuffer.Chunks.{DataBuffer, MessagePool, databuffer_readheader, databuffer_push}
use skynet_sy.DataBuffer.Read.{Received}
use skynet_sy.DataBuffer.Package.{databuffer_push_lem, IsPool}
use skynet_sy.Netpack.Stream.{IsBytes, drop-IsBytes, framed}
use skynet_sy.Gate.Service.{Connection, Gate, dispatch_loop, dispatch_message}
use skynet_sy.Gate.Forward.{Waits, header_waits, payload_waits, all_passed, Listens, Cuts, cuts}
use skynet_sy.Gate.Cut.{step_wait, deliver, loop_lem}

append-IsBytes : (xs ys : List ℕ) → IsBytes xs → IsBytes ys → IsBytes (xs ++ ys)
append-IsBytes [] ys h k = k
append-IsBytes (x ∷ xs) ys h k = (h.0, append-IsBytes xs ys h.1 k)

readheader_again :
    (db : DataBuffer) (mp : MessagePool) (n h : ℕ)
    → db.header ≡ h
    → h ≢ 0
    → databuffer_readheader db mp n ≡ some (if ltb db.size h then none else some h, db, mp)
unfolding databuffer_readheader
readheader_again db mp n h e ne = simp (e, ==_ne h 0 ne)

pub data Dispatched (title : ℕ → List ℕ) (g : Gate) (c : Connection) (id fd : ℕ)
    (before bytes : List ℕ) : Type 0 where
  dispatched :
      (ps : List (List ℕ)) (rest : List ℕ) (db : DataBuffer) (mp : MessagePool)
      → dispatch_message title g c id bytes
        ≡ some (all_passed title g c fd ps, (record c { buffer = db }, mp))
      → before ++ bytes ≡ framed ps ++ rest
      → Waits db rest
      → IsPool db mp
      → Dispatched title g c id fd before bytes

module _ (title : ℕ → List ℕ) (g : Gate) (c : Connection) (id fd : ℕ) (two : g.header_size ≡ 2)
    (has : c.id ≡ some fd) (ne : fd ≢ 0) (heard : Listens title g c)
    (pool : IsPool c.buffer g.mp) where
  settle :
      (before bytes : List ℕ) (db : DataBuffer) (mp : MessagePool)
      → IsPool db mp
      → Cuts title g (dispatch_message title g c id bytes) c fd db mp (before ++ bytes)
      → Dispatched title g c id fd before bytes
  settle before bytes db mp p (cuts ps rest db' mp' run split waits nodes) =
      dispatched ps rest db' mp' run split waits (omega (arith, p, nodes.0, nodes.1))

  -- A round where the header was read before
  resume :
      (f : ℕ) (mp : MessagePool) (db : DataBuffer) (a b : ℕ) (bytes : List ℕ)
      → a < 256
      → b < 256
      → 0 < a * 256 + b
      → db.header ≡ a * 256 + b
      → Received db bytes
      → IsBytes bytes
      → length bytes < f
      → Cuts title g
          (dispatch_loop (suc f) title g mp (record c { buffer = db }) id)
          c
          fd
          db
          mp
          (a ∷ b ∷ bytes)
  resume f mp db a b bytes ha hb pos head got low fuel =
      let size : ℕ = a * 256 + b in
      let run = readheader_again db mp g.header_size size head (λ z. omega (arith, z, pos)) in
      elim (dec_lt (length bytes) size) [
        | yes l ↦
            cuts [] (a ∷ b ∷ bytes) db mp
              (step_wait title g f id (record c { buffer = db }) mp mp db
                (run ∙ rw (got.1, lt→ltb (length bytes) size l) refl))
              refl (payload_waits a b bytes ha hb head got low l) (refl, refl)
        | no nl ↦
            let len : length (take size bytes) ≡ size =
              length-take size bytes (omega (arith, nl)) in
            let run1 : databuffer_readheader db mp g.header_size
                ≡ some (some (length (take size bytes)), db, mp) =
              run ∙ rw (got.1, le→ltb_false (length bytes) size (omega (arith, nl)), len) refl in
            subst
              (λ z.
                Cuts title g (dispatch_loop (suc f) title g mp (record c { buffer = db }) id) c fd
                  db mp (a ∷ b ∷ z))
              (take-append-drop size bytes)
              (deliver title g id fd ne f c mp mp db db a b (take size bytes) (drop size bytes) has
                heard run1 ha hb (sym len) (omega (arith, len, pos))
                (subst (λ z. Received db z) (sym (take-append-drop size bytes)) got) (refl, refl)
                (λ db2 mp2 h got2.
                  loop_lem title g id fd ne f c mp2 db2 (drop size bytes) two has heard h got2
                    (drop-IsBytes size bytes low) (omega (arith, length-drop size bytes, fuel))))
      ]

  -- In a gate with headers of two bytes and a broker, a watchdog or an agent of the connection,
  -- where nodes of the pool are free or in the buffer of the connection, whose id is not 0: data
  -- that arrives after an incomplete package or header is taken in without a fault. What waited
  -- and the data are the bytes of whole packages, with a header of two bytes each, and of what
  -- waits then; each package that is not empty goes in order and whole to the broker, or else to
  -- the agent, or else to the watchdog after a title; and no node of the pool is lost.
  pub dispatch_message_lem :
      (before bytes : List ℕ)
      → Waits c.buffer before
      → IsBytes bytes
      → Dispatched title g c id fd before bytes
  unfolding dispatch_message databuffer_push
  dispatch_message_lem before bytes (header_waits waiting idle got low few) ok =
      let pushed = databuffer_push c.buffer g.mp bytes in
      let p = databuffer_push_lem c.buffer g.mp waiting bytes got pool in
      settle waiting bytes pushed.0 pushed.1 p.1 (
        loop_lem title g id fd ne (suc (suc pushed.0.size)) c pushed.1 pushed.0 (waiting ++ bytes)
          two has heard idle p.0 (append-IsBytes waiting bytes low ok) (omega (arith, p.0.1)))
  dispatch_message_lem before bytes (payload_waits a b waiting ha hb head got low less) ok =
      let pushed = databuffer_push c.buffer g.mp bytes in
      let p = databuffer_push_lem c.buffer g.mp waiting bytes got pool in
      settle (a ∷ b ∷ waiting) bytes pushed.0 pushed.1 p.1 (
        resume (suc pushed.0.size) pushed.1 pushed.0 a b (waiting ++ bytes) ha hb
          (omega (arith, less)) head p.0 (append-IsBytes waiting bytes low ok)
          (omega (arith, p.0.1)))
