-- ===== src/Gate/Cut.antt =====
-- skynet-1.2.0/service-src/service_gate.c: the loop of `dispatch_message` cuts the bytes of a
-- connection into packages, with headers of two bytes, and forwards them.
use native.Mathlib.Decide.{ℕ_discrete, dec_lt}
use skynet_sy.Common.{
  ℕ, zero, suc, ◌+◌, ◌*◌, ◌≤◌, ◌<◌, ◌≡◌, ◌≢◌, refl, sym, ◌∙◌, ap, subst, arith, Option, none, some,
  List, [], ◌∷◌, ◌++◌, ==_ne, ltb, lt→leb_false, lt→ltb, le→ltb_false, if◌then◌else◌, ◌>>=◌, length,
}
use skynet_sy.Common.Bytes.{take, drop, take-append-drop, length-take, length-drop}
use skynet_sy.DataBuffer.Chunks.{DataBuffer, MessagePool, databuffer_readheader, databuffer_reset}
use skynet_sy.DataBuffer.Read.{Received, SameNodes}
use skynet_sy.DataBuffer.Package.{readheader_lem}
use skynet_sy.Netpack.Stream.{IsBytes, drop-IsBytes, framed}
use skynet_sy.Gate.Service.{Connection, Gate, Action, Served, forward, after_actions, dispatch_loop}
use skynet_sy.Gate.Forward.{
  header_waits, payload_waits, frame, passed, Listens, Cuts, cuts, forward_lem, SameNodes-trans,
  short,
}

module _ (title : ℕ → List ℕ) (g : Gate) where
  -- A round that ends the loop, one for an empty package, and one for a package
  pub step_wait :
      (f id : ℕ) (c : Connection) (mp mp' : MessagePool) (db : DataBuffer)
      → databuffer_readheader c.buffer mp g.header_size ≡ some (none, db, mp')
      → dispatch_loop (suc f) title g mp c id ≡ some ([], (record c { buffer = db }, mp'))
  unfolding dispatch_loop
  step_wait f id c mp mp' db e = rw e refl

  step_empty :
      (f id : ℕ) (c : Connection) (mp mp' : MessagePool) (db : DataBuffer) (size : ℕ)
      → databuffer_readheader c.buffer mp g.header_size ≡ some (some size, db, mp')
      → size ≡ 0
      → dispatch_loop (suc f) title g mp c id
        ≡ dispatch_loop f title g mp' (record c { buffer = db }) id
  unfolding dispatch_loop
  step_empty f id c mp mp' db size e z = rw (e, z) refl

  step_size :
      (f id : ℕ) (c c2 : Connection) (mp mp1 mp2 : MessagePool) (db : DataBuffer) (size : ℕ)
      (done : List Action)
      → databuffer_readheader c.buffer mp g.header_size ≡ some (some size, db, mp1)
      → size ≢ 0
      → size < 0x1000000
      → forward title g mp1 (record c { buffer = db }) size ≡ some (done, (c2, mp2))
      → dispatch_loop (suc f) title g mp c id
        ≡ after_actions done
            (dispatch_loop f title g mp2 (record c2 { buffer = databuffer_reset c2.buffer }) id)
  unfolding dispatch_loop
  step_size f id c c2 mp mp1 mp2 db size done e ne small run =
      rw (e, ◌>>=◌, ==_ne size 0 ne, lt→leb_false 0x1000000 size small, run) refl

  module _ (id fd : ℕ) (ne : fd ≢ 0) where
    -- A package that has arrived is forwarded, and the loop goes on.
    pub deliver :
        (f : ℕ) (c : Connection) (mp mp1 : MessagePool) (db db1 : DataBuffer) (a b : ℕ)
        (payload rest : List ℕ)
        → c.id ≡ some fd
        → Listens title g c
        → databuffer_readheader db mp g.header_size ≡ some (some (length payload), db1, mp1)
        → a < 256
        → b < 256
        → a * 256 + b ≡ length payload
        → 0 < length payload
        → Received db1 (payload ++ rest)
        → SameNodes db mp db1 mp1
        → ((db2 : DataBuffer) (mp2 : MessagePool)
            → db2.header ≡ 0
            → Received db2 rest
            → Cuts title g
                (dispatch_loop f title g mp2 (record c { buffer = db2 }) id)
                c
                fd
                db2
                mp2
                rest)
        → Cuts title g
            (dispatch_loop (suc f) title g mp (record c { buffer = db }) id)
            c
            fd
            db
            mp
            (a ∷ b ∷ (payload ++ rest))
    unfolding databuffer_reset
    deliver f c mp mp1 db db1 a b payload rest has heard run ha hb e pos got nodes on =
        let r = forward_lem title g mp1 c fd db1 payload rest has ne heard pos got in
        add (r.0) (r.1) (r.2) (r.5) (on (databuffer_reset r.0) r.1 refl r.3)
      where
        add :
            (db2 : DataBuffer) (mp2 : MessagePool)
            → forward title g mp1 (record c { buffer = db1 }) (length payload)
              ≡ some (passed title g c fd payload ∷ [], (record c { buffer = db2 }, mp2))
            → SameNodes db1 mp1 db2 mp2
            → Cuts title g
                (dispatch_loop f title g mp2 (record c { buffer = databuffer_reset db2 }) id)
                c
                fd
                (databuffer_reset db2)
                mp2
                rest
            → Cuts title g
                (dispatch_loop (suc f) title g mp (record c { buffer = db }) id)
                c
                fd
                db
                mp
                (a ∷ b ∷ (payload ++ rest))
        add db2 mp2 sent nodes2 (cuts ps left db3 mp3 run3 split waits nodes3) =
            cuts (payload ∷ ps) left db3 mp3
              (step_size f id (record c { buffer = db }) (record c { buffer = db2 }) mp mp1 mp2 db1
                  (length payload) (passed title g c fd payload ∷ []) run
                  (λ z. omega (arith, z, pos)) (omega (arith, ha, hb, e)) sent
                ∙ rw (run3, ==_ne (length payload) 0 (λ z. omega (arith, z, pos))) refl)
              (frame a b payload (framed ps) rest left ha hb e split) waits
              (SameNodes-trans title g db db1 db3 mp mp1 mp3 nodes
                (SameNodes-trans title g db1 db2 db3 mp1 mp2 mp3 nodes2 nodes3))

    -- An empty package is left out.
    pass_over :
        (run run' : Option Served) (c : Connection) (mp mp1 : MessagePool) (db db1 : DataBuffer)
        (a b : ℕ) (bytes : List ℕ)
        → run' ≡ run
        → a < 256
        → b < 256
        → a * 256 + b ≡ 0
        → SameNodes db mp db1 mp1
        → Cuts title g run c fd db1 mp1 bytes
        → Cuts title g run' c fd db mp (a ∷ b ∷ bytes)
    pass_over run run' c mp mp1 db db1 a b bytes same ha hb z nodes
          (cuts ps left db3 mp3 run3 split waits nodes3) =
        cuts ([] ∷ ps) left db3 mp3 (same ∙ run3)
          (frame a b [] (framed ps) bytes left ha hb z split) waits
          (SameNodes-trans title g db db1 db3 mp mp1 mp3 nodes nodes3)

    -- A round where a header has arrived
    round :
        (f : ℕ) (c : Connection) (mp : MessagePool) (db : DataBuffer) (a b : ℕ) (bytes : List ℕ)
        → g.header_size ≡ 2
        → c.id ≡ some fd
        → Listens title g c
        → db.header ≡ 0
        → Received db (a ∷ b ∷ bytes)
        → IsBytes (a ∷ b ∷ bytes)
        → ((db2 : DataBuffer) (mp2 : MessagePool) (left : List ℕ)
            → db2.header ≡ 0
            → Received db2 left
            → IsBytes left
            → length left ≤ length bytes
            → Cuts title g
                (dispatch_loop f title g mp2 (record c { buffer = db2 }) id)
                c
                fd
                db2
                mp2
                left)
        → Cuts title g
            (dispatch_loop (suc f) title g mp (record c { buffer = db }) id)
            c
            fd
            db
            mp
            (a ∷ b ∷ bytes)
    round f c mp db a b bytes two has heard idle got low on =
        let (db1, mp1, run, got1, head, nodes) = readheader_lem db mp a b bytes idle low.1.0 got in
        let run1 : databuffer_readheader db mp g.header_size
            ≡ some
                (if ltb (length bytes) (a * 256 + b) then none else some (a * 256 + b), db1, mp1) =
          subst
            (λ n.
              databuffer_readheader db mp n
              ≡ some
                  (if ltb (length bytes) (a * 256 + b) then none else some (a * 256 + b), db1, mp1))
            (sym two) run in
        elim (dec_lt (length bytes) (a * 256 + b)) [
          | yes l ↦
              cuts [] (a ∷ b ∷ bytes) db1 mp1
                (step_wait f id (record c { buffer = db }) mp mp1 db1
                  (run1 ∙ rw (lt→ltb (length bytes) (a * 256 + b) l) refl))
                refl (payload_waits a b bytes low.0 low.1.0 head got1 low.1.1 l) nodes
          | no nl ↦
              let run2 : databuffer_readheader db mp g.header_size
                  ≡ some (some (a * 256 + b), db1, mp1) =
                run1 ∙ rw (le→ltb_false (length bytes) (a * 256 + b) (omega (arith, nl))) refl in
              elim (ℕ_discrete (a * 256 + b) 0) [
                | yes z ↦
                    pass_over _ _ c mp mp1 db db1 a b bytes
                      (step_empty f id (record c { buffer = db }) mp mp1 db1 (a * 256 + b) run2 z)
                      low.0 low.1.0 z nodes (on db1 mp1 bytes (head ∙ z) got1 low.1.1 (omega arith))
                | no nz ↦
                    let size : ℕ = a * 256 + b in
                    let len : length (take size bytes) ≡ size =
                      length-take size bytes (omega (arith, nl)) in
                    subst
                      (λ z.
                        Cuts title g
                          (dispatch_loop (suc f) title g mp (record c { buffer = db }) id) c fd db
                          mp (a ∷ b ∷ z))
                      (take-append-drop size bytes)
                      (deliver f c mp mp1 db db1 a b (take size bytes) (drop size bytes) has heard
                        (run2 ∙ ap (λ n. some (some n, db1, mp1)) (sym len)) low.0 low.1.0 (sym len)
                        (omega (arith, len, nz))
                        (subst (λ z. Received db1 z) (sym (take-append-drop size bytes)) got1) nodes
                        (λ db2 mp2 h got2.
                          on db2 mp2 (drop size bytes) h got2 (drop-IsBytes size bytes low.1.1)
                            (omega (arith, length-drop size bytes))))
              ]
        ]

    -- The loop from the end of a package
    pub loop_lem :
        (f : ℕ) (c : Connection) (mp : MessagePool) (db : DataBuffer) (bytes : List ℕ)
        → g.header_size ≡ 2
        → c.id ≡ some fd
        → Listens title g c
        → db.header ≡ 0
        → Received db bytes
        → IsBytes bytes
        → length bytes < f
        → Cuts title g (dispatch_loop f title g mp (record c { buffer = db }) id) c fd db mp bytes
    loop_lem zero c mp db bytes two has heard idle got low fuel = absurd (omega (arith, fuel))
    loop_lem (suc f) c mp db [] two has heard idle got low fuel =
        cuts [] [] db mp
          (step_wait f id (record c { buffer = db }) mp mp db
            (short title g db mp two idle (omega (arith, got.1))))
          refl (header_waits [] idle got low (omega arith)) (refl, refl)
    loop_lem (suc f) c mp db (x ∷ []) two has heard idle got low fuel =
        cuts [] (x ∷ []) db mp
          (step_wait f id (record c { buffer = db }) mp mp db
            (short title g db mp two idle (omega (arith, got.1))))
          refl (header_waits (x ∷ []) idle got low (omega arith)) (refl, refl)
    loop_lem (suc f) c mp db (a ∷ b ∷ bytes) two has heard idle got low fuel =
        round f c mp db a b bytes two has heard idle got low (λ db2 mp2 left h got2 low2 le.
          loop_lem f c mp2 db2 left two has heard h got2 low2 (omega (arith, le, fuel)))
