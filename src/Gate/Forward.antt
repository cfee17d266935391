-- ===== src/Gate/Forward.antt =====
-- skynet-1.2.0/service-src/service_gate.c: `_forward`, and what waits of a connection.
use Prim.Native.Nat.{bit_or}
use skynet_sy.Common.{
  ℕ, ◌+◌, ◌*◌, ◌<◌, ◌≡◌, ◌≢◌, refl, sym, ◌∙◌, ap, subst, true, not, ◌||◌, Option, none, some, List,
  [], ◌∷◌, ◌++◌, ◌==◌, ==_ne, ==_iff, lt→ltb, if◌then◌else◌, length, Bool-cases, inl, inr,
}
use skynet_sy.Common.Bytes.{append_assoc}
use skynet_sy.DataBuffer.Chunks.{DataBuffer, MessagePool, databuffer_read, databuffer_readheader}
use skynet_sy.DataBuffer.Read.{Received, SameNodes, databuffer_read_lem}
use skynet_sy.Netpack.Queue.{write_size}
use skynet_sy.Netpack.Stream.{IsBytes, framed, write_size_lem}
use skynet_sy.Gate.Service.{
  Connection, Gate, Action, send, ptype_text, dontcopy, Served, forward_to, forward,
}

abbrev pub no_header : ℕ
no_header = 0

-- What the gate has of a connection that is not yet passed on
pub data Waits (db : DataBuffer) : List ℕ → Type 0 where
  header_waits :
      (bytes : List ℕ)
      → db.header ≡ 0
      → Received db bytes
      → IsBytes bytes
      → length bytes < 2
      → Waits db bytes
  payload_waits :
      (a b : ℕ) (bytes : List ℕ)
      → a < 256
      → b < 256
      → db.header ≡ a * 256 + b
      → Received db bytes
      → IsBytes bytes
      → length bytes < a * 256 + b
      → Waits db (a ∷ b ∷ bytes)

-- A package in front
pub frame :
    (a b : ℕ) (payload more rest left : List ℕ)
    → a < 256
    → b < 256
    → a * 256 + b ≡ length payload
    → rest ≡ more ++ left
    → a ∷ b ∷ (payload ++ rest) ≡ ((write_size (length payload) ++ payload) ++ more) ++ left
frame a b payload more rest left ha hb e split =
    ap (λ z. a ∷ b ∷ (payload ++ z)) split
    ∙ sym (
        ap (λ w. ((w ++ payload) ++ more) ++ left)
          (ap write_size (sym e) ∙ write_size_lem a b ha hb)
        ∙ ap (λ z. a ∷ b ∷ z) (append_assoc payload more left))

module _ (title : ℕ → List ℕ) (g : Gate) where
  -- The broker gets a package, or else the agent of the connection, or else the watchdog.
  abbrev pub passed : Connection → ℕ → List ℕ → Action
  passed c fd bytes =
      if not (g.broker == 0)
      then send 0 g.broker (bit_or g.client_tag dontcopy) fd bytes
      else if not (c.agent == 0)
      then send c.client c.agent (bit_or g.client_tag dontcopy) fd bytes
      else send 0 g.watchdog (bit_or ptype_text dontcopy) fd (title fd ++ bytes)

  -- Empty packages are left out.
  abbrev pub all_passed : Connection → ℕ → List (List ℕ) → List Action
  all_passed c fd [] = []
  all_passed c fd (p ∷ ps) =
      if length p == 0 then all_passed c fd ps else passed c fd p ∷ all_passed c fd ps

  abbrev pub Listens : Connection → Type 0
  Listens c = (not (g.broker == 0) || not (c.agent == 0) || not (g.watchdog == 0)) ≡ true

  pub data Cuts (run : Option Served) (c : Connection) (fd : ℕ) (db : DataBuffer) (mp : MessagePool)
      (bytes : List ℕ) : Type 0 where
    cuts :
        (ps : List (List ℕ)) (rest : List ℕ) (db' : DataBuffer) (mp' : MessagePool)
        → run ≡ some (all_passed c fd ps, (record c { buffer = db' }, mp'))
        → bytes ≡ framed ps ++ rest
        → Waits db' rest
        → SameNodes db mp db' mp'
        → Cuts run c fd db mp bytes

  pub forward_lem :
      (mp : MessagePool) (c : Connection) (fd : ℕ) (db : DataBuffer) (payload rest : List ℕ)
      → c.id ≡ some fd
      → fd ≢ 0
      → Listens c
      → 0 < length payload
      → Received db (payload ++ rest)
      → (db' : DataBuffer) × (mp' : MessagePool) × (forward title g mp
            (record c { buffer = db })
            (length payload)
          ≡ some (passed c fd payload ∷ [], (record c { buffer = db' }, mp')))
        × Received db' rest
        × (db'.header ≡ db.header)
        × SameNodes db mp db' mp'
  unfolding forward_to
  forward_lem mp c fd db payload rest has ne heard pos got =
      let r = databuffer_read_lem db mp payload rest pos got in
      let c1 : Connection = record c { buffer = db } in
      (
        r.0,
        r.1,
        ap (λ o. forward_to title g mp c1 (length payload) o) has ∙ on r.0 r.1 r.2,
        r.3,
        r.4,
        r.5,
      )
    where
      on :
          (db' : DataBuffer) (mp' : MessagePool)
          → databuffer_read db mp (length payload) ≡ some (payload, db', mp')
          → forward_to title g mp (record c { buffer = db }) (length payload) (some fd)
            ≡ some (passed c fd payload ∷ [], (record c { buffer = db' }, mp'))
      on db' mp' e = elim (Bool-cases (not (g.broker == 0))) [
        | inl b ↦ rw (==_ne fd 0 ne, b, e) refl
        | inr b ↦ elim (Bool-cases (not (c.agent == 0))) [
          | inl a ↦ rw (==_ne fd 0 ne, b, a, e) refl
          | inr a ↦
              let w : not (g.watchdog == 0) ≡ true = rw (b, a) at heard in
              rw (==_ne fd 0 ne, b, a, w, e) refl
        ]
      ]

  pub SameNodes-trans :
      (db1 db2 db3 : DataBuffer) (mp1 mp2 mp3 : MessagePool)
      → SameNodes db1 mp1 db2 mp2
      → SameNodes db2 mp2 db3 mp3
      → SameNodes db1 mp1 db3 mp3
  SameNodes-trans db1 db2 db3 mp1 mp2 mp3 h k = (k.0 ∙ h.0, k.1 ∙ h.1)

  pub short :
      (db : DataBuffer) (mp : MessagePool)
      → g.header_size ≡ 2
      → db.header ≡ 0
      → db.size < 2
      → databuffer_readheader db mp g.header_size ≡ some (none, db, mp)
  unfolding databuffer_readheader
  short db mp two idle small =
      subst (λ n. databuffer_readheader db mp n ≡ some (none, db, mp)) (sym two)
        (simp ((==_iff db.header 0).1 idle, lt→ltb db.size 2 small))
