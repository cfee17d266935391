-- ===== src/Socket/Slots.antt =====
-- skynet-1.2.0/skynet-src/socket_server.c: the slots are consistent, and `reserve_id` finds a free one.
use skynet_sy.Common.{
  ℕ, zero, suc, ◌+◌, ◌-◌, ◌%◌, ◌/◌, ◌^◌, ◌<◌, ◌≡◌, ◌≢◌, refl, sym, ◌∙◌, ap, subst, arith, true,
  false, Option, none, some, [], ◌==◌, ==_refl, ==_ne, Bool-cases, inl, inr,
}
use native.Mathlib.Decide.{ℕ_discrete}
use skynet_sy.Socket.State.{
  unknown, SocketType, invalid, reserve, plisten, listen, connecting, connected, halfclose, paccept,
  bound, code, is_type, max_socket, hash_id, id_tag16, Socket,
}
use skynet_sy.Socket.Server.{SocketServer, at, put_slot, next_id, reserve_loop, reserve_id}

-- The id of a slot belongs to it, and `sending` carries the tag of the id.
abbrev pub Owned : ℕ → Socket → Type 0
Owned h s = (hash_id s.id ≡ h) × (s.id < 2 ^ 31)

abbrev pub Tagged : Socket → Type 0
Tagged s = s.sending / 2 ^ 16 ≡ id_tag16 s.id

abbrev pub Unused : Socket → Type 0
Unused s = (s.high ≡ []) × (s.low ≡ [])

abbrev pub SlotOk : SocketType → ℕ → Socket → Type 0
SlotOk invalid h s = Unused s
SlotOk reserve h s = Owned h s × Unused s
SlotOk plisten h s = Owned h s × Tagged s
SlotOk listen h s = Owned h s × Tagged s
SlotOk connecting h s = Owned h s × Tagged s
SlotOk connected h s = Owned h s × Tagged s
SlotOk halfclose h s = Owned h s × Tagged s
SlotOk paccept h s = Owned h s × Tagged s
SlotOk bound h s = Owned h s × Tagged s

pub record IsValid (ss : SocketServer) : Type 0 where
  pub slots : (h : ℕ) → h < max_socket → SlotOk (ss.slot h).socket_type h (ss.slot h)
  pub next : ss.alloc_id < 2 ^ 31

-- A socket that is put_slot in its slot keeps the others.
pub put_slot-IsValid :
    (ss : SocketServer) (id : ℕ) (s : Socket)
    → IsValid ss
    → SlotOk s.socket_type (hash_id id) s
    → IsValid (put_slot ss id s)
put_slot-IsValid ss id s v ok = record { slots = slots; next = v.next }
  where
    slots :
        (h : ℕ)
        → h < max_socket
        → SlotOk ((put_slot ss id s).slot h).socket_type h ((put_slot ss id s).slot h)
    slots h n = elim (ℕ_discrete h (hash_id id)) [
      | yes e ↦ rw (e, ==_refl (hash_id id)) ok
      | no e ↦ rw (==_ne h (hash_id id) e) (v.slots h n)
    ]

abbrev pub Free : SocketServer → ℕ → Type 0
Free ss id = is_type (at ss id).socket_type invalid ≡ true

-- The id that round `j` looks at
later : ℕ → ℕ → ℕ
later alloc j = (alloc + 1 + j) % 2 ^ 31

abbrev pub reserved : SocketServer → ℕ → SocketServer
reserved ss id =
    put_slot (record ss { alloc_id = id }) id
      (record (at ss id) {
        socket_type = reserve;
        protocol = unknown;
        id = id;
        udpconnecting = 0;
        fd = 2 ^ 32 - 1;
      })

data Reserves (n : ℕ) (ss : SocketServer) (r : Option ℕ × SocketServer) : Type 0 where
  found : (id : ℕ) → id < 2 ^ 31 → Free ss id → r ≡ (some id, reserved ss id) → Reserves n ss r
  full :
      (alloc : ℕ)
      → alloc < 2 ^ 31
      → r ≡ (none, record ss { alloc_id = alloc })
      → ((j : ℕ) → j < n → ¬ Free ss (later ss.alloc_id j))
      → Reserves n ss r

later_next : (alloc j : ℕ) → later (next_id alloc) j ≡ later alloc (suc j)
unfolding later
later_next alloc j = omega arith

later_zero : (alloc : ℕ) → later alloc 0 ≡ next_id alloc
unfolding later
later_zero alloc = omega arith

pass :
    (n : ℕ) (ss : SocketServer)
    → ¬ Free ss (next_id ss.alloc_id)
    → (r : Option ℕ × SocketServer) → Reserves n (record ss { alloc_id = next_id ss.alloc_id }) r
    → Reserves (suc n) ss r
pass n ss no_first r (found id b free e) = found id b free e
pass n ss no_first r (full alloc b e none_free) = full alloc b e all
  where
    all : (j : ℕ) → j < suc n → ¬ Free ss (later ss.alloc_id j)
    all zero l f = no_first (subst (λ z. Free ss z) (later_zero ss.alloc_id) f)
    all (suc j) l f =
        none_free j (omega (arith, l)) (subst (λ z. Free ss z) (sym (later_next ss.alloc_id j)) f)

reserve_loop_lem :
    (n : ℕ) (ss : SocketServer) → ss.alloc_id < 2 ^ 31 → Reserves n ss (reserve_loop n ss)
unfolding reserve_loop
reserve_loop_lem zero ss h = full ss.alloc_id h refl (λ j l. absurd (omega (arith, l)))
reserve_loop_lem (suc n) ss h =
    elim (Bool-cases (is_type (at ss (next_id ss.alloc_id)).socket_type invalid)) [
      | inl e ↦ found (next_id ss.alloc_id) (omega arith) e (rw e refl)
      | inr e ↦ rw e (
          pass n ss (λ f. let z : true ≡ false = sym f ∙ e in cc) _
            (reserve_loop_lem n (record ss { alloc_id = next_id ss.alloc_id }) (omega arith)))
    ]

-- Every slot is looked at.
hit : (alloc h : ℕ) → h < max_socket → (j : ℕ) × (j < max_socket) × (hash_id (later alloc j) ≡ h)
unfolding later
hit alloc h l = ((h + 2 ^ 16 - (alloc + 1) % 2 ^ 16) % 2 ^ 16, omega arith, omega (arith, l))

Free-type : (ss : SocketServer) (id : ℕ) → Free ss id → (at ss id).socket_type ≡ invalid
Free-type ss id f = on (at ss id).socket_type f
  where
    on : (t : SocketType) → is_type t invalid ≡ true → t ≡ invalid
    on t e = ground arith

-- The id is new: no socket in use has it.
pub data ReservesId (ss : SocketServer) : Type 0 where
  found_id :
      (id : ℕ)
      → id < 2 ^ 31
      → (at ss id).socket_type ≡ invalid
      → ((h : ℕ) → h < max_socket → (ss.slot h).id ≡ id → (ss.slot h).socket_type ≢ invalid → ⊥)
      → reserve_id ss ≡ (some id, reserved ss id)
      → IsValid (reserved ss id)
      → ReservesId ss
  no_id :
      (alloc : ℕ)
      → ((h : ℕ) → h < max_socket → (ss.slot h).socket_type ≢ invalid)
      → reserve_id ss ≡ (none, record ss { alloc_id = alloc })
      → IsValid (record ss { alloc_id = alloc })
      → ReservesId ss

SlotOk-owned : (t : SocketType) (h : ℕ) (s : Socket) → SlotOk t h s → t ≢ invalid → hash_id s.id ≡ h
SlotOk-owned invalid h s ok n = absurd (n refl)
SlotOk-owned reserve h s ok n = ok.0.0
SlotOk-owned plisten h s ok n = ok.0.0
SlotOk-owned listen h s ok n = ok.0.0
SlotOk-owned connecting h s ok n = ok.0.0
SlotOk-owned connected h s ok n = ok.0.0
SlotOk-owned halfclose h s ok n = ok.0.0
SlotOk-owned paccept h s ok n = ok.0.0
SlotOk-owned bound h s ok n = ok.0.0

-- Where the slots in use hold ids of their own and the last id is below 2^31: reserve_id gives an
-- id below 2^31 whose slot was free and which no socket in use has, reserves that slot and changes
-- no other, and the slots keep their order; or every slot is in use, and it gives no id and
-- changes no slot.
pub reserve_id_lem : (ss : SocketServer) → IsValid ss → ReservesId ss
reserve_id_lem ss v = on (reserve_loop_lem max_socket ss v.next)
  where
    on : Reserves max_socket ss (reserve_id ss) → ReservesId ss
    on (found id b free e) =
        let free' = Free-type ss id free in
        found_id id b free'
          (λ h l own live. live (
            subst (λ z. (ss.slot z).socket_type ≡ invalid)
              (ap hash_id (sym own)
                ∙ SlotOk-owned (ss.slot h).socket_type h (ss.slot h) (v.slots h l) live)
              free'))
          e
          (put_slot-IsValid (record ss { alloc_id = id }) id _
            (record { slots = v.slots; next = b })
            (
              (refl, b),
              subst (λ z. SlotOk z (hash_id id) (at ss id)) free'
                  (v.slots (hash_id id) (omega arith)),
            ))
    on (full alloc b e none_free) =
        no_id alloc
          (λ h l e'.
            let j = hit ss.alloc_id h l in
            none_free j.0 j.1 (ap (λ z. code z == 0) (ap (λ z. (ss.slot z).socket_type) j.2 ∙ e')))
          e (record { slots = v.slots; next = b })
