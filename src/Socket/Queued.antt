-- ===== src/Socket/Queued.antt =====
-- skynet-1.2.0/skynet-src/socket_server.c: `send_socket` puts a package in one of the two lists.
use skynet_sy.Common.{
  ℕ, zero, suc, ◌+◌, ◌-◌, ◌*◌, ◌≡◌, refl, ap, arith, Bool, true, false, not, ◌&&◌, ◌||◌, List, [],
  ◌∷◌, ◌++◌, length, ◌==◌, leb, ==_refl, Bool-cases, inl, inr, ◌⊎◌, if◌then◌else◌,
}
use skynet_sy.Socket.State.{
  SocketType, invalid, plisten, listen, connecting, connected, halfclose, paccept, is_type,
  warning_size, WriteBuffer, Socket, Result, nothing, warned,
}
use skynet_sy.Socket.Send.{
  is_empty, send_buffer_empty, append_sendbuffer, append_sendbuffer_low, warn_at, send_socket,
}
use skynet_sy.Socket.Flow.{part, Partial}
use skynet_sy.Socket.Shape.{shape, Partial-fresh}

abbrev pub fresh : List ℕ → WriteBuffer
fresh x = record { buffer = x; ptr = 0; sz = length x }

pub part-snoc :
    (k : ℕ) (items : List (List ℕ)) (x : List ℕ)
    → Partial k items
    → part k (items ++ x ∷ []) ≡ part k items
part-snoc zero [] x v = refl
part-snoc (suc k) [] x v = absurd (omega (arith, v))
part-snoc k (y ∷ items) x v = refl

pub Partial-snoc :
    (k : ℕ) (items : List (List ℕ)) (x : List ℕ) → Partial k items → Partial k (items ++ x ∷ [])
Partial-snoc zero items x v = Partial-fresh (items ++ x ∷ [])
Partial-snoc (suc k) [] x v = absurd (omega (arith, v))
Partial-snoc (suc k) (y ∷ items) x v = v

pub shape-snoc :
    (k : ℕ) (items : List (List ℕ)) (x : List ℕ)
    → Partial k items
    → shape k (items ++ x ∷ []) ≡ shape k items ++ fresh x ∷ []
shape-snoc k [] x v = λ i. record { buffer = x; ptr = v i; sz = sub i } ∷ []
  where
    sub : length x - k ≡ length x
    sub = omega (arith, v)
shape-snoc k (y ∷ items) x v =
    ap (λ l. record { buffer = y; ptr = k; sz = length y - k } ∷ l)
      (shape-snoc 0 items x (Partial-fresh items))

warn_at_lem : (s : Socket) → (r : Result) × (m : ℕ) × (warn_at s ≡ (r, record s { warn_size = m }))
warn_at_lem s = elim (Bool-cases (leb warning_size s.wb_size && leb s.warn_size s.wb_size)) [
  | inl e ↦ (warned, (if s.warn_size == 0 then warning_size * 2 else s.warn_size * 2), rw e refl)
  | inr e ↦ (nothing, s.warn_size, rw e refl)
]

pub empty_lem {ℓ} : {A : Type ℓ} (xs : List A) → is_empty xs ≡ true → xs ≡ []
empty_lem [] e = refl
empty_lem (x ∷ xs) e = cc

-- A socket that sends what it is given, once it is connected
abbrev pub Sending : SocketType → Type 0
Sending t = (is_type t connected ≡ true) ⊎ (is_type t connecting ≡ true)

sending_open :
    (t : SocketType) (b : Bool)
    → b ≡ true
    → Sending t
    → ((is_type t invalid || not b || is_type t halfclose || is_type t paccept) ≡ false)
      × ((is_type t plisten || is_type t listen) ≡ false)
sending_open t b e h = ground arith

-- The socket with a package at the end of a list
abbrev pub with_high : Socket → List ℕ → ℕ → Bool → Socket
with_high s x m e = record s {
  high = s.high ++ fresh x ∷ [];
  wb_size = s.wb_size + length x;
  warn_size = m;
  write_event = e;
}

abbrev pub with_low : Socket → List ℕ → ℕ → Socket
with_low s x m = record s {
  low = s.low ++ fresh x ∷ [];
  wb_size = s.wb_size + length x;
  warn_size = m;
}

pub data Queued (s : Socket) (x : List ℕ) : Bool → Type 0 where
  queued_high :
      (r : Result) (m : ℕ) (e : Bool)
      → send_socket s s.id true x ≡ (r, with_high s x m e)
      → Queued s x true
  queued_first :
      (r : Result) (m : ℕ) (e : Bool)
      → s.low ≡ []
      → send_socket s s.id false x ≡ (r, with_high s x m e)
      → Queued s x false
  queued_low :
      (r : Result) (m : ℕ) → send_socket s s.id false x ≡ (r, with_low s x m) → Queued s x false

pub send_socket_lem :
    (s : Socket) (high : Bool) (x : List ℕ) → Sending s.socket_type → Queued s x high
unfolding send_socket
send_socket_lem s high x h =
    let o = sending_open s.socket_type (s.id == s.id) (==_refl s.id) h in
    let first = warn_at_lem (record (append_sendbuffer s x) { write_event = true }) in
    let w = warn_at_lem (append_sendbuffer s x) in
    let w' = warn_at_lem (append_sendbuffer_low s x) in
    elim (Bool-cases (send_buffer_empty s && is_type s.socket_type connected)) [
      | inl e ↦ elim high as (λ b. Queued s x b) [
        | true ↦ queued_high first.0 first.1 true (rw (o.0, o.1, e) first.2)
        | false ↦
            queued_first first.0 first.1 true (empty_lem s.low (ground arith))
              (rw (o.0, o.1, e) first.2)
      ]
      | inr e ↦ elim high as (λ b. Queued s x b) [
        | true ↦ queued_high w.0 w.1 s.write_event (rw (o.0, o.1, e) w.2)
        | false ↦ queued_low w'.0 w'.1 (rw (o.0, o.1, e) w'.2)
      ]
    ]
