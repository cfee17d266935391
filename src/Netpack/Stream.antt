-- ===== src/Netpack/Stream.antt =====
-- What `filter_data` does to the bytes that a socket receives: they are cut into packages, and the
-- bytes of an incomplete one wait in a chain.
use native.Mathlib.Decide.{dec_lt}
use skynet_sy.Common.{
  ℕ, zero, suc, ◌+◌, ◌-◌, ◌*◌, ◌/◌, ◌%◌, ◌^◌, ◌≤◌, ◌<◌, ◌≡◌, refl, sym, ◌∙◌, ap, subst, arith,
  Option, some, List, [], ◌∷◌, ◌++◌, lt→ltb, le→ltb_false, length, map,
}
use skynet_sy.Common.Bits.{bit_or_shifted, bit_or_comm}
use skynet_sy.Common.Bytes.{
  take, drop, take-append-drop, length-take, length-drop, length_zero, append_assoc,
}
use skynet_sy.Netpack.Queue.{
  NetPack, Uncomplete, PackQueue, hash_fd, set_chain, get_queue, save_uncomplete, write_size,
}
use skynet_sy.Netpack.Filter.{header_only, part, read_size, push_more}
use skynet_sy.Netpack.Fifo.{Holds, pack_of, push_data_lem}
use skynet_sy.Netpack.Chains.{
  entries, entries_of, Apart, put_front-entries, put_front-Apart, pending, unread, unread_of,
  Partial, Waits,
}

abbrev pub IsBytes : List ℕ → Type 0
IsBytes [] = Unit
IsBytes (b ∷ bs) = (b < 256) × IsBytes bs

pub drop-IsBytes : (n : ℕ) (bs : List ℕ) → IsBytes bs → IsBytes (drop n bs)
drop-IsBytes zero bs h = h
drop-IsBytes (suc n) [] h = tt
drop-IsBytes (suc n) (b ∷ bs) h = drop-IsBytes n bs h.1

-- packages as they come on the wire
abbrev pub framed : List (List ℕ) → List ℕ
framed [] = []
framed (p ∷ ps) = (write_size (length p) ++ p) ++ framed ps

pub read_size_lem : (a b : ℕ) → b < 256 → read_size a b ≡ a * 256 + b
unfolding read_size
read_size_lem a b h = bit_or_comm (a * 2 ^ 8) b ∙ bit_or_shifted 8 a b h

pub write_size_lem : (a b : ℕ) → a < 256 → b < 256 → write_size (a * 256 + b) ≡ a ∷ b ∷ []
unfolding write_size
write_size_lem a b ha hb =
    let high : (a * 256 + b) / 2 ^ 8 % 256 ≡ a = omega (arith, ha, hb) in
    let low : (a * 256 + b) % 256 ≡ b = omega (arith, hb) in rw (high, low) refl

-- `bytes` of `fd` have been taken in: the packages `new` are appended to the queue, and the rest
-- waits.
pub record Fed (q q' : PackQueue) (ps : List NetPack) (fd : ℕ) (bytes : List ℕ)
    (new : List (List ℕ)) : Type 0 where
  pub holds : Holds q' (ps ++ map (pack_of fd) new)
  pub waits : Waits fd (entries_of q' fd)
  pub apart : Apart q q' fd
  pub split : bytes ≡ framed new ++ pending q' fd

-- A queue that differs in its chains holds the same packages.
pub Holds-hash :
    (q : PackQueue) (h : ℕ → List Uncomplete) (ps : List NetPack)
    → Holds q ps
    → Holds (record q { hash = h }) ps
Holds-hash q h ps v = record {
  width = v.width;
  head_in = v.head_in;
  room = v.room;
  tail_at = v.tail_at;
  window = v.window;
}

-- An incomplete package is kept.
pub save_uncomplete_lem :
    (o : Option PackQueue) (ps : List NetPack) (uc : Uncomplete)
    → Holds (get_queue o) ps
    → entries_of (get_queue o) uc.pack.id ≡ []
    → Partial uc.pack.id uc uc.read
    → Fed (get_queue o) (save_uncomplete o uc) ps uc.pack.id (unread uc uc.read) []
unfolding save_uncomplete
save_uncomplete_lem o ps uc v idle w = record {
  holds = Holds-hash q _ (ps ++ []) (subst (Holds q) (sym (appended ps)) v);
  waits = subst (Waits fd) (sym here) w;
  apart = put_front-Apart q fd uc refl;
  split = ap unread_of (sym here);
}
  where
    q : PackQueue
    q = get_queue o

    fd : ℕ
    fd = uc.pack.id

    appended : (xs : List NetPack) → xs ++ [] ≡ xs
    appended [] = refl
    appended (x ∷ xs) = ap (λ l. x ∷ l) (appended xs)

    here : entries_of (set_chain q (hash_fd fd) (uc ∷ q.hash (hash_fd fd))) fd ≡ uc ∷ []
    here = put_front-entries q fd uc refl ∙ ap (λ l. uc ∷ l) idle

-- A package goes to the queue before the rest of the bytes.
pub Fed-cons :
    (q q1 q' : PackQueue) (ps : List NetPack) (fd : ℕ) (payload bytes : List ℕ)
    (new : List (List ℕ))
    → q1.hash ≡ q.hash
    → Fed q1 q' (ps ++ pack_of fd payload ∷ []) fd bytes new
    → Fed q q' ps fd ((write_size (length payload) ++ payload) ++ bytes) (payload ∷ new)
Fed-cons q q1 q' ps fd payload bytes new same f = record {
  holds = subst (Holds q') (joined ps) f.holds;
  waits = f.waits;
  apart = λ g ne. f.apart g ne ∙ ap (λ h. entries g (h (hash_fd g))) same;
  split =
      ap (λ l. (write_size (length payload) ++ payload) ++ l) f.split
      ∙ sym (append_assoc (write_size (length payload) ++ payload) (framed new) (pending q' fd));
}
  where
    joined :
        (xs : List NetPack)
        → (xs ++ pack_of fd payload ∷ []) ++ map (pack_of fd) new
          ≡ xs ++ map (pack_of fd) (payload ∷ new)
    joined [] = refl
    joined (x ∷ xs) = ap (λ l. x ∷ l) (joined xs)

-- nothing is left
pub Fed-nil :
    (q : PackQueue) (ps : List NetPack) (fd : ℕ)
    → Holds q ps
    → entries_of q fd ≡ []
    → Fed q q ps fd [] []
Fed-nil q ps fd v idle = record {
  holds = subst (Holds q) (appended ps) v;
  waits = subst (Waits fd) (sym idle) tt;
  apart = λ g ne. refl;
  split = ap unread_of (sym idle);
}
  where
    appended : (xs : List NetPack) → xs ≡ xs ++ []
    appended [] = refl
    appended (x ∷ xs) = ap (λ l. x ∷ l) (appended xs)

-- Two bytes of length and the data after them, put together again.
pub framing :
    (a b : ℕ) (bytes : List ℕ)
    → a < 256
    → b < 256
    → a * 256 + b ≤ length bytes
    → (write_size (length (take (a * 256 + b) bytes)) ++ take (a * 256 + b) bytes)
        ++ drop (a * 256 + b) bytes
      ≡ a ∷ b ∷ bytes
framing a b bytes ha hb l =
    rw (length-take (a * 256 + b) bytes l, write_size_lem a b ha hb)
      (ap (λ r. a ∷ b ∷ r) (take-append-drop (a * 256 + b) bytes))

-- Bytes with less data than their length tells
pub part_lem :
    (o : Option PackQueue) (ps : List NetPack) (fd a b : ℕ) (bytes : List ℕ)
    → Holds (get_queue o) ps
    → entries_of (get_queue o) fd ≡ []
    → a < 256
    → b < 256
    → length bytes < a * 256 + b
    → Fed (get_queue o) (save_uncomplete o (part fd (a * 256 + b) bytes)) ps fd (a ∷ b ∷ bytes) []
part_lem o ps fd a b bytes v idle ha hb l =
    subst
      (λ h.
        Fed (get_queue o) (save_uncomplete o (part fd (a * 256 + b) bytes)) ps fd (h ++ bytes) [])
      (write_size_lem a b ha hb)
      (save_uncomplete_lem o ps (part fd (a * 256 + b) bytes) v idle
        (refl, refl, l, omega (arith, ha, hb)))

-- On bytes that are not empty, with enough fuel, `push_more` succeeds: it appends each whole package
-- to the queue and keeps the bytes of the last where it is incomplete.
pub push_more_lem :
    (fuel : ℕ) (o : Option PackQueue) (ps : List NetPack) (fd : ℕ) (bytes : List ℕ)
    → Holds (get_queue o) ps
    → entries_of (get_queue o) fd ≡ []
    → IsBytes bytes
    → 0 < length bytes
    → length bytes ≤ fuel
    → (q' : PackQueue) × (new : List (List ℕ)) × (push_more fuel o fd bytes ≡ some q')
      × Fed (get_queue o) q' ps fd bytes new
unfolding push_more get_queue
push_more_lem zero o ps fd bytes v idle h some_bytes l = absurd (omega (arith, some_bytes, l))
push_more_lem (suc fuel) o ps fd [] v idle h some_bytes l = absurd (omega (arith, some_bytes))
push_more_lem (suc fuel) o ps fd (b ∷ []) v idle h some_bytes l =
    (_, [], refl, save_uncomplete_lem o ps (header_only fd b) v idle (refl, h.0, refl))
push_more_lem (suc fuel) o ps fd (a ∷ b ∷ bytes) v idle h some_bytes l =
    elim (dec_lt (length bytes) (a * 256 + b)) [
      | yes short ↦ (
        _,
        [],
        rw (read_size_lem a b h.1.0, lt→ltb (length bytes) (a * 256 + b) short) refl,
        part_lem o ps fd a b bytes v idle h.0 h.1.0 short,
      )
      | no enough ↦
          let (q1, run, holds, same) = push_data_lem o ps fd (take (a * 256 + b) bytes) v in
          let whole = framing a b bytes h.0 h.1.0 (omega (arith, enough)) in
          let long = le→ltb_false (length bytes) (a * 256 + b) (omega (arith, enough)) in
          let idle1 : entries_of q1 fd ≡ [] = ap (λ c. entries fd (c (hash_fd fd))) same ∙ idle in
          elim (dec_lt (a * 256 + b) (length bytes)) [
            | yes rest ↦
                let (q', new, runs, fed) =
                  push_more_lem fuel (some q1) _ fd (drop (a * 256 + b) bytes) holds idle1
                    (drop-IsBytes (a * 256 + b) bytes h.1.1)
                    (omega (arith, rest, length-drop (a * 256 + b) bytes))
                    (omega (arith, l, length-drop (a * 256 + b) bytes)) in
                (
                  q',
                  take (a * 256 + b) bytes ∷ new,
                  rw
                      (
                        read_size_lem a b h.1.0,
                        long,
                        run,
                        lt→ltb 0 (length bytes - (a * 256 + b)) (omega (arith, rest)),
                      )
                      runs,
                  subst (λ z. Fed (get_queue o) q' ps fd z (take (a * 256 + b) bytes ∷ new)) whole
                      (Fed-cons (get_queue o) q1 q' ps fd _ _ new same fed),
                )
            | no done ↦
                let gone : drop (a * 256 + b) bytes ≡ [] =
                  length_zero _ (omega (arith, done, enough, length-drop (a * 256 + b) bytes)) in
                (
                  q1,
                  take (a * 256 + b) bytes ∷ [],
                  rw
                      (
                        read_size_lem a b h.1.0,
                        long,
                        run,
                        le→ltb_false 0 (length bytes - (a * 256 + b)) (omega (arith, done)),
                      )
                      refl,
                  subst (λ z. Fed (get_queue o) q1 ps fd z (take (a * 256 + b) bytes ∷ [])) whole
                      (subst
                        (λ z.
                          Fed (get_queue o) q1 ps fd
                            ((write_size (length (take (a * 256 + b) bytes))
                                ++ take (a * 256 + b) bytes)
                              ++ z)
                            (take (a * 256 + b) bytes ∷ []))
                        (sym gone)
                        (Fed-cons (get_queue o) q1 q1 ps fd _ [] [] same
                          (Fed-nil q1 _ fd holds idle1))),
                )
          ]
    ]
