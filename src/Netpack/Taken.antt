-- ===== src/Netpack/Taken.antt =====
-- `filter_data`, on every state of a connection's chain: what Lua gets, what the queue gets, what waits.
use native.Mathlib.Decide.{dec_lt, ℕ_discrete}
use skynet_sy.Common.{
  ℕ, ◌+◌, ◌*◌, ◌<◌, ◌≡◌, refl, sym, ◌∙◌, ap, subst, arith, Option, some, List, [], ◌∷◌, ◌++◌,
  lt→ltb, le→ltb_false, ==_iff, ==_ne, length, map,
}
use skynet_sy.Common.Bytes.{take, drop, length-drop, append_nil}
use skynet_sy.Netpack.Queue.{NetPack, PackQueue, hash_fd, get_queue, save_uncomplete, write_size}
use skynet_sy.Netpack.Filter.{
  header_only, part, more_data, filter_fresh, Event, nothing, one_pack, more, error, opened, closed,
  warning,
}
use skynet_sy.Netpack.Fifo.{Holds, pack_of, push_data_lem}
use skynet_sy.Netpack.Chains.{entries, entries_of, Apart, pending, unread_of, Waits}
use skynet_sy.Netpack.Stream.{
  IsBytes, drop-IsBytes, framed, read_size_lem, write_size_lem, Fed, Fed-cons, Fed-nil,
  save_uncomplete_lem, framing, part_lem, push_more_lem,
}

-- Lua gets a single package itself, and hears of more in the queue.
abbrev pub Delivered : ℕ → List (List ℕ) → Event → Type 0
Delivered fd new nothing = new ≡ []
Delivered fd new (one_pack id bytes) = (id ≡ fd) × (new ≡ bytes ∷ [])
Delivered fd new more = 0 < length new
Delivered fd new (error id text) = ⊥
Delivered fd new (opened id text) = ⊥
Delivered fd new (closed id) = ⊥
Delivered fd new (warning id size) = ⊥

abbrev pub queued : Event → List (List ℕ) → List (List ℕ)
queued nothing new = new
queued (one_pack id bytes) new = []
queued more new = new
queued (error id text) new = new
queued (opened id text) new = new
queued (closed id) new = new
queued (warning id size) new = new

-- `bytes` of `fd` are the packages `new`, which Lua or the queue got, and what waits then; the
-- chains of other connections are the same.
pub record Taken (q q' : PackQueue) (ps : List NetPack) (fd : ℕ) (bytes : List ℕ) (ev : Event)
    (new : List (List ℕ)) : Type 0 where
  pub holds : Holds q' (ps ++ map (pack_of fd) (queued ev new))
  pub waits : Waits fd (entries_of q' fd)
  pub apart : Apart q q' fd
  pub split : bytes ≡ framed new ++ pending q' fd
  pub delivered : Delivered fd new ev

module _ {q q' : PackQueue} {ps : List NetPack} {fd : ℕ} {bytes : List ℕ} where
  pub Fed-nothing : Fed q q' ps fd bytes [] → Taken q q' ps fd bytes nothing []
  Fed-nothing f = record {
    holds = f.holds;
    waits = f.waits;
    apart = f.apart;
    split = f.split;
    delivered = refl;
  }

  pub Fed-more :
      {p : List ℕ} {new : List (List ℕ)}
      → Fed q q' ps fd bytes (p ∷ new)
      → Taken q q' ps fd bytes more (p ∷ new)
  Fed-more f = record {
    holds = f.holds;
    waits = f.waits;
    apart = f.apart;
    split = f.split;
    delivered = omega arith;
  }

-- Just one package
pub Taken-one :
    (q : PackQueue) (ps : List NetPack) (fd : ℕ) (payload : List ℕ)
    → Holds q ps
    → entries_of q fd ≡ []
    → Taken q q ps fd (write_size (length payload) ++ payload) (one_pack fd payload) (payload ∷ [])
Taken-one q ps fd payload v idle =
    let f = Fed-nil q ps fd v idle in
    record {
      holds = f.holds;
      waits = f.waits;
      apart = f.apart;
      split = sym (
          rw (append_nil (write_size (length payload) ++ payload)) (
            ap (λ l. (write_size (length payload) ++ payload) ++ l) (ap unread_of idle)
            ∙ append_nil (write_size (length payload) ++ payload)));
      delivered = (refl, refl);
    }

-- One package, and then more bytes
pub more_data_lem :
    (o : Option PackQueue) (ps : List NetPack) (fd : ℕ) (payload rest : List ℕ)
    → Holds (get_queue o) ps
    → entries_of (get_queue o) fd ≡ []
    → IsBytes rest
    → 0 < length rest
    → (q' : PackQueue) × (new : List (List ℕ)) × (more_data o fd payload rest
        ≡ some (more, some q'))
      × Taken
          (get_queue o)
          q'
          ps
          fd
          ((write_size (length payload) ++ payload) ++ rest)
          more
          (payload ∷ new)
unfolding get_queue more_data
more_data_lem o ps fd payload rest v idle h l =
    let (q1, run, holds, same) = push_data_lem o ps fd payload v in
    let (q', new, runs, fed) =
      push_more_lem (length rest) (some q1) _ fd rest holds
        (ap (λ c. entries fd (c (hash_fd fd))) same ∙ idle) h l (omega arith) in
    (
      q',
      new,
      rw (run, runs) refl,
      Fed-more (Fed-cons (get_queue o) q1 q' ps fd payload rest new same fed),
    )

-- What `filter_data` gives on these bytes
abbrev pub Result :
    PackQueue → List NetPack → ℕ → List ℕ → Option (Event × Option PackQueue) → Type 0
Result q ps fd bytes run =
    (ev : Event) × (o' : Option PackQueue) × (new : List (List ℕ)) × (run ≡ some (ev, o'))
    × Taken q (get_queue o') ps fd bytes ev new

pub filter_fresh_lem :
    (o : Option PackQueue) (ps : List NetPack) (fd : ℕ) (bytes : List ℕ)
    → Holds (get_queue o) ps
    → entries_of (get_queue o) fd ≡ []
    → IsBytes bytes
    → 0 < length bytes
    → Result (get_queue o) ps fd bytes (filter_fresh o fd bytes)
unfolding filter_fresh get_queue
filter_fresh_lem o ps fd [] v idle h l = absurd (omega (arith, l))
filter_fresh_lem o ps fd (b ∷ []) v idle h l = (
  nothing,
  some (save_uncomplete o (header_only fd b)),
  [],
  refl,
  Fed-nothing (save_uncomplete_lem o ps (header_only fd b) v idle (refl, h.0, refl)),
)
filter_fresh_lem o ps fd (a ∷ b ∷ bytes) v idle h l = elim (dec_lt (length bytes) (a * 256 + b)) [
  | yes short ↦ (
    nothing,
    some (save_uncomplete o (part fd (a * 256 + b) bytes)),
    [],
    rw (read_size_lem a b h.1.0, lt→ltb (length bytes) (a * 256 + b) short) refl,
    Fed-nothing (part_lem o ps fd a b bytes v idle h.0 h.1.0 short),
  )
  | no enough ↦
      let long = le→ltb_false (length bytes) (a * 256 + b) (omega (arith, enough)) in
      elim (ℕ_discrete (length bytes) (a * 256 + b)) [
        | yes full ↦ (
          one_pack fd bytes,
          o,
          bytes ∷ [],
          rw (read_size_lem a b h.1.0, long, (==_iff (length bytes) (a * 256 + b)).1 full) refl,
          subst
              (λ w.
                Taken (get_queue o) (get_queue o) ps fd (w ++ bytes) (one_pack fd bytes)
                  (bytes ∷ []))
              (ap write_size full ∙ write_size_lem a b h.0 h.1.0)
              (Taken-one (get_queue o) ps fd bytes v idle),
        )
        | no further ↦
            let (q', new, run, taken) =
              more_data_lem o ps fd (take (a * 256 + b) bytes) (drop (a * 256 + b) bytes) v idle
                (drop-IsBytes (a * 256 + b) bytes h.1.1)
                (omega (arith, enough, further, length-drop (a * 256 + b) bytes)) in
            (
              more,
              some q',
              take (a * 256 + b) bytes ∷ new,
              rw (read_size_lem a b h.1.0, long, ==_ne (length bytes) (a * 256 + b) further) run,
              subst (λ z. Taken (get_queue o) q' ps fd z more (take (a * 256 + b) bytes ∷ new))
                  (framing a b bytes h.0 h.1.0 (omega (arith, enough))) taken,
            )
      ]
]
