-- ===== src/Netpack/Waiting.antt =====
-- `filter_data` where an incomplete package waits, and for every state of the chain.
use Prim.Native.Nat.{bit_or}
use native.Mathlib.Decide.{dec_lt, ℕ_discrete}
use skynet_sy.Common.{
  ℕ, ◌+◌, ◌-◌, ◌*◌, ◌^◌, ◌≤◌, ◌<◌, ◌≡◌, refl, sym, ◌∙◌, ap, subst, arith, Option, none, some, List,
  [], ◌∷◌, ◌++◌, lt→ltb, le→ltb_false, ==_iff, ==_ne, length, length-append,
}
use skynet_sy.Common.Bits.{bit_or_shifted}
use skynet_sy.Common.Bytes.{
  take, drop, take-append-drop, length-take, append_assoc, append_nil, length_zero,
}
use skynet_sy.Netpack.Queue.{
  NetPack, Uncomplete, PackQueue, hash_fd, set_chain, get_queue, save_uncomplete, write_size,
  find_uncomplete,
}
use skynet_sy.Netpack.Filter.{
  fill_uncomplete, filter_waiting, filter_data, Event, nothing, one_pack, more,
}
use skynet_sy.Netpack.Fifo.{Holds}
use skynet_sy.Netpack.Chains.{
  entries_of, find_uncomplete_missing, find_uncomplete_lem, pending, unread, unread_of, Partial,
  Waits, Ready, Apart-Ready, Apart-trans,
}
use skynet_sy.Netpack.Stream.{
  IsBytes, drop-IsBytes, Holds-hash, write_size_lem, save_uncomplete_lem,
}
use skynet_sy.Netpack.Taken.{Taken, Taken-one, Fed-nothing, Result, filter_fresh_lem, more_data_lem}

-- What an entry has, the bytes it needs and the rest, put together again.
completing :
    (n : ℕ) (buffer bytes : List ℕ)
    → length buffer ≤ n
    → n - length buffer ≤ length bytes
    → (write_size (length (buffer ++ take (n - length buffer) bytes))
          ++ (buffer ++ take (n - length buffer) bytes))
        ++ drop (n - length buffer) bytes
      ≡ write_size n ++ (buffer ++ bytes)
completing n buffer bytes l enough =
    let k = n - length buffer in
    let full : length (buffer ++ take k bytes) ≡ n =
      omega (arith, l, enough, length-append buffer (take k bytes), length-take k bytes enough) in
    rw full (
      append_assoc (write_size n) (buffer ++ take k bytes) (drop k bytes)
      ∙ ap (λ z. write_size n ++ z)
          (append_assoc buffer (take k bytes) (drop k bytes)
            ∙ ap (λ z. buffer ++ z) (take-append-drop k bytes)))

abbrev filled : Uncomplete → ℕ → List ℕ → Uncomplete
filled uc size bytes = record uc {
  pack = record uc.pack { size = size; buffer = uc.pack.buffer ++ bytes };
  read = some (length uc.pack.buffer + length bytes);
}

module _ (q : PackQueue) (ps : List NetPack) (uc : Uncomplete) (size : ℕ) (bytes : List ℕ)
    (v : Holds q ps) where
  abbrev fd : ℕ
  fd = uc.pack.id

  -- The data does not fill the entry.
  still_waits :
      entries_of q fd ≡ []
      → length bytes < size - length uc.pack.buffer
      → size < 65536
      → Taken q
          (set_chain q (hash_fd fd) (filled uc size bytes ∷ q.hash (hash_fd fd)))
          ps
          fd
          (write_size size ++ (uc.pack.buffer ++ bytes))
          nothing
          []
  unfolding save_uncomplete get_queue
  still_waits idle short small = Fed-nothing (
      save_uncomplete_lem (some q) ps (filled uc size bytes) v idle
        (refl, sym (length-append uc.pack.buffer bytes), omega (arith, short), small))

  fill_uncomplete_lem :
      entries_of q fd ≡ []
      → length uc.pack.buffer ≤ size
      → size < 65536
      → IsBytes bytes
      → Result q ps fd
          (write_size size ++ (uc.pack.buffer ++ bytes))
          (fill_uncomplete q fd uc size (length uc.pack.buffer) bytes)
  unfolding fill_uncomplete get_queue
  fill_uncomplete_lem idle l small h = elim (dec_lt (length bytes) (size - length uc.pack.buffer)) [
    | yes short ↦ (
      _,
      some (set_chain q (hash_fd fd) (filled uc size bytes ∷ q.hash (hash_fd fd))),
      [],
      rw (lt→ltb (length bytes) (size - length uc.pack.buffer) short) refl,
      still_waits idle short small,
    )
    | no enough ↦
        let k = size - length uc.pack.buffer in
        let long = le→ltb_false (length bytes) k (omega (arith, enough)) in
        let whole = completing size uc.pack.buffer bytes l (omega (arith, enough)) in
        elim (ℕ_discrete (length (drop k bytes)) 0) [
          | yes done ↦ (
            one_pack fd (uc.pack.buffer ++ take k bytes),
            some q,
            (uc.pack.buffer ++ take k bytes) ∷ [],
            rw (long, (==_iff (length (drop k bytes)) 0).1 done) refl,
            subst
                (λ z.
                  Taken q q ps fd z (one_pack fd (uc.pack.buffer ++ take k bytes))
                    ((uc.pack.buffer ++ take k bytes) ∷ []))
                (sym (append_nil _)
                  ∙ ap
                      (λ z.
                        (write_size (length (uc.pack.buffer ++ take k bytes))
                          ++ (uc.pack.buffer ++ take k bytes))
                        ++ z)
                      (sym (length_zero _ done))
                  ∙ whole)
                (Taken-one q ps fd (uc.pack.buffer ++ take k bytes) v idle),
          )
          | no further ↦
              let (q', new, run, taken) =
                more_data_lem (some q) ps fd (uc.pack.buffer ++ take k bytes) (drop k bytes) v idle
                  (drop-IsBytes k bytes h) (omega (arith, further)) in
              (
                more,
                some q',
                (uc.pack.buffer ++ take k bytes) ∷ new,
                rw (long, ==_ne (length (drop k bytes)) 0 further) run,
                subst (λ z. Taken q q' ps fd z more ((uc.pack.buffer ++ take k bytes) ∷ new)) whole
                    taken,
              )
        ]
  ]

filter_waiting_lem :
    (q : PackQueue) (ps : List NetPack) (uc : Uncomplete) (read : Option ℕ) (bytes : List ℕ)
    → Holds q ps
    → entries_of q uc.pack.id ≡ []
    → Partial uc.pack.id uc read
    → IsBytes bytes
    → 0 < length bytes
    → Result q ps uc.pack.id (unread uc read ++ bytes) (filter_waiting q uc.pack.id uc read bytes)
unfolding filter_waiting
filter_waiting_lem q ps uc (some n) bytes v idle w h l =
    subst
      (λ r.
        Result q ps uc.pack.id ((write_size uc.pack.size ++ uc.pack.buffer) ++ bytes)
          (fill_uncomplete q uc.pack.id uc uc.pack.size r bytes))
      (sym w.1)
      (subst
        (λ z.
          Result q ps uc.pack.id z
            (fill_uncomplete q uc.pack.id uc uc.pack.size (length uc.pack.buffer) bytes))
        (sym (append_assoc (write_size uc.pack.size) uc.pack.buffer bytes))
        (fill_uncomplete_lem q ps uc uc.pack.size bytes v idle (omega (arith, w.1, w.2)) w.3 h))
filter_waiting_lem q ps uc none [] v idle w h l = absurd (omega (arith, l))
filter_waiting_lem q ps uc none (b ∷ bytes) v idle w h l =
    let size : bit_or b (uc.header * 2 ^ 8) ≡ uc.header * 256 + b =
      bit_or_shifted 8 uc.header b h.0 in
    let start : length uc.pack.buffer ≡ 0 = ap length w.2 in
    let front : write_size (uc.header * 256 + b) ++ (uc.pack.buffer ++ bytes)
        ≡ uc.header ∷ b ∷ bytes =
      rw (write_size_lem uc.header b w.1 h.0) (ap (λ z. uc.header ∷ b ∷ (z ++ bytes)) w.2) in
    rw size (
      subst
        (λ z.
          Result q ps uc.pack.id z (fill_uncomplete q uc.pack.id uc (uc.header * 256 + b) 0 bytes))
        front
        (subst
          (λ r.
            Result q ps uc.pack.id (write_size (uc.header * 256 + b) ++ (uc.pack.buffer ++ bytes))
              (fill_uncomplete q uc.pack.id uc (uc.header * 256 + b) r bytes))
          start
          (fill_uncomplete_lem q ps uc (uc.header * 256 + b) bytes v idle (omega (arith, start))
            (omega (arith, w.1, h.0)) h.1)))

Partial-id : (id : ℕ) (uc : Uncomplete) (read : Option ℕ) → Partial id uc read → uc.pack.id ≡ id
Partial-id id uc none w = w.0
Partial-id id uc (some n) w = w.0

module _ (ps : List NetPack) (fd : ℕ) (bytes : List ℕ) (h : IsBytes bytes)
    (l : 0 < length bytes) where
  -- a run of `filter_data`, with the state that it leaves
  abbrev pub Filtered : Option PackQueue → Type 0
  Filtered o =
      (ev : Event) × (o' : Option PackQueue) × (new : List (List ℕ)) × (filter_data o fd bytes
        ≡ some (ev, o'))
      × Taken (get_queue o) (get_queue o') ps fd (pending (get_queue o) fd ++ bytes) ev new
      × Ready (get_queue o')

  fresh :
      (o : Option PackQueue)
      → Holds (get_queue o) ps
      → Ready (get_queue o)
      → entries_of (get_queue o) fd ≡ []
      → find_uncomplete o fd ≡ none
      → Filtered o
  unfolding filter_data
  fresh o v r idle none_waits =
      let (ev, o', new, run, taken) = filter_fresh_lem o ps fd bytes v idle h l in
      (
        ev,
        o',
        new,
        rw (filter_data, none_waits) run,
        subst (λ z. Taken (get_queue o) (get_queue o') ps fd (unread_of z ++ bytes) ev new)
            (sym idle) taken,
        Apart-Ready (get_queue o) (get_queue o') fd r taken.apart taken.waits,
      )

  waiting :
      (q : PackQueue) (uc : Uncomplete)
      → Holds q ps
      → Ready q
      → entries_of q fd ≡ uc ∷ []
      → Partial fd uc uc.read
      → Filtered (some q)
  unfolding filter_data get_queue
  waiting q uc v r here w =
      let (chain, found, left, apart) = find_uncomplete_lem q fd uc [] here in
      let q1 = set_chain q (hash_fd fd) chain in
      let same = Partial-id fd uc uc.read w in
      let (ev, o', new, run, taken) =
        subst
          (λ f. Result q1 ps f (unread uc uc.read ++ bytes) (filter_waiting q1 f uc uc.read bytes))
          same
          (filter_waiting_lem q1 ps uc uc.read bytes (Holds-hash q q1.hash ps v)
            (subst (λ f. entries_of q1 f ≡ []) (sym same) left)
            (subst (λ f. Partial f uc uc.read) (sym same) w) h l) in
      let all = Apart-trans q q1 (get_queue o') fd apart taken.apart in
      (
        ev,
        o',
        new,
        rw (filter_data, found) run,
        record {
          holds = taken.holds;
          waits = taken.waits;
          apart = all;
          split = ap (λ z. unread_of z ++ bytes) here ∙ taken.split;
          delivered = taken.delivered;
        },
        Apart-Ready q (get_queue o') fd r all taken.waits,
      )

  by_chain :
      (q : PackQueue) (es : List Uncomplete)
      → Holds q ps
      → Ready q
      → entries_of q fd ≡ es
      → Waits fd es
      → Filtered (some q)
  unfolding get_queue
  by_chain q [] v r here w = fresh (some q) v r here (find_uncomplete_missing q fd here)
  by_chain q (uc ∷ []) v r here w = waiting q uc v r here w
  by_chain q (uc ∷ x ∷ es) v r here w = absurd w

  -- In a queue that holds a sequence of packages in its ring and at most one incomplete package
  -- per connection, data of a connection, not empty, is taken in without a fault: what waited and
  -- the data are the bytes of whole packages and of what waits then; the whole packages are none,
  -- or one that goes to Lua while the ring stays, or one or more that go to the end of the ring in
  -- order while Lua hears of more; the chains of other connections stay.
  pub filter_data_lem :
      (o : Option PackQueue) → Holds (get_queue o) ps → Ready (get_queue o) → Filtered o
  unfolding get_queue find_uncomplete
  filter_data_lem none v r = fresh none v r refl refl
  filter_data_lem (some q) v r = by_chain q (entries_of q fd) v r refl (r fd)
