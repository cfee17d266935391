-- ===== src/Netpack/Close.antt =====
-- The end of a connection in `lfilter`, and what `lpack` writes, read again.
use skynet_sy.Common.{
  ℕ, ◌/◌, ◌%◌, ◌^◌, ◌<◌, ◌≡◌, ◌≢◌, refl, sym, ◌∙◌, ap, subst, arith, Option, none, some, List, [],
  ◌∷◌, ◌++◌, le→ltb_false, lt→leb_false, ==_refl, length,
}
use skynet_sy.Netpack.Queue.{
  NetPack, Uncomplete, PackQueue, hash_fd, set_chain, get_queue, write_size, lpack, find_uncomplete,
}
use skynet_sy.Netpack.Filter.{
  read_size, close_uncomplete, filter_data, filter_fresh, one_pack, closed, error, lfilter, closing,
  failed,
}
use skynet_sy.Netpack.Fifo.{Holds}
use skynet_sy.Netpack.Chains.{
  entries_of, find_uncomplete_missing, find_uncomplete_lem, pending, unread_of, Waits, Ready,
  Apart-Ready,
}
use skynet_sy.Netpack.Stream.{Holds-hash, read_size_lem}

-- no entry is found where none waits
idle_find :
    (o : Option PackQueue) (fd : ℕ) → entries_of (get_queue o) fd ≡ [] → find_uncomplete o fd ≡ none
unfolding get_queue find_uncomplete
idle_find none fd e = refl
idle_find (some q) fd e = find_uncomplete_missing q fd e

-- The state after the end of `fd`: nothing of it waits, and the rest is as it was.
pub record Ended (q q' : PackQueue) (ps : List NetPack) (fd : ℕ) : Type 0 where
  pub holds : Holds q' ps
  pub gone : pending q' fd ≡ []
  pub others : (g : ℕ) → g ≢ fd → pending q' g ≡ pending q g
  pub ready : Ready q'

module _ (ps : List NetPack) (fd : ℕ) where
  close_by :
      (q : PackQueue) (es : List Uncomplete)
      → Holds q ps
      → Ready q
      → entries_of q fd ≡ es
      → Waits fd es
      → Ended q (get_queue (close_uncomplete (some q) fd)) ps fd
  unfolding get_queue close_uncomplete
  close_by q [] v r here w =
      subst
        (λ f.
          Ended q
            (get_queue (elim f as (λ _. Option PackQueue) [ none ↦ some q | some x ↦ some x.1 ])) ps
            fd)
        (sym (find_uncomplete_missing q fd here))
        record { holds = v; gone = ap unread_of here; others = λ g ne. refl; ready = r }
  close_by q (uc ∷ []) v r here w =
      let (chain, found, left, apart) = find_uncomplete_lem q fd uc [] here in
      subst
        (λ f.
          Ended q
            (get_queue (elim f as (λ _. Option PackQueue) [ none ↦ some q | some x ↦ some x.1 ])) ps
            fd)
        (sym found)
        record {
          holds = Holds-hash q _ ps v;
          gone = ap unread_of left;
          others = λ g ne. ap unread_of (apart g ne);
          ready =
              Apart-Ready q (set_chain q (hash_fd fd) chain) fd r apart
                (subst (Waits fd) (sym left) tt);
        }
  close_by q (uc ∷ x ∷ es) v r here w = absurd w

  pub close_uncomplete_lem :
      (o : Option PackQueue)
      → Holds (get_queue o) ps
      → Ready (get_queue o)
      → Ended (get_queue o) (get_queue (close_uncomplete o fd)) ps fd
  unfolding get_queue close_uncomplete find_uncomplete
  close_uncomplete_lem none v r = record {
    holds = v;
    gone = refl;
    others = λ g ne. refl;
    ready = r;
  }
  close_uncomplete_lem (some q) v r = close_by q (entries_of q fd) v r refl (r fd)

-- In a queue that holds a sequence of packages and at most one incomplete package per connection,
-- a close or an error of a connection is reported, nothing of that connection waits any more, and
-- the packages and what waits of other connections stay.
pub lfilter-closing :
    (o : Option PackQueue) (ps : List NetPack) (fd : ℕ) (text : List ℕ)
    → Holds (get_queue o) ps
    → Ready (get_queue o)
    → (o' : Option PackQueue) × (lfilter o (closing fd) ≡ some (closed fd, o'))
      × (lfilter o (failed fd text) ≡ some (error fd text, o'))
      × Ended (get_queue o) (get_queue o') ps fd
unfolding lfilter
lfilter-closing o ps fd text v r =
    (close_uncomplete o fd, refl, refl, close_uncomplete_lem ps fd o v r)

-- Data of fewer than 2^16 bytes can be packed, and a connection of which nothing waits that
-- receives just the packed bytes gives the data as one package and leaves the queue as it was.
pub filter_data-lpack :
    (o : Option PackQueue) (fd : ℕ) (bytes : List ℕ)
    → entries_of (get_queue o) fd ≡ []
    → length bytes < 0x10000
    → (wire : List ℕ) × (lpack bytes ≡ some wire)
      × (filter_data o fd wire ≡ some (one_pack fd bytes, o))
unfolding lpack write_size filter_fresh filter_data
filter_data-lpack o fd bytes idle small =
    let n = length bytes in
    let size : read_size (n / 2 ^ 8 % 256) (n % 256) ≡ n =
      read_size_lem (n / 2 ^ 8 % 256) (n % 256) (omega arith) ∙ omega (arith, small) in
    (
      write_size n ++ bytes,
      rw (lt→leb_false 0x10000 n small) refl,
      rw (filter_data, idle_find o fd idle, size, le→ltb_false n n (omega arith), ==_refl n) refl,
    )
