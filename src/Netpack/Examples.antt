-- ===== src/Netpack/Examples.antt =====
-- Runs of `lua-netpack.c`'s functions on small inputs.
use skynet_sy.Common.{ℕ, ◌≡◌, refl, arith, Option, none, some, List, [], ◌∷◌}
use skynet_sy.Netpack.Queue.{PackQueue, get_queue, push_data, save_uncomplete, lpop, lpack}
use skynet_sy.Netpack.Filter.{
  header_only, filter_data, lfilter, closing, failed, closed, error, one_pack,
}
use skynet_sy.Netpack.Fifo.{Holds, fresh-Holds, pack_of, push_data_lem, lpop_lem}
use skynet_sy.Netpack.Chains.{entries_of, Ready, Apart-Ready}
use skynet_sy.Netpack.Stream.{IsBytes, Fed, save_uncomplete_lem}
use skynet_sy.Netpack.Waiting.{Filtered, filter_data_lem}
use skynet_sy.Netpack.Close.{Ended, lfilter-closing, filter_data-lpack}

fresh-Ready : Ready (get_queue none)
unfolding get_queue
fresh-Ready g = tt

fresh_idle : entries_of (get_queue none) 7 ≡ []
unfolding get_queue
fresh_idle = refl

-- a connection that has sent the first byte of a length
abbrev half : PackQueue
half = save_uncomplete none (header_only 7 0)

half-Fed : Fed (get_queue none) half [] 7 (0 ∷ []) []
half-Fed =
    save_uncomplete_lem none [] (header_only 7 0) fresh-Holds fresh_idle (refl, omega arith, refl)

half-Holds : Holds (get_queue (some half)) []
unfolding get_queue
half-Holds = half-Fed.holds

half-Ready : Ready (get_queue (some half))
unfolding get_queue
half-Ready = Apart-Ready (get_queue none) half 7 fresh-Ready half-Fed.apart half-Fed.waits

abbrev input : List ℕ
input = 2 ∷ 104 ∷ 105 ∷ 0 ∷ 0 ∷ 1 ∷ []

input-IsBytes : IsBytes input
input-IsBytes =
    (omega arith, (omega arith, (omega arith, (omega arith, (omega arith, (omega arith, tt))))))

-- the end of a package of two bytes, an empty package, and the first byte of another
filter_data_lem_example : Filtered [] 7 input input-IsBytes (omega arith) (some half)
filter_data_lem_example =
    filter_data_lem [] 7 input input-IsBytes (omega arith) (some half) half-Holds half-Ready

one_queued_run :
    (q' : PackQueue) × (push_data (some half) 7 (1 ∷ 2 ∷ []) ≡ some q')
    × Holds q' (pack_of 7 (1 ∷ 2 ∷ []) ∷ [])
    × (q'.hash ≡ (get_queue (some half)).hash)
one_queued_run = push_data_lem (some half) [] 7 (1 ∷ 2 ∷ []) half-Holds

abbrev one_queued : PackQueue
one_queued = one_queued_run.0

lpop_lem_example :
    (q' : PackQueue) × (lpop (some one_queued) ≡ some (some (pack_of 7 (1 ∷ 2 ∷ [])), some q'))
    × Holds q' []
    × (q'.hash ≡ one_queued.hash)
lpop_lem_example = lpop_lem one_queued (pack_of 7 (1 ∷ 2 ∷ [])) [] one_queued_run.2

lfilter-closing_example :
    (o' : Option PackQueue) × (lfilter (some half) (closing 7) ≡ some (closed 7, o'))
    × (lfilter (some half) (failed 7 []) ≡ some (error 7 [], o'))
    × Ended (get_queue (some half)) (get_queue o') [] 7
lfilter-closing_example = lfilter-closing (some half) [] 7 [] half-Holds half-Ready

filter_data-lpack_example :
    (wire : List ℕ) × (lpack (5 ∷ 6 ∷ []) ≡ some wire)
    × (filter_data none 7 wire ≡ some (one_pack 7 (5 ∷ 6 ∷ []), none))
filter_data-lpack_example = filter_data-lpack none 7 (5 ∷ 6 ∷ []) fresh_idle (omega arith)
