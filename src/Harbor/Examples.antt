-- ===== src/Harbor/Examples.antt =====
-- The tests of handles on concrete inputs.
use skynet_sy.Common.{◌+◌, ◌*◌, ◌^◌, ◌≡◌, arith, not, ◌&&◌, some, ◌==◌}
use skynet_sy.Harbor.{harbor_init, harbor_message_isremote, harbor_message_isremote_lem}

harbor_message_isremote_lem_example :
    harbor_message_isremote (harbor_init 1) (2 * 2 ^ 24 + 5) ≡ some (not (2 == 1) && not (2 == 0))
harbor_message_isremote_lem_example =
    harbor_message_isremote_lem 1 2 5 (omega arith) (omega arith) (omega arith)
