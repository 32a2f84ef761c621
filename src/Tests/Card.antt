-- ===== src/Tests/Card.antt =====
-- Runs of a transfer card, and its theorems at such a card.
use localtrans.Base.{ℕ, ◌≡◌, ◌⊎◌, refl, true, false, none, some, List, [], ◌∷◌, pos}
use localtrans.Card.Ffi as Ffi
use localtrans.Card.Desktop.{
  CardState, CardEvent, TransferCard, new, as_str, state_from_str, record_fail, transition, settle,
  apply,
}
use localtrans.Card.Equivalence.{Extra, event_to, card_to, apply_agrees}
use localtrans.Card.Machine.{is_edge, apply_all, apply_follows_edge}

card_program : Unit {0}
unfolding as_str state_from_str record_fail transition settle apply apply_all
card_program = tt

abbrev waiting : TransferCard
waiting = new (record {
  job_id = 1;
  name = "t.bin";
  total = 100;
  done = 0;
  state = "pending";
  speed_bps = 0;
  peer = "aa";
  direction = "pull";
  local_role = "destination";
  health = none;
  started_at_ms = none;
  finished_at_ms = none;
  source_path = none;
  fail_reason = none;
  remote_done = 0;
  instant = false;
  queue_pos = none;
  batch_id = none;
  children = [];
  parts_id = none;
})

abbrev run : List (CardEvent × ℕ)
run =
    (CardEvent.started, 5) ∷ (CardEvent.progress 40 100 10 0 none, 6) ∷ (CardEvent.finishes, 9) ∷ []

abbrev finished : TransferCard
unfolding card_program
finished = apply_all waiting run

finished_lem : finished.dto.state ≡ "done"
unfolding card_program
finished_lem = refl

finished_whole : finished.dto.done ≡ 100
unfolding card_program
finished_whole = refl

-- A queue that runs out of time ends the card without a time of its end.
queue_timeout_run : (apply waiting CardEvent.queue_timeout 9).0.dto.finished_at_ms ≡ none
unfolding card_program
queue_timeout_run = refl

abbrev extra : Extra
extra = record { progress_percent = 0; eta_secs = pos 0; local_path = none }

apply_agrees_example :
    Ffi.apply (card_to extra waiting) (event_to CardEvent.started) 5
    ≡ (card_to extra (apply waiting CardEvent.started 5).0, (apply waiting CardEvent.started 5).1)
apply_agrees_example = apply_agrees extra waiting CardEvent.started 5

apply_follows_edge_example :
    let (c', accepted) = apply waiting CardEvent.started 5 in
    ((c' ≡ waiting) × (accepted ≡ false))
    ⊎ ((accepted ≡ true)
        × ((c'.dto.state ≡ waiting.dto.state)
            ⊎ ((s : CardState) × (t : CardState) × (is_edge s t ≡ true)
                × (waiting.dto.state ≡ as_str s)
                × (c'.dto.state ≡ as_str t)
                × (c'.last_transition ≡ some (as_str s, as_str t)))))
apply_follows_edge_example = apply_follows_edge waiting CardEvent.started 5
