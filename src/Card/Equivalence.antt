-- ===== src/Card/Equivalence.antt =====
-- src-tauri/src/transfer_state.rs and crates/localtrans-ffi/src/transfer_state.rs: the desktop's card
-- and the mobile's card side by side.
use localtrans.Base.{
  ℕ, Option, none, some, String, map, ◌≡◌, refl, ℤ, arith, Option-cases, inl, inr,
}
use localtrans.Card.Desktop as Desktop
use localtrans.Card.Ffi as Ffi

abbrev state_to : Desktop.CardState → Ffi.CardState
state_to Desktop.CardState.pending = Ffi.CardState.pending
state_to Desktop.CardState.active = Ffi.CardState.active
state_to Desktop.CardState.paused = Ffi.CardState.paused
state_to Desktop.CardState.cancelling = Ffi.CardState.cancelling
state_to Desktop.CardState.done = Ffi.CardState.done
state_to Desktop.CardState.failed = Ffi.CardState.failed
state_to Desktop.CardState.interrupted = Ffi.CardState.interrupted

abbrev health_to : Desktop.HealthDto → Ffi.HealthDto
health_to h = record {
  loss_ratio = h.loss_ratio;
  rtt_ms = h.rtt_ms;
  cwnd = h.cwnd;
  streams = h.streams;
}

abbrev child_to : Desktop.ChildDto → Ffi.ChildDto
child_to c = record {
  job_id = c.job_id;
  name = c.name;
  total = c.total;
  done = c.done;
  state = c.state;
}

abbrev opt {ℓ} : {A B : Type ℓ} → (A → B) → Option A → Option B
opt f none = none
opt f (some a) = some (f a)

abbrev pub event_to : Desktop.CardEvent → Ffi.CardEvent
event_to Desktop.CardEvent.started = Ffi.CardEvent.started
event_to (Desktop.CardEvent.progress got total speed remote health) =
    Ffi.CardEvent.progress got total speed remote (opt health_to health)
event_to Desktop.CardEvent.pauses = Ffi.CardEvent.pauses
event_to Desktop.CardEvent.resumes = Ffi.CardEvent.resumes
event_to (Desktop.CardEvent.fails reason) = Ffi.CardEvent.fails reason
event_to Desktop.CardEvent.finishes = Ffi.CardEvent.finishes
event_to Desktop.CardEvent.interrupts = Ffi.CardEvent.interrupts
event_to Desktop.CardEvent.cancel_requested = Ffi.CardEvent.cancel_requested
event_to Desktop.CardEvent.cancel_confirmed = Ffi.CardEvent.cancel_confirmed
event_to Desktop.CardEvent.queue_timeout = Ffi.CardEvent.queue_timeout

abbrev or_empty : Option String → String
or_empty none = ""
or_empty (some s) = s

-- What the mobile's dto has besides.
pub record Extra : Type 0 where
  pub progress_percent : ℕ
  pub eta_secs : ℤ
  pub local_path : Option String

abbrev dto_to : Extra → Desktop.TransferDto → Ffi.TransferDto
dto_to x d = record {
  job_id = d.job_id;
  name = d.name;
  total = d.total;
  done = d.done;
  state = d.state;
  speed_bps = d.speed_bps;
  peer = d.peer;
  direction = d.direction;
  local_role = d.local_role;
  progress_percent = x.progress_percent;
  eta_secs = x.eta_secs;
  fail_reason = or_empty d.fail_reason;
  local_path = x.local_path;
  remote_done = d.remote_done;
  instant = d.instant;
  queue_pos = d.queue_pos;
  batch_id = d.batch_id;
  children = map child_to d.children;
  parts_id = d.parts_id;
  started_at_ms = d.started_at_ms;
  finished_at_ms = d.finished_at_ms;
  source_path = d.source_path;
  health = opt health_to d.health;
}

-- The mobile's view of a desktop card; no failure is the empty text.
abbrev pub card_to : Extra → Desktop.TransferCard → Ffi.TransferCard
card_to x c = record {
  dto = dto_to x c.dto;
  engine_id = c.engine_id;
  removed = c.removed;
  cancelling_since_ms = c.cancelling_since_ms;
  last_transition = c.last_transition;
}

abbrev verdict_to : Extra → Desktop.Verdict → Ffi.Verdict
verdict_to x Desktop.Verdict.rejected = Ffi.Verdict.rejected
verdict_to x (Desktop.Verdict.kept c) = Ffi.Verdict.kept (card_to x c)
verdict_to x (Desktop.Verdict.moved c s) = Ffi.Verdict.moved (card_to x c) (state_to s)

module _ (x : Extra) where
  state_from_str-same :
      (s : String) → Ffi.state_from_str s ≡ opt state_to (Desktop.state_from_str s)
  unfolding Desktop.state_from_str Ffi.state_from_str
  state_from_str-same s = ground arith

  transition-same :
      (c : Desktop.TransferCard) (s : Desktop.CardState) (e : Desktop.CardEvent) (now : ℕ)
      → Ffi.transition (card_to x c) (state_to s) (event_to e) now
        ≡ verdict_to x (Desktop.transition c s e now)
  unfolding Desktop.transition Ffi.transition Desktop.record_fail Ffi.record_fail
  transition-same c s e now = ground arith

  settle-same :
      (c : Desktop.TransferCard) (s : Desktop.CardState) (v : Desktop.Verdict)
      → Ffi.settle (card_to x c) (state_to s) (verdict_to x v)
        ≡ (card_to x (Desktop.settle c s v).0, (Desktop.settle c s v).1)
  unfolding Desktop.settle Ffi.settle Desktop.as_str Ffi.as_str
  settle-same c s v = ground arith

  terminal-same :
      (s : Desktop.CardState) → Ffi.is_terminal (Ffi.as_str (state_to s)) ≡ Desktop.is_terminal s
  unfolding Ffi.is_terminal Ffi.as_str
  terminal-same Desktop.CardState.pending = refl
  terminal-same Desktop.CardState.active = refl
  terminal-same Desktop.CardState.paused = refl
  terminal-same Desktop.CardState.cancelling = refl
  terminal-same Desktop.CardState.done = refl
  terminal-same Desktop.CardState.failed = refl
  terminal-same Desktop.CardState.interrupted = refl

  -- On every event the card of the mobile program accepts what the desktop's card accepts and
  -- becomes the mobile view of what the desktop's card becomes, field by field.
  pub apply_agrees :
      (c : Desktop.TransferCard) (ev : Desktop.CardEvent) (now : ℕ)
      → Ffi.apply (card_to x c) (event_to ev) now
        ≡ (card_to x (Desktop.apply c ev now).0, (Desktop.apply c ev now).1)
  unfolding Desktop.apply Ffi.apply
  apply_agrees c ev now = elim (Option-cases (Desktop.state_from_str c.dto.state)) [
    | inl e ↦ ground (arith, state_from_str-same c.dto.state)
    | inr (s, e) ↦ ground (
      arith,
      state_from_str-same c.dto.state,
      terminal-same s,
      transition-same c s ev now,
      settle-same c s (Desktop.transition c s ev now),
    )
  ]
