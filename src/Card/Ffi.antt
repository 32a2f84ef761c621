-- ===== src/Card/Ffi.antt =====
-- crates/localtrans-ffi/src/transfer_state.rs: one transfer card of the mobile program, and the dto of
-- dto.rs that it holds. Times are milliseconds.
use localtrans.Base.{
  ℕ, Bool, true, false, Option, none, some, List, String, if◌then◌else◌, str_eq, ◌||◌, ℤ,
}

pub data CardState : Type 0 where
  pending active paused cancelling done failed interrupted : CardState

unfoldable pub as_str : CardState → String
as_str CardState.pending = "pending"
as_str CardState.active = "active"
as_str CardState.paused = "paused"
as_str CardState.cancelling = "cancelling"
as_str CardState.done = "done"
as_str CardState.failed = "failed"
as_str CardState.interrupted = "interrupted"

unfoldable pub state_from_str : String → Option CardState
state_from_str s =
    if str_eq s "pending"
    then some CardState.pending
    else if str_eq s "active"
    then some CardState.active
    else if str_eq s "paused"
    then some CardState.paused
    else if str_eq s "cancelling"
    then some CardState.cancelling
    else if str_eq s "done"
    then some CardState.done
    else if str_eq s "failed"
    then some CardState.failed
    else if str_eq s "interrupted"
    then some CardState.interrupted
    else none

-- The loss ratio is kept as the bits of its `f64`.
pub record HealthDto : Type 0 where
  pub loss_ratio : ℕ
  pub rtt_ms : ℕ
  pub cwnd : ℕ
  pub streams : ℕ

pub record ChildDto : Type 0 where
  pub job_id : String
  pub name : String
  pub total : ℕ
  pub done : ℕ
  pub state : String

pub record TransferDto : Type 0 where
  pub job_id : ℕ
  pub name : String
  pub total : ℕ
  pub done : ℕ
  pub state : String
  pub speed_bps : ℕ
  pub peer : String
  pub direction : String
  pub local_role : String
  pub progress_percent : ℕ
  pub eta_secs : ℤ
  pub fail_reason : String
  pub local_path : Option String
  pub remote_done : ℕ
  pub instant : Bool
  pub queue_pos : Option ℕ
  pub batch_id : Option String
  pub children : List ChildDto
  pub parts_id : Option String
  pub started_at_ms : Option ℕ
  pub finished_at_ms : Option ℕ
  pub source_path : Option String
  pub health : Option HealthDto

pub data CardEvent : Type 0 where
  -- done, total, speed_bps, remote_done and health.
  progress : ℕ → ℕ → ℕ → ℕ → Option HealthDto → CardEvent
  fails : Option String → CardEvent
  started pauses resumes finishes interrupts cancel_requested cancel_confirmed queue_timeout :
      CardEvent

pub record TransferCard : Type 0 where
  pub dto : TransferDto
  pub engine_id : Option ℕ
  pub removed : Bool
  pub cancelling_since_ms : Option ℕ
  pub last_transition : Option (String × String)

abbrev pub new : TransferDto → TransferCard
new dto = record {
  dto = dto;
  engine_id = none;
  removed = false;
  cancelling_since_ms = none;
  last_transition = none;
}

unfoldable pub is_terminal : String → Bool
is_terminal s = str_eq s "done" || (str_eq s "failed" || str_eq s "interrupted")

-- What an event makes of a card: it is refused, it is taken in without a transition, or it leads to
-- a state.
pub data Verdict : Type 0 where
  rejected : Verdict
  kept : TransferCard → Verdict
  moved : TransferCard → CardState → Verdict

-- An absent reason leaves the old one.
abbrev pub reason_after : Option String → String → String
reason_after none old = old
reason_after (some r) old = r

unfoldable pub record_fail : TransferCard → Option String → ℕ → TransferCard
record_fail c reason now = record c {
  dto = record c.dto {
    fail_reason = reason_after reason c.dto.fail_reason;
    speed_bps = 0;
    finished_at_ms = some now;
  };
}

abbrev pub request_cancel : TransferCard → ℕ → TransferCard
request_cancel c now = record c { cancelling_since_ms = some now }

abbrev pub not_cancelling : TransferCard → TransferCard
not_cancelling c = record c { cancelling_since_ms = none }

abbrev pub stop : TransferCard → ℕ → TransferCard
stop c now = record c { dto = record c.dto { speed_bps = 0; finished_at_ms = some now } }

abbrev pub finish : TransferCard → ℕ → TransferCard
finish c now = record c {
  dto = record c.dto { done = c.dto.total; speed_bps = 0; finished_at_ms = some now };
}

abbrev pub health_after : Option HealthDto → Option HealthDto → Option HealthDto
health_after none old = old
health_after (some h) old = some h

-- The transition table.
unfoldable pub transition : TransferCard → CardState → CardEvent → ℕ → Verdict
unfolding record_fail
transition c CardState.pending CardEvent.started now =
    moved (record c { dto = record c.dto { started_at_ms = some now } }) CardState.active
transition c CardState.pending CardEvent.queue_timeout now =
    moved (record c { dto = record c.dto { fail_reason = "排队超时" } }) CardState.failed
transition c CardState.pending (CardEvent.fails reason) now =
    moved (record_fail c reason now) CardState.failed
transition c CardState.pending CardEvent.cancel_requested now =
    moved (request_cancel c now) CardState.cancelling
transition c CardState.active (CardEvent.progress got total speed_bps remote_done health) now =
    kept (record c {
      dto = record c.dto {
        done = got;
        total = total;
        speed_bps = speed_bps;
        remote_done = remote_done;
        health = health_after health c.dto.health;
      };
    })
transition c CardState.active CardEvent.pauses now =
    moved (record c { dto = record c.dto { speed_bps = 0 } }) CardState.paused
transition c CardState.active (CardEvent.fails reason) now =
    moved (record_fail c reason now) CardState.failed
transition c CardState.active CardEvent.finishes now = moved (finish c now) CardState.done
transition c CardState.active CardEvent.interrupts now = moved (stop c now) CardState.interrupted
transition c CardState.active CardEvent.cancel_requested now =
    moved (request_cancel c now) CardState.cancelling
transition c CardState.paused CardEvent.resumes now = moved c CardState.active
transition c CardState.paused (CardEvent.fails reason) now =
    moved (record_fail c reason now) CardState.failed
transition c CardState.paused CardEvent.interrupts now = moved (stop c now) CardState.interrupted
transition c CardState.paused CardEvent.finishes now = moved (finish c now) CardState.done
transition c CardState.paused CardEvent.cancel_requested now =
    moved (request_cancel c now) CardState.cancelling
transition c CardState.cancelling CardEvent.cancel_confirmed now = kept c
transition c CardState.cancelling (CardEvent.fails reason) now =
    moved (record_fail (not_cancelling c) reason now) CardState.failed
transition c CardState.cancelling CardEvent.interrupts now =
    moved (stop (not_cancelling c) now) CardState.interrupted
transition c CardState.cancelling CardEvent.finishes now =
    moved (finish (not_cancelling c) now) CardState.done
transition c _ _ now = rejected

-- The new state goes into the dto and the pair of states into `last_transition`.
unfoldable pub settle : TransferCard → CardState → Verdict → TransferCard × Bool
unfolding as_str
settle c from rejected = (c, false)
settle c from (kept c') = (c', true)
settle c from (moved c' to) = (
  record c' {
    dto = record c'.dto { state = as_str to };
    last_transition = some (as_str from, as_str to);
  },
  true,
)

-- The only way in which a card changes; the answer says whether the event was accepted.
unfoldable pub apply : TransferCard → CardEvent → ℕ → TransferCard × Bool
unfolding state_from_str is_terminal as_str
apply c ev now = elim (state_from_str c.dto.state) [
  | none ↦ (c, false)
  | some from ↦
      if is_terminal (as_str from) then (c, false) else settle c from (transition c from ev now)
]

unfoldable pub take_last_transition : TransferCard → TransferCard × Option (String × String)
take_last_transition c = (record c { last_transition = none }, c.last_transition)
