-- ===== src/Domain.antt =====
-- packages/domain: the decisions of the two contexts, and packages/domain/src/index.ts.
pub mod Counter
pub mod User
use es_ts_example.Domain.Counter.{CounterEvent}
use es_ts_example.Domain.User.{UserEvent}

-- The union of both contexts' events.
pub data DomainEvent : Type 0 where
  counter_event : CounterEvent → DomainEvent
  user_event : UserEvent → DomainEvent
