-- ===== src/RingQueue/State.antt =====
-- The state of ring_queue.hpp: segment, elements and the queue object of a process.
use mergeshare.Prelude.{ℕ, Bool, not, ◌&&◌, List, leb, sub64, ℤ, is_negative}
use mergeshare.Pool.{index}
use mergeshare.Config.{QueueConfig}
use mergeshare.Control.{
  QueueMetadata, Slot, slot, Registry, ControlBlock, get_slowest_offset, Header,
}

-- An element with its header
pub record Element {ℓ} (A : Type ℓ) : Type ℓ where
  pub header : Header
  pub payload : A

pub record Ring {ℓ} (A : Type ℓ) : Type ℓ where
  pub metadata : QueueMetadata
  pub control : ControlBlock
  pub elements : List (Element A)

-- `config_`, `consumer_slot_id_` and `is_consumer_`
pub record Client : Type 0 where
  pub config : QueueConfig
  pub consumer_slot_id : ℤ
  pub is_consumer : Bool

-- `write_offset - slowest >= capacity`, on 64 bits
abbrev pub no_room : ℕ → ControlBlock → Bool
no_room capacity c = leb capacity (sub64 c.write_offset (get_slowest_offset c.consumers))

-- `is_consumer_ && consumer_slot_id_ >= 0`
abbrev pub registered : Client → Bool
registered c = c.is_consumer && not (is_negative c.consumer_slot_id)

-- The consumer's slot
abbrev pub own_slot : Client → ControlBlock → Slot
own_slot c b = slot b.consumers (index c.consumer_slot_id)

module _ {ℓ} {A : Type ℓ} where
  abbrev pub with_consumers : Ring A → Registry → Ring A
  with_consumers r consumers = record r { control = record r.control { consumers = consumers } }
