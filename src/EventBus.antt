-- ===== src/EventBus.antt =====
-- services/event-bus.service.ts. The bus is generic in its events. A handler is a name; what the
-- emitter hands over is the list of pairs of a handler and the event that it receives.
pub mod Replay
pub mod Delivery
pub mod Live
mod Tests
use clawndom.Common.{
  ℕ, suc, ◌+◌, ◌-◌, ◌<◌, Bool, true, false, Option, none, some, List, [], ◌∷◌, ◌++◌, map, reverse,
  ltb, eqb, if◌then◌else◌, length, filter, drop, ℤ, pos, negsuc, max_zero, max,
}

pub record StampedEvent {ℓ} (E : Type ℓ) : Type ℓ where
  pub id : ℕ
  pub event : E

pub record EventBus {ℓ} (E : Type ℓ) : Type ℓ where
  pub buffer_size : ℕ
  pub buffer : List (StampedEvent E)
  pub next_id : ℕ
  pub handlers : List ℕ

pub record ReplaySlice {ℓ} (E : Type ℓ) : Type ℓ where
  pub events : List (StampedEvent E)
  pub latest_id : ℕ
  pub gap : Bool

-- What the environment variable says: `none` where it is unset or `Number.parseInt` gives no
-- number.
positive_or : Option ℤ → ℕ → ℕ
positive_or none d = d
positive_or (some (pos n)) d = if ltb 0 n then n else d
positive_or (some (negsuc n)) d = d

abbrev default_buffer_size : ℕ
default_buffer_size = 500

pub resolve_buffer_size : Option ℤ → Option ℤ → ℕ
unfolding positive_or
resolve_buffer_size (some explicit) env = max 1 (max_zero explicit)
resolve_buffer_size none env = positive_or env default_buffer_size

pub remove_first : ℕ → List ℕ → List ℕ
remove_first handler [] = []
remove_first handler (h ∷ hs) = if eqb h handler then hs else h ∷ remove_first handler hs

-- `emitter.off`: the newest registration of the handler goes, if there is one.
pub remove_newest : ℕ → List ℕ → List ℕ
unfolding remove_first
remove_newest handler handlers = reverse (remove_first handler (reverse handlers))

module _ {ℓ} {E : Type ℓ} where
  unfoldable pub create : Option ℤ → Option ℤ → EventBus E
  unfolding resolve_buffer_size
  create explicit env = record {
    buffer_size = resolve_buffer_size explicit env;
    buffer = [];
    next_id = 1;
    handlers = [];
  }

  -- `this.buffer.push(stamped); if (this.buffer.length > this.bufferSize) this.buffer.shift();`
  pub append_bounded : ℕ → List (StampedEvent E) → StampedEvent E → List (StampedEvent E)
  append_bounded size buffer stamped =
      let longer = buffer ++ stamped ∷ [] in
      if ltb size (length longer) then drop 1 longer else longer

  unfoldable pub publish : E → EventBus E → EventBus E × StampedEvent E × List (ℕ × StampedEvent E)
  unfolding append_bounded
  publish event bus =
      let stamped : StampedEvent E = record { id = bus.next_id; event = event } in
      (
        record bus {
          next_id = bus.next_id + 1;
          buffer = append_bounded bus.buffer_size bus.buffer stamped;
        },
        stamped,
        map (λ handler. (handler, stamped)) bus.handlers,
      )

  unfoldable pub subscribe : ℕ → EventBus E → EventBus E
  subscribe handler bus = record bus { handlers = bus.handlers ++ handler ∷ [] }

  -- The function that `subscribe` returns.
  unfoldable pub unsubscribe : ℕ → EventBus E → EventBus E
  unsubscribe handler bus = record bus { handlers = remove_newest handler bus.handlers }

  unfoldable pub get_latest_id : EventBus E → ℕ
  get_latest_id bus = bus.next_id - 1

  -- The oldest id of a buffer that is not empty, then the slice.
  pub slice : ℕ → ℕ → List (StampedEvent E) → ReplaySlice E
  slice latest since [] = record { events = []; latest_id = latest; gap = false }
  slice latest since (oldest ∷ rest) = record {
    events = filter (λ e. ltb since e.id) (oldest ∷ rest);
    latest_id = latest;
    gap = ltb since (oldest.id - 1);
  }

  unfoldable pub replay_since : ℤ → EventBus E → ReplaySlice E
  unfolding slice get_latest_id
  replay_since since bus = slice (get_latest_id bus) (max_zero since) bus.buffer

  unfoldable pub subscribe_since : ℤ → ℕ → EventBus E → ReplaySlice E × EventBus E
  unfolding replay_since subscribe
  subscribe_since since handler bus = (replay_since since bus, subscribe handler bus)
