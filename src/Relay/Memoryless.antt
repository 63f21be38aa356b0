-- ===== src/Relay/Memoryless.antt =====
-- `MemorylessDatabase` of crates/outlay-relay/src/lib.rs. The events, filters and ids of the relay's
-- `nostr_sdk` are parameters. Beside the database stands the specification of what it means to keep
-- nothing: a run of any operations reads as if no event had ever been saved.
use outlay.Base.{
  ℕ, Bool, false, not, Option, none, List, [], ◌∷◌, ◌≡◌, refl, map, if◌then◌else◌, keep, any, first,
  length,
}

pub data SaveEventStatus : Type 0 where
  success : SaveEventStatus
  rejected : SaveEventStatus

pub data DatabaseEventStatus : Type 0 where
  saved deleted not_existent : DatabaseEventStatus

pub record Features : Type 0 where
  pub persistent : Bool
  pub event_expiration : Bool
  pub full_text_search : Bool
  pub request_to_vanish : Bool

unfoldable pub features : Features
features = record {
  persistent = false;
  event_expiration = false;
  full_text_search = false;
  request_to_vanish = false;
}

-- The requests of the `NostrDatabase` trait, and their answers; all are `Ok`.
pub data Request (Event Filter EventId : Type 0) : Type 0 where
  save_event : Event → Request Event Filter EventId
  check_id event_by_id : EventId → Request Event Filter EventId
  count query delete : Filter → Request Event Filter EventId
  wipe : Request Event Filter EventId

pub data Answer (Event : Type 0) : Type 0 where
  status : SaveEventStatus → Answer Event
  existence : DatabaseEventStatus → Answer Event
  one : Option Event → Answer Event
  number : ℕ → Answer Event
  events : List Event → Answer Event
  done : Answer Event

module _ {Event Filter EventId : Type 0} where
  unfoldable pub answer : Request Event Filter EventId → Answer Event
  answer (save_event e) = status success
  answer (check_id id) = existence not_existent
  answer (event_by_id id) = one none
  answer (count f) = number 0
  answer (query f) = events []
  answer (delete f) = done
  answer wipe = done

-- The reference: a database that holds `store`, and that a policy tells what to hold after a save.
module _ {Event Filter EventId : Type 0} (matches : Filter → Event → Bool)
    (has_id : EventId → Event → Bool) (retain : Event → List Event → List Event) where
  abbrev pub read : List Event → Request Event Filter EventId → Answer Event
  read store (save_event e) = status success
  read store (check_id id) = existence (if any (has_id id) store then saved else not_existent)
  read store (event_by_id id) = one (first (keep (has_id id) store))
  read store (count f) = number (length (keep (matches f) store))
  read store (query f) = events (keep (matches f) store)
  read store (delete f) = done
  read store wipe = done

  abbrev pub next : List Event → Request Event Filter EventId → List Event
  next store (save_event e) = retain e store
  next store (delete f) = keep (λ e. not (matches f e)) store
  next store wipe = []
  next store r = store

  abbrev pub serve : List Event → List (Request Event Filter EventId) → List (Answer Event)
  serve store [] = []
  serve store (r ∷ rs) = read store r ∷ serve (next store r) rs

module _ {Event Filter EventId : Type 0} (matches : Filter → Event → Bool)
    (has_id : EventId → Event → Bool) where
  -- The memoryless database answers any run of requests as a database does that starts empty and
  -- whose policy is to retain nothing of what it acknowledges.
  pub map-answer :
      (rs : List (Request Event Filter EventId))
      → map answer rs ≡ serve matches has_id (λ e store. store) [] rs
  unfolding answer
  map-answer [] = refl
  map-answer (save_event e ∷ rs) = rw (map-answer rs)
  map-answer (r ∷ rs) = rw (map-answer rs)
