-- ===== src/EventBuffer/Invariant.antt =====
-- pkg/server/event_buffer.go: the log holds its events under their sequence numbers, and what is
-- confirmed is a prefix of it.
use razpravljalnica.Base.{
  nat_eq, ℕ, arith, get_elem?, length, refl, some, ◌+◌, ◌<◌, ◌^◌, ◌≡◌, ◌≤◌, [], get_elem?-of_lt,
  get_elem?-snoc, length-append, ◌∷◌, ◌⊎◌,
}
use razpravljalnica.Int64.{Int64, half, inc}
use razpravljalnica.Event.{Event}
use razpravljalnica.EventBuffer.{
  EventBuffer, new_event_buffer, append, add_event, acknowledge_event, get_event,
}

-- How many events are confirmed.
abbrev pub confirmed : EventBuffer → ℕ
confirmed eb = inc eb.last_confirmed

pub record IsLog (eb : EventBuffer) : Type 0 where
  pub counted : eb.next_event_seq ≡ length eb.events
  pub fits : length eb.events < half
  pub prefix : confirmed eb ≤ length eb.events
  pub word : eb.last_confirmed < 2 ^ 64
  pub numbered :
      (i : ℕ) (event : Event) → get_elem? eb.events i ≡ some event → event.sequence_number ≡ i

pub new_event_buffer-IsLog : IsLog new_event_buffer
unfolding new_event_buffer
new_event_buffer-IsLog = record {
  counted = refl;
  fits = omega arith;
  prefix = omega arith;
  word = omega arith;
  numbered = λ i event h. cc;
}

pub append-IsLog :
    (event : Event) (eb : EventBuffer)
    → IsLog eb
    → event.sequence_number ≡ eb.next_event_seq
    → length eb.events + 1 < half
    → IsLog (append event eb)
append-IsLog event eb v own room = record {
  counted = omega (arith, length-append eb.events (event ∷ []), v.counted, v.fits);
  fits = omega (arith, length-append eb.events (event ∷ []));
  prefix = omega (arith, length-append eb.events (event ∷ []), v.prefix);
  word = v.word;
  numbered =
      λ i x h. ground (arith, get_elem?-snoc eb.events event i x h, v.numbered i x, v.counted);
}

pub confirm-IsLog :
    (n : Int64) (eb : EventBuffer)
    → IsLog eb
    → n ≡ confirmed eb
    → n < length eb.events
    → IsLog (record eb { last_confirmed = n })
confirm-IsLog n eb v here inside = record {
  counted = v.counted;
  fits = v.fits;
  prefix = omega (arith, v.fits);
  word = omega (arith, v.fits);
  numbered = v.numbered;
}

-- An event that is added is dropped, because the log has its number, or stands at the end.
pub add_event_cases :
    (event : Event) (eb eb' : EventBuffer)
    → add_event event eb ≡ some eb'
    → (eb ≡ eb') ⊎ ((event.sequence_number ≡ eb.next_event_seq) × (append event eb ≡ eb'))
unfolding add_event
add_event_cases event eb eb' h = ground arith

-- An event that is added without a panic to a log with room leaves a log that is numbered without
-- gaps.
pub add_event-IsLog :
    (event : Event) (eb eb' : EventBuffer)
    → IsLog eb
    → length eb.events + 1 < half
    → add_event event eb ≡ some eb'
    → IsLog eb'
unfolding add_event
add_event-IsLog event eb eb' v room h = ground (arith, append-IsLog event eb v)

-- In a log, an acknowledgment of the first event that is not confirmed confirms it, and returns
-- the event that a read of its number gives.
pub acknowledge_event_lem :
    (n : Int64) (eb : EventBuffer)
    → IsLog eb
    → n ≡ confirmed eb
    → n < length eb.events
    → (event : Event) × (get_event n eb ≡ some event)
      × (acknowledge_event n eb ≡ some (record eb { last_confirmed = n }, some event))
unfolding acknowledge_event get_event
acknowledge_event_lem n eb v here h =
    let (event, found) = get_elem?-of_lt eb.events n h in
    (event, ground (arith, v.fits), ground (arith, v.fits, v.word))
