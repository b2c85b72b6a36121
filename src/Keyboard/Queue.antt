-- ===== src/Keyboard/Queue.antt =====
-- The event queue is a first-in first-out queue of at most 64 events
-- (drivers/keyboard/keyboard.cpp, lines 146 to 173 and 264 to 333).
use bare_metal_programming.Prelude.{
  ℕ, zero, suc, ◌+◌, ◌-◌, ◌%◌, ◌≤◌, ◌<◌, ◌≡◌, ◌≢◌, inl, inr, refl, ◌∙◌, ap, arith, bit_and,
  bit_and-ones, cast, wrap_sub, leb, ◌==◌, true, false, Bool-cases, Option, none, some, List, [],
  ◌∷◌, ◌++◌, get_or, set, length, length-set, get_or-set_self, get_or-set_ne,
}
use bare_metal_programming.Keyboard.Events.{KeyboardEvent}
use bare_metal_programming.Keyboard.Driver.{
  KeyboardEventQueue, KeyboardState, blank_event, initial_state, next_keyboard_event,
  commit_keyboard_event, event_of, handle_keyboard_interrupt, poll_keyboard_event,
  output_buffer_full, extended_prefix,
}

pub record IsQueue (q : KeyboardEventQueue) : Type 0 where
  pub size : length q.entries ≡ 64
  pub head_in : q.head < 64
  pub count_in : q.count ≤ 64
  pub closed : q.tail ≡ (q.head + q.count) % 64

-- The `n` events from an index on, round the end of the storage.
ring : List KeyboardEvent → ℕ → ℕ → List KeyboardEvent
ring entries index zero = []
ring entries index (suc n) = get_or entries index blank_event ∷ ring entries ((index + 1) % 64) n

-- The waiting events, the oldest first.
pub contents : KeyboardEventQueue → List KeyboardEvent
contents q = ring q.entries q.head q.count

next_lem : (index : ℕ) → index < 64 → next_keyboard_event index ≡ (index + 1) % 64
unfolding next_keyboard_event
next_lem index h = omega (arith, bit_and-ones 6 (index + 1))

-- An event stored behind `n` events.
ring-set :
    (n index at : ℕ) (entries : List KeyboardEvent) (e : KeyboardEvent)
    → length entries ≡ 64
    → index < 64
    → n < 64
    → at ≡ (index + n) % 64
    → ring (set entries at e) index (suc n) ≡ ring entries index n ++ (e ∷ [])
unfolding ring
ring-set zero index at entries e size h k p =
    let same : at ≡ index = omega arith in
    rw (same, get_or-set_self entries index e blank_event (omega arith)) refl
ring-set (suc n) index at entries e size h k p =
    let rest =
      ring-set n ((index + 1) % 64) at entries e size (omega arith) (omega arith) (omega arith) in
    rw (get_or-set_ne entries at index e blank_event (omega arith))
      (ap (λ es. get_or entries index blank_event ∷ es) rest)

ring-pop :
    (entries : List KeyboardEvent) (index n : ℕ)
    → 0 < n
    → ring entries index n
      ≡ get_or entries index blank_event ∷ ring entries ((index + 1) % 64) (n - 1)
unfolding ring
ring-pop entries index zero h = absurd (omega arith)
ring-pop entries index (suc n) h = let one : suc n - 1 ≡ n = omega arith in rw one refl

-- What the handler does, in each of its four cases.
pub data Handled (k : KeyboardState) (status scancode : ℕ) : KeyboardState → Type 0 where
  no_data : bit_and status output_buffer_full ≡ 0 → Handled k status scancode k
  prefix_seen :
      bit_and status output_buffer_full ≢ 0
      → scancode ≡ extended_prefix
      → Handled k status scancode (record k { extended_pending = true })
  queue_full :
      bit_and status output_buffer_full ≢ 0
      → scancode ≢ extended_prefix
      → k.queue.count ≡ 64
      → Handled k status scancode k
  queued :
      (k' : KeyboardState)
      → bit_and status output_buffer_full ≢ 0
      → scancode ≢ extended_prefix
      → k.queue.count < 64
      → contents k'.queue ≡ contents k.queue ++ (event_of k scancode ∷ [])
      → k'.modifier_state ≡ (event_of k scancode).modifiers
      → k'.extended_pending ≡ false
      → IsQueue k'.queue
      → Handled k status scancode k'

-- What a reader gets.
pub data Polled (k : KeyboardState) : KeyboardState × Option KeyboardEvent → Type 0 where
  empty : contents k.queue ≡ [] → Polled k (k, none)
  oldest :
      (k' : KeyboardState) (e : KeyboardEvent)
      → contents k.queue ≡ e ∷ contents k'.queue
      → k'.modifier_state ≡ k.modifier_state
      → k'.extended_pending ≡ k.extended_pending
      → IsQueue k'.queue
      → Polled k (k', some e)

module _ (k : KeyboardState) (v : IsQueue k.queue) where
  tail_in : k.queue.tail < 64
  tail_in = omega (arith, v.closed)

  module _ (room : k.queue.count < 64) (e : KeyboardEvent) where
    abbrev pushed : KeyboardEventQueue
    pushed =
        commit_keyboard_event (record (k.queue) { entries = set k.queue.entries k.queue.tail e })

    pushed-IsQueue : IsQueue pushed
    unfolding commit_keyboard_event
    pushed-IsQueue = record {
      size = length-set k.queue.entries k.queue.tail e ∙ v.size;
      head_in = v.head_in;
      count_in = omega arith;
      closed = next_lem k.queue.tail tail_in ∙ omega (arith, v.closed);
    }

    contents-pushed : contents pushed ≡ contents k.queue ++ (e ∷ [])
    unfolding commit_keyboard_event contents
    contents-pushed =
        let one : cast 8 (k.queue.count + 1) ≡ suc k.queue.count = omega arith in
        rw one (
          ring-set k.queue.count k.queue.head k.queue.tail k.queue.entries e v.size v.head_in room
            v.closed)

  -- In a state whose queue is well formed, the interrupt handler does nothing if the controller has
  -- no byte, records a prefix, drops any other byte with the modifiers and the prefix as they were
  -- if 64 events wait, and otherwise puts the event behind the waiting ones, takes over its
  -- modifiers, clears the prefix and keeps the queue well formed.
  pub handle_keyboard_interrupt-Handled :
      (status scancode : ℕ)
      → Handled k status scancode (handle_keyboard_interrupt k status scancode)
  unfolding handle_keyboard_interrupt
  handle_keyboard_interrupt-Handled status scancode = elim (Bool-cases (bit_and status 1 == 0)) [
    | inl idle ↦ rw idle (no_data (ground arith))
    | inr data_ready ↦ elim (Bool-cases (scancode == 0xE0)) [
      | inl first ↦ rw (data_ready, first) (prefix_seen (ground arith) (ground arith))
      | inr other ↦ elim (Bool-cases (leb 64 k.queue.count)) [
        | inl full ↦
            rw (data_ready, other, full)
              (queue_full (ground arith) (ground arith) (ground (arith, v.count_in)))
        | inr room ↦
            rw (data_ready, other, room)
              (queued _ (ground arith) (ground arith) (ground arith)
                (contents-pushed (ground arith) (event_of k scancode)) refl refl
                (pushed-IsQueue (ground arith) (event_of k scancode)))
      ]
    ]
  ]

  -- In a state whose queue is well formed, `poll_keyboard_event` returns no event and changes nothing
  -- if none waits, and otherwise returns the oldest one and leaves the others in their order, with
  -- the modifiers and the prefix as they were.
  pub poll_keyboard_event-Polled : Polled k (poll_keyboard_event k)
  unfolding poll_keyboard_event contents ring
  poll_keyboard_event-Polled = elim (Bool-cases (k.queue.count == 0)) [
    | inl idle ↦
        let zero_count : k.queue.count ≡ 0 = ground arith in rw idle (empty (nothing zero_count))
    | inr waiting ↦ rw waiting (oldest _ _ (first (ground arith)) refl refl (rest (ground arith)))
  ]
    where
      nothing : k.queue.count ≡ 0 → contents k.queue ≡ []
      nothing e = ap (ring k.queue.entries k.queue.head) e

      less : 0 < k.queue.count → wrap_sub 8 k.queue.count 1 ≡ k.queue.count - 1
      less h = omega (arith, v.count_in)

      first :
          0 < k.queue.count
          → contents k.queue
            ≡ get_or k.queue.entries k.queue.head blank_event
              ∷ ring k.queue.entries (next_keyboard_event k.queue.head) (wrap_sub 8 k.queue.count 1)
      first h =
          rw (next_lem k.queue.head v.head_in, less h)
            (ring-pop k.queue.entries k.queue.head k.queue.count h)

      rest :
          0 < k.queue.count
          → IsQueue (record (k.queue) {
            head = next_keyboard_event k.queue.head;
            count = wrap_sub 8 k.queue.count 1;
          })
      rest h = record {
        size = v.size;
        head_in = omega (arith, next_lem k.queue.head v.head_in);
        count_in = omega (arith, v.count_in, less h);
        closed =
            omega (arith, v.closed, v.head_in, v.count_in, less h, next_lem k.queue.head v.head_in);
      }

-- The state that the driver starts with has a well-formed queue with no event.
pub initial_state-IsQueue : IsQueue initial_state.queue × (contents initial_state.queue ≡ [])
unfolding initial_state contents ring
initial_state-IsQueue =
    (record { size = refl; head_in = omega arith; count_in = omega arith; closed = refl }, refl)
