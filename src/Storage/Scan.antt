-- ===== src/Storage/Scan.antt =====
-- pkg/storage/storage_messages.go, `GetMessagesWithLimit` and `GetMessagesFromTopics`: what their
-- loops over message ids return.
use Prim.Native.Nat.{min}
use razpravljalnica.Base.{
  nat_eq, ℕ, List, [], arith, refl, suc, zero, ◌++◌, ◌+◌, ◌-◌, ◌<◌, ◌^◌, ◌≡◌, ◌≤◌, dec_lt, length,
  length-append, true,
}
use razpravljalnica.Int64.{Int64, Int32, half, inc, inc-small}
use razpravljalnica.Dict.{Dict, contains}
use razpravljalnica.Storage.Types.{Message, Storage, done}
use razpravljalnica.Storage.Messages.{counter, inner}
use razpravljalnica.Storage.Valid.Defs.{IsValid}
use razpravljalnica.Storage.Reads.{
  message_at, scan_within, scan_from, rounds, get_messages_with_limit,
}

-- The messages with the `n` ids from `id` on, in the order of the ids: what a read should return.
abbrev pub ids_from : ℕ → ℕ → Dict Int64 Message → List Message
ids_from zero id ms = []
ids_from (suc n) id ms = message_at id ms ++ ids_from n (id + 1) ms

-- From an id that fits in 64 bits, the loop of a read with a limit gives the same result with any
-- two amounts of fuel that cover the ids up to its bound.
pub scan_within-fuel :
    (f g : ℕ) (id end next : Int64) (ms : Dict Int64 Message)
    → rounds id end ≤ f
    → rounds id end ≤ g
    → id < 2 ^ 64
    → scan_within f id end next ms ≡ scan_within g id end next ms
unfolding scan_within
scan_within-fuel zero zero id end next ms hf hg w = refl
scan_within-fuel zero (suc g) id end next ms hf hg w = ground arith
scan_within-fuel (suc f) zero id end next ms hf hg w = ground arith
scan_within-fuel (suc f) (suc g) id end next ms hf hg w =
    ground (arith, scan_within-fuel f g (inc id) end next ms)

-- From an id that fits in 64 bits, the loop of a read of several topics gives the same result
-- with any two amounts of fuel that cover the ids up to its bound.
pub scan_from-fuel :
    (f g : ℕ) (id next : Int64) (ms : Dict Int64 Message)
    → rounds id next ≤ f
    → rounds id next ≤ g
    → id < 2 ^ 64
    → scan_from f id next ms ≡ scan_from g id next ms
unfolding scan_from
scan_from-fuel zero zero id next ms hf hg w = refl
scan_from-fuel zero (suc g) id next ms hf hg w = ground arith
scan_from-fuel (suc f) zero id next ms hf hg w = ground arith
scan_from-fuel (suc f) (suc g) id next ms hf hg w =
    ground (arith, scan_from-fuel f g (inc id) next ms)

-- On ids that are not negative the loop reads the ids up to the nearer of its two bounds.
scan_within-ids_from :
    (f : ℕ) (id end next : Int64) (ms : Dict Int64 Message)
    → end < half
    → next < half
    → id < half
    → rounds id end ≤ f
    → scan_within f id end next ms ≡ ids_from (min end next - id) id ms
unfolding scan_within
scan_within-ids_from zero id end next ms he hn hi hf =
    let none_left : min end next - id ≡ 0 = omega arith in rw none_left
scan_within-ids_from (suc f) id end next ms he hn hi hf = elim (dec_lt id (min end next)) [
  | yes more ↦
      let left : min end next - id ≡ suc (min end next - (id + 1)) = omega arith in
      rw (left, inc-small id hi) (ground (arith, scan_within-ids_from f (id + 1) end next ms))
  | no over ↦ let none_left : min end next - id ≡ 0 = omega arith in rw none_left (ground arith)
]

pub scan_from-ids_from :
    (f : ℕ) (id next : Int64) (ms : Dict Int64 Message)
    → next < half
    → id < half
    → rounds id next ≤ f
    → scan_from f id next ms ≡ ids_from (next - id) id ms
unfolding scan_from
scan_from-ids_from zero id next ms hn hi hf =
    let none_left : next - id ≡ 0 = omega arith in rw none_left
scan_from-ids_from (suc f) id next ms hn hi hf = elim (dec_lt id next) [
  | yes more ↦
      let left : next - id ≡ suc (next - (id + 1)) = omega arith in
      rw (left, inc-small id hi) (ground (arith, scan_from-ids_from f (id + 1) next ms))
  | no over ↦ let none_left : next - id ≡ 0 = omega arith in rw none_left (ground arith)
]

pub get_messages_with_limit_lem :
    (t from : Int64) (limit : Int32) (s : Storage)
    → IsValid s
    → contains t s.topics ≡ true
    → 0 < limit
    → limit < 2 ^ 31
    → from + limit < half
    → get_messages_with_limit t from limit s
      ≡ done (
          ids_from
            (min (from + limit) (counter t s.next_message_id) - from)
            from
            (inner t s.messages))
unfolding get_messages_with_limit
get_messages_with_limit_lem t from limit s v topic pos small room =
    let (ready, (_, fits)) = v.topic_ready t topic in
    ground (
      arith,
      scan_within-ids_from (rounds from (from + limit)) from (from + limit)
          (counter t s.next_message_id) (inner t s.messages),
    )

length-ids_from : (n id : ℕ) (ms : Dict Int64 Message) → length (ids_from n id ms) ≤ n
length-ids_from zero id ms = omega arith
length-ids_from (suc n) id ms = ground (
  arith,
  length-append (message_at id ms) (ids_from n (id + 1) ms),
  length-ids_from n (id + 1) ms,
)
